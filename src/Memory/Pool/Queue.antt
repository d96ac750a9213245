-- ===== src/Memory/Pool/Queue.antt =====
-- The memory pool is, for each length, a queue of codes.
use vshortlink.Prelude.{
  ℕ, ◌+◌, Option, none, some, List, [], ◌∷◌, ◌++◌, Text, ltb, ◌==◌, ==_iff, if◌then◌else◌, length,
  ok, ◌≡◌, refl, arith, ap, ◌∙◌, Bool-cases, inl, inr,
}
use vshortlink.Prelude.Keyed.{lookup, insert, lookup-insert, lookup-delete, nat_key}
use vshortlink.Link.{Time}
use vshortlink.Memory.Pool.{MemoryShortCodePool, pull, add, lock, unlock, erase_code, remove, clear}

queue_of : Option (List Text) → List Text
queue_of none = []
queue_of (some codes) = codes

-- The codes of one length, in the order in which `pull` hands them out.
unfoldable pub queue : MemoryShortCodePool → ℕ → List Text
unfolding queue_of
queue p length' = queue_of (lookup length' p.pools)

abbrev pub head_or_empty : List Text → Text
head_or_empty [] = []
head_or_empty (c ∷ cs) = c

abbrev pub rest_of : List Text → List Text
rest_of [] = []
rest_of (c ∷ cs) = cs

module _ (p : MemoryShortCodePool) (n m : ℕ) where
  -- `pull` takes the oldest code, or gives "" on an empty pool, says whether more than ten are
  -- left, and changes no other length.
  pub pull-queue :
      ((pull n p).0 ≡ ok (head_or_empty (queue p n), ltb 10 (length (rest_of (queue p n)))))
      × (queue (pull n p).1 m ≡ (if n == m then rest_of (queue p n) else queue p m))
  unfolding pull queue queue_of
  pull-queue = ground (arith, ==_iff n m, lookup-insert n m (rest_of (queue p n)) p.pools)

  pub queue-add :
      (now : Time) (c : Text)
      → queue (add now n c p).1 m ≡ (if n == m then queue p n ++ c ∷ [] else queue p m)
  unfolding add queue queue_of
  queue-add now c = ground (arith, ==_iff n m, lookup-insert n m (queue p n ++ c ∷ []) p.pools)

  pub queue-remove :
      (c : Text)
      → queue (remove n c p).1 m ≡ (if n == m then erase_code c (queue p n) else queue p m)
  unfolding remove queue queue_of erase_code
  queue-remove c = ground (arith, ==_iff n m, lookup-insert n m (erase_code c (queue p n)) p.pools)

  pub queue-clear : queue (clear n p).1 m ≡ (if n == m then [] else queue p m)
  unfolding clear queue queue_of
  queue-clear = ground (arith, ==_iff n m, lookup-insert n m [] p.pools)

  pub queue-lock : (now : Time) (d : ℕ) → queue (lock now n d p).1 m ≡ queue p m
  unfolding lock queue
  queue-lock now d = ground arith

  pub queue-unlock : queue (unlock n p) m ≡ queue p m
  unfolding unlock queue
  queue-unlock = refl

-- A new lease.
inserted : (n e : ℕ) (m : List (ℕ × Time)) → lookup n (insert n e m) ≡ some e
inserted n e m = lookup-insert n n e m ∙ ground (arith, ==_iff n n)

lock_leased :
    (q : MemoryShortCodePool) (n d : ℕ) (later e : Time)
    → lookup n q.lock_status ≡ some e
    → ((lock later n d q).0 ≡ ok tt)
      × (lookup n (lock later n d q).1.lock_status ≡ some (if ltb later e then e else later + d))
unfolding lock
lock_leased q n d later e held = elim (Bool-cases (ltb later e)) [
  | inl running ↦ rw (lock, held, running) (refl, held)
  | inr ended ↦ rw (lock, held, ended) (refl, inserted n (later + d) q.lock_status)
]

-- On the memory pool, with no lease of a length: `Lock` succeeds and gives it a lease. A second `Lock`
-- succeeds too, at any time: until the lease ends it leaves it as it is, so both callers go on, and
-- from then on it gives a new one. `Unlock` by either caller ends the lease.
pub lock_excludes_nobody :
    (p : MemoryShortCodePool) (n d d' : ℕ) (now later : Time)
    → lookup n p.lock_status ≡ none
    → let p' = (lock now n d p).1 in
      let p'' = (lock later n d' p').1 in
      ((lock now n d p).0 ≡ ok tt)
      × (lookup n p'.lock_status ≡ some (now + d))
      × ((lock later n d' p').0 ≡ ok tt)
      × (lookup n p''.lock_status ≡ some (if ltb later (now + d) then now + d else later + d'))
      × (lookup n (unlock n p'').lock_status ≡ none)
unfolding lock unlock
lock_excludes_nobody p n d d' now later free =
    let p' : MemoryShortCodePool = (lock now n d p).1 in
    let first : lock now n d p
        ≡ (ok tt, record p { lock_status = insert n (now + d) p.lock_status }) =
      rw (lock, free) refl in
    let leased : lookup n p'.lock_status ≡ some (now + d) =
      ap (λ x. lookup n x.1.lock_status) first ∙ inserted n (now + d) p.lock_status in
    let (again, kept) = lock_leased p' n d' later (now + d) leased in
    (
      ap (λ x. x.0) first,
      leased,
      again,
      kept,
      lookup-delete n n (lock later n d' p').1.lock_status ∙ ground (arith, ==_iff n n),
    )
