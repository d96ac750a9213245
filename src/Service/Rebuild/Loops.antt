-- ===== src/Service/Rebuild/Loops.antt =====
-- The loops of `RebuildCodePool` over the memory backends, as changes of the pool alone.
use vshortlink.Prelude.{
  ℕ, zero, suc, ◌+◌, ◌≡◌, refl, ap, sym, ◌∙◌, some, List, [], ◌∷◌, ◌++◌, map, Text, ◌==◌, ==_iff,
  if◌then◌else◌, length, length-append, append-nil, append_assoc, Result, ok, err, pool_exhausted,
  arith, Bool-cases, ◌⊎◌, inl, inr, ◌>>=◌,
}
use vshortlink.Prelude.Int.{ℤ, pos, ltb_ℤ}
use vshortlink.Prelude.Keyed.{lookup, nat_key}
use vshortlink.Base62.{to_base62}
use vshortlink.Gen.{Generator, fill_batch, generate_batch_numbers}
use vshortlink.Link.{Time, ShortLink}
use vshortlink.Interfaces.{ShortLinkRepository}
use vshortlink.Memory.Pool
use vshortlink.Memory.Pool.{MemoryShortCodePool, memory_pool, erase_code}
use vshortlink.Memory.Pool.Queue.{queue, queue-remove, queue-add}
use vshortlink.Service.State.{State}
use vshortlink.Service.Generate.{numbers_at}
use vshortlink.Service.Rebuild.{
  add_numbers, regenerate_batch_at_index, regenerate_all, tolerant, tolerate, one_if_ok,
  remove_codes,
}

-- The pool after the codes of some links are removed, and after some numbers are added as codes.
unfoldable pub removed : ℕ → List ShortLink → MemoryShortCodePool → MemoryShortCodePool
removed n [] p = p
removed n (l ∷ ls) p = removed n ls (Pool.remove n l.code p).1

unfoldable pub added : Time → ℕ → List ℤ → MemoryShortCodePool → MemoryShortCodePool
added now n [] p = p
added now n (z ∷ zs) p = added now n zs (Pool.add now n (to_base62 z n) p).1

unfoldable pub erase_all : List Text → List Text → List Text
erase_all [] queue = queue
erase_all (c ∷ cs) queue = erase_all cs (erase_code c queue)

pub removed-append :
    (n : ℕ) (ls ks : List ShortLink) (p : MemoryShortCodePool)
    → removed n (ls ++ ks) p ≡ removed n ks (removed n ls p)
unfolding removed
removed-append n [] ks p = refl
removed-append n (l ∷ ls) ks p = removed-append n ls ks (Pool.remove n l.code p).1

pub added-append :
    (now : Time) (n : ℕ) (zs ws : List ℤ) (p : MemoryShortCodePool)
    → added now n (zs ++ ws) p ≡ added now n ws (added now n zs p)
unfolding added
added-append now n [] ws p = refl
added-append now n (z ∷ zs) ws p = added-append now n zs ws (Pool.add now n (to_base62 z n) p).1

pub queue-removed :
    (n m : ℕ) (ls : List ShortLink) (p : MemoryShortCodePool)
    → queue (removed n ls p) m
      ≡ (if n == m then erase_all (map (λ l. l.code) ls) (queue p n) else queue p m)
unfolding removed erase_all
queue-removed n m [] p = ground (arith, ==_iff n m)
queue-removed n m (l ∷ ls) p =
    queue-removed n m ls (Pool.remove n l.code p).1
    ∙ ground (arith, queue-remove p n n l.code, queue-remove p n m l.code)

pub queue-added :
    (now : Time) (n m : ℕ) (zs : List ℤ) (p : MemoryShortCodePool)
    → queue (added now n zs p) m
      ≡ (if n == m then queue p n ++ map (λ z. to_base62 z n) zs else queue p m)
unfolding added
queue-added now n m [] p = ground (arith, ==_iff n m, append-nil (queue p n))
queue-added now n m (z ∷ zs) p =
    queue-added now n m zs (Pool.add now n (to_base62 z n) p).1
    ∙ ground (
      arith,
      queue-add p n n now (to_base62 z n),
      queue-add p n m now (to_base62 z n),
      append_assoc (queue p n) (to_base62 z n ∷ []) (map (λ z. to_base62 z n) zs),
    )

remove_ok : (n : ℕ) (c : Text) (p : MemoryShortCodePool) → (Pool.remove n c p).0 ≡ ok tt
unfolding Pool.remove
remove_ok n c p = ground arith

-- The numbers of one start index; none if the generator refuses it.
abbrev ok_or_nil : Result (List ℤ) → List ℤ
ok_or_nil (ok zs) = zs
ok_or_nil (err e) = []

unfoldable pub batch_at : Generator → ℕ → List ℤ
batch_at g start = ok_or_nil (generate_batch_numbers g (pos start))

-- The numbers of `rounds` start indices from `start` on.
unfoldable pub batches : Generator → ℕ → ℕ → List ℤ
batches g zero start = []
batches g (suc rounds) start = batch_at g start ++ batches g rounds (start + 1)

add_ok : (now : Time) (n : ℕ) (c : Text) (p : MemoryShortCodePool) → (Pool.add now n c p).0 ≡ ok tt
unfolding Pool.add
add_ok now n c p = refl

abbrev pub PoolState : Type 0 → Type 0 → Type 0 → Type 0 → Type 0
PoolState R C T L = State R C MemoryShortCodePool T L

-- The generator refuses a start index, or gives a batch.
pub generate-cases :
    (g : Generator) (start : ℤ)
    → (generate_batch_numbers g start ≡ err pool_exhausted)
      ⊎ ((zs : List ℤ) × (generate_batch_numbers g start ≡ ok zs))
unfolding generate_batch_numbers
generate-cases g start = elim (Bool-cases (ltb_ℤ g.step start)) [
  | inl refused ↦ inl (rw refused)
  | inr taken ↦ inr (fill_batch g.batch_size start g.step, rw taken)
]

module _ {R C T L : Type 0} (repo : ShortLinkRepository R) where
  -- The loop that removes used codes removes each of them, and counts them all.
  pub remove_codes-removed :
      (n : ℕ) (ls : List ShortLink) (total : ℕ) (s : PoolState R C T L)
      → remove_codes repo memory_pool n ls total s
        ≡ (ok (total + length ls), record s { pool = removed n ls s.pool })
  unfolding remove_codes removed
  remove_codes-removed n [] total s = ap (λ k. (ok k, s)) (omega arith)
  remove_codes-removed n (l ∷ ls) total s =
      let s' : PoolState R C T L = record s { pool = (Pool.remove n l.code s.pool).1 } in
      ap (λ r. remove_codes repo memory_pool n ls (total + one_if_ok r) s')
        (remove_ok n l.code s.pool)
      ∙ remove_codes-removed n ls (total + 1) s'
      ∙ ap (λ k. (ok k, record s { pool = removed n ls s'.pool })) (omega arith)

  -- The loop that adds a batch adds every code of it.
  pub add_numbers-added :
      (now : Time) (n : ℕ) (zs : List ℤ) (count : ℕ) (s : PoolState R C T L)
      → add_numbers repo memory_pool now n zs count s
        ≡ (ok (count + length zs), record s { pool = added now n zs s.pool })
  unfolding add_numbers added
  add_numbers-added now n [] count s = ap (λ k. (ok k, s)) (omega arith)
  add_numbers-added now n (z ∷ zs) count s =
      let s' : PoolState R C T L = record s { pool = (Pool.add now n (to_base62 z n) s.pool).1 } in
      ap (λ r. add_numbers repo memory_pool now n zs (count + one_if_ok r) s')
        (add_ok now n (to_base62 z n) s.pool)
      ∙ add_numbers-added now n zs (count + 1) s'
      ∙ ap (λ k. (ok k, record s { pool = added now n zs s'.pool })) (omega arith)

  module _ (g : Generator) (now : Time) (n : ℕ) where
    regenerate-added :
        (start : ℕ) (s : PoolState R C T L)
        → lookup n s.generators ≡ some g
        → tolerant (regenerate_batch_at_index repo memory_pool now n (pos start)) s ≡ (
          ok (length (batch_at g start)),
          record s { pool = added now n (batch_at g start) s.pool },
        )
    unfolding regenerate_batch_at_index tolerate batch_at added
    regenerate-added start s h = elim (generate-cases g (pos start)) [
      | inl refused ↦ rw (h, numbers_at, refused) refl
      | inr (zs, given) ↦
          rw (h, numbers_at, given)
            (ap (λ (x : Result ℕ × PoolState R C T L). (tolerate x.0, x.1))
                (add_numbers-added now n zs 0 s)
              ∙ ap (λ k. (ok k, record s { pool = added now n zs s.pool })) (omega arith))
    ]

    -- The loop over the start indices adds the batches of all of them; a batch that the generator
    -- refuses is passed over.
    pub regenerate_all-added :
        (rounds start total : ℕ) (s : PoolState R C T L)
        → lookup n s.generators ≡ some g
        → regenerate_all repo memory_pool now n rounds start total s ≡ (
          ok (total + length (batches g rounds start)),
          record s { pool = added now n (batches g rounds start) s.pool },
        )
    unfolding regenerate_all batches
    regenerate_all-added zero start total s h = unfold added in ap (λ k. (ok k, s)) (omega arith)
    regenerate_all-added (suc rounds) start total s h =
        let zs = batch_at g start in
        let s' : PoolState R C T L = record s { pool = added now n zs s.pool } in
        ap
          (λ (x : Result ℕ × PoolState R C T L).
            (◌>>=◌ (λ (u : PoolState R C T L). x)
                (λ k. regenerate_all repo memory_pool now n rounds (start + 1) (total + k)))
              s)
          (regenerate-added start s h)
        ∙ regenerate_all-added rounds (start + 1) (total + length zs) s' h
        ∙ ap
            (λ p. (
              ok (total + length zs + length (batches g rounds (start + 1))),
              record s { pool = p },
            ))
            (sym (added-append now n zs (batches g rounds (start + 1)) s.pool))
        ∙ ap
            (λ k.
              (ok k, record s { pool = added now n (zs ++ batches g rounds (start + 1)) s.pool }))
            (omega (arith, length-append {0} zs (batches g rounds (start + 1))))
