-- ===== src/Service/Rebuild/Pages.antt =====
-- `RebuildCodePool` over the memory backends, from its arguments to the pool that it leaves.
use vshortlink.Prelude.{
  ℕ, zero, suc, ◌+◌, ◌*◌, ◌≤◌, ◌<◌, ◌≡◌, refl, ap, sym, ◌∙◌, false, ◌||◌, some, List, [], ◌∷◌, ◌++◌,
  map, ◌==◌, ==_iff, if◌then◌else◌, length, length-append, drop, at_most, ok, arith,
}
use vshortlink.Prelude.Int.{ℤ, pos, ltb_ℤ}
use vshortlink.Prelude.Keyed.{lookup, nat_key}
use vshortlink.Base62.{to_base62}
use vshortlink.Gen.{Generator}
use vshortlink.Link.{Time, ShortLink, LinkStatus, link_status_active, link_status_expired}
use vshortlink.Memory.Pool
use vshortlink.Memory.Pool.{MemoryShortCodePool, memory_pool}
use vshortlink.Memory.Pool.Queue.{queue, queue-clear, queue-lock, queue-unlock}
use vshortlink.Memory.Repo
use vshortlink.Memory.Repo.{MemoryShortLinkRepository, memory_repository}
use vshortlink.Memory.Repo.Rows.{
  rows, above, IsTable, list-rows, next_page, rows-Ascending, at_most-append-drop,
}
use vshortlink.Service.State.{Config, State, minute}
use vshortlink.Service.Expire.{last_id}
use vshortlink.Service.Rebuild.{remove_used_codes_from_pool, rebuild_locked, rebuild_code_pool}
use vshortlink.Service.Rebuild.Loops.{
  removed, added, erase_all, removed-append, queue-removed, queue-added, batches,
  remove_codes-removed, regenerate_all-added,
}

abbrev pub MemoryState : Type 0 → Type 0 → Type 0 → Type 0
MemoryState C T L = State MemoryShortLinkRepository C MemoryShortCodePool T L

abbrev pub used_statuses : List LinkStatus
used_statuses = link_status_active ∷ link_status_expired ∷ []

at_most_cons :
    (n : ℕ) (l : ShortLink) (ls : List ShortLink) → at_most (suc n) (l ∷ ls) ≡ l ∷ at_most n ls
at_most_cons n l ls = ground arith

module _ {C T L : Type 0} (iterate : List (ℕ × ShortLink) → List (ℕ × ShortLink)) (n : ℕ) where
  -- The pages of used codes together remove every one of them, if the fuel exceeds their number.
  pages-removed :
      (fuel from_id total : ℕ) (s : MemoryState C T L) (used : List ShortLink)
      → IsTable (iterate s.repo.links)
      → used ≡ above from_id (rows (iterate s.repo.links) n used_statuses)
      → length used < fuel
      → remove_used_codes_from_pool (memory_repository iterate) memory_pool fuel n from_id total s
        ≡ (ok (total + length used), record s { pool = removed n used s.pool })
  unfolding remove_used_codes_from_pool removed
  pages-removed zero from_id total s used t e h = elim h [ ]
  pages-removed (suc fuel) from_id total s [] t e h =
      rw (list-rows iterate s.repo n 1000 from_id used_statuses t, ← e)
        (ap (λ k. (ok k, s)) (omega arith))
  pages-removed (suc fuel) from_id total s (l ∷ ls) t e h =
      let page = at_most 999 ls in
      let rest = drop 999 ls in
      let whole : page ++ rest ≡ ls = at_most-append-drop 999 ls in
      let s' : MemoryState C T L = record s { pool = removed n (l ∷ page) s.pool } in
      let left : above (last_id l page) (rows (iterate s.repo.links) n used_statuses) ≡ rest =
        next_page from_id (rows (iterate s.repo.links) n used_statuses) rest page l
          (rows-Ascending n used_statuses (iterate s.repo.links) t)
          (sym e ∙ ap (◌∷◌ l) (sym whole)) in
      let count : length page + length rest ≡ length ls =
        sym (length-append page rest) ∙ ap length whole in
      rw (list-rows iterate s.repo n 1000 from_id used_statuses t, ← e, at_most_cons 999 l ls)
        (rw remove_codes-removed (
          pages-removed fuel (last_id l page) (total + length (l ∷ page)) s' rest t (sym left)
            (omega arith)
          ∙ ap (λ p. (ok (total + length (l ∷ page) + length rest), record s { pool = p }))
              (sym (removed-append n (l ∷ page) rest s.pool)
                ∙ ap (λ ks. removed n (l ∷ ks) s.pool) whole)
          ∙ ap (λ k. (ok k, record s { pool = removed n (l ∷ ls) s.pool })) (omega arith)))

-- The links of a length that hold a code: active or expired, with a positive id.
abbrev pub used_links : List (ℕ × ShortLink) → ℕ → List ShortLink
used_links entries n = above 0 (rows entries n used_statuses)

-- The pool after `clear`, the batches and the removals.
abbrev rebuilt : Time → ℕ → List ShortLink → List ℤ → MemoryShortCodePool → MemoryShortCodePool
rebuilt now n used zs p = removed n used (added now n zs (Pool.clear n p).1)

queue-rebuilt :
    (now : Time) (n m : ℕ) (used : List ShortLink) (zs : List ℤ) (p : MemoryShortCodePool)
    → queue (rebuilt now n used zs p) m ≡ (
        if n == m
        then erase_all (map (λ l. l.code) used) (map (λ z. to_base62 z n) zs)
        else queue p m)
queue-rebuilt now n m used zs p =
    queue-removed n m used (added now n zs (Pool.clear n p).1)
    ∙ ground (
      arith,
      ==_iff n m,
      queue-added now n n zs (Pool.clear n p).1,
      queue-added now n m zs (Pool.clear n p).1,
      queue-clear p n n,
      queue-clear p n m,
    )

pub lock_ok : (now : Time) (n d : ℕ) (p : MemoryShortCodePool) → (Pool.lock now n d p).0 ≡ ok tt
unfolding Pool.lock
lock_ok now n d p = ground arith

module _ {C T L : Type 0} (iterate : List (ℕ × ShortLink) → List (ℕ × ShortLink)) (n k : ℕ)
    (g : Generator) (now : Time) (fuel : ℕ) where
  rebuild_locked-rebuilt :
      (s : MemoryState C T L)
      → lookup n s.generators ≡ some g
      → Repo.get_start_index n s.repo ≡ (ok (pos k), s.repo)
      → IsTable (iterate s.repo.links)
      → length (used_links (iterate s.repo.links) n) < fuel
      → rebuild_locked (memory_repository iterate) memory_pool fuel now n s ≡ (
        ok tt,
        record s {
          pool = rebuilt now n (used_links (iterate s.repo.links) n) (batches g k 0) s.pool;
        },
      )
  unfolding rebuild_locked Pool.clear Pool.size
  rebuild_locked-rebuilt s hg hs t h =
      let s1 : MemoryState C T L = record s { pool = (Pool.clear n s.pool).1 } in
      let s2 : MemoryState C T L = record s1 { pool = added now n (batches g k 0) s1.pool } in
      rw (
        hs,
        regenerate_all-added (memory_repository iterate) g now n k 0 0 s1 hg,
        pages-removed iterate n fuel 0 0 s2 (used_links (iterate s.repo.links) n) t refl h,
      )

  -- On the memory backends `RebuildCodePool` succeeds. The pool of its length is then the batches
  -- of all start indices before the stored one, in their order, without the codes of the links
  -- that are active or expired; no other length and no link is changed.
  pub queue-rebuild_code_pool :
      (c : Config) (s : MemoryState C T L)
      → 0 < n
      → n ≤ c.max_code_length
      → lookup n s.generators ≡ some g
      → Repo.get_start_index n s.repo ≡ (ok (pos k), s.repo)
      → IsTable (iterate s.repo.links)
      → length (used_links (iterate s.repo.links) n) < fuel
      → (s' : MemoryState C T L) × (rebuild_code_pool
            (memory_repository iterate)
            memory_pool
            fuel
            c
            now
            (pos n)
            s
          ≡ (ok tt, s'))
        × (s'.repo ≡ s.repo)
        × ((m : ℕ)
            → queue s'.pool m ≡ (
                if n == m
                then erase_all
                    (map (λ l. l.code) (used_links (iterate s.repo.links) n))
                    (map (λ z. to_base62 z n) (batches g k 0))
                else queue s.pool m))
  unfolding rebuild_code_pool
  queue-rebuild_code_pool c s low high hg hs t h =
      let used = used_links (iterate s.repo.links) n in
      let zs = batches g k 0 in
      let locked : MemoryShortCodePool = (Pool.lock now n (5 * minute) s.pool).1 in
      let s1 : MemoryState C T L = record s { pool = locked } in
      let valid : (ltb_ℤ (pos n) (pos 1) || ltb_ℤ (pos c.max_code_length) (pos n)) ≡ false =
        ground arith in
      (
        record s { pool = Pool.unlock n (rebuilt now n used zs locked) },
        rw (valid, lock_ok now n (5 * minute) s.pool, rebuild_locked-rebuilt s1 hg hs t h),
        refl,
        λ m.
            queue-unlock (rebuilt now n used zs locked) n m
            ∙ queue-rebuilt now n m used zs locked
            ∙ ground (arith, ==_iff n m, queue-lock s.pool n m now (5 * minute)),
      )
