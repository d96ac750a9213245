-- ===== src/Service/Expire/Recycles.antt =====
-- `RecycleExpires` over the memory backends ends, and keeps the invariant of the repository.
use vshortlink.Prelude.{
  ℕ, zero, suc, ◌+◌, ◌-◌, ◌*◌, ◌≤◌, ◌<◌, ◌≡◌, refl, ◌&&◌, some, List, [], ◌∷◌, map, ltb, All,
  All-imp, All-map, ok, arith, inl, inr,
}
use vshortlink.Prelude.Keyed.{lookup, nat_key}
use vshortlink.Link.{Time, ShortLink, is_expired, link_status_recycled}
use vshortlink.Memory.Pool
use vshortlink.Memory.Pool.{MemoryShortCodePool, memory_pool}
use vshortlink.Memory.Cache.{memory_cache}
use vshortlink.Memory.Repo
use vshortlink.Memory.Repo.{MemoryShortLinkRepository, memory_repository}
use vshortlink.Memory.Repo.Index.{IsIndexed}
use vshortlink.Service.State.{hour}
use vshortlink.Service.Edit.Memory.{AllMemory}
use vshortlink.Service.Expire.{last_id, add_to_pool, recycle_loop, recycle_expires, set_status}
use vshortlink.Service.Expire.Ends.{
  Known, Due, Page, Page-cases, updates_lem, entries-Due, All-scan_links, last_id-All,
}

-- The codes of a page go back to their pools.
given_back : Time → List ShortLink → MemoryShortCodePool → MemoryShortCodePool
given_back now [] p = p
given_back now (l ∷ ls) p = given_back now ls (Pool.add now l.length l.code p).1

module _ (iterate : List (ℕ × ShortLink) → List (ℕ × ShortLink))
    (visits : (m : List (ℕ × ShortLink)) → All (λ e. lookup e.0 m ≡ some e.1) (iterate m)) where
  recyclable-Page :
      (from_id : ℕ) (expired_before : Time) (r : MemoryShortLinkRepository)
      → IsIndexed r
      → Page r from_id (Repo.find_expires iterate from_id expired_before 100 r)
  unfolding Repo.find_expires
  recyclable-Page from_id expired_before r w = Page-cases r from_id _ (
      All-scan_links (Due r from_id) (λ l. is_expired l && ltb l.expire expired_before) from_id 100
        (iterate r.links) [] (entries-Due iterate visits from_id r w) tt)

  module _ {T L : Type 0} where
    add_to_pool_lem :
        (now : Time) (ls : List ShortLink) (s : AllMemory T L)
        → add_to_pool (memory_repository iterate) memory_cache memory_pool now ls s
          ≡ (ok tt, record s { pool = given_back now ls s.pool })
    unfolding add_to_pool given_back Pool.add
    add_to_pool_lem now [] s = refl
    add_to_pool_lem now (l ∷ ls) s =
        add_to_pool_lem now ls (record s { pool = (Pool.add now l.length l.code s.pool).1 })

    recycle_loop-ends :
        (fuel : ℕ) (now expired_before : Time) (from_id : ℕ) (s : AllMemory T L)
        → IsIndexed s.repo
        → s.repo.next_id ≤ from_id + fuel
        → (s' : AllMemory T L) × (recycle_loop
              (memory_repository iterate)
              memory_cache
              memory_pool
              (suc fuel)
              now
              expired_before
              from_id
              s
            ≡ (ok tt, s'))
          × IsIndexed s'.repo
    unfolding recycle_loop
    recycle_loop-ends zero now expired_before from_id s w h =
        elim (recyclable-Page from_id expired_before s.repo w) [
          | inl done ↦ (s, rw done refl, w)
          | inr (l, ls, found, due) ↦ let (beyond, below, known) = due.0 in absurd (omega arith)
        ]
    recycle_loop-ends (suc fuel) now expired_before from_id s w h =
        elim (recyclable-Page from_id expired_before s.repo w) [
          | inl done ↦ (s, rw done refl, w)
          | inr (l, ls, found, due) ↦
              let known : All (Known s.repo) (map (set_status link_status_recycled) (l ∷ ls)) =
                All-map (Known s.repo) (set_status link_status_recycled) (l ∷ ls)
                  (All-imp _ _ (λ k d. d.2) (l ∷ ls) due) in
              let (r', written, w', next) =
                updates_lem now (map (set_status link_status_recycled) (l ∷ ls)) s.repo w known in
              let further : from_id < last_id l ls =
                last_id-All (λ j. from_id < j) l ls (All-imp _ _ (λ k d. d.0) (l ∷ ls) due) in
              let s1 : AllMemory T L = record s {
                pool = given_back now (l ∷ ls) s.pool;
                repo = r';
              } in
              let (s', run, kept) =
                recycle_loop-ends fuel now expired_before (last_id l ls) s1 w' (omega arith) in
              (s', rw (found, add_to_pool_lem now (l ∷ ls) s, written) run, kept)
        ]

    -- On the memory backends, over a repository in which every code of the index leads to a link that
    -- has it and every link stands under its own id, which has been given out, and with any order of
    -- visiting a map that shows its entries only: `RecycleExpires` with more fuel than ids that have
    -- been given out returns without an error, and leaves such a repository.
    pub recycle_expires-ends :
        (fuel : ℕ) (now : Time) (s : AllMemory T L)
        → IsIndexed s.repo
        → s.repo.next_id < fuel
        → (s' : AllMemory T L) × (recycle_expires
              (memory_repository iterate)
              memory_cache
              memory_pool
              fuel
              now
              s
            ≡ (ok tt, s'))
          × IsIndexed s'.repo
    unfolding recycle_expires
    recycle_expires-ends zero now s w h = absurd (omega arith)
    recycle_expires-ends (suc fuel) now s w h =
        recycle_loop-ends fuel now (now - hour * 24 * 365) 0 s w (omega arith)
