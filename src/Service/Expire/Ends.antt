-- ===== src/Service/Expire/Ends.antt =====
-- `ExpireActives` over the memory backends ends, and keeps the invariant of the repository.
use vshortlink.Prelude.{
  ℕ, zero, suc, ◌+◌, ◌≤◌, ◌<◌, ◌≡◌, refl, sym, ap, ◌∙◌, Bool, ◌&&◌, some, List, [], ◌∷◌, ◌++◌, map,
  ◌==◌, if◌then◌else◌, ltb, leb, length, All, All-append, All-imp, All-map, ◌⊎◌, Result, ok, arith,
  Bool-cases, inl, inr,
}
use vshortlink.Prelude.Keyed.{lookup, lookup-insert, nat_key, text_key}
use vshortlink.Link.{Time, ShortLink, link_status_expired, is_active}
use vshortlink.Memory.Pool.{memory_pool}
use vshortlink.Memory.Cache
use vshortlink.Memory.Cache.{MemoryShortLinkCache, memory_cache}
use vshortlink.Memory.Repo
use vshortlink.Memory.Repo.{MemoryShortLinkRepository, memory_repository, store, scan_links}
use vshortlink.Memory.Repo.Index.{IsIndexed, store-IsIndexed}
use vshortlink.Service.Edit.Memory.{AllMemory}
use vshortlink.Service.Edit.Change.{cache_remove_ok}
use vshortlink.Service.Expire.{last_id, remove_from_cache, expire_loop, expire_actives, set_status}

-- A link that the repository has under its id with its code.
abbrev pub Known : MemoryShortLinkRepository → ShortLink → Type 0
Known r l = (k : ShortLink) × (lookup l.id r.links ≡ some k) × (k.code ≡ l.code)

update-store :
    (now : Time) (l : ShortLink) (r : MemoryShortLinkRepository)
    → Known r l
    → Repo.update now l r ≡ (ok tt, store l r)
unfolding Repo.update
update-store now l r (k, found, has) = rw (found, Repo.update)

store-Known :
    (l x : ShortLink) (r : MemoryShortLinkRepository) → Known r l → Known r x → Known (store l r) x
unfolding store
store-Known l x r (k, found, has) (j, found_x, has_x) = elim (Bool-cases (l.id == x.id)) [
  | inl own ↦
      let e : l.id ≡ x.id = ground arith in
      let found' : lookup x.id r.links ≡ some k = sym (ap (λ i. lookup i r.links) e) ∙ found in
      (
        l,
        lookup-insert l.id x.id l r.links ∙ ground (arith, own),
        sym has ∙ ground (arith, found', found_x, has_x),
      )
  | inr other ↦ (j, lookup-insert l.id x.id l r.links ∙ ground (arith, other, found_x), has_x)
]

pub updates_lem :
    (now : Time) (ls : List ShortLink) (r : MemoryShortLinkRepository)
    → IsIndexed r
    → All (Known r) ls
    → (r' : MemoryShortLinkRepository) × (Repo.updates now ls r ≡ (ok tt, r'))
      × IsIndexed r'
      × (r'.next_id ≡ r.next_id)
unfolding Repo.updates store
updates_lem now [] r w known = (r, refl, w, refl)
updates_lem now (l ∷ ls) r w known =
    let (k, found, has) = known.0 in
    let (own, given) = w.stored l.id k found in
    let w' : IsIndexed (store l r) =
      store-IsIndexed l r w given (λ j h. ground (arith, h, found, has)) in
    let (r', run, kept, next) =
      updates_lem now ls (store l r) w'
        (All-imp _ _ (λ x h. store-Known l x r known.0 h) ls known.1) in
    (r', rw (update-store now l r known.0) run, kept, next)

module _ {T L : Type 0} (iterate : List (ℕ × ShortLink) → List (ℕ × ShortLink)) where
  remove_from_cache_lem :
      (ls : List ShortLink) (s : AllMemory T L)
      → (c : MemoryShortLinkCache) × (remove_from_cache
            (memory_repository iterate)
            memory_cache
            memory_pool
            ls
            s
          ≡ (ok tt, record s { cache = c }))
  unfolding remove_from_cache
  remove_from_cache_lem [] s = (s.cache, refl)
  remove_from_cache_lem (l ∷ ls) s =
      let c : MemoryShortLinkCache = (Cache.remove l.length l.code s.cache).1 in
      let (c', run) = remove_from_cache_lem ls (record s { cache = c }) in
      (c', rw (cache_remove_ok l.length l.code s.cache) run)

-- What holds of every link beyond `from_id` holds of what the scan finds.
pub All-scan_links :
    (P : ShortLink → Type 0) (test : ShortLink → Bool) (from_id limit : ℕ)
    (entries : List (ℕ × ShortLink)) (result : List ShortLink)
    → All (λ e. from_id < e.0 → P e.1) entries
    → All P result
    → All P (scan_links test from_id limit entries result)
unfolding scan_links
All-scan_links P test from_id limit [] result h done = done
All-scan_links P test from_id limit ((id, l) ∷ rest) result h done =
    elim (Bool-cases (leb id from_id)) [
      | inl before ↦ rw before (All-scan_links P test from_id limit rest result h.1 done)
      | inr beyond ↦
          let found = if test l then result ++ l ∷ [] else result in
          let own : P l = h.0 (ground arith) in
          let all_found : All P found = elim (Bool-cases (test l)) [
            | inl passed ↦ rw passed (All-append P result (l ∷ []) done (own, tt))
            | inr failed ↦ rw failed done
          ] in
          elim (Bool-cases (leb limit (length found))) [
            | inl full ↦ rw (beyond, full) all_found
            | inr more ↦
                rw (beyond, more) (All-scan_links P test from_id limit rest found h.1 all_found)
          ]
    ]

pub last_id-All :
    (P : ℕ → Type 0) (l : ShortLink) (ls : List ShortLink)
    → All (λ k. P k.id) (l ∷ ls)
    → P (last_id l ls)
unfolding last_id
last_id-All P l [] h = h.0
last_id-All P l (k ∷ ls) h = last_id-All P k ls h.1

-- What holds of the links of a page: an id between, and a link in the repository.
abbrev pub Due : MemoryShortLinkRepository → ℕ → ShortLink → Type 0
Due r from_id l = (from_id < l.id) × (l.id < r.next_id) × Known r l

-- An empty page, or one of due links.
abbrev pub Page :
    MemoryShortLinkRepository → ℕ → Result (List ShortLink) × MemoryShortLinkRepository → Type 0
Page r from_id x =
    (x ≡ (ok [], r))
    ⊎ ((l : ShortLink) × (ls : List ShortLink) × (x ≡ (ok (l ∷ ls), r))
        × All (Due r from_id) (l ∷ ls))

pub Page-cases :
    (r : MemoryShortLinkRepository) (from_id : ℕ) (page : List ShortLink)
    → All (Due r from_id) page
    → Page r from_id (ok page, r)
Page-cases r from_id [] due = inl refl
Page-cases r from_id (l ∷ ls) due = inr (l, ls, refl, due)

module _ (iterate : List (ℕ × ShortLink) → List (ℕ × ShortLink))
    (visits : (m : List (ℕ × ShortLink)) → All (λ e. lookup e.0 m ≡ some e.1) (iterate m)) where
  pub entries-Due :
      (from_id : ℕ) (r : MemoryShortLinkRepository)
      → IsIndexed r
      → All (λ e. from_id < e.0 → Due r from_id e.1) (iterate r.links)
  entries-Due from_id r w =
      All-imp _ _
        (λ e held beyond.
          let (own, given) = w.stored e.0 e.1 held in
          (omega arith, omega arith, (e.1, ap (λ i. lookup i r.links) own ∙ held, refl)))
        (iterate r.links) (visits r.links)

  expired-Page :
      (now : Time) (from_id : ℕ) (r : MemoryShortLinkRepository)
      → IsIndexed r
      → Page r from_id (Repo.find_expired_actives iterate now from_id 100 r)
  unfolding Repo.find_expired_actives
  expired-Page now from_id r w = Page-cases r from_id _ (
      All-scan_links (Due r from_id) (λ l. is_active l && ltb l.expire now) from_id 100
        (iterate r.links) [] (entries-Due from_id r w) tt)

  module _ {T L : Type 0} where
    expire_loop-ends :
        (fuel : ℕ) (now : Time) (from_id : ℕ) (s : AllMemory T L)
        → IsIndexed s.repo
        → s.repo.next_id ≤ from_id + fuel
        → (s' : AllMemory T L) × (expire_loop
              (memory_repository iterate)
              memory_cache
              memory_pool
              (suc fuel)
              now
              from_id
              s
            ≡ (ok tt, s'))
          × IsIndexed s'.repo
    unfolding expire_loop
    expire_loop-ends zero now from_id s w h = elim (expired-Page now from_id s.repo w) [
      | inl done ↦ (s, rw done refl, w)
      | inr (l, ls, found, due) ↦ let (beyond, below, known) = due.0 in absurd (omega arith)
    ]
    expire_loop-ends (suc fuel) now from_id s w h = elim (expired-Page now from_id s.repo w) [
      | inl done ↦ (s, rw done refl, w)
      | inr (l, ls, found, due) ↦
          let (c, cleared) = remove_from_cache_lem iterate (l ∷ ls) s in
          let known : All (Known s.repo) (map (set_status link_status_expired) (l ∷ ls)) =
            All-map (Known s.repo) (set_status link_status_expired) (l ∷ ls)
              (All-imp _ _ (λ k d. d.2) (l ∷ ls) due) in
          let (r', written, w', next) =
            updates_lem now (map (set_status link_status_expired) (l ∷ ls)) s.repo w known in
          let further : from_id < last_id l ls =
            last_id-All (λ j. from_id < j) l ls (All-imp _ _ (λ k d. d.0) (l ∷ ls) due) in
          let s1 : AllMemory T L = record s { cache = c; repo = r' } in
          let (s', run, kept) = expire_loop-ends fuel now (last_id l ls) s1 w' (omega arith) in
          (s', rw (found, cleared, written) run, kept)
    ]

    -- On the memory backends, over a repository in which every code of the index leads to a link that
    -- has it and every link stands under its own id, which has been given out, and with any order of
    -- visiting a map that shows its entries only: `ExpireActives` with more fuel than ids that have
    -- been given out returns without an error, and leaves such a repository.
    pub expire_actives-ends :
        (fuel : ℕ) (now : Time) (s : AllMemory T L)
        → IsIndexed s.repo
        → s.repo.next_id < fuel
        → (s' : AllMemory T L) × (expire_actives
              (memory_repository iterate)
              memory_cache
              memory_pool
              fuel
              now
              s
            ≡ (ok tt, s'))
          × IsIndexed s'.repo
    unfolding expire_actives
    expire_actives-ends zero now s w h = absurd (omega arith)
    expire_actives-ends (suc fuel) now s w h = expire_loop-ends fuel now 0 s w (omega arith)
