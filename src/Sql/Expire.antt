-- ===== src/Sql/Expire.antt =====
-- `ExpireActives` over the SQL repository and any cache that keeps its contract: the pages cover every
-- active link that has expired.
use vshortlink.Prelude.{
  ℕ, zero, suc, ◌<◌, ◌≡◌, refl, sym, ap, subst, ◌∙◌, Option, none, List, [], ◌∷◌, map, Text,
  if◌then◌else◌, keep, length, All, All-append, All-imp, same_refl, inl, inr, arith, ok,
}
use vshortlink.Link.{Time, link_status_active, link_status_expired}
use vshortlink.Interfaces.{ShortLinkCache, ShortCodePool}
use vshortlink.Interfaces.Contract.{CacheLaws}
use vshortlink.Service.State.{State}
use vshortlink.Service.Expire.{last_id, remove_from_cache, expire_loop, expire_actives}
use vshortlink.Sql.{ShortLinkModel, to_core, Gorm}
use vshortlink.Sql.Repo.{find_expired_actives, updates, sql_repository}
use vshortlink.Sql.Table.{GormLaws, GormAnswers, IsAscending}
use vshortlink.Sql.Paging.{all_changed, due_above-0, marked-0, marked_end}
use vshortlink.Sql.Due.{
  Sweep, write_page, page_of, page_shorter, is_due, with_status, new_links, rows_at, rows_left,
  found,
}

abbrev pub expiring : Time → Sweep
expiring now = record {
  old = link_status_active;
  new = link_status_expired;
  before = now;
  now = now;
}

module _ {C : Type 0} {cache : ShortLinkCache C} (cached : CacheLaws cache) where
  abbrev Shows : C → Time → ℕ → Text → Option Text → Type 0
  Shows c t n k x = cached.shown c t n k ≡ x

  -- What was not shown before is not shown after.
  abbrev Hides : C → C → Type 0
  Hides c c' = (t : Time) (n : ℕ) (k : Text) → Shows c t n k none → Shows c' t n k none

  abbrev Gone : C → ShortLinkModel → Type 0
  Gone c m = (t : Time) → Shows c t m.length m.code none

module _ {D C P T L : Type 0} (gorm : Gorm D) (laws : GormLaws gorm) (answers : GormAnswers gorm)
    (cache : ShortLinkCache C) (cached : CacheLaws cache) (pool : ShortCodePool P)
    (now : Time) where
  remove_from_cache-Gone :
      (ms : List ShortLinkModel) (s : State D C P T L)
      → cached.IsFine s.cache
      → (c : C) × (remove_from_cache (sql_repository gorm) cache pool (map to_core ms) s
          ≡ (ok tt, record s { cache = c }))
        × cached.IsFine c
        × Hides cached s.cache c
        × All (Gone cached c) ms
  unfolding remove_from_cache
  remove_from_cache-Gone [] s fine = (s.cache, refl, fine, λ t n k h. h, tt)
  remove_from_cache-Gone (m ∷ ms) s fine =
      let (done, fine', shows) = cached.remove_shown s.cache m.length m.code fine in
      let c : C = (cache.remove m.length m.code s.cache).1 in
      let (c', run, fine'', hides, gone) =
        remove_from_cache-Gone ms (record s { cache = c }) fine' in
      (
        c',
        rw done run,
        fine'',
        λ t n k h. hides t n k (ground (arith, shows t n k, h)),
        (
          (λ t.
              hides t m.length m.code (ground (arith, shows t m.length m.code, same_refl m.code))),
          gone,
        ),
      )

  -- The pages that are left.
  expire_loop_covers_due :
      (fuel f : ℕ) (table : List ShortLinkModel) (s : State D C P T L)
      → IsAscending table
      → laws.committed s.repo ≡ rows_at (expiring now) f table
      → cached.IsFine s.cache
      → length (rows_left (expiring now) f table) < fuel
      → (s' : State D C P T L) × (expire_loop (sql_repository gorm) cache pool fuel now f s
          ≡ (ok tt, s'))
        × (laws.committed s'.repo
            ≡ all_changed (is_due (expiring now)) (with_status (expiring now)) (λ k. refl) table)
        × cached.IsFine s'.cache
        × Hides cached s.cache s'.cache
        × All (Gone cached s'.cache) (rows_left (expiring now) f table)
        × (s'.pool ≡ s.pool)
  unfolding expire_loop find_expired_actives
  expire_loop_covers_due zero f table s a shows fine enough = absurd (omega (arith, enough))
  expire_loop_covers_due (suc fuel) f table s a shows fine enough =
      elim (page_of (rows_left (expiring now) f table)) [
        | inl empty ↦ (
          s,
          rw (found gorm laws answers (expiring now) f table s.repo shows, empty) refl,
          shows
              ∙ marked_end (is_due (expiring now)) (with_status (expiring now)) (λ k. refl) f table
                  empty,
          fine,
          λ t n k h. h,
          subst (All (Gone cached s.cache)) (sym empty) tt,
          refl,
        )
        | inr (m, page, rest, first, whole) ↦
            let (c, removes, fine', hides, gone) = remove_from_cache-Gone (m ∷ page) s fine in
            let (done, writes, left) =
              write_page gorm laws answers (expiring now) f m page rest table s.repo a shows
                whole in
            let g : ℕ = last_id (to_core m) (map to_core page) in
            let (s', run, shows', fine'', hides', gone', same_pool) =
              expire_loop_covers_due fuel g table
                (record s {
                  cache = c;
                  repo = (updates gorm now (new_links (expiring now) (m ∷ page)) s.repo).1;
                })
                a writes fine' (page_shorter fuel m page rest whole left enough) in
            (
              s',
              rw (found gorm laws answers (expiring now) f table s.repo shows, first, removes, done)
                  run,
              shows',
              fine'',
              λ t n k h. hides' t n k (hides t n k h),
              subst (All (Gone cached s'.cache)) (sym whole) (
                  All-append (Gone cached s'.cache) (m ∷ page) rest
                    (All-imp (Gone cached c) (Gone cached s'.cache)
                      (λ k h t. hides' t k.length k.code (h t)) (m ∷ page) gone)
                    (subst (All (Gone cached s'.cache)) left gone')),
              same_pool,
            )
      ]

  -- All that `ExpireActives` changes.
  pub expire_actives_effect :
      (fuel : ℕ) (s : State D C P T L)
      → cached.IsFine s.cache
      → length (keep (is_due (expiring now)) (laws.committed s.repo)) < fuel
      → (s' : State D C P T L) × (expire_actives (sql_repository gorm) cache pool fuel now s
          ≡ (ok tt, s'))
        × (laws.committed s'.repo
            ≡ map
                (λ m. if is_due (expiring now) m then with_status (expiring now) m else m)
                (laws.committed s.repo))
        × All
            (λ m. (t : Time) → cached.shown s'.cache t m.length m.code ≡ none)
            (keep (is_due (expiring now)) (laws.committed s.repo))
        × cached.IsFine s'.cache
        × (s'.pool ≡ s.pool)
  unfolding expire_actives
  expire_actives_effect fuel s fine enough =
      let table : List ShortLinkModel = laws.committed s.repo in
      let all_left : rows_left (expiring now) 0 table ≡ keep (is_due (expiring now)) table =
        due_above-0 (is_due (expiring now)) (with_status (expiring now)) (λ k. refl) table
          (laws.by_id s.repo) in
      let (s', run, shows, fine', hides, gone, same_pool) =
        expire_loop_covers_due fuel 0 table s (laws.by_id s.repo)
          (sym (
            marked-0 (is_due (expiring now)) (with_status (expiring now)) (λ k. refl) table
              (laws.by_id s.repo)))
          fine (omega (arith, enough, ap length all_left)) in
      (s', run, shows, subst (All (Gone cached s'.cache)) all_left gone, fine', same_pool)

  -- Over a GORM table whose calls do not fail, any pool, and any cache that keeps its contract: with
  -- more fuel than active links that have expired, ExpireActives returns no error. It leaves the table
  -- with exactly these links marked as expired, at the current time, and the cache shows none of them.
  pub expire_actives_covers_due :
      (fuel : ℕ) (s : State D C P T L)
      → cached.IsFine s.cache
      → length (keep (is_due (expiring now)) (laws.committed s.repo)) < fuel
      → (s' : State D C P T L) × (expire_actives (sql_repository gorm) cache pool fuel now s
          ≡ (ok tt, s'))
        × (laws.committed s'.repo
            ≡ map
                (λ m. if is_due (expiring now) m then with_status (expiring now) m else m)
                (laws.committed s.repo))
        × All
            (λ m. (t : Time) → cached.shown s'.cache t m.length m.code ≡ none)
            (keep (is_due (expiring now)) (laws.committed s.repo))
  expire_actives_covers_due fuel s fine enough =
      let (s', run, shows, gone, fine', same_pool) = expire_actives_effect fuel s fine enough in
      (s', run, shows, gone)
