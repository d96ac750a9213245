-- ===== src/Sql/Recycle.antt =====
-- `RecycleExpires` over the SQL repository and any pool that keeps its contract: the pages cover every
-- link that expired a year ago.
use Prim.Native.Nat.{min}
use vshortlink.Prelude.{
  ℕ, zero, suc, ◌+◌, ◌≤◌, ◌<◌, ◌≡◌, refl, sym, ap, subst, ◌∙◌, ◌&&◌, List, [], ◌∷◌, map, Text, ltb,
  ◌==◌, if◌then◌else◌, keep, length, All, All-append, All-imp, Bool-cases, inl, inr, arith, ok,
  same, ltb→lt, ◌-◌, ◌*◌, same_iff, ==_iff,
}
use vshortlink.Link.{Time, link_status_expired, link_status_recycled}
use vshortlink.Interfaces.{ShortLinkCache, ShortCodePool}
use vshortlink.Interfaces.Contract.{PoolLaws}
use vshortlink.Service.State.{State, hour}
use vshortlink.Service.Expire.{last_id, add_to_pool, recycle_loop, recycle_expires}
use vshortlink.Sql.{ShortLinkModel, to_core, Gorm}
use vshortlink.Sql.Repo.{find_expires, updates, sql_repository}
use vshortlink.Sql.Table.{GormLaws, GormAnswers, IsAscending}
use vshortlink.Sql.Paging.{all_changed, due_above-0, marked-0, marked_end}
use vshortlink.Sql.Counts.{count, of_code, count-append}
use vshortlink.Sql.Due.{
  Sweep, write_page, page_of, page_shorter, is_due, with_status, new_links, rows_at, rows_left,
  found,
}

abbrev pub recycling : Time → Time → Sweep
recycling before now = record {
  old = link_status_expired;
  new = link_status_recycled;
  before = before;
  now = now;
}

-- The sweep of `RecycleExpires`.
abbrev pub year_old : Time → Sweep
year_old now = recycling (now - hour * 24 * 365) now

module _ {P : Type 0} {pool : ShortCodePool P} (pooled : PoolLaws pool) where
  -- No code is lost.
  abbrev Keeps : P → P → Type 0
  Keeps p p' = (n : ℕ) (k : Text) → 0 < pooled.amount p n k → 0 < pooled.amount p' n k

  -- Each of some links adds its code at most once.
  abbrev pub AtMost : P → P → List ShortLinkModel → Type 0
  AtMost p p' ms =
      (n : ℕ) (k : Text) → pooled.amount p' n k ≤ pooled.amount p n k + count (of_code n k) ms

  abbrev Holds : P → ShortLinkModel → Type 0
  Holds p m = 0 < pooled.amount p m.length m.code

module _ {D C P T L : Type 0} (gorm : Gorm D) (laws : GormLaws gorm) (answers : GormAnswers gorm)
    (cache : ShortLinkCache C) (pool : ShortCodePool P) (pooled : PoolLaws pool)
    (before now : Time) where
  add_to_pool-Holds :
      (ms : List ShortLinkModel) (s : State D C P T L)
      → pooled.IsFine s.pool
      → (p : P) × (add_to_pool (sql_repository gorm) cache pool now (map to_core ms) s
          ≡ (ok tt, record s { pool = p }))
        × pooled.IsFine p
        × Keeps pooled s.pool p
        × All (Holds pooled p) ms
        × AtMost pooled s.pool p ms
  unfolding add_to_pool
  add_to_pool-Holds [] s fine = (s.pool, refl, fine, λ n k h. h, tt, λ n k. omega arith)
  add_to_pool-Holds (m ∷ ms) s fine =
      let (done, fine', held, bound, others) = pooled.add_amount s.pool now m.length m.code fine in
      let p : P = (pool.add now m.length m.code s.pool).1 in
      let (p', run, fine'', keeps, holds, most) =
        add_to_pool-Holds ms (record s { pool = p }) fine' in
      (
        p',
        rw done run,
        fine'',
        λ n k h. keeps n k (elim (Bool-cases ((m.length == n) && same m.code k)) [
          | inl own ↦ ground (arith, own, held, ==_iff m.length n, same_iff m.code k)
          | inr other ↦ ground (arith, others n k other, h)
        ]),
        (keeps m.length m.code held, holds),
        λ n k. elim (Bool-cases ((m.length == n) && same m.code k)) [
          | inl own ↦
              let en : m.length ≡ n = ground (arith, own, ==_iff m.length n) in
              let ek : m.code ≡ k = ground (arith, own, same_iff m.code k) in
              let one : pooled.amount p n k ≤ pooled.amount s.pool n k + 1 =
                subst (λ j. pooled.amount p n j ≤ pooled.amount s.pool n j + 1) ek
                  (subst (λ i. pooled.amount p i m.code ≤ pooled.amount s.pool i m.code + 1) en
                    bound) in
              rw own (omega (arith, one, most n k))
          | inr other ↦ rw other (omega (arith, others n k other, most n k))
        ],
      )

  -- The pages that are left.
  recycle_loop_covers_due :
      (fuel f : ℕ) (table : List ShortLinkModel) (s : State D C P T L)
      → IsAscending table
      → laws.committed s.repo ≡ rows_at (recycling before now) f table
      → pooled.IsFine s.pool
      → length (rows_left (recycling before now) f table) < fuel
      → (s' : State D C P T L) × (recycle_loop (sql_repository gorm) cache pool fuel now before f s
          ≡ (ok tt, s'))
        × (laws.committed s'.repo
            ≡ all_changed
                (is_due (recycling before now))
                (with_status (recycling before now))
                (λ k. refl)
                table)
        × pooled.IsFine s'.pool
        × Keeps pooled s.pool s'.pool
        × All (Holds pooled s'.pool) (rows_left (recycling before now) f table)
        × AtMost pooled s.pool s'.pool (rows_left (recycling before now) f table)
        × (s'.cache ≡ s.cache)
  unfolding recycle_loop find_expires
  recycle_loop_covers_due zero f table s a shows fine enough = absurd (omega (arith, enough))
  recycle_loop_covers_due (suc fuel) f table s a shows fine enough =
      elim (page_of (rows_left (recycling before now) f table)) [
        | inl empty ↦ (
          s,
          rw (found gorm laws answers (recycling before now) f table s.repo shows, empty) refl,
          shows
              ∙ marked_end (is_due (recycling before now)) (with_status (recycling before now))
                  (λ k. refl) f table empty,
          fine,
          λ n k h. h,
          subst (All (Holds pooled s.pool)) (sym empty) tt,
          λ n k. omega arith,
          refl,
        )
        | inr (m, page, rest, first, whole) ↦
            let (p, adds, fine', keeps, holds, most) = add_to_pool-Holds (m ∷ page) s fine in
            let (done, writes, left) =
              write_page gorm laws answers (recycling before now) f m page rest table s.repo a shows
                whole in
            let g : ℕ = last_id (to_core m) (map to_core page) in
            let (s', run, shows', fine'', keeps', holds', most', same_cache) =
              recycle_loop_covers_due fuel g table
                (record s {
                  pool = p;
                  repo = (updates gorm now (new_links (recycling before now) (m ∷ page)) s.repo).1;
                })
                a writes fine' (page_shorter fuel m page rest whole left enough) in
            (
              s',
              rw
                  (
                    found gorm laws answers (recycling before now) f table s.repo shows,
                    first,
                    adds,
                    done,
                  )
                  run,
              shows',
              fine'',
              λ n k h. keeps' n k (keeps n k h),
              subst (All (Holds pooled s'.pool)) (sym whole) (
                  All-append (Holds pooled s'.pool) (m ∷ page) rest
                    (All-imp (Holds pooled p) (Holds pooled s'.pool)
                      (λ k h. keeps' k.length k.code h) (m ∷ page) holds)
                    (subst (All (Holds pooled s'.pool)) left holds')),
              λ n k. omega (
                arith,
                most n k,
                most' n k,
                ap (count (of_code n k)) left,
                ap (count (of_code n k)) whole,
                count-append (of_code n k) (m ∷ page) rest,
              ),
              same_cache,
            )
      ]

module _ {D C P T L : Type 0} (gorm : Gorm D) (laws : GormLaws gorm) (answers : GormAnswers gorm)
    (cache : ShortLinkCache C) (pool : ShortCodePool P) (pooled : PoolLaws pool) (now : Time) where
  -- All that `RecycleExpires` changes.
  pub recycle_expires_effect :
      (fuel : ℕ) (s : State D C P T L)
      → pooled.IsFine s.pool
      → length (keep (is_due (year_old now)) (laws.committed s.repo)) < fuel
      → (s' : State D C P T L) × (recycle_expires (sql_repository gorm) cache pool fuel now s
          ≡ (ok tt, s'))
        × (laws.committed s'.repo
            ≡ map
                (λ m. if is_due (year_old now) m then with_status (year_old now) m else m)
                (laws.committed s.repo))
        × All
            (λ m. 0 < pooled.amount s'.pool m.length m.code)
            (keep (is_due (year_old now)) (laws.committed s.repo))
        × ((n : ℕ) (k : Text) → min 1 (pooled.amount s.pool n k) ≤ pooled.amount s'.pool n k)
        × AtMost pooled s.pool s'.pool (keep (is_due (year_old now)) (laws.committed s.repo))
        × pooled.IsFine s'.pool
        × (s'.cache ≡ s.cache)
  unfolding recycle_expires
  recycle_expires_effect fuel s fine enough =
      let table : List ShortLinkModel = laws.committed s.repo in
      let all_left : rows_left (year_old now) 0 table ≡ keep (is_due (year_old now)) table =
        due_above-0 (is_due (year_old now)) (with_status (year_old now)) (λ k. refl) table
          (laws.by_id s.repo) in
      let (s', run, shows, fine', keeps, holds, most, same_cache) =
        recycle_loop_covers_due gorm laws answers cache pool pooled (now - hour * 24 * 365) now fuel
          0 table s (laws.by_id s.repo)
          (sym (
            marked-0 (is_due (year_old now)) (with_status (year_old now)) (λ k. refl) table
              (laws.by_id s.repo)))
          fine (omega (arith, enough, ap length all_left)) in
      (
        s',
        run,
        shows,
        subst (All (Holds pooled s'.pool)) all_left holds,
        λ n k. kept (keeps n k),
        λ n k. omega (arith, most n k, ap (count (of_code n k)) all_left),
        fine',
        same_cache,
      )
    where
      kept : {a b : ℕ} → (0 < a → 0 < b) → min 1 a ≤ b
      kept {a} {b} h = elim (Bool-cases (ltb 0 a)) [
        | inl some_left ↦ omega (arith, h (ltb→lt 0 a some_left))
        | inr none_left ↦ ground arith
      ]

  -- Over a GORM table whose calls do not fail, any cache, and any pool that keeps its contract: with
  -- more fuel than links that expired over a year ago and are marked so, RecycleExpires returns no
  -- error. It leaves the table with exactly these links marked as recycled, at the current time, and
  -- the pool holds the code of each, and every code that it held.
  pub recycle_expires_covers_due :
      (fuel : ℕ) (s : State D C P T L)
      → pooled.IsFine s.pool
      → length (keep (is_due (year_old now)) (laws.committed s.repo)) < fuel
      → (s' : State D C P T L) × (recycle_expires (sql_repository gorm) cache pool fuel now s
          ≡ (ok tt, s'))
        × (laws.committed s'.repo
            ≡ map
                (λ m. if is_due (year_old now) m then with_status (year_old now) m else m)
                (laws.committed s.repo))
        × All
            (λ m. 0 < pooled.amount s'.pool m.length m.code)
            (keep (is_due (year_old now)) (laws.committed s.repo))
        × ((n : ℕ) (k : Text) → min 1 (pooled.amount s.pool n k) ≤ pooled.amount s'.pool n k)
  recycle_expires_covers_due fuel s fine enough =
      let (s', run, shows, holds, keeps, most, fine', same_cache) =
        recycle_expires_effect fuel s fine enough in
      (s', run, shows, holds, keeps)
