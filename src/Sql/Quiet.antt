-- ===== src/Sql/Quiet.antt =====
-- The calls that take no code from the pool and give none back: `Update`, `Remove`, `ExpireActives`.
use vshortlink.Prelude.{
  ℕ, ◌≤◌, ◌<◌, ◌≡◌, refl, sym, ap, subst, ◌∙◌, Bool, ◌&&◌, ◌||◌, List, [], ◌∷◌, map, Text, same,
  ◌==◌, length, if◌then◌else◌, keep, All, arith, Bool-cases, Option-cases, inl, inr,
}
use vshortlink.Link.{Time}
use vshortlink.Interfaces.{ShortLinkCache, ShortCodePool}
use vshortlink.Interfaces.Contract.{CacheLaws}
use vshortlink.Service.State.{State}
use vshortlink.Service.Edit.{update, remove}
use vshortlink.Service.Expire.{expire_actives}
use vshortlink.Sql.{ShortLinkModel, from_core, code_is, Gorm}
use vshortlink.Sql.Repo
use vshortlink.Sql.Repo.{sql_repository, get_by_code}
use vshortlink.Sql.Table.{GormLaws, GormAnswers}
use vshortlink.Sql.Counts.{count, of_code, in_use, uses, IsSized}
use vshortlink.Sql.Uses.{uses-expiring}
use vshortlink.Sql.Saved.{Has, Has-All, newest-Has, count-saved, All-saved}
use vshortlink.Sql.Lookup.{positive, newest, get_by_code_newest}
use vshortlink.Sql.Due.{Sweep, is_due, with_status}
use vshortlink.Sql.Expire.{expiring, expire_actives_effect}

-- Dropping rows drops uses.
count-keep :
    (test kept : ShortLinkModel → Bool) (ms : List ShortLinkModel)
    → count test (keep kept ms) ≤ count test ms
count-keep test kept [] = omega arith
count-keep test kept (m ∷ ms) = ground (arith, count-keep test kept ms)

pub All-keep :
    (Q : ShortLinkModel → Type 0) (kept : ShortLinkModel → Bool) (ms : List ShortLinkModel)
    → All Q ms
    → All Q (keep kept ms)
All-keep Q kept [] h = tt
All-keep Q kept (m ∷ ms) h = elim (Bool-cases (kept m)) [
  | inl stays ↦ rw stays (h.0, All-keep Q kept ms h.1)
  | inr goes ↦ rw goes (All-keep Q kept ms h.1)
]

-- Marking rows leaves their codes and lengths.
pub sized-marked :
    (sweep : Sweep) (ms : List ShortLinkModel)
    → All IsSized ms
    → All IsSized (map (λ m. if is_due sweep m then with_status sweep m else m) ms)
sized-marked sweep [] h = tt
sized-marked sweep (m ∷ ms) h = elim (Bool-cases (is_due sweep m)) [
  | inl due ↦ rw due (h.0, sized-marked sweep ms h.1)
  | inr other ↦ rw other (h.0, sized-marked sweep ms h.1)
]

module _ {D : Type 0} (gorm : Gorm D) (laws : GormLaws gorm) where
  -- A row that is saved with its id, code, length and status leaves every code its uses.
  save_quiet :
      (m m' : ShortLinkModel) (d : D)
      → m'.id ≡ m.id
      → (m'.length ≡ m.length) × (m'.code ≡ m.code)
      → m'.status ≡ m.status
      → Has m (laws.committed d)
      → All IsSized (laws.committed d)
      → All IsSized (laws.committed (gorm.save m' d).1)
        × ((n : ℕ) (k : Text)
            → uses n k (laws.committed (gorm.save m' d).1) ≤ uses n k (laws.committed d))
  save_quiet m m' d same_id (same_length, same_code) same_status has sized =
      let has_id : 0 < m'.id =
        subst (λ i. 0 < i) (sym same_id)
          (Has-All (λ k. 0 < k.id) m (laws.committed d) has
            (positive (laws.committed d) (laws.by_id d))) in
      let fits : IsSized m' =
        same_length ∙ Has-All IsSized m (laws.committed d) has sized ∙ ap length (sym same_code) in
      elim (laws.save_writes m' d has_id) [
        | inl (done, writes) ↦ (
          subst (All IsSized) (sym writes)
              (All-saved m m' same_id IsSized (laws.committed d) fits sized),
          λ n k. omega (
            arith,
            ap (uses n k) writes,
            count-saved m m' same_id (λ r. in_use r && of_code n k r) (laws.committed d)
                (laws.by_id d) has
                (ap (λ b. ((b == 1) || (b == 2)) && of_code n k m') same_status
                  ∙ ap (λ j. in_use m && ((j == n) && same m'.code k)) same_length
                  ∙ ap (λ j. in_use m && ((m.length == n) && same j k)) same_code),
          ),
        )
        | inr (e, failed, same_rows) ↦ (
          subst (All IsSized) (sym same_rows) sized,
          λ n k. omega (arith, ap (uses n k) same_rows),
        )
      ]

module _ {D C P T L : Type 0} (gorm : Gorm D) (laws : GormLaws gorm) (cache : ShortLinkCache C)
    (cached : CacheLaws cache) (pool : ShortCodePool P) where
  -- The pool is as it was, and no code is in use that was not.
  pub record IsQuiet (s s' : State D C P T L) : Type 0 where
    pub fine : cached.IsFine s'.cache
    pub same_pool : s'.pool ≡ s.pool
    pub sized : All IsSized (laws.committed s'.repo)
    pub fewer :
        (n : ℕ) (k : Text) → uses n k (laws.committed s'.repo) ≤ uses n k (laws.committed s.repo)

  pub remove-IsQuiet :
      (code : Text) (s : State D C P T L)
      → cached.IsFine s.cache
      → All IsSized (laws.committed s.repo)
      → IsQuiet s (remove (sql_repository gorm) cache pool code s).1
  unfolding remove Repo.delete_by_code
  remove-IsQuiet code s fine sized =
      let (done, fine', shows) = cached.remove_shown s.cache (length code) code fine in
      elim (laws.delete_where_drops (code_is code) s.repo) [
        | inl (deleted, drops) ↦ record {
          fine = fine';
          same_pool = refl;
          sized =
              subst (All IsSized) (sym drops) (All-keep IsSized _ (laws.committed s.repo) sized);
          fewer = λ n k.
              subst (λ ms. uses n k ms ≤ uses n k (laws.committed s.repo)) (sym drops)
                (count-keep _ _ (laws.committed s.repo));
        }
        | inr (e, failed, same_rows) ↦ record {
          fine = fine';
          same_pool = refl;
          sized = subst (All IsSized) (sym same_rows) sized;
          fewer = λ n k. omega (arith, ap (uses n k) same_rows);
        }
      ]

  pub expire_actives-IsQuiet :
      (answers : GormAnswers gorm) (fuel : ℕ) (now : Time) (s : State D C P T L)
      → cached.IsFine s.cache
      → All IsSized (laws.committed s.repo)
      → length (keep (is_due (expiring now)) (laws.committed s.repo)) < fuel
      → IsQuiet s (expire_actives (sql_repository gorm) cache pool fuel now s).1
  expire_actives-IsQuiet answers fuel now s fine sized enough =
      let (s', run, shows, gone, fine', same_pool) =
        expire_actives_effect gorm laws answers cache cached pool now fuel s fine enough in
      subst (λ x. IsQuiet s x.1) (sym run)
        (record {
          fine = fine';
          same_pool = same_pool;
          sized =
              subst (All IsSized) (sym shows)
                (sized-marked (expiring now) (laws.committed s.repo) sized);
          fewer = λ n k.
              omega (arith, ap (uses n k) shows, uses-expiring n k now (laws.committed s.repo));
        })

  pub update-IsQuiet :
      (now : Time) (code title link : Text) (expire : Time) (s : State D C P T L)
      → cached.IsFine s.cache
      → cached.Takes link expire
      → All IsSized (laws.committed s.repo)
      → IsQuiet s (update (sql_repository gorm) cache pool now code title link expire s).1
  unfolding update Repo.update
  update-IsQuiet now code title link expire s fine takes sized =
      elim (Option-cases (newest code (laws.committed s.repo))) [
        | inl missing ↦
            let nothing : (update (sql_repository gorm) cache pool now code title link expire s).1
                ≡ s =
              rw (get_by_code_newest gorm laws code s.repo, missing) refl in
            subst (IsQuiet s) (sym nothing)
              (record { fine = fine; same_pool = refl; sized = sized; fewer = λ n k. omega arith })
        | inr (l, found) ↦
            let (done, fine', shows) =
              cached.add_shown s.cache (length code) code link expire fine takes in
            let m' : ShortLinkModel =
              record (from_core (record l { link = link; title = title; expire = expire })) {
                modify_time = now;
              } in
            let after : (update (sql_repository gorm) cache pool now code title link expire s).1
                ≡ record s {
                  cache = (cache.add (length code) code link expire s.cache).1;
                  repo = (gorm.save m' s.repo).1;
                } =
              rw (get_by_code_newest gorm laws code s.repo, found, done) refl in
            let (m, its, has, own) = newest-Has code (laws.committed s.repo) l found in
            let (sized', fewer) =
              save_quiet gorm laws m m' s.repo (ap (λ k. k.id) its)
                (ap (λ k. k.length) its, ap (λ k. k.code) its) (ap (λ k. k.status) its) has sized in
            subst (IsQuiet s) (sym after)
              (record { fine = fine'; same_pool = refl; sized = sized'; fewer = fewer })
      ]
