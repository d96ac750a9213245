-- ===== src/Sql/Cycle.antt =====
-- The way of a code: from the pool to a link by `Create`, and back to the pool after its expiry, by
-- `ExpireActives` and `RecycleExpires`.
use vshortlink.Prelude.{
  ℕ, ◌+◌, ◌-◌, ◌*◌, ◌≤◌, ◌<◌, ◌≡◌, refl, sym, ap, subst, ◌∙◌, Bool, true, none, some, List, [], ◌∷◌,
  ◌++◌, map, Text, length, length-append, length-map, keep, ltb, if◌then◌else◌, ok, arith,
  Bool-cases, inl, inr,
}
use vshortlink.Prelude.Int.{pos}
use vshortlink.Link.{Time}
use vshortlink.Interfaces.{ShortLinkCache, ShortCodePool, ShortLinkStats}
use vshortlink.Interfaces.Contract.{CacheLaws, PoolLaws}
use vshortlink.Service.State.{Config, State, LruCache, hour}
use vshortlink.Service.Edit.{create}
use vshortlink.Service.Edit.Memory.{new_link}
use vshortlink.Service.Edit.Lawful.{after_pull, create_pulled}
use vshortlink.Service.Expire.{expire_actives, recycle_expires}
use vshortlink.Http.Types.{Request}
use vshortlink.Http.Redirect.{http_handle}
use vshortlink.Http.Answers.{IsCodeRequest, answer}
use vshortlink.Http.Lawful.{redirect-add}
use vshortlink.Sql.{ShortLinkModel, Gorm}
use vshortlink.Sql.Repo.{sql_repository}
use vshortlink.Sql.Table.{GormLaws, GormAnswers}
use vshortlink.Sql.Manual.{new_row, add_row}
use vshortlink.Sql.Saved.{Has, Has-All}
use vshortlink.Sql.Due.{Sweep, is_due, with_status}
use vshortlink.Sql.Expire.{expiring, expire_actives_effect}
use vshortlink.Sql.Recycle.{year_old, recycle_expires_effect}

Has-append : (m : ShortLinkModel) (ms : List ShortLinkModel) → Has m (ms ++ m ∷ [])
Has-append m [] = inl refl
Has-append m (r ∷ rs) = inr (Has-append m rs)

-- What is marked, and was there, is there afterwards.
Has-marked :
    (w : Sweep) (m : ShortLinkModel) (ms : List ShortLinkModel)
    → is_due w m ≡ true
    → Has m ms
    → Has (with_status w m) (map (λ k. if is_due w k then with_status w k else k) ms)
Has-marked w m [] due has = elim has [ ]
Has-marked w m (r ∷ rs) due (inl own) = rw own (rw due (inl refl))
Has-marked w m (r ∷ rs) due (inr later) = inr (Has-marked w m rs due later)

Has-due :
    (w : Sweep) (m : ShortLinkModel) (ms : List ShortLinkModel)
    → is_due w m ≡ true
    → Has m ms
    → Has m (keep (is_due w) ms)
Has-due w m [] due has = elim has [ ]
Has-due w m (r ∷ rs) due (inl own) = rw own (rw due (inl refl))
Has-due w m (r ∷ rs) due (inr later) = elim (Bool-cases (is_due w r)) [
  | inl also ↦ rw also (inr (Has-due w m rs due later))
  | inr other ↦ rw other (Has-due w m rs due later)
]

due_at_most : (w : Sweep) (ms : List ShortLinkModel) → length (keep (is_due w) ms) ≤ length ms
due_at_most w [] = omega arith
due_at_most w (m ∷ ms) = ground (arith, due_at_most w ms)

module _ {D C P T L : Type 0} (gorm : Gorm D) (laws : GormLaws gorm) (answers : GormAnswers gorm)
    (cache : ShortLinkCache C) (cached : CacheLaws cache) (pool : ShortCodePool P)
    (pooled : PoolLaws pool) where
  -- A row that is due for both sweeps.
  row_comes_back :
      (m : ShortLinkModel) (fuel : ℕ) (later last : Time) (s : State D C P T L)
      → cached.IsFine s.cache
      → pooled.IsFine s.pool
      → Has m (laws.committed s.repo)
      → length (laws.committed s.repo) < fuel
      → is_due (expiring later) m ≡ true
      → is_due (year_old last) (with_status (expiring later) m) ≡ true
      → let s₂ = (expire_actives (sql_repository gorm) cache pool fuel later s).1 in
        let s₃ = (recycle_expires (sql_repository gorm) cache pool fuel last s₂).1 in
        ((t : Time) → cached.shown s₂.cache t m.length m.code ≡ none)
        × (0 < pooled.amount s₃.pool m.length m.code)
  row_comes_back m fuel later last s fine pool_fine has enough due due' =
      let rows : List ShortLinkModel = laws.committed s.repo in
      let (s₂, run, shows, gone, fine', same_pool) =
        expire_actives_effect gorm laws answers cache cached pool later fuel s fine
          (omega (arith, enough, due_at_most (expiring later) rows)) in
      let (s₃, run', shows', holds, keeps, most, fine'', same_cache) =
        recycle_expires_effect gorm laws answers cache pool pooled last fuel s₂
          (subst pooled.IsFine (sym same_pool) pool_fine)
          (omega (
            arith,
            enough,
            due_at_most (year_old last) (laws.committed s₂.repo),
            ap length shows,
            length-map rows
                (λ k. if is_due (expiring later) k then with_status (expiring later) k else k),
          )) in
      let m' : ShortLinkModel = with_status (expiring later) m in
      let has' : Has m' (laws.committed s₂.repo) =
        subst (Has m') (sym shows) (Has-marked (expiring later) m rows due has) in
      (
        λ t.
            subst (λ x. cached.shown x.1.cache t m.length m.code ≡ none) (sym run)
              (Has-All (λ k. (t : Time) → cached.shown s₂.cache t k.length k.code ≡ none) m
                (keep (is_due (expiring later)) rows) (Has-due (expiring later) m rows due has) gone
                t),
        subst
            (λ x.
              0
              < pooled.amount
                  (recycle_expires (sql_repository gorm) cache pool fuel last x.1).1.pool m.length
                  m.code)
            (sym run)
            (subst (λ x. 0 < pooled.amount x.1.pool m.length m.code) (sym run')
              (Has-All (λ k. 0 < pooled.amount s₃.pool k.length k.code) m'
                (keep (is_due (year_old last)) (laws.committed s₂.repo))
                (Has-due (year_old last) m' (laws.committed s₂.repo) due' has') holds)),
      )

  -- Over a GORM table whose calls do not fail, and a cache and a pool that keep their contracts: let
  -- `Create` of a length from 1 to the largest configured one, with a link that the cache takes, pull a
  -- code; then `ExpireActives` run after the expiry, and then `RecycleExpires` more than a year after
  -- it, both with more fuel than there are rows. After `Create`, a request for the code that the LRU
  -- cache does not have is redirected to the link, until the expiry as the cache keeps it. After
  -- `ExpireActives` the cache shows no link for the code. After `RecycleExpires` the pool holds it.
  pub code_comes_back :
      (stats : ShortLinkStats T) (lru : LruCache L) (c : Config) (day_key : ℕ → Text) (n fuel : ℕ)
      (now at later last : Time) (r : Request) (title link : Text) (expire : Time)
      (s : State D C P T L) (code : Text) (enough : Bool)
      → 0 < n
      → n ≤ c.max_code_length
      → cached.IsFine s.cache
      → pooled.IsFine s.pool
      → cached.Takes link expire
      → (pool.pull n s.pool).0 ≡ ok (code, enough)
      → IsCodeRequest c r code
      → (lru.get code s.mem_lru_cache).0 ≡ none
      → length (laws.committed s.repo) + 1 < fuel
      → expire < later
      → expire < last - hour * 24 * 365
      → let repo = sql_repository gorm in
        let s₁ = (create repo cache pool c now title link (pos n) expire s).1 in
        let s₂ = (expire_actives repo cache pool fuel later s₁).1 in
        let s₃ = (recycle_expires repo cache pool fuel last s₂).1 in
        ((http_handle repo cache pool stats lru c day_key at r s₁).0
          ≡ answer (if ltb (cached.kept expire) at then none else some link))
        × ((t : Time) → cached.shown s₂.cache t (length code) code ≡ none)
        × (0 < pooled.amount s₃.pool (length code) code)
  code_comes_back stats lru c day_key n fuel now at later last r title link expire s code enough low
        high fine pool_fine takes pulled asked missing fuels over over' =
      let (pool_fine', taken) = pooled.pull_amount s.pool n pool_fine in
      let t : State D C P T L = after_pull pool n enough s in
      let same =
        create_pulled (sql_repository gorm) cache pool c n low high now title link expire s code
          enough pulled in
      let (id, s₁, run, adds, fine', same_pool) =
        add_row gorm laws answers cache cached pool now code title link expire t fine takes in
      let m : ShortLinkModel = new_row now id (new_link id code title link expire) in
      let (gone, back) =
        row_comes_back m fuel later last s₁ fine' (subst pooled.IsFine (sym same_pool) pool_fine')
          (subst (Has m) (sym adds) (Has-append m (laws.committed s.repo)))
          (omega (arith, fuels, ap length adds, length-append (laws.committed s.repo) (m ∷ [])))
          (ground (arith, over)) (ground (arith, over')) in
      (
        ap (λ x. (http_handle (sql_repository gorm) cache pool stats lru c day_key at r x.1).0) same
            ∙ redirect-add (sql_repository gorm) cache pool stats lru c day_key cached at r code t
                asked missing fine now title link expire takes,
        λ t'.
            subst
              (λ x.
                cached.shown
                  (expire_actives (sql_repository gorm) cache pool fuel later x.1).1.cache t'
                  (length code) code
                ≡ none)
              (sym (same ∙ run)) (gone t'),
        subst
            (λ x.
              0
              < pooled.amount
                  (recycle_expires (sql_repository gorm) cache pool fuel last
                    (expire_actives (sql_repository gorm) cache pool fuel later x.1).1).1.pool
                  (length code) code)
            (sym (same ∙ run)) back,
      )
