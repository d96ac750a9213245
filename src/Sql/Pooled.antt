-- ===== src/Sql/Pooled.antt =====
-- A code that is created by hand while the pool holds it: cores/http.go, `httpHandleCreate`.
use vshortlink.Prelude.{
  ◌≤◌, ◌<◌, ◌≡◌, ◌≢◌, refl, sym, ap, subst, ◌∙◌, true, false, some, [], ◌∷◌, length, same_refl,
  ◌&&◌, ==_iff, arith,
}
use vshortlink.Prelude.Int.{pos, leb_ℤ}
use vshortlink.Link.{Time, ShortLink}
use vshortlink.Interfaces.{ShortLinkCache, ShortCodePool}
use vshortlink.Interfaces.Contract.{CacheLaws, PoolLaws}
use vshortlink.Service.State.{Config, State}
use vshortlink.Service.Edit.Memory.{new_link}
use vshortlink.Http.Types.{EditLinkRequest, success, one_link}
use vshortlink.Http.Manage.{http_handle_create, default_expire, equals_ℤ, taken}
use vshortlink.Sql.{Gorm}
use vshortlink.Sql.Repo.{sql_repository}
use vshortlink.Sql.Table.{GormLaws, GormAnswers}
use vshortlink.Sql.Lookup.{newest}
use vshortlink.Sql.Counts.{count-append, of_code, in_use, uses}
use vshortlink.Sql.Manual.{new_row, create_manual_effect}

-- Over a GORM table whose calls do not fail, and a cache and a pool that keep their contracts, where
-- the largest manual length is at most the largest configured one: a request to create a code by hand,
-- with a link that the cache takes and a title, and a length from 1 or below 0 up to the largest manual
-- one, takes a code that the pool holds, of whatever length, where the last link with the code is
-- recycled or there is none. It is answered with a link that has the code; afterwards the code is in
-- use, and the pool holds it all the same.
pub manual_code_stays_pooled :
    {D C P T L : Type 0} (gorm : Gorm D) (laws : GormLaws gorm) (answers : GormAnswers gorm)
    (cache : ShortLinkCache C) (cached : CacheLaws cache) (pool : ShortCodePool P)
    (pooled : PoolLaws pool) (c : Config) (now : Time) (req : EditLinkRequest) (s : State D C P T L)
    → req.link ≢ []
    → req.title ≢ []
    → req.code ≢ []
    → equals_ℤ req.length (pos 0) ≡ false
    → leb_ℤ req.length (pos c.manual_code_length) ≡ true
    → c.manual_code_length ≤ c.max_code_length
    → cached.IsFine s.cache
    → cached.Takes req.link (default_expire now req.expire)
    → taken (newest req.code (laws.committed s.repo)) ≡ false
    → 0 < pooled.amount s.pool (length req.code) req.code
    → (l : ShortLink) × (s' : State D C P T L) × (http_handle_create
          (sql_repository gorm)
          cache
          pool
          c
          now
          req
          s
        ≡ (success (one_link (some l)), s'))
      × (l.code ≡ req.code)
      × (0 < uses (length req.code) req.code (laws.committed s'.repo))
      × (0 < pooled.amount s'.pool (length req.code) req.code)
manual_code_stays_pooled gorm laws answers cache cached pool pooled c now req s hl ht hc nonzero
      manual wide fine takes free held =
    let (id, s', run, adds, fine', same_pool) =
      create_manual_effect gorm laws answers cache cached pool now c req s hl ht hc nonzero manual
        wide fine takes in
    let l : ShortLink = new_link id req.code req.title req.link (default_expire now req.expire) in
    let used : uses (length req.code) req.code (new_row now id l ∷ []) ≡ 1 =
      ground (arith, same_refl req.code, ==_iff (length req.code) (length req.code)) in
    (
      l,
      s',
      run ∙ rw free refl,
      refl,
      omega (
        arith,
        used,
        ap (uses (length req.code) req.code) adds,
        count-append (λ m. in_use m && of_code (length req.code) req.code m) (laws.committed s.repo)
            (new_row now id l ∷ []),
      ),
      subst (λ p. 0 < pooled.amount p (length req.code) req.code) (sym same_pool) held,
    )
