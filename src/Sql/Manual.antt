-- ===== src/Sql/Manual.antt =====
-- The creation of a manual code through the handler, over the SQL repository.
use vshortlink.Prelude.{
  ℕ, ◌≤◌, ◌≡◌, ◌≢◌, refl, true, false, some, [], ◌∷◌, ◌++◌, Text, codes, is_empty_ne, length,
  if◌then◌else◌, ok, inl, inr, Bool-cases, arith,
}
use vshortlink.Prelude.Int.{pos, leb_ℤ, ltb_ℤ}
use vshortlink.Link.{Time, ShortLink}
use vshortlink.Interfaces.{ShortLinkCache, ShortCodePool}
use vshortlink.Interfaces.Contract.{CacheLaws}
use vshortlink.Service.State.{Config, State}
use vshortlink.Service.Edit.{add}
use vshortlink.Service.Edit.Memory.{new_link}
use vshortlink.Http.Types.{EditLinkRequest, bad_msg, success, one_link}
use vshortlink.Http.Manage.{http_handle_create, default_expire, equals_ℤ, taken}
use vshortlink.Sql.{ShortLinkModel, from_core, Gorm}
use vshortlink.Sql.Repo.{create, sql_repository}
use vshortlink.Sql.Table.{GormLaws, GormAnswers}
use vshortlink.Sql.Lookup.{newest, get_by_code_newest}

-- The row that `Create` makes of a link.
abbrev pub new_row : Time → ℕ → ShortLink → ShortLinkModel
new_row now id link = record (from_core link) { id = id; create_time = now; modify_time = now }

module _ {D : Type 0} (gorm : Gorm D) (laws : GormLaws gorm) (answers : GormAnswers gorm)
    (now : Time) where
  create_row :
      (link : ShortLink) (d : D)
      → link.id ≡ 0
      → (id : ℕ) × (d' : D) × (create gorm now link d ≡ (ok (record link { id = id }), d'))
        × (laws.committed d' ≡ laws.committed d ++ new_row now id link ∷ [])
  unfolding create
  create_row link d new =
      let m : ShortLinkModel = record (from_core link) { create_time = now; modify_time = now } in
      let (answer, answered) = answers.create_ok m d in
      elim (laws.create_adds m d new) [
        | inl (id, done, adds) ↦ (id, (gorm.create m d).1, rw done refl, adds)
        | inr (e, failed, same_rows) ↦ ground (arith, answered, failed)
      ]

module _ {D C P T L : Type 0} (gorm : Gorm D) (laws : GormLaws gorm) (answers : GormAnswers gorm)
    (cache : ShortLinkCache C) (cached : CacheLaws cache) (pool : ShortCodePool P)
    (now : Time) where
  pub add_row :
      (code title link : Text) (expire : Time) (s : State D C P T L)
      → cached.IsFine s.cache
      → cached.Takes link expire
      → (id : ℕ) × (s' : State D C P T L) × (add
            (sql_repository gorm)
            cache
            pool
            now
            code
            title
            link
            expire
            s
          ≡ (ok (new_link id code title link expire), s'))
        × (laws.committed s'.repo
            ≡ laws.committed s.repo ++ new_row now id (new_link id code title link expire) ∷ [])
        × cached.IsFine s'.cache
        × (s'.pool ≡ s.pool)
  unfolding add
  add_row code title link expire s fine takes =
      let (done, kept, shows) =
        cached.add_shown s.cache (length code) code link expire fine takes in
      let (id, d, run, adds) =
        create_row gorm laws answers now (new_link 0 code title link expire) s.repo refl in
      (
        id,
        record s { cache = (cache.add (length code) code link expire s.cache).1; repo = d },
        rw (done, run) refl,
        adds,
        kept,
        refl,
      )

  -- All that a request for a manual code changes.
  pub create_manual_effect :
      (c : Config) (req : EditLinkRequest) (s : State D C P T L)
      → req.link ≢ []
      → req.title ≢ []
      → req.code ≢ []
      → equals_ℤ req.length (pos 0) ≡ false
      → leb_ℤ req.length (pos c.manual_code_length) ≡ true
      → c.manual_code_length ≤ c.max_code_length
      → cached.IsFine s.cache
      → cached.Takes req.link (default_expire now req.expire)
      → let expire = default_expire now req.expire in
        (id : ℕ) × (s' : State D C P T L) × (http_handle_create
            (sql_repository gorm)
            cache
            pool
            c
            now
            req
            s
          ≡ (if taken (newest req.code (laws.committed s.repo))
              then (bad_msg (codes "code already exists"), s)
              else (
                success (one_link (some (new_link id req.code req.title req.link expire))),
                s',
              )))
        × (laws.committed s'.repo
            ≡ laws.committed s.repo
              ++ new_row now id (new_link id req.code req.title req.link expire) ∷ [])
        × cached.IsFine s'.cache
        × (s'.pool ≡ s.pool)
  unfolding http_handle_create
  create_manual_effect c req s hl ht hc nonzero manual wide fine takes =
      let fits : ltb_ℤ (pos c.max_code_length) req.length ≡ false = ground arith in
      let (id, s', run, adds, fine', same_pool) =
        add_row req.code req.title req.link (default_expire now req.expire) s fine takes in
      (
        id,
        s',
        rw
            (
              is_empty_ne req.link hl,
              is_empty_ne req.title ht,
              nonzero,
              fits,
              manual,
              is_empty_ne req.code hc,
              get_by_code_newest gorm laws req.code s.repo,
            )
            (elim (Bool-cases (taken (newest req.code (laws.committed s.repo)))) [
              | inl refused ↦ rw refused refl
              | inr free ↦ rw (free, run) refl
            ]),
        adds,
        fine',
        same_pool,
      )

  -- Over a GORM table whose calls do not fail, a cache that keeps its contract and takes the link, and
  -- any pool, where the largest manual length is at most the largest configured one: a request to
  -- create a code by hand, with a link and a title, and a length from 1 or below 0 up to the largest
  -- manual one, is refused if the last link with the code is not recycled, and nothing changes.
  -- Otherwise it is answered with a new link that has the code, and its row is added.
  pub create_manual_answer :
      (c : Config) (req : EditLinkRequest) (s : State D C P T L)
      → req.link ≢ []
      → req.title ≢ []
      → req.code ≢ []
      → equals_ℤ req.length (pos 0) ≡ false
      → leb_ℤ req.length (pos c.manual_code_length) ≡ true
      → c.manual_code_length ≤ c.max_code_length
      → cached.IsFine s.cache
      → cached.Takes req.link (default_expire now req.expire)
      → let expire = default_expire now req.expire in
        (id : ℕ) × (s' : State D C P T L) × (http_handle_create
            (sql_repository gorm)
            cache
            pool
            c
            now
            req
            s
          ≡ (if taken (newest req.code (laws.committed s.repo))
              then (bad_msg (codes "code already exists"), s)
              else (
                success (one_link (some (new_link id req.code req.title req.link expire))),
                s',
              )))
        × (laws.committed s'.repo
            ≡ laws.committed s.repo
              ++ new_row now id (new_link id req.code req.title req.link expire) ∷ [])
  create_manual_answer c req s hl ht hc nonzero manual wide fine takes =
      let (id, s', run, adds, fine', same_pool) =
        create_manual_effect c req s hl ht hc nonzero manual wide fine takes in
      (id, s', run, adds)
