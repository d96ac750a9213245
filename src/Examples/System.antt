-- ===== src/Examples/System.antt =====
-- The whole service over the SQL repository, the memory cache and the memory pool, and the server.
use vshortlink.Memory.Pool.Queue.{queue}
use vshortlink.Prelude.Keyed.{lookup, nat_key}
use vshortlink.Prelude.{
  ℕ, ◌∙◌, ap, ◌+◌, ◌≡◌, ◌<◌, refl, sym, subst, [], ◌∷◌, Text, codes, same, same_refl, none, some,
  length, ok, arith, if◌then◌else◌, ltb, occurrences, ◌==◌, ==_iff, false, true,
}
use vshortlink.Prelude.Int.{pos}
use vshortlink.Link.{Time, ShortLink}
use vshortlink.Memory.Pool.{MemoryShortCodePool, memory_pool}
use vshortlink.Memory.Pool.Contract.{memory_pool_refines}
use vshortlink.Memory.Cache.{memory_cache}
use vshortlink.Memory.Cache.Contract.{memory_cache_refines}
use vshortlink.Memory.Stats.{memory_stats}
use vshortlink.Service.State.{default_config}
use vshortlink.Service.Edit.{create, remove}
use vshortlink.Service.Expire.{expire_actives, recycle_expires}
use vshortlink.Http.Redirect.{http_handle}
use vshortlink.Http.Answers.{answer}
use vshortlink.Sql.Repo.{sql_repository}
use vshortlink.Sql.Counts.{uses}
use vshortlink.Sql.Lookup.{newest}
use vshortlink.Sql.Pooled.{manual_code_stays_pooled}
use vshortlink.Sql.Cycle.{code_comes_back}
use vshortlink.Memory.Pool
use vshortlink.Http.Types.{EditLinkRequest, success, one_link, strip_prefix}
use vshortlink.Http.Manage.{http_handle_create, taken}
use vshortlink.Http.Answers.{IsCodeRequest}
use vshortlink.Examples.Data.{one_link_lru, get_request, day_key}
use vshortlink.Examples.Table.{database, database_laws, database_answers}
use vshortlink.Examples.Sql.{two_rows, Stored, stored, cache_fine, pool_fine}

held :
    (n : ℕ) (k : Text)
    → memory_pool_refines.0.amount stored.pool n k ≡ occurrences k (queue stored.pool n)
held n k =
    subst
      (λ (a : MemoryShortCodePool → ℕ → Text → ℕ).
        a stored.pool n k ≡ occurrences k (queue stored.pool n))
      (sym memory_pool_refines.2) refl

held_one :
    (k : Text) → occurrences k (queue stored.pool 1) ≡ occurrences k (codes "c" ∷ codes "d" ∷ [])
unfolding queue lookup
held_one k = refl

held_other : (n : ℕ) (k : Text) → (1 == n) ≡ false → occurrences k (queue stored.pool n) ≡ 0
unfolding queue lookup
held_other n k h = ground (arith, h)

held_at_one :
    (n : ℕ) (k : Text)
    → (1 == n) ≡ true
    → memory_pool_refines.0.amount stored.pool n k ≡ occurrences k (codes "c" ∷ codes "d" ∷ [])
held_at_one n k one =
    held n k
    ∙ ap (λ m. occurrences k (queue stored.pool m)) (ground (arith, one, ==_iff 1 n))
    ∙ held_one k

-- The memory cache takes every link.
abbrev takes : memory_cache_refines.0.Takes (codes "u") 900
takes = subst (λ (F : Text → Time → Type 0). F (codes "u") 900) (sym memory_cache_refines.2) tt

-- A link is created, and the link of "a" is removed.
abbrev created : Stored
created =
    (create (sql_repository database) memory_cache memory_pool default_config 100 (codes "t")
      (codes "u") (pos 1) 900 stored).1

abbrev removed : Stored
removed = (remove (sql_repository database) memory_cache memory_pool (codes "a") created).1

-- A manual code that the pool of another length holds.
abbrev manual : EditLinkRequest
manual = record {
  code = codes "c";
  title = codes "t";
  link = codes "u";
  length = pos 2;
  expire = 900;
}

unused : taken (newest (codes "c") (database_laws.committed two_rows)) ≡ false
unfolding database_laws same
unused = refl

manual_code_stays_pooled_example :
    (l : ShortLink) × (s' : Stored) × (http_handle_create
        (sql_repository database)
        memory_cache
        memory_pool
        default_config
        100
        manual
        stored
      ≡ (success (one_link (some l)), s'))
    × (l.code ≡ codes "c")
    × (0 < uses 1 (codes "c") (database_laws.committed s'.repo))
    × (0 < memory_pool_refines.0.amount s'.pool 1 (codes "c"))
manual_code_stays_pooled_example =
    manual_code_stays_pooled database database_laws database_answers memory_cache
      memory_cache_refines.0 memory_pool memory_pool_refines.0 default_config 100 manual stored
      (ground arith) (ground arith) (ground arith) refl refl (omega arith) cache_fine takes unused
      (ground (arith, held 1 (codes "c"), held_one (codes "c"), same_refl (codes "c")))

first_pulled : (memory_pool.pull 1 stored.pool).0 ≡ ok (codes "c", false)
unfolding Pool.pull lookup
first_pulled = refl

c_request : IsCodeRequest default_config (get_request (codes "/c")) (codes "c")
unfolding strip_prefix
c_request = record {
  path = refl;
  method = ground arith;
  plain = refl;
  nonempty = ground arith;
  short = omega arith;
}

few_rows : length (database_laws.committed stored.repo) + 1 < 4
unfolding database_laws
few_rows = omega arith

abbrev years_later : Time
years_later = 100000000000000000

abbrev expired : Stored
expired = (expire_actives (sql_repository database) memory_cache memory_pool 4 5000 created).1

code_comes_back_example :
    ((http_handle
        (sql_repository database)
        memory_cache
        memory_pool
        memory_stats
        one_link_lru
        default_config
        day_key
        200
        (get_request (codes "/c"))
        created).0
      ≡ answer (if ltb (memory_cache_refines.0.kept 900) 200 then none else some (codes "u")))
    × ((t : Time) → memory_cache_refines.0.shown expired.cache t 1 (codes "c") ≡ none)
    × (0
        < memory_pool_refines.0.amount
            (recycle_expires
              (sql_repository database)
              memory_cache
              memory_pool
              4
              years_later
              expired).1.pool
            1
            (codes "c"))
code_comes_back_example =
    code_comes_back database database_laws database_answers memory_cache memory_cache_refines.0
      memory_pool memory_pool_refines.0 memory_stats one_link_lru default_config day_key 1 4 100 200
      5000 years_later (get_request (codes "/c")) (codes "t") (codes "u") 900 stored (codes "c")
      false (omega arith) (omega arith) cache_fine pool_fine takes first_pulled c_request refl
      few_rows (omega arith) (omega arith)
