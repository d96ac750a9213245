-- ===== src/Examples/Sql.antt =====
-- The service over the SQL repository at concrete inputs.
use Prim.Native.Nat.{min}
use vshortlink.Prelude.{
  some, ◌++◌, ℕ, ◌≡◌, ◌≤◌, ◌<◌, refl, sym, subst, [], ◌∷◌, map, Text, codes, none, length, keep, ok,
  arith, if◌then◌else◌, true, Option, All,
}
use vshortlink.Prelude.Int.{pos}
use vshortlink.Link.{Time}
use vshortlink.Memory.Pool.{MemoryShortCodePool, memory_pool}
use vshortlink.Memory.Pool.Contract.{memory_pool_refines}
use vshortlink.Memory.Cache.{MemoryShortLinkCache, memory_cache}
use vshortlink.Memory.Cache.Contract.{memory_cache_refines}
use vshortlink.Memory.Stats.{MemoryShortLinkStats}
use vshortlink.Memory.Repo
use vshortlink.Service.State.{State, default_config}
use vshortlink.Service.Expire.{expire_actives, recycle_expires}
use vshortlink.Sql.{from_core, to_core}
use vshortlink.Sql.Repo.{sql_repository, updates, get_by_code, list}
use vshortlink.Sql.Updates.{AllOrNothing, all_saved, updates-AllOrNothing}
use vshortlink.Sql.Due.{is_due, with_status}
use vshortlink.Sql.Expire.{expiring, expire_actives_covers_due}
use vshortlink.Sql.Recycle.{year_old, recycle_expires_covers_due}
use vshortlink.Sql.Lookup.{newest, get_by_code_newest}
use vshortlink.Sql.Agrees.{list_agrees}
use vshortlink.Service.Edit.Memory.{new_link}
use vshortlink.Http.Types.{EditLinkRequest, bad_msg, success, one_link}
use vshortlink.Http.Manage.{http_handle_create, default_expire, taken}
use vshortlink.Sql.Manual.{new_row, create_manual_answer}
use vshortlink.Examples.Data.{sample, two_links, in_order, stored_link}
use vshortlink.Examples.Table.{Database, database, database_laws, database_answers}

abbrev pub two_rows : Database
two_rows = record {
  shown = (
    from_core (stored_link 1 (codes "a")) ∷ from_core (stored_link 2 (codes "b")) ∷ [],
    (omega arith, (omega arith, tt), (omega arith, tt, tt)),
  );
  written = ([], tt);
  indices = [];
}

abbrev pub Stored : Type 0
Stored = State Database MemoryShortLinkCache MemoryShortCodePool MemoryShortLinkStats (Option Text)

abbrev pub stored : Stored
stored = record {
  repo = two_rows;
  cache = sample.cache;
  pool = sample.pool;
  stats = sample.stats;
  mem_lru_cache = none;
  recorder = sample.recorder;
  generators = sample.generators;
  spawned = [];
}

updates-AllOrNothing_example :
    AllOrNothing database database_laws 50
      (updates database 50 (stored_link 2 (codes "b") ∷ []) two_rows)
      (database_laws.committed two_rows)
      (all_saved 50 (stored_link 2 (codes "b") ∷ []) (database_laws.committed two_rows))
updates-AllOrNothing_example =
    updates-AllOrNothing database database_laws 50 (stored_link 2 (codes "b") ∷ []) two_rows
      (omega arith, tt)

get_by_code_newest_example :
    get_by_code database (codes "b") two_rows
    ≡ (ok (newest (codes "b") (database_laws.committed two_rows)), two_rows)
get_by_code_newest_example = get_by_code_newest database database_laws (codes "b") two_rows

-- The contracts of the memory cache and pool, which hold in every state.
abbrev pub cache_fine : memory_cache_refines.0.IsFine stored.cache
cache_fine =
    subst (λ (F : MemoryShortLinkCache → Type 0). F stored.cache) (sym memory_cache_refines.1) tt

abbrev pub pool_fine : memory_pool_refines.0.IsFine stored.pool
pool_fine =
    subst (λ (F : MemoryShortCodePool → Type 0). F stored.pool) (sym memory_pool_refines.1) tt

due_one : length (keep (is_due (expiring 5000)) (database_laws.committed two_rows)) < 3
unfolding database_laws
due_one = omega arith

expire_actives_covers_due_example :
    (s' : Stored) × (expire_actives (sql_repository database) memory_cache memory_pool 3 5000 stored
      ≡ (ok tt, s'))
    × (database_laws.committed s'.repo
        ≡ map
            (λ m. if is_due (expiring 5000) m then with_status (expiring 5000) m else m)
            (database_laws.committed two_rows))
    × All
        (λ m. (t : Time) → memory_cache_refines.0.shown s'.cache t m.length m.code ≡ none)
        (keep (is_due (expiring 5000)) (database_laws.committed two_rows))
expire_actives_covers_due_example =
    expire_actives_covers_due database database_laws database_answers memory_cache
      memory_cache_refines.0 memory_pool 5000 3 stored cache_fine due_one

abbrev years_later : Time
years_later = 100000000000000000

abbrev expired_row : Database
expired_row = record two_rows {
  shown =
      (from_core (record (stored_link 1 (codes "a")) { status = 2 }) ∷ [], (omega arith, tt, tt));
}

abbrev expired_stored : Stored
expired_stored = record stored { repo = expired_row }

recycled_one :
    length (keep (is_due (year_old years_later)) (database_laws.committed expired_row)) < 2
unfolding database_laws
recycled_one = omega arith

recycle_expires_covers_due_example :
    (s' : Stored) × (recycle_expires
        (sql_repository database)
        memory_cache
        memory_pool
        2
        years_later
        expired_stored
      ≡ (ok tt, s'))
    × (database_laws.committed s'.repo
        ≡ map
            (λ m.
              if is_due (year_old years_later) m then with_status (year_old years_later) m else m)
            (database_laws.committed expired_row))
    × All
        (λ m. 0 < memory_pool_refines.0.amount s'.pool m.length m.code)
        (keep (is_due (year_old years_later)) (database_laws.committed expired_row))
    × ((n : ℕ) (k : Text)
        → min 1 (memory_pool_refines.0.amount stored.pool n k)
          ≤ memory_pool_refines.0.amount s'.pool n k)
recycle_expires_covers_due_example =
    recycle_expires_covers_due database database_laws database_answers memory_cache memory_pool
      memory_pool_refines.0 years_later 2 expired_stored pool_fine recycled_one

same_rows :
    map to_core (database_laws.committed two_rows)
    ≡ Repo.sort_by_id (map (λ e. e.1) (in_order two_links.links))
unfolding database_laws Repo.sort_by_id
same_rows = refl

list_agrees_example :
    (list database (pos 1) (1 ∷ []) 10 (pos 1) true two_rows).0
    ≡ (Repo.list in_order (pos 1) (1 ∷ []) 10 (pos 1) true two_links).0
list_agrees_example =
    list_agrees database database_laws in_order two_rows two_links 1 10 1 1 []
      (refl, (ground arith, tt), (refl, tt, tt)) same_rows (omega arith)

abbrev manual : EditLinkRequest
manual = record {
  code = codes "zz";
  title = codes "t";
  link = codes "u";
  length = pos 2;
  expire = 900;
}

create_manual_answer_example :
    (id : ℕ) × (s' : Stored) × (http_handle_create
        (sql_repository database)
        memory_cache
        memory_pool
        default_config
        100
        manual
        stored
      ≡ (if taken (newest (codes "zz") (database_laws.committed two_rows))
          then (bad_msg (codes "code already exists"), stored)
          else (
            success (
                one_link (
                  some
                    (new_link id (codes "zz") (codes "t") (codes "u") (default_expire 100 900)))),
            s',
          )))
    × (database_laws.committed s'.repo
        ≡ database_laws.committed two_rows
          ++ new_row 100 id
              (new_link id (codes "zz") (codes "t") (codes "u") (default_expire 100 900))
            ∷ [])
create_manual_answer_example =
    create_manual_answer database database_laws database_answers memory_cache memory_cache_refines.0
      memory_pool 100 default_config manual stored (ground arith) (ground arith) (ground arith) refl
      refl (omega arith) cache_fine
      (subst (λ (F : Text → Time → Type 0). F (codes "u") 900) (sym memory_cache_refines.2) tt)
