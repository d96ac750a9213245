-- ===== src/Examples/Start.antt =====
-- The start of the service over the memory backends, and of the server over its connections.
use vshortlink.Prelude.{
  ◌≤◌, ◌<◌, ℕ, ◌≡◌, refl, ◌&&◌, some, none, [], ◌∷◌, List, ltb, leb, if◌then◌else◌, length, ok,
  arith, Option-cases, inl, inr,
}
use vshortlink.Prelude.Keyed.{lookup, nat_key}
use vshortlink.Gen.Batches.{generator_of}
use vshortlink.Memory.Pool
use vshortlink.Memory.Pool.{MemoryShortCodePool, memory_pool}
use vshortlink.Memory.Repo.{memory_repository}
use vshortlink.Service.State.{
  ServiceOption, with_max_code_length, with_batch_generate_size, apply_options, apply_option,
  default_config,
}
use vshortlink.Service.Generate.{new_service}
use vshortlink.Service.Generate.Start.{new_service-generators}
use vshortlink.Redis.{Redis}
use vshortlink.Redis.Pool as RedisPool
use vshortlink.Redis.Server.{members}
use vshortlink.Prelude.{same}
use vshortlink.Server.{Settings, Environment, Connections, start, panicked_start, read_settings}
use vshortlink.Server.Consistent.{start-zero_batch}
use vshortlink.Examples.Server.{Store, server}
use vshortlink.Examples.Redis.{no_data}
use vshortlink.Prelude.{Option, Text, codes, refl, false, err, panicked}
use vshortlink.Service.State.{State}
use vshortlink.Examples.Table.{Database, database}
use vshortlink.Examples.Sql.{two_rows}
use vshortlink.Prelude.Int.{ℤ, pos}
use vshortlink.Service.State.{minute}
use vshortlink.Service.Generate.{batch_generate}
use vshortlink.Service.Generate.Unmade.{manual_length_panics}
use vshortlink.Memory.Repo
use vshortlink.Memory.Repo.{MemoryShortLinkRepository}
use vshortlink.Memory.Cache.{memory_cache}
use vshortlink.Service.Edit.{create}
use vshortlink.Examples.Data.{Sample}
use vshortlink.Examples.Data.{sample, in_order}

abbrev small : List ServiceOption
small = with_max_code_length 5 ∷ with_batch_generate_size 4 ∷ []

sized : (n : ℕ) (p : MemoryShortCodePool) → (k : ℕ) × ((Pool.size n p).0 ≡ ok k)
unfolding Pool.size
sized n p = elim (Option-cases (lookup n p.pools)) [
  | inl missing ↦ (0, rw missing refl)
  | inr (codes, found) ↦ (length codes, rw found refl)
]

small_batches : 0 < (apply_options small default_config).batch_generate_size
unfolding apply_options apply_option
small_batches = omega arith

small_lengths : (apply_options small default_config).max_code_length ≤ 10
unfolding apply_options apply_option
small_lengths = omega arith

new_service-generators_example :
    ((new_service (memory_repository in_order) memory_pool small 100 sample).1.0 ≡ ok tt)
    × ((n : ℕ)
        → lookup n
            (new_service (memory_repository in_order) memory_pool small 100 sample).1.1.generators
          ≡ (if ltb (apply_options small default_config).manual_code_length n
                && leb n (apply_options small default_config).max_code_length
              then some (generator_of n (apply_options small default_config).batch_generate_size)
              else none))
new_service-generators_example =
    new_service-generators (memory_repository in_order) memory_pool sized small 100 sample
      small_batches small_lengths

-- An empty environment, and backends that answer.
abbrev no_environment : Environment
no_environment = record {
  get_env_str = λ name default. default;
  get_env_int = λ name default. default;
}

abbrev connections : Connections Database Store
connections = record {
  load_location = λ name. ok name;
  open_mysql = λ dsn. ok two_rows;
  new_client = λ options. no_data;
  ping = λ client. (ok tt, client);
}

abbrev settings : Settings
settings = read_settings no_environment

-- A Redis server that always counts.
abbrev counting : Redis Store
counting = record server { z_card = λ k d. (ok (length (members (d.0 k))), d) }

-- The environment sets the batch size to 0.
abbrev zero_batch : Environment
zero_batch = record no_environment {
  get_env_int = λ name default. if same name (codes "BATCH_GENERATE_SIZE") then pos 0 else default;
}

start-zero_batch_example :
    start {L = Option Text} database counting 3 none 100 zero_batch connections
    ≡ panicked_start panicked
unfolding read_settings same
start-zero_batch_example =
    start-zero_batch database counting 3 none 100 zero_batch connections (codes "UTC") two_rows
      no_data 6 refl refl refl refl refl (omega arith)

locks : (n : ℕ) (p : MemoryShortCodePool) → (Pool.lock 100 n minute p).0 ≡ ok tt
unfolding Pool.lock
locks n p = ground arith

indexed : (n : ℕ) (r : MemoryShortLinkRepository) → (i : ℤ) × ((Repo.get_start_index n r).0 ≡ ok i)
unfolding Repo.get_start_index
indexed n r = (_, refl)

-- A sample with the generators of the service.
abbrev warm : Sample
warm = record sample {
  generators =
      (new_service (memory_repository in_order) memory_pool small 100 sample).1.1.generators;
}

abbrev created : Sample
created =
    (create (memory_repository in_order) memory_cache memory_pool
      (apply_options small default_config) 100 (codes "t") (codes "u") (pos 1) 900 warm).1

first_pulled : (memory_pool.pull 1 warm.pool).0 ≡ ok (codes "c", false)
unfolding Pool.pull lookup
first_pulled = refl

manual_length_panics_example :
    (created.spawned ≡ 1 ∷ [])
    × ((batch_generate (memory_repository in_order) memory_pool 100 1 created).0 ≡ err panicked)
unfolding apply_options apply_option
manual_length_panics_example =
    manual_length_panics (memory_repository in_order) memory_cache memory_pool 100 locks indexed
      sized small sample warm 1 (codes "c") (codes "t") (codes "u") 900 small_batches small_lengths
      (omega arith) (omega arith) (omega arith) refl first_pulled
