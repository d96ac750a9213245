-- ===== src/Server/Consistent.antt =====
-- What the settings of the server come to in the service and in the statistics, and the start that
-- panics.
use vshortlink.Prelude.{
  ℕ, [], ◌<◌, ◌≡◌, refl, Text, true, ok, err, Error, panicked, zero, suc, ◌-◌, Result, arith,
}
use vshortlink.Prelude.Int.{pos}
use vshortlink.Link.{Time}
use vshortlink.Service.State
use vshortlink.Service.State.{Config, State, apply_options, apply_option, default_config}
use vshortlink.Prelude.Keyed.{nat_key}
use vshortlink.Gen.{new_generator}
use vshortlink.Service.Generate.{new_service, init_pools, new_state}
use vshortlink.Redis.{Redis}
use vshortlink.Redis.Stats.{RedisShortLinkStats}
use vshortlink.Sql.{Gorm}
use vshortlink.Sql.Repo.{sql_repository}
use vshortlink.Redis.Pool.{new_redis_pool}
use vshortlink.Server.{
  Environment, Settings, read_settings, service_options, Connections, start, panicked_start, serve,
  start_service, ping_redis, connect, with_location, fresh_state, mysql_dsn, redis_options,
}

-- The service and its statistics agree on the days that are kept, and the values that must not be
-- zero are not.
pub record IsConsistent (stats : RedisShortLinkStats) (c : Config) : Type 0 where
  pub same_days : stats.retention_days ≡ c.stats_retention_days
  pub some_days : 0 < c.stats_retention_days
  pub some_interval : 0 < c.stats_flush_interval
  pub some_buffer : 0 < c.stats_buffer_size
  pub enabled : c.stats_enabled ≡ true

module _ {D S L : Type 0} (gorm : Gorm D) (redis : Redis S) (fuel : ℕ) (lru : L) (now : Time)
    (env : Environment) (host : Connections D S) where
  init_pools-zero :
      (rounds i : ℕ) (c : Config) (s : State D S S S L)
      → 0 < rounds
      → c.batch_generate_size ≡ 0
      → (init_pools (sql_repository gorm) (new_redis_pool redis [] fuel) c now rounds i s).0
        ≡ err panicked
  unfolding init_pools new_generator
  init_pools-zero zero i c s rounds_left h = ground arith
  init_pools-zero (suc rounds) i c s rounds_left h = rw h refl

  serve-panicked :
      (c : Settings) (config : Config) (made : Result (Unit {0}) × State D S S S L) (e : Error)
      → made.0 ≡ err e
      → serve gorm redis fuel lru now c (config, made) ≡ panicked_start e
  unfolding serve
  serve-panicked c config (r, s) e failed = rw failed refl

  -- Where the time zone loads, MySQL opens and Redis answers the ping: with a batch size of 0 and a
  -- largest length above the largest manual one in the environment, the start panics.
  pub start-zero_batch :
      (loc : Text) (db : D) (client : S) (m : ℕ)
      → host.load_location (read_settings env).stats_timezone ≡ ok loc
      → host.open_mysql (mysql_dsn (read_settings env)) ≡ ok db
      → host.ping (host.new_client (redis_options (read_settings env))) ≡ (ok tt, client)
      → (read_settings env).batch_generate_size ≡ pos 0
      → (read_settings env).max_code_length ≡ pos m
      → default_config.manual_code_length < m
      → start gorm redis fuel lru now env host ≡ panicked_start panicked
  unfolding start with_location connect ping_redis start_service apply_options apply_option
      service_options new_service
  start-zero_batch loc db client m located opened pinged size largest wide =
      let c = read_settings env in
      let config = apply_options (service_options 0 m c loc) default_config in
      rw (located, opened, pinged, size, largest)
        (serve-panicked c config _ panicked (
          init_pools-zero (m - 3) 4 config
            (new_state config (fresh_state gorm redis fuel lru now db client)) (omega arith) refl))
