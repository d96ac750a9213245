-- ===== src/Server.antt =====
-- cmd/server/main.go: the settings that the server reads from the environment, the connections that
-- it opens, and the service that it makes of them.
pub mod Consistent
use vshortlink.Prelude.{
  ℕ, ◌*◌, ◌%◌, ◌^◌, Option, none, some, List, [], ◌∷◌, ◌++◌, Text, codes, Result, ok, err, Error,
}
use vshortlink.Prelude.Int.{ℤ, pos, negsuc, signed64, pattern64}
use vshortlink.Link.{Time}
use vshortlink.Service.State.{
  Config, State, ServiceOption, with_batch_generate_size, with_max_code_length, with_auth_token,
  with_stats, with_stats_timezone, with_stats_retention_days, with_stats_flush_interval,
  with_stats_buffer_size, second,
}
use vshortlink.Service.Generate.{new_service}
use vshortlink.Recorder.{Recorder, new_recorder}
use vshortlink.Redis.{Redis}
use vshortlink.Redis.Pool.{new_redis_pool}
use vshortlink.Redis.Stats
use vshortlink.Redis.Stats.{RedisShortLinkStats, new_redis_stats}
use vshortlink.Sql.{Gorm}
use vshortlink.Sql.Repo.{sql_repository}

-- `vos.GetEnvStr`, `GetEnvInt` and `GetEnvInt64`, which are third-party: the value of a variable, or
-- the one that is given.
pub record Environment : Type 0 where
  pub get_env_str : Text → Text → Text
  pub get_env_int : Text → ℤ → ℤ

pub record Settings : Type 0 where
  pub mysql_host : Text
  pub mysql_port : Text
  pub mysql_user : Text
  pub mysql_password : Text
  pub mysql_database : Text
  pub redis_host : Text
  pub redis_port : Text
  pub redis_password : Text
  pub redis_db : ℤ
  pub server_port : Text
  pub batch_generate_size : ℤ
  pub max_code_length : ℤ
  pub auth_token : Text
  pub stats_retention_days : ℤ
  pub stats_flush_seconds : ℤ
  pub stats_buffer_size : ℤ
  pub stats_timezone : Text

unfoldable pub read_settings : Environment → Settings
read_settings env = record {
  mysql_host = env.get_env_str (codes "MYSQL_HOST") (codes "localhost");
  mysql_port = env.get_env_str (codes "MYSQL_PORT") (codes "3306");
  mysql_user = env.get_env_str (codes "MYSQL_USER") (codes "root");
  mysql_password = env.get_env_str (codes "MYSQL_PASSWORD") [];
  mysql_database = env.get_env_str (codes "MYSQL_DATABASE") (codes "vshortlink");
  redis_host = env.get_env_str (codes "REDIS_HOST") (codes "localhost");
  redis_port = env.get_env_str (codes "REDIS_PORT") (codes "6379");
  redis_password = env.get_env_str (codes "REDIS_PASSWORD") [];
  redis_db = env.get_env_int (codes "REDIS_DB") (pos 0);
  server_port = env.get_env_str (codes "SERVER_PORT") (codes "8080");
  batch_generate_size = env.get_env_int (codes "BATCH_GENERATE_SIZE") (pos 100);
  max_code_length = env.get_env_int (codes "MAX_CODE_LENGTH") (pos 6);
  auth_token = env.get_env_str (codes "AUTH_TOKEN") [];
  stats_retention_days = env.get_env_int (codes "STATS_RETENTION_DAYS") (pos 7);
  stats_flush_seconds = env.get_env_int (codes "STATS_FLUSH_INTERVAL_SECONDS") (pos 1);
  stats_buffer_size = env.get_env_int (codes "STATS_BUFFER_SIZE") (pos 10000);
  stats_timezone = env.get_env_str (codes "STATS_TIMEZONE") (codes "UTC");
}

-- "%s:%s@tcp(%s:%s)/%s?charset=utf8mb4&parseTime=True&loc=Local"
unfoldable pub mysql_dsn : Settings → Text
mysql_dsn c =
    c.mysql_user
    ++ (codes ":"
        ++ (c.mysql_password
            ++ (codes "@tcp("
                ++ (c.mysql_host
                    ++ (codes ":"
                        ++ (c.mysql_port
                            ++ (codes ")/"
                                ++ (c.mysql_database
                                    ++ codes "?charset=utf8mb4&parseTime=True&loc=Local"))))))))

pub record RedisOptions : Type 0 where
  pub addr : Text
  pub password : Text
  pub db : ℤ

unfoldable pub redis_options : Settings → RedisOptions
redis_options c = record {
  addr = c.redis_host ++ (codes ":" ++ c.redis_port);
  password = c.redis_password;
  db = c.redis_db;
}

unfoldable pub server_addr : Settings → Text
server_addr c = codes ":" ++ c.server_port

-- `time.Duration(n) * time.Second`, wrapping around.
unfoldable pub seconds : ℤ → ℤ
seconds n = signed64 ((pattern64 n * second) % 2 ^ 64)

unfoldable pub stats_options : Settings → List Stats.StatsOption
stats_options c = Stats.with_stats_retention_days c.stats_retention_days ∷ []

-- The options, with the batch size and the largest length as numbers from 0 on.
unfoldable pub service_options : ℕ → ℕ → Settings → Text → List ServiceOption
unfolding seconds
service_options batch_generate_size max_code_length c stats_loc =
    with_batch_generate_size batch_generate_size
    ∷ with_max_code_length max_code_length
    ∷ with_auth_token c.auth_token
    ∷ with_stats
    ∷ with_stats_timezone (some stats_loc)
    ∷ with_stats_retention_days c.stats_retention_days
    ∷ with_stats_flush_interval (seconds c.stats_flush_seconds)
    ∷ with_stats_buffer_size c.stats_buffer_size
    ∷ []

-- The third-party calls: `time.LoadLocation`, `gorm.Open`, `redis.NewClient` with `Ping`.
pub record Connections (D S : Type 0) : Type 0 where
  pub load_location : Text → Result Text
  pub open_mysql : Text → Result D
  pub new_client : RedisOptions → S
  pub ping : S → Result (Unit {0}) × S

-- A fatal error ends the process, and so does a panic of `NewShortLinkService`. A negative batch size
-- or largest length is where the model ends, whose service takes them from 0 on. The cache, the pool
-- and the statistics share a client, and each keeps to its own keys: every one has the database in its
-- state.
pub data Startup (D S L : Type 0) : Type 0 where
  invalid_timezone : Error → Startup D S L
  no_mysql : Error → Startup D S L
  no_redis : Error → Startup D S L
  negative_setting : Startup D S L
  panicked_start : Error → Startup D S L
  started : RedisShortLinkStats → Config → State D S S S L → Text → Startup D S L

module _ {D S L : Type 0} (gorm : Gorm D) (redis : Redis S) (fuel : ℕ) (lru : L) (now : Time) where
  -- The state that `NewShortLinkService` begins with.
  abbrev pub fresh_state : D → S → State D S S S L
  fresh_state db client = record {
    repo = db;
    cache = client;
    pool = client;
    stats = client;
    mem_lru_cache = lru;
    recorder = new_recorder 0;
    generators = [];
    spawned = [];
  }

  serve : Settings → Config × (Result (Unit {0}) × State D S S S L) → Startup D S L
  unfolding stats_options server_addr
  serve c (config, (err e, s)) = panicked_start e
  serve c (config, (ok u, s)) = started (new_redis_stats (stats_options c)) config s (server_addr c)

  start_service : Settings → Text → D → S → ℤ → ℤ → Startup D S L
  unfolding serve service_options new_service
  start_service c stats_loc db client (pos batch_generate_size) (pos max_code_length) = serve c (
      new_service (sql_repository gorm) (new_redis_pool redis [] fuel)
        (service_options batch_generate_size max_code_length c stats_loc) now
        (fresh_state db client))
  start_service c stats_loc db client (pos batch_generate_size) (negsuc n) = negative_setting
  start_service c stats_loc db client (negsuc n) max_code_length = negative_setting

  ping_redis : Settings → Text → D → Result (Unit {0}) × S → Startup D S L
  unfolding start_service
  ping_redis c stats_loc db (err e, client) = no_redis e
  ping_redis c stats_loc db (ok u, client) =
      start_service c stats_loc db client c.batch_generate_size c.max_code_length

  connect : Connections D S → Settings → Text → Result D → Startup D S L
  unfolding ping_redis redis_options
  connect host c stats_loc (err e) = no_mysql e
  connect host c stats_loc (ok db) =
      ping_redis c stats_loc db (host.ping (host.new_client (redis_options c)))

  with_location : Connections D S → Settings → Result Text → Startup D S L
  unfolding connect mysql_dsn
  with_location host c (err e) = invalid_timezone e
  with_location host c (ok stats_loc) = connect host c stats_loc (host.open_mysql (mysql_dsn c))

  -- `main` up to `ListenAndServe`.
  unfoldable pub start : Environment → Connections D S → Startup D S L
  unfolding with_location read_settings
  start env host =
      let c = read_settings env in with_location host c (host.load_location c.stats_timezone)
