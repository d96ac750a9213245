-- ===== src/Lib.antt =====
-- A model of vshortlink, a service that hands out short codes for links.
--
-- The program keeps, for each code length, a pool of prepared codes. A generator spreads the numbers
-- below 62^length over batches: batch k holds k, k + step, k + 2 step and so on, each written in base
-- 62. The service takes codes from a pool, stores links under them in a repository and a cache,
-- expires links and recycles their codes, and rebuilds a pool from the batches issued so far. The
-- HTTP handlers redirect a code through a small LRU cache and the cache, and record the hit; a
-- recorder merges hits and writes them to the statistics in batches.
--
-- Which file models which part:
--   Base62         cores/util.go: ToBase62, FromBase62, reverseString
--   Gen            cores/gen.go: NewShortCodeGenerator, GenerateBatchNumbers
--   Link           cores/link.go: ShortLink and its statuses
--   Interfaces     cores/repo.go, cache.go, pool.go, stats.go: the backend interfaces;
--                  Interfaces.Contract says what the service may rely on of a cache and a pool
--   Memory.Pool, Memory.Cache, Memory.Stats, Memory.Repo
--                  ext/memx: the memory backends, instances of the interfaces
--   Redis.Keys, Redis.Pool, Redis.Cache, Redis.Stats
--                  ext/redisx: the Redis backends; Redis.Server has the laws of the commands,
--                  Redis.Server.Leases those of a key that ends by itself, for the lock
--   Sql, Sql.Repo  ext/gormx: the rows and the repository; Sql.Table has the laws of GORM's calls
--   Recorder       cores/stats_recorder.go: statsRecorder
--   Service.State  cores/service.go, cores/lru.go: the state, the options and the LRU cache
--   Service.Edit, Generate, Expire, Rebuild, Query, Close
--                  cores/service.go: the methods of ShortLinkService
--   Server         cmd/server/main.go: the settings and the start of the server
--   Sql.Owned, Sql.Issues, Sql.Taken, Sql.Unique, Sql.Cycle, Sql.Pooled
--                  the service over the SQL repository as a whole: steps, and the way of a code
--   Http           cores/http.go: HttpHandle and the management handlers
--   Prelude        shared types, lists, integers and their decimal form, maps as association lists,
--                  results
--   Examples       the theorems at concrete inputs
--
-- A backend is a record of operations on a state (Interfaces); an operation maps a state to a result
-- and the state after it, and what was written before an error stays written (Prelude.Outcome). The
-- state of the service holds those of its backends, its recorder, its generators, and the lengths of
-- the batches that a goroutine has been started for. A Go map is an association list, a string its
-- bytes, an int64 an integer with its wrap-around written out, an instant a natural number. A
-- handler takes a decoded request and returns a response. The clock is an argument.
--
-- The digit loop recurses on accessibility of the number. The loop of swaps has as many rounds as
-- the text has bytes, more than its half. The loops over pages of links (ExpireActives,
-- RecycleExpires, RebuildCodePool) have no bound in the source and run on fuel, whose end is an
-- error of the model; the theorems on RebuildCodePool have the fuel exceed the used links, those on
-- the other two over the memory backends the ids that have been given out, and conclude that the
-- loop returns. Over the SQL repository ExpireActives and RecycleExpires need more fuel than due
-- links. The Redis lock calls itself, and its fuel bounds these calls.
--
-- Parameters: the LRU cache of golang-lru, the order in which Go walks a map, the formatting of days,
-- the environment and the connections of the server, the commands of go-redis and the calls of GORM.
-- Of the last two the laws state the documented effects on a server that answers; Examples.Server,
-- Examples.Leases and Examples.Table satisfy them. A query to GORM is a record of its conditions, order
-- and limit. A transaction may fail at any call. Sizes and lengths of the service are from 0 on; a
-- negative one in the environment is an outcome of its own of the start.
--
-- Not modelled: the timers of the service; the decoding of JSON and of query parameters; logging; the
-- recovery from a panic in Updates of ext/gormx/repo.go; the loop of net/http that serves the handler;
-- the example programs, which call the service and print what it returns, one of them through a link
-- that it shares with the memory repository, where the model has values; the mutexes of the memory
-- backends, whose operations are single steps here; the end of the keys of the Redis statistics by
-- their time to live.
pub mod Prelude
pub mod Base62
pub mod Gen
pub mod Link
pub mod Interfaces
pub mod Memory
pub mod Recorder
pub mod Server
pub mod Service
pub mod Sql
pub mod Http
pub mod Redis
mod Examples
