-- ===== src/Examples/Redis.antt =====
-- The Redis backends over a small server.
use vshortlink.Prelude.{
  ◌<◌, ◌^◌, ap, List, [], same, ℕ, Text, ◌+◌, ◌≡◌, ◌∷◌, ◌++◌, codes, none, ok, arith, if◌then◌else◌,
}
use vshortlink.Prelude.Decimal.RoundTrip.{Lacks}
use vshortlink.Interfaces.Contract.{CacheLaws, PoolLaws}
use vshortlink.Redis.Keys.{get_stats_key}
use vshortlink.Redis.Server.{absent, holds_hash, field, number_of}
use vshortlink.Redis.Cache.{
  redis_cache, read_parts, split_link_and_expire_time, format_link_with_expire_time,
}
use vshortlink.Redis.Cache.Entries.{IsInstant, to_second, read-format_newline}
use vshortlink.Redis.Cache.Contract.{IsHashed, seen, value_of, redis_cache_refines}
use vshortlink.Redis.Pool.{redis_pool}
use vshortlink.Redis.Pool.Laws.{IsSorted, amount_of, redis_pool_refines}
use vshortlink.Redis.Stats
use vshortlink.Redis.Stats.{RedisShortLinkStats}
use vshortlink.Redis.Stats.Counters.{Counts, added, incr_batch_adds}
use vshortlink.Examples.Server.{Store, server, server_laws}

abbrev pub no_data : Store
no_data = (λ k. absent, λ k x. omega arith)

redis_pool_refines_example :
    (contract : PoolLaws (redis_pool server (codes "app:") 3)) × (contract.IsFine
      ≡ IsSorted server server_laws (codes "app:"))
    × (contract.amount ≡ amount_of server server_laws (codes "app:"))
redis_pool_refines_example = redis_pool_refines server server_laws (codes "app:") 3

redis_cache_refines_example :
    (contract : CacheLaws (redis_cache server (codes "app:"))) × (contract.IsFine
      ≡ IsHashed server server_laws (codes "app:"))
    × (contract.Takes ≡ (λ link e. Lacks b'\n' link × IsInstant e))
    × (contract.kept ≡ to_second)
    × (contract.shown ≡ (λ d now n k. seen now (value_of server server_laws (codes "app:") d n k)))
redis_cache_refines_example = redis_cache_refines server server_laws (codes "app:")

read-format_newline_example :
    read_parts (
      split_link_and_expire_time (format_link_with_expire_time (codes "ab" ++ b'\n' ∷ codes "c") 7))
    ≡ none
read-format_newline_example = read-format_newline (codes "ab") (codes "c") 7 (ground arith)

abbrev stats_config : RedisShortLinkStats
stats_config = record { key_prefix = codes "app:"; retention_days = 7 }

-- With the counters of a day missing.
abbrev uncounted : Store
uncounted = (server.del (get_stats_key (codes "app:") (codes "d")) no_data).1

missing_counts :
    Counts server server_laws stats_config uncounted
      (get_stats_key (codes "app:") (codes "d"))
      (λ x. 0)
missing_counts =
    let gone = (server_laws.del_ok (get_stats_key (codes "app:") (codes "d")) no_data).1 in
    (ap holds_hash gone, λ x. ap (λ v. number_of (field v x)) gone)

abbrev two_deltas : List (Text × ℕ)
two_deltas = (codes "a", 2) ∷ (codes "b", 3) ∷ []

two_deltas_fit : (x : Text) → 0 + added x two_deltas < 2 ^ 63
unfolding added
two_deltas_fit x = ground arith

incr_batch_adds_example :
    ((Stats.incr_batch server stats_config (codes "d") two_deltas uncounted).0 ≡ ok tt)
    × Counts server server_laws stats_config
        (Stats.incr_batch server stats_config (codes "d") two_deltas uncounted).1
        (get_stats_key (codes "app:") (codes "d"))
        (λ x. 0 + added x two_deltas)
    × ((other : Text)
        → server_laws.stored
            (if same (codes "d") other
              then uncounted
              else (Stats.incr_batch server stats_config (codes "d") two_deltas uncounted).1)
            (get_stats_key (codes "app:") other)
          ≡ server_laws.stored uncounted (get_stats_key (codes "app:") other))
incr_batch_adds_example =
    incr_batch_adds server server_laws stats_config (omega arith) (codes "d") two_deltas uncounted
      (λ x. 0) missing_counts two_deltas_fit
