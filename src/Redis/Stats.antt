-- ===== src/Redis/Stats.antt =====
-- ext/redisx/stats.go: `RedisShortLinkStats`. A pipeline sends its commands in their order and
-- collects the replies; `Exec` returns the first error of one, and the others are run all the same.
pub mod Counters
use vshortlink.Prelude.{
  ℕ, ◌+◌, ◌*◌, ◌%◌, ◌^◌, ◌==◌, Option, none, some, List, [], ◌∷◌, Text, if◌then◌else◌, Result, ok,
  err, Error, Exec, not_a_number,
}
use vshortlink.Prelude.Int.{ℤ, pos, pos_part, ltb_ℤ, signed64, pattern64}
use vshortlink.Prelude.Keyed.{insert, text_key}
use vshortlink.Prelude.Decimal.{parse_int}
use vshortlink.Interfaces.{ShortLinkStats}
use vshortlink.Memory.Stats.{Counts, Table, put_cell}
use vshortlink.Redis.{Redis}
use vshortlink.Redis.Keys.{get_stats_key}
use vshortlink.Service.State.{hour}

-- `retentionDays` is positive: the option that sets it ignores other values.
pub record RedisShortLinkStats : Type 0 where
  pub key_prefix : Text
  pub retention_days : ℕ

pub data StatsOption : Type 0 where
  with_stats_key_prefix : Text → StatsOption
  with_stats_retention_days : ℤ → StatsOption

unfoldable pub apply_stats_option : StatsOption → RedisShortLinkStats → RedisShortLinkStats
apply_stats_option (with_stats_key_prefix prefix) c = record c { key_prefix = prefix }
apply_stats_option (with_stats_retention_days days) c =
    if ltb_ℤ (pos 0) days then record c { retention_days = pos_part days } else c

-- The loop of `NewRedisShortLinkStats`.
unfoldable pub apply_stats_options : List StatsOption → RedisShortLinkStats → RedisShortLinkStats
apply_stats_options [] c = c
apply_stats_options (opt ∷ opts) c = apply_stats_options opts (apply_stats_option opt c)

abbrev pub new_redis_stats : List StatsOption → RedisShortLinkStats
new_redis_stats opts = apply_stats_options opts (record { key_prefix = []; retention_days = 7 })

-- `time.Duration(retentionDays+1) * 24 * time.Hour`, wrapping around.
abbrev pub ttl : RedisShortLinkStats → ℤ
ttl c = signed64 ((c.retention_days + 1) * (24 * hour) % 2 ^ 64)

-- The first error of two replies.
unfoldable pub first_of : {A B : Type 0} → Result A → Result B → Result B
first_of (err e) r = err e
first_of (ok a) r = r

-- What `Exec` returns for single replies: the first error, where `redis.Nil` is one that the
-- source lets pass.
unfoldable pub exec_error : List (Result (Option Text)) → Option Error
exec_error [] = none
exec_error (err e ∷ replies) = some e
exec_error (ok none ∷ replies) = none
exec_error (ok (some value) ∷ replies) = exec_error replies

-- The loop of `Get` over the replies.
unfoldable pub collect : List Text → List (Result (Option Text)) → Counts → Result Counts
collect [] replies out = ok out
collect (day ∷ days) [] out = ok out
collect (day ∷ days) (err e ∷ replies) out = err e
collect (day ∷ days) (ok none ∷ replies) out = collect days replies out
collect (day ∷ days) (ok (some value) ∷ replies) out = elim (parse_int value) [
  | none ↦ err not_a_number
  | some v ↦ collect days replies (if pattern64 v == 0 then out else insert day (pattern64 v) out)
]

-- The first error of the replies to `HMGET`.
unfoldable pub batch_error : {A : Type 0} → List (Result A) → Option Error
batch_error [] = none
batch_error (err e ∷ replies) = some e
batch_error (ok values ∷ replies) = batch_error replies

-- What a value adds to the answer: nothing if it is missing, no number, or 0.
put_value : Text → Text → Option Text → Table → Table
put_value day code none out = out
put_value day code (some value) out = elim (parse_int value) [
  | none ↦ out
  | some n ↦ put_cell day code (pattern64 n) out
]

-- The loop of `BatchGet` over the values of a day.
unfoldable pub collect_codes : Text → List Text → List (Option Text) → Table → Table
unfolding put_value
collect_codes day [] values out = out
collect_codes day (code ∷ codes) [] out = out
collect_codes day (code ∷ codes) (value ∷ values) out =
    collect_codes day codes values (put_value day code value out)

unfoldable pub collect_days :
    List Text → List Text → List (Result (List (Option Text))) → Table → Result Table
unfolding collect_codes
collect_days codes [] replies out = ok out
collect_days codes (day ∷ days) [] out = ok out
collect_days codes (day ∷ days) (err e ∷ replies) out = err e
collect_days codes (day ∷ days) (ok values ∷ replies) out =
    collect_days codes days replies (collect_codes day codes values out)

unless_error : {A : Type 0} → Option Error → Result A → Result A
unless_error none r = r
unless_error (some e) r = err e

module _ {D : Type 0} (redis : Redis D) (c : RedisShortLinkStats) where
  -- The pipeline of `IncrBatch`.
  unfoldable pub send_increments : Text → List (Text × ℕ) → Exec D (Unit {0})
  unfolding first_of
  send_increments key [] d = redis.expire key (ttl c) d
  send_increments key ((code, delta) ∷ deltas) d =
      let (r, d') = redis.h_incr_by key code (signed64 delta) d in
      let (rest, d'') = send_increments key deltas d' in (first_of r rest, d'')

  unfoldable pub incr_batch : Text → List (Text × ℕ) → Exec D (Unit {0})
  unfolding send_increments
  incr_batch day [] d = (ok tt, d)
  incr_batch day (delta ∷ deltas) d =
      send_increments (get_stats_key c.key_prefix day) (delta ∷ deltas) d

  -- The pipelines of `Get` and of `BatchGet`: the replies, in the order of the days.
  unfoldable pub send_gets : Text → List Text → D → List (Result (Option Text)) × D
  send_gets code [] d = ([], d)
  send_gets code (day ∷ days) d =
      let (r, d') = redis.h_get (get_stats_key c.key_prefix day) code d in
      let (rest, d'') = send_gets code days d' in (r ∷ rest, d'')

  unfoldable pub send_batch_gets :
      List Text → List Text → D → List (Result (List (Option Text))) × D
  send_batch_gets codes [] d = ([], d)
  send_batch_gets codes (day ∷ days) d =
      let (r, d') = redis.h_m_get (get_stats_key c.key_prefix day) codes d in
      let (rest, d'') = send_batch_gets codes days d' in (r ∷ rest, d'')

  unfoldable pub get : Text → List Text → Exec D Counts
  unfolding send_gets exec_error collect unless_error
  get code [] d = (ok [], d)
  get code (day ∷ days) d =
      let (replies, d') = send_gets code (day ∷ days) d in
      (unless_error (exec_error replies) (collect (day ∷ days) replies []), d')

  unfoldable pub batch_get : List Text → List Text → Exec D Table
  unfolding send_batch_gets batch_error collect_days unless_error
  batch_get [] days d = (ok [], d)
  batch_get (code ∷ codes) [] d = (ok [], d)
  batch_get (code ∷ codes) (day ∷ days) d =
      let (replies, d') = send_batch_gets (code ∷ codes) (day ∷ days) d in
      (unless_error (batch_error replies) (collect_days (code ∷ codes) (day ∷ days) replies []), d')

  unfoldable pub close : Exec D (Unit {0})
  close d = (ok tt, d)

  abbrev pub redis_stats : ShortLinkStats D
  redis_stats = record { incr_batch = incr_batch; get = get; batch_get = batch_get; close = close }
