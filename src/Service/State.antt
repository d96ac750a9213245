-- ===== src/Service/State.antt =====
-- The state of `ShortLinkService`, its options (cores/service.go) and its memory LRU cache
-- (cores/lru.go), and how a method calls a backend.
use vshortlink.Prelude.{
  ℕ, ◌*◌, ◌^◌, Bool, true, false, Option, none, some, List, [], ◌∷◌, ◌++◌, Text, codes, ltb,
  if◌then◌else◌, ok, Exec,
}
use vshortlink.Prelude.Int.{ℤ, pos_part}
use vshortlink.Gen.{Generator}
use vshortlink.Recorder.{Recorder}

-- What the options set. Sizes and lengths are naturals; durations are in nanoseconds; a time zone
-- is its name.
pub record Config : Type 0 where
  pub batch_generate_size : ℕ
  pub max_code_length : ℕ
  pub manual_code_length : ℕ
  pub auth_token : Text
  pub stats_enabled : Bool
  pub stats_loc : Text
  pub stats_retention_days : ℕ
  pub stats_flush_interval : ℕ
  pub stats_buffer_size : ℕ

abbrev pub second : ℕ
second = 10 ^ 9

abbrev pub minute : ℕ
minute = 60 * second

abbrev pub hour : ℕ
hour = 60 * minute

abbrev pub default_config : Config
default_config = record {
  batch_generate_size = 100;
  max_code_length = 9;
  manual_code_length = 3;
  auth_token = [];
  stats_enabled = false;
  stats_loc = codes "UTC";
  stats_retention_days = 7;
  stats_flush_interval = second;
  stats_buffer_size = 10000;
}

pub data ServiceOption : Type 0 where
  with_batch_generate_size : ℕ → ServiceOption
  with_max_code_length : ℕ → ServiceOption
  with_manual_code_length : ℕ → ServiceOption
  with_auth_token : Text → ServiceOption
  with_stats : ServiceOption
  with_stats_timezone : Option Text → ServiceOption
  with_stats_retention_days : ℤ → ServiceOption
  with_stats_flush_interval : ℤ → ServiceOption
  with_stats_buffer_size : ℤ → ServiceOption

-- `if v > 0 { field = v }`.
if_positive : ℤ → ℕ → ℕ
if_positive v old = if ltb 0 (pos_part v) then pos_part v else old

unfoldable pub apply_option : ServiceOption → Config → Config
unfolding if_positive
apply_option (with_batch_generate_size n) c = record c { batch_generate_size = n }
apply_option (with_max_code_length n) c = record c { max_code_length = n }
apply_option (with_manual_code_length n) c = record c { manual_code_length = n }
apply_option (with_auth_token t) c = record c { auth_token = t }
apply_option with_stats c = record c { stats_enabled = true }
apply_option (with_stats_timezone none) c = c
apply_option (with_stats_timezone (some loc)) c = record c { stats_loc = loc }
apply_option (with_stats_retention_days d) c = record c {
  stats_retention_days = if_positive d c.stats_retention_days;
}
apply_option (with_stats_flush_interval d) c = record c {
  stats_flush_interval = if_positive d c.stats_flush_interval;
}
apply_option (with_stats_buffer_size n) c = record c {
  stats_buffer_size = if_positive n c.stats_buffer_size;
}

unfoldable pub apply_options : List ServiceOption → Config → Config
unfolding apply_option
apply_options [] c = c
apply_options (o ∷ os) c = apply_options os (apply_option o c)

-- golang-lru's expirable cache, which is third-party: `Get` may reorder or drop entries.
pub record LruCache (L : Type 0) : Type 0 where
  pub add : Text → Text → L → L
  pub get : Text → L → Option Text × L

-- `spawned` holds the lengths of the `go s.batchGenerate(...)` calls that have not run yet.
pub record State (R C P T L : Type 0) : Type 0 where
  pub repo : R
  pub cache : C
  pub pool : P
  pub stats : T
  pub mem_lru_cache : L
  pub recorder : Recorder
  pub generators : List (ℕ × Generator)
  pub spawned : List ℕ

module _ {R C P T L : Type 0} where
  abbrev pub on_repo : {A : Type 0} → Exec R A → Exec (State R C P T L) A
  on_repo f s = let (r, x) = f s.repo in (r, record s { repo = x })

  abbrev pub on_cache : {A : Type 0} → Exec C A → Exec (State R C P T L) A
  on_cache f s = let (r, x) = f s.cache in (r, record s { cache = x })

  abbrev pub on_pool : {A : Type 0} → Exec P A → Exec (State R C P T L) A
  on_pool f s = let (r, x) = f s.pool in (r, record s { pool = x })

  abbrev pub on_stats : {A : Type 0} → Exec T A → Exec (State R C P T L) A
  on_stats f s = let (r, x) = f s.stats in (r, record s { stats = x })

  -- `go s.batchGenerate(ctx, length)`
  abbrev pub spawn : ℕ → Exec (State R C P T L) (Unit {0})
  spawn length' s = (ok tt, record s { spawned = s.spawned ++ length' ∷ [] })

  abbrev pub add_mem_lru_cache : LruCache L → Text → Text → State R C P T L → State R C P T L
  add_mem_lru_cache lru short_code link s = record s {
    mem_lru_cache = lru.add short_code link s.mem_lru_cache;
  }

  abbrev pub get_mem_lru_cache : LruCache L → Text → State R C P T L → Option Text × State R C P T L
  get_mem_lru_cache lru short_code s =
      let (found, x) = lru.get short_code s.mem_lru_cache in (found, record s { mem_lru_cache = x })
