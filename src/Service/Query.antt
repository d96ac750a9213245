-- ===== src/Service/Query.antt =====
-- cores/service.go: `RecordHit`, `GetStats` and `BatchGetStats`; cores/stats_recorder.go: `dayList`.
pub mod Batch
use vshortlink.Prelude.{
  ℕ, zero, suc, ◌||◌, Bool, true, false, List, [], ◌∷◌, Text, is_empty, if◌then◌else◌, Exec,
  stats_not_enabled, code_is_empty, codes_is_empty, throw,
}
use vshortlink.Prelude.Int.{ℤ, pos, pos_part, ltb_ℤ, leb_ℤ}
use vshortlink.Recorder.{record_hit}
use vshortlink.Interfaces.{ShortLinkStats}
use vshortlink.Service.State.{Config, State, on_stats}

-- The days from today back to `days - 1` days ago, the oldest first. `day_key` formats the civil
-- day that lies a number of days before the instant's own in the service's time zone.
unfoldable pub day_list : (ℕ → Text) → ℕ → List Text
day_list day_key zero = []
day_list day_key (suc back) = day_key back ∷ day_list day_key back

-- `if days <= 0 || days > retention { days = retention }`
unfoldable pub clamp_days : Config → ℤ → ℕ
clamp_days c days =
    if leb_ℤ days (pos 0) || ltb_ℤ (pos c.stats_retention_days) days
    then c.stats_retention_days
    else pos_part days

-- `len(codes) == 0`
abbrev pub no_codes : List Text → Bool
no_codes [] = true
no_codes (c ∷ cs) = false

module _ {R C P T L : Type 0} where
  unfoldable pub service_record_hit : Config → Text → State R C P T L → State R C P T L
  service_record_hit c code s =
      if c.stats_enabled then record s { recorder = record_hit code s.recorder } else s

  unfoldable pub get_stats :
      ShortLinkStats T → Config → (ℕ → Text) → Text → ℤ → Exec (State R C P T L) (List (Text × ℕ))
  unfolding clamp_days day_list
  get_stats stats c day_key code days =
      if c.stats_enabled
      then (if is_empty code
          then throw code_is_empty
          else on_stats (stats.get code (day_list day_key (clamp_days c days))))
      else throw stats_not_enabled

  unfoldable pub batch_get_stats :
      ShortLinkStats T
      → Config
      → (ℕ → Text)
      → List Text
      → ℤ
      → Exec (State R C P T L) (List (Text × List (Text × ℕ)))
  unfolding clamp_days day_list
  batch_get_stats stats c day_key codes days =
      if c.stats_enabled
      then (if no_codes codes
          then throw codes_is_empty
          else on_stats (stats.batch_get codes (day_list day_key (clamp_days c days))))
      else throw stats_not_enabled
