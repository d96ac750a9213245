-- ===== src/Service/Query/Batch.antt =====
-- `BatchGetStats` and `GetStats` over the memory statistics.
use vshortlink.Prelude.{
  ℕ, ◌≡◌, ◌≢◌, refl, true, false, none, List, [], ◌∷◌, Text, is_empty_ne, if◌then◌else◌, member, ok,
}
use vshortlink.Prelude.Int.{ℤ}
use vshortlink.Prelude.Keyed.{lookup, text_key}
use vshortlink.Memory.Stats
use vshortlink.Memory.Stats.{MemoryShortLinkStats, memory_stats, Counts, Table, batch_get}
use vshortlink.Memory.Stats.Counters.{cell, batch_get-get}
use vshortlink.Service.State.{Config, State}
use vshortlink.Service.Query.{clamp_days, day_list, no_codes, get_stats, batch_get_stats}

no_codes_ne : (cs : List Text) → cs ≢ [] → no_codes cs ≡ false
no_codes_ne [] h = absurd (h refl)
no_codes_ne (c ∷ cs) h = refl

-- The memory statistics answer without a change.
batch_get_same : (cs days : List Text) (s : MemoryShortLinkStats) → (batch_get cs days s).1 ≡ s
unfolding batch_get
batch_get_same cs days s = refl

get_same :
    (code : Text) (days : List Text) (s : MemoryShortLinkStats) → (Stats.get code days s).1 ≡ s
unfolding Stats.get
get_same code days s = refl

-- On the memory statistics, with statistics enabled: `BatchGetStats` of some codes and `GetStats` of a
-- code that is not empty, for the same number of days, succeed and change nothing. The table has, for
-- the code and each day, what the answer for the code alone has, and nothing if the code is not among
-- those that are asked for.
pub batch_get_stats-get_stats :
    {R C P L : Type 0} (c : Config) (day_key : ℕ → Text) (cs : List Text) (code day : Text)
    (days : ℤ) (s : State R C P MemoryShortLinkStats L)
    → c.stats_enabled ≡ true
    → cs ≢ []
    → code ≢ []
    → (table : Table) × (counts : Counts) × (batch_get_stats memory_stats c day_key cs days s
        ≡ (ok table, s))
      × (get_stats memory_stats c day_key code days s ≡ (ok counts, s))
      × (cell table code day ≡ (if member code cs then lookup day counts else none))
unfolding batch_get_stats get_stats
batch_get_stats-get_stats c day_key cs code day days s enabled some_codes some_code =
    let asked : List Text = day_list day_key (clamp_days c days) in
    let (table, counts, batch, single, agree) = batch_get-get s.stats cs asked code day in
    (
      table,
      counts,
      rw (enabled, no_codes_ne cs some_codes, batch, batch_get_same cs asked s.stats) refl,
      rw (enabled, is_empty_ne code some_code, single, get_same code asked s.stats) refl,
      agree,
    )
