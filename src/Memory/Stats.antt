-- ===== src/Memory/Stats.antt =====
-- ext/memx/stats.go: `MemoryShortLinkStats`. A counter is an `int64`, kept as its bit pattern.
pub mod Counters
use vshortlink.Prelude.{
  ℕ, ◌+◌, ◌%◌, ◌^◌, Option, none, some, List, [], ◌∷◌, Text, ◌==◌, if◌then◌else◌, ok, Exec,
}
use vshortlink.Prelude.Keyed.{lookup, insert, text_key}
use vshortlink.Interfaces.{ShortLinkStats}

abbrev pub Counts : Type 0
Counts = List (Text × ℕ)

-- `data` of the source: day -> code -> count.
pub record MemoryShortLinkStats : Type 0 where
  pub days_data : List (Text × Counts)

abbrev pub new_stats : MemoryShortLinkStats
new_stats = record { days_data = [] }

-- A missing key reads as 0.
abbrev pub or_zero : Option ℕ → ℕ
or_zero none = 0
or_zero (some n) = n

abbrev pub or_new : Option Counts → Counts
or_new none = []
or_new (some counts) = counts

-- The loop `codeMap[code] += delta`.
unfoldable pub add_deltas : Counts → Counts → Counts
add_deltas [] code_map = code_map
add_deltas ((code, delta) ∷ deltas) code_map =
    add_deltas deltas (insert code ((or_zero (lookup code code_map) + delta) % 2 ^ 64) code_map)

incr_day : Text → Counts → MemoryShortLinkStats → MemoryShortLinkStats
incr_day day deltas s = record {
  days_data = insert day (add_deltas deltas (or_new (lookup day s.days_data))) s.days_data;
}

unfoldable pub incr_batch : Text → Counts → Exec MemoryShortLinkStats (Unit {0})
unfolding incr_day
incr_batch day [] s = (ok tt, s)
incr_batch day (delta ∷ deltas) s = (ok tt, incr_day day (delta ∷ deltas) s)

put_count : Text → ℕ → Counts → Counts
put_count key n out = if n == 0 then out else insert key n out

-- The loop of `Get` over the days. A day or a code that is missing counts as 0, and is left out.
unfoldable pub get_days : List (Text × Counts) → Text → List Text → Counts → Counts
unfolding put_count
get_days days_data code [] out = out
get_days days_data code (day ∷ days) out =
    get_days days_data code days (elim (lookup day days_data) [
      | none ↦ out
      | some code_map ↦ put_count day (or_zero (lookup code code_map)) out
    ])

unfoldable pub get : Text → List Text → Exec MemoryShortLinkStats Counts
get code days s = (ok (get_days s.days_data code days []), s)

abbrev pub Table : Type 0
Table = List (Text × Counts)

pub put_cell : Text → Text → ℕ → Table → Table
put_cell day code n out =
    if n == 0 then out else insert code (insert day n (or_new (lookup code out))) out

-- The inner loop of `BatchGet` over the codes, and the outer one over the days.
unfoldable pub batch_codes : Text → Counts → List Text → Table → Table
unfolding put_cell
batch_codes day code_map [] out = out
batch_codes day code_map (code ∷ codes) out =
    batch_codes day code_map codes (put_cell day code (or_zero (lookup code code_map)) out)

unfoldable pub batch_days : List (Text × Counts) → List Text → List Text → Table → Table
unfolding batch_codes
batch_days days_data codes [] out = out
batch_days days_data codes (day ∷ days) out =
    batch_days days_data codes days (elim (lookup day days_data) [
      | none ↦ out
      | some code_map ↦ batch_codes day code_map codes out
    ])

unfoldable pub batch_get : List Text → List Text → Exec MemoryShortLinkStats Table
batch_get codes days s = (ok (batch_days s.days_data codes days []), s)

unfoldable pub close : Exec MemoryShortLinkStats (Unit {0})
close s = (ok tt, record { days_data = [] })

abbrev pub memory_stats : ShortLinkStats MemoryShortLinkStats
memory_stats = record { incr_batch = incr_batch; get = get; batch_get = batch_get; close = close }
