-- ===== src/Memory/Stats/Counters.antt =====
-- The memory statistics as a table of counters, and the two queries against it.
use vshortlink.Prelude.{
  ℕ, ◌+◌, ◌%◌, ◌^◌, ◌&&◌, Option, none, some, List, [], ◌∷◌, Text, same, same_iff, member, ◌==◌,
  if◌then◌else◌, ok, ◌≡◌, refl, ◌∙◌, arith,
}
use vshortlink.Prelude.Keyed.{lookup, lookup_nil, lookup-insert, insert, text_key}
use vshortlink.Memory.Stats.{
  Counts, Table, MemoryShortLinkStats, or_zero, or_new, add_deltas, incr_batch, put_count, get_days,
  get, put_cell, batch_codes, batch_days, batch_get,
}

-- The counter of a day and a code.
pub count : List (Text × Counts) → Text → Text → ℕ
count days_data day code = or_zero (lookup code (or_new (lookup day days_data)))

-- What a query shows of a counter.
abbrev pub shown : ℕ → Option ℕ
shown n = if n == 0 then none else some n

-- What a batch adds to the counter of a code.
abbrev pub delta_of : Text → Counts → ℕ
delta_of code [] = 0
delta_of code ((c, d) ∷ deltas) = (if same c code then d else 0) + delta_of code deltas

module _ (code : Text) where
  pub lookup-add_deltas :
      (deltas code_map : Counts)
      → or_zero (lookup code (add_deltas deltas code_map)) % 2 ^ 64
        ≡ (or_zero (lookup code code_map) + delta_of code deltas) % 2 ^ 64
  unfolding add_deltas
  lookup-add_deltas [] code_map = omega arith
  lookup-add_deltas ((c, d) ∷ deltas) code_map =
      let n : ℕ = (or_zero (lookup c code_map) + d) % 2 ^ 64 in
      lookup-add_deltas deltas (insert c n code_map)
      ∙ ground (arith, lookup-insert c code n code_map, same_iff c code)

-- A batch adds its deltas to the counters of its day, modulo 2^64, and changes no other day.
pub count-incr_batch :
    (s : MemoryShortLinkStats) (day other code : Text) (deltas : Counts)
    → count (incr_batch day deltas s).1.days_data other code % 2 ^ 64
      ≡ (count s.days_data other code + (if same day other then delta_of code deltas else 0))
        % 2 ^ 64
unfolding incr_batch count
count-incr_batch s day other code [] = ground arith
count-incr_batch s day other code (delta ∷ deltas) = ground (
  arith,
  same_iff day other,
  lookup-insert day other (add_deltas (delta ∷ deltas) (or_new (lookup day s.days_data)))
      s.days_data,
  lookup-add_deltas code (delta ∷ deltas) (or_new (lookup day s.days_data)),
)

lookup-put_count :
    (key day : Text) (n : ℕ) (out : Counts)
    → lookup day (put_count key n out)
      ≡ (if same key day then (if n == 0 then lookup day out else some n) else lookup day out)
unfolding put_count
lookup-put_count key day n out = ground (arith, lookup-insert key day n out)

module _ (days_data : List (Text × Counts)) (code day : Text) where
  get_day : (d : Text) (out : Counts) → Counts
  get_day d out = elim (lookup d days_data) [
    | none ↦ out
    | some code_map ↦ put_count d (or_zero (lookup code code_map)) out
  ]

  lookup-get_day :
      (d : Text) (out : Counts)
      → lookup day (get_day d out) ≡ (
          if same d day
          then (if count days_data day code == 0
              then lookup day out
              else some (count days_data day code))
          else lookup day out)
  unfolding get_day count
  lookup-get_day d out = ground (
    arith,
    same_iff d day,
    lookup_nil {V = ℕ} code,
    lookup-put_count d day (or_zero (lookup code (or_new (lookup d days_data)))) out,
  )

  lookup-get_days :
      (days : List Text) (out : Counts)
      → lookup day (get_days days_data code days out) ≡ (
          if member day days
          then (if count days_data day code == 0
              then lookup day out
              else some (count days_data day code))
          else lookup day out)
  unfolding get_days get_day
  lookup-get_days [] out = refl
  lookup-get_days (d ∷ days) out =
      lookup-get_days days (get_day d out) ∙ ground (arith, lookup-get_day d out)

-- `Get` shows the counter of each day that is asked for, unless it is 0, and no other day.
pub get-count :
    (s : MemoryShortLinkStats) (code day : Text) (days : List Text)
    → (counts : Counts) × ((get code days s).0 ≡ ok counts)
      × (lookup day counts ≡ (if member day days then shown (count s.days_data day code) else none))
unfolding get
get-count s code day days = (
  get_days s.days_data code days [],
  refl,
  ground (arith, lookup-get_days s.days_data code day days [], lookup_nil {V = ℕ} day),
)

-- The cell of a code and a day in the answer of `BatchGet`.
pub cell : Table → Text → Text → Option ℕ
cell out code day = lookup day (or_new (lookup code out))

cell-put_cell :
    (d c : Text) (n : ℕ) (out : Table) (code day : Text)
    → cell (put_cell d c n out) code day ≡ (
        if same c code && same d day
        then (if n == 0 then cell out code day else some n)
        else cell out code day)
unfolding cell put_cell
cell-put_cell d c n out code day = ground (
  arith,
  same_iff c code,
  same_iff d day,
  lookup-insert c code (insert d n (or_new (lookup c out))) out,
  lookup-insert d day n (or_new (lookup c out)),
)

cell-batch_codes :
    (d : Text) (code_map : Counts) (codes : List Text) (out : Table) (code day : Text)
    → cell (batch_codes d code_map codes out) code day ≡ (
        if member code codes && same d day
        then (if or_zero (lookup code code_map) == 0
            then cell out code day
            else some (or_zero (lookup code code_map)))
        else cell out code day)
unfolding batch_codes
cell-batch_codes d code_map [] out code day = refl
cell-batch_codes d code_map (c ∷ codes) out code day =
    cell-batch_codes d code_map codes (put_cell d c (or_zero (lookup c code_map)) out) code day
    ∙ ground (arith, same_iff c code, cell-put_cell d c (or_zero (lookup c code_map)) out code day)

module _ (days_data : List (Text × Counts)) (codes : List Text) (code day : Text) where
  batch_day : (d : Text) (out : Table) → Table
  batch_day d out = elim (lookup d days_data) [
    | none ↦ out
    | some code_map ↦ batch_codes d code_map codes out
  ]

  cell-batch_day :
      (d : Text) (out : Table)
      → cell (batch_day d out) code day ≡ (
          if member code codes && same d day
          then (if count days_data day code == 0
              then cell out code day
              else some (count days_data day code))
          else cell out code day)
  unfolding batch_day count
  cell-batch_day d out = ground (
    arith,
    same_iff d day,
    lookup_nil {V = ℕ} code,
    cell-batch_codes d (or_new (lookup d days_data)) codes out code day,
  )

  cell-batch_days :
      (days : List Text) (out : Table)
      → cell (batch_days days_data codes days out) code day ≡ (
          if member code codes && member day days
          then (if count days_data day code == 0
              then cell out code day
              else some (count days_data day code))
          else cell out code day)
  unfolding batch_days batch_day
  cell-batch_days [] out = ground arith
  cell-batch_days (d ∷ days) out =
      cell-batch_days days (batch_day d out) ∙ ground (arith, cell-batch_day d out)

-- `BatchGet` shows, for each code and each day that are asked for, what `Get` shows of them, and
-- nothing else.
pub batch_get-get :
    (s : MemoryShortLinkStats) (codes days : List Text) (code day : Text)
    → (table : Table) × (counts : Counts) × ((batch_get codes days s).0 ≡ ok table)
      × ((get code days s).0 ≡ ok counts)
      × (cell table code day ≡ (if member code codes then lookup day counts else none))
unfolding batch_get cell
batch_get-get s codes days code day =
    let (counts, got, shown_count) = get-count s code day days in
    (
      batch_days s.days_data codes days [],
      counts,
      refl,
      got,
      ground (
        arith,
        cell-batch_days s.days_data codes code day days [],
        lookup_nil {V = Counts} code,
        lookup_nil {V = ℕ} day,
      ),
    )
