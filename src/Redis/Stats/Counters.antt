-- ===== src/Redis/Stats/Counters.antt =====
-- What `IncrBatch` of the Redis statistics adds, over a Redis server that answers.
use vshortlink.Prelude.{
  ℕ, ◌+◌, ◌*◌, ◌^◌, ◌<◌, ◌≡◌, refl, ap, ◌∙◌, true, false, some, List, [], ◌∷◌, Text, same, same_iff,
  same_refl, if◌then◌else◌, ok, Bool-cases, inl, inr, arith,
}
use vshortlink.Prelude.Int.{pos, ltb_ℤ, add_ℤ, signed64}
use vshortlink.Prelude.Decimal.RoundTrip.{parse_int-format_int}
use vshortlink.Service.State.{hour}
use vshortlink.Redis.{Redis}
use vshortlink.Redis.Keys.{get_stats_key}
use vshortlink.Redis.Keys.Apart.{same-get_stats_key}
use vshortlink.Redis.Server.{RedisLaws, holds_hash, field, number_of}
use vshortlink.Redis.Stats.{
  StatsOption, with_stats_key_prefix, with_stats_retention_days, apply_stats_option,
  apply_stats_options, RedisShortLinkStats, ttl, first_of, send_increments, incr_batch,
}

-- What a batch adds for a code.
unfoldable pub added : Text → List (Text × ℕ) → ℕ
added x [] = 0
added x ((code, delta) ∷ deltas) = (if same code x then delta else 0) + added x deltas

same_to : (s t : Text) → same s t ≡ true → s ≡ t
same_to s t h = ground (arith, same_iff s t)

add_ℤ-pos : (a b : ℕ) → add_ℤ (pos a) (pos b) ≡ pos (a + b)
add_ℤ-pos a b = ground arith

-- Up to 106750 days the duration does not wrap around.
ttl-positive : (c : RedisShortLinkStats) → c.retention_days < 106751 → ltb_ℤ (pos 0) (ttl c) ≡ true
ttl-positive c short =
    let span : (c.retention_days + 1) * (24 * hour) < 2 ^ 63 = omega arith in ground (arith, span)

module _ {D : Type 0} (redis : Redis D) (laws : RedisLaws redis) (c : RedisShortLinkStats) where
  -- A key of a day holds a hash, whose fields are these counters; a missing one is 0.
  abbrev pub Counts : D → Text → (Text → ℕ) → Type 0
  Counts d key count =
      (holds_hash (laws.stored d key) ≡ true)
      × ((x : Text) → number_of (field (laws.stored d key) x) ≡ some (pos (count x)))

  increment :
      (d : D) (key code : Text) (delta : ℕ) (count : Text → ℕ)
      → Counts d key count
      → count code + delta < 2 ^ 63
      → ((redis.h_incr_by key code (signed64 delta) d).0 ≡ ok tt)
        × Counts
            (redis.h_incr_by key code (signed64 delta) d).1
            key
            (λ x. count x + (if same code x then delta else 0))
  increment d key code delta count (hashed, counts) fits =
      let number : signed64 delta ≡ pos delta = ground arith in
      let (done, holds, fields) =
        laws.h_incr_by_ok key code (pos (count code)) (signed64 delta) (pos (count code + delta)) d
          hashed (counts code) (ap (add_ℤ (pos (count code))) number ∙ add_ℤ-pos (count code) delta)
          fits in
      (
        done,
        (
          holds,
          λ x. elim (Bool-cases (same code x)) [
            | inl own ↦
                ap number_of (fields x)
                ∙ rw own (
                    parse_int-format_int (pos (count code + delta)) fits
                    ∙ ap (λ k. some (pos (count k + delta))) (same_to code x own))
            | inr other ↦ ap number_of (fields x) ∙ rw other (counts x ∙ ground arith)
          ],
        ),
      )

module _ {D : Type 0} (redis : Redis D) (laws : RedisLaws redis) (c : RedisShortLinkStats)
    (short : c.retention_days < 106751) where
  send_increments-Counts :
      (key : Text) (deltas : List (Text × ℕ)) (d : D) (count : Text → ℕ)
      → Counts redis laws c d key count
      → ((x : Text) → count x + added x deltas < 2 ^ 63)
      → ((send_increments redis c key deltas d).0 ≡ ok tt)
        × Counts redis laws c
            (send_increments redis c key deltas d).1
            key
            (λ x. count x + added x deltas)
  unfolding send_increments added first_of
  send_increments-Counts key [] d count counts fits =
      let (done, same_values) = laws.expire_ok key (ttl c) d (ttl-positive c short) in
      (
        done,
        (
          ap holds_hash (same_values key) ∙ counts.0,
          λ x. ap (λ v. number_of (field v x)) (same_values key) ∙ counts.1 x ∙ ground arith,
        ),
      )
  send_increments-Counts key ((code, delta) ∷ deltas) d count counts fits =
      let (done, counts') =
        increment redis laws c d key code delta count counts
          (ground (arith, fits code, same_refl code)) in
      let (all_done, counts'') =
        send_increments-Counts key deltas (redis.h_incr_by key code (signed64 delta) d).1
          (λ x. count x + (if same code x then delta else 0)) counts'
          (λ x. omega (arith, fits x)) in
      (rw done all_done, (counts''.0, λ x. counts''.1 x ∙ ground arith))

  send_increments-other :
      (key j : Text) (deltas : List (Text × ℕ)) (d : D)
      → same key j ≡ false
      → laws.stored (send_increments redis c key deltas d).1 j ≡ laws.stored d j
  unfolding send_increments
  send_increments-other key j [] d h = (laws.expire_ok key (ttl c) d (ttl-positive c short)).1 j
  send_increments-other key j ((code, delta) ∷ deltas) d h =
      send_increments-other key j deltas (redis.h_incr_by key code (signed64 delta) d).1 h
      ∙ laws.h_incr_by_other key j code (signed64 delta) d h

  -- Over a Redis server that answers, with at most 106750 days retained, on a day whose key holds
  -- counters, and while no counter comes to 2^63: IncrBatch returns no error, adds to each counter
  -- what the batch has for its code, and leaves the keys of the other days as they were.
  pub incr_batch_adds :
      (day : Text) (deltas : List (Text × ℕ)) (d : D) (count : Text → ℕ)
      → Counts redis laws c d (get_stats_key c.key_prefix day) count
      → ((x : Text) → count x + added x deltas < 2 ^ 63)
      → let d' = (incr_batch redis c day deltas d).1 in
        ((incr_batch redis c day deltas d).0 ≡ ok tt)
        × Counts redis laws c d' (get_stats_key c.key_prefix day) (λ x. count x + added x deltas)
        × ((other : Text)
            → laws.stored (if same day other then d else d') (get_stats_key c.key_prefix other)
              ≡ laws.stored d (get_stats_key c.key_prefix other))
  unfolding incr_batch added
  incr_batch_adds day [] d count counts fits =
      (refl, (counts.0, λ x. counts.1 x ∙ ground arith), λ other. ground arith)
  incr_batch_adds day (delta ∷ deltas) d count counts fits =
      let (done, counts') =
        send_increments-Counts (get_stats_key c.key_prefix day) (delta ∷ deltas) d count counts
          fits in
      (
        done,
        counts',
        λ other. elim (Bool-cases (same day other)) [
          | inl own ↦ rw own refl
          | inr differs ↦ rw differs (
              send_increments-other (get_stats_key c.key_prefix day)
                (get_stats_key c.key_prefix other) (delta ∷ deltas) d
                (same-get_stats_key c.key_prefix day other ∙ differs))
        ],
      )

apply_stats_option-positive :
    (opt : StatsOption) (c : RedisShortLinkStats)
    → 0 < c.retention_days
    → 0 < (apply_stats_option opt c).retention_days
unfolding apply_stats_option
apply_stats_option-positive (with_stats_key_prefix prefix) c h = h
apply_stats_option-positive (with_stats_retention_days days) c h =
    elim (Bool-cases (ltb_ℤ (pos 0) days)) [
      | inl given ↦ rw given (ground arith)
      | inr refused ↦ rw refused h
    ]

-- Whatever the options, days are retained: those of the options that are not positive are passed over.
pub apply_stats_options-positive :
    (opts : List StatsOption) (c : RedisShortLinkStats)
    → 0 < c.retention_days
    → 0 < (apply_stats_options opts c).retention_days
unfolding apply_stats_options
apply_stats_options-positive [] c h = h
apply_stats_options-positive (opt ∷ opts) c h =
    apply_stats_options-positive opts (apply_stats_option opt c)
      (apply_stats_option-positive opt c h)
