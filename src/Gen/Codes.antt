-- ===== src/Gen/Codes.antt =====
-- The codes of the batches: their length, and when two of them differ.
use native.Mathlib.Nat.{mod-eq_of_lt, one-le-pow}
use vshortlink.Prelude.{
  ℕ, zero, suc, ◌+◌, ◌-◌, ◌*◌, ◌%◌, ◌^◌, ◌≤◌, ◌<◌, ◌≡◌, ◌≢◌, refl, ap, sym, ◌∙◌, List, [], ◌∷◌,
  ◌++◌, map, map-append, length, length-map, All, All-map, All-imp, Distinct, ok, arith,
}
use vshortlink.Prelude.Int.{ℤ, pos}
use vshortlink.Base62.{to_base62}
use vshortlink.Base62.RoundTrip.{length-to_base62, place_value, place_value-to_base62}
use vshortlink.Gen.{Generator, new_generator, generate_batch_numbers}
use vshortlink.Gen.Batches.{
  step_of, generator_of, new_generator_lem, ladder, ladder_shift, All-ladder, steps_fit,
  generate_batch_numbers_lem,
}

-- Different numbers have different codes.
pub to_base62_inj : (n m len : ℕ) → to_base62 (pos n) len ≡ to_base62 (pos m) len → n ≡ m
to_base62_inj n m len e =
    cc (place_value-to_base62 n len, place_value-to_base62 m len, ap (place_value 0) e)

length-ladder : (k start step : ℕ) → length (ladder k start step) ≡ k
unfolding ladder
length-ladder zero start step = refl
length-ladder (suc k) start step = ap suc (length-ladder k (start + step) step)

pub Distinct-ladder : (k start step : ℕ) → 0 < step → Distinct (ladder k start step)
unfolding ladder
Distinct-ladder zero start step h = tt
Distinct-ladder (suc k) start step h = (
  All-imp _ (λ x. x ≢ start) (λ x above e. omega (arith, above.0)) (ladder k (start + step) step)
      (All-ladder k (start + step) step (start + step) (start + suc k * step + 1)
        ((start + step) % step) (omega arith) (omega arith) refl),
  Distinct-ladder k (start + step) step h,
)

ladder_first : (k step : ℕ) → 0 < k → ladder k 0 step ≡ 0 ∷ ladder (k - 1) step step
unfolding ladder
ladder_first zero step h = elim h [ ]
ladder_first (suc k) step h =
    let e : suc k - 1 ≡ k = omega arith in let e' : 0 + step ≡ step = omega arith in rw (e, e')

ladder_last :
    (k step : ℕ) → 0 < k → ladder k step step ≡ ladder (k - 1) step step ++ (k * step) ∷ []
ladder_last zero step h = elim h [ ]
ladder_last (suc k) step h =
    let e : suc k - 1 ≡ k = omega arith in
    let e' : step + k * step ≡ suc k * step = omega arith in
    rw e (ladder_shift k step step ∙ ap (λ n. ladder k step step ++ n ∷ []) e')

module _ (len b : ℕ) (fits : len ≤ 10) where
  pub batch_of :
      (start : ℕ)
      → start ≤ step_of len b
      → generate_batch_numbers (generator_of len b) (pos start)
        ≡ ok (map pos (ladder b start (step_of len b)))
  batch_of start h = generate_batch_numbers_lem len b start fits ∙ ground arith

  numbers_of :
      (start : ℕ)
      → start ≤ step_of len b
      → (ns : List ℤ) → generate_batch_numbers (generator_of len b) (pos start) ≡ ok ns
      → ns ≡ map pos (ladder b start (step_of len b))
  numbers_of start h ns e = cc (batch_of start h)

  pub residues :
      (start : ℕ)
      → start < step_of len b
      → All (λ x. x % step_of len b ≡ start) (ladder b start (step_of len b))
  residues start h =
      All-imp _ _ (λ x h'. h'.2) (ladder b start (step_of len b))
        (All-ladder b start (step_of len b) 0 (62 ^ len) start (omega arith)
          (omega (arith, steps_fit len b, one-le-pow len 62 (omega arith))) (mod-eq_of_lt h))

  -- For a length of at most ten and a batch size of at least one, the generator is made, and every
  -- start index up to the step has a batch: `b` numbers, each with a code of exactly `len` characters.
  pub batch-lengths :
      0 < b
      → (start : ℕ) → start ≤ step_of len b
      → (g : Generator) × (ns : List ℤ) × (new_generator len b ≡ ok g)
        × (generate_batch_numbers g (pos start) ≡ ok ns)
        × (length ns ≡ b)
        × All (λ z. length (to_base62 z len) ≡ len) ns
  batch-lengths hb start h = (
    generator_of len b,
    map pos (ladder b start (step_of len b)),
    new_generator_lem len b fits hb,
    batch_of start h,
    length-map (ladder b start (step_of len b)) pos ∙ length-ladder b start (step_of len b),
    All-map (λ z. length (to_base62 z len) ≡ len) pos (ladder b start (step_of len b))
        (All-imp _ _ (λ x h'. length-to_base62 x len h'.1) (ladder b start (step_of len b))
          (All-ladder b start (step_of len b) 0 (62 ^ len) (start % step_of len b) (omega arith)
            (omega (arith, steps_fit len b, one-le-pow len 62 (omega arith))) refl)),
  )

  -- For a length of at most ten, two different start indices below the step have batches with no
  -- code in common.
  pub batches_disjoint :
      (i j : ℕ)
      → i < step_of len b
      → j < step_of len b
      → i ≢ j
      → (ns ms : List ℤ) → generate_batch_numbers (generator_of len b) (pos i) ≡ ok ns
      → generate_batch_numbers (generator_of len b) (pos j) ≡ ok ms
      → All (λ z. All (λ w. to_base62 z len ≢ to_base62 w len) ms) ns
  batches_disjoint i j hi hj ne ns ms ei ej =
      rw (numbers_of i (omega arith) ns ei, numbers_of j (omega arith) ms ej)
        (All-map
          (λ z. All (λ w. to_base62 z len ≢ to_base62 w len) (map pos (ladder b j (step_of len b))))
          pos (ladder b i (step_of len b))
          (All-imp _ _
            (λ x hx.
              All-map (λ w. to_base62 (pos x) len ≢ to_base62 w len) pos
                (ladder b j (step_of len b))
                (All-imp _ _
                  (λ y hy e.
                    ne (sym hx ∙ ap (λ n. n % step_of len b) (to_base62_inj x y len e) ∙ hy))
                  (ladder b j (step_of len b)) (residues j hj)))
            (ladder b i (step_of len b)) (residues i hi)))

  pub Distinct-codes :
      (xs : List ℕ) → Distinct xs → Distinct (map (λ z. to_base62 z len) (map pos xs))
  Distinct-codes [] d = tt
  Distinct-codes (x ∷ xs) d = (
    All-map _ (λ z. to_base62 z len) (map pos xs)
        (All-map _ pos xs (All-imp _ _ (λ y ne e. ne (to_base62_inj y x len e)) xs d.0)),
    Distinct-codes xs d.1,
  )

  -- For a length of at most ten and a step that is not 0, the codes of the batch of a start index up
  -- to the step are all different.
  pub batch-Distinct :
      (start : ℕ)
      → start ≤ step_of len b
      → 0 < step_of len b
      → (ns : List ℤ) → generate_batch_numbers (generator_of len b) (pos start) ≡ ok ns
      → Distinct (map (λ z. to_base62 z len) ns)
  batch-Distinct start h hs ns e =
      rw (numbers_of start h ns e) (
        Distinct-codes (ladder b start (step_of len b))
          (Distinct-ladder b start (step_of len b) hs))

  -- For a length of at most ten and a batch size `b` of at least one, the start index that equals
  -- the step is not refused, and its batch has all numbers of the batch of 0 but the first.
  pub last_batch_reissues :
      0 < b
      → (xs : List ℤ) × (generate_batch_numbers (generator_of len b) (pos 0) ≡ ok (pos 0 ∷ xs))
        × (generate_batch_numbers (generator_of len b) (pos (step_of len b))
            ≡ ok (xs ++ pos (b * step_of len b) ∷ []))
        × (length xs + 1 ≡ b)
  last_batch_reissues h = (
    map pos (ladder (b - 1) (step_of len b) (step_of len b)),
    batch_of 0 (omega arith) ∙ ap (λ xs. ok (map pos xs)) (ladder_first b (step_of len b) h),
    batch_of (step_of len b) (omega arith)
        ∙ ap (λ xs. ok (map pos xs)) (ladder_last b (step_of len b) h)
        ∙ ap ok (map-append pos (ladder (b - 1) (step_of len b) (step_of len b)) _),
    omega (
      arith,
      length-map (ladder (b - 1) (step_of len b) (step_of len b)) pos,
      length-ladder (b - 1) (step_of len b) (step_of len b),
    ),
  )
