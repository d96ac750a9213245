-- ===== src/Gen/Batches.antt =====
-- The numbers of a batch: their bounds, and what two batches share.
use native.Mathlib.Nat.{pow-succ', pow-le-pow_right, one-le-pow, add-mod_right, div-le_self}
use vshortlink.Prelude.{
  ℕ, zero, suc, ◌+◌, ◌-◌, ◌*◌, ◌/◌, ◌%◌, ◌^◌, ◌≤◌, ◌<◌, ◌≡◌, refl, ap, ◌∙◌, some, List, [], ◌∷◌,
  ◌++◌, map, replicate, All, ok, err, pool_exhausted, arith, if◌then◌else◌, ltb, length,
}
use vshortlink.Prelude.Int.{pos, add64}
use vshortlink.Base62.{index_rune, from_base62}
use vshortlink.Base62.RoundTrip.{place_value, from_base62-place_value}
use vshortlink.Gen.{Generator, new_generator, fill_batch, generate_batch_numbers}

place_value-repeat_Z :
    (n a : ℕ) → place_value a (replicate n b'Z') ≡ some (a * 62 ^ n + (62 ^ n - 1))
unfolding place_value index_rune
place_value-repeat_Z zero a = ap some (omega arith)
place_value-repeat_Z (suc n) a =
    place_value-repeat_Z n (a * 62 + 61)
    ∙ ap some (rw (pow-succ' 62 n) (omega (arith, one-le-pow n 62 (omega arith))))

-- The largest code of each length up to ten is read without overflow.
pub from_base62-repeat_Z : (n : ℕ) → n ≤ 10 → from_base62 (replicate n b'Z') ≡ pos (62 ^ n - 1)
from_base62-repeat_Z n h =
    let bound : 62 ^ n ≤ 62 ^ 10 = pow-le-pow_right (omega arith) h in
    rw (from_base62-place_value, place_value-repeat_Z) (ground arith)

-- The distance of two numbers of a batch.
abbrev pub step_of : ℕ → ℕ → ℕ
step_of length batch_size = (62 ^ length - 1) / batch_size

-- The generator that `NewShortCodeGenerator` builds for a length up to ten.
abbrev pub generator_of : ℕ → ℕ → Generator
generator_of length batch_size = record {
  length = length;
  step = pos (step_of length batch_size);
  batch_size = batch_size;
}

pub new_generator_lem :
    (len b : ℕ) → len ≤ 10 → 0 < b → new_generator len b ≡ ok (generator_of len b)
unfolding new_generator
new_generator_lem len b h hb = ground (arith, from_base62-repeat_Z len h)

-- `rounds` numbers from `start`, `step` apart, with no bound.
unfoldable pub ladder : ℕ → ℕ → ℕ → List ℕ
ladder zero start step = []
ladder (suc rounds) start step = start ∷ ladder rounds (start + step) step

fill_batch-ladder :
    (k start step : ℕ)
    → start + k * step < 2 ^ 63
    → fill_batch k (pos start) (pos step) ≡ map pos (ladder k start step)
unfolding fill_batch ladder
fill_batch-ladder zero start step h = refl
fill_batch-ladder (suc k) start step h =
    let next : add64 (pos start) (pos step) ≡ pos (start + step) = ground arith in
    rw next (ap (◌∷◌ (pos start)) (fill_batch-ladder k (start + step) step (omega arith)))

pub steps_fit : (len b : ℕ) → b * step_of len b ≤ 62 ^ len - 1
steps_fit len b = grind arith

step_small : (len b : ℕ) → step_of len b ≤ 62 ^ len - 1
step_small len b = div-le_self (62 ^ len - 1) b

batch_fits :
    (len b start : ℕ) → len ≤ 10 → start ≤ step_of len b → start + b * step_of len b < 2 ^ 63
batch_fits len b start h hs =
    let bound : 62 ^ len ≤ 62 ^ 10 = pow-le-pow_right (omega arith) h in
    let small : step_of len b ≤ 62 ^ len - 1 = step_small len b in omega (arith, steps_fit len b)

pub index_fits : (len b start : ℕ) → len ≤ 10 → start ≤ step_of len b → start + 1 < 2 ^ 63
index_fits len b start h hs =
    let bound : 62 ^ len ≤ 62 ^ 10 = pow-le-pow_right (omega arith) h in
    let small : step_of len b ≤ 62 ^ len - 1 = step_small len b in omega arith

-- A start index up to the step gives its ladder, a greater one the error.
pub generate_batch_numbers_lem :
    (len b start : ℕ)
    → len ≤ 10
    → generate_batch_numbers (generator_of len b) (pos start) ≡ (
        if ltb (step_of len b) start
        then err pool_exhausted
        else ok (map pos (ladder b start (step_of len b))))
unfolding generate_batch_numbers
generate_batch_numbers_lem len b start h =
    ground (arith, fill_batch-ladder b start (step_of len b), batch_fits len b start h)

-- Every number of a ladder lies between its ends, and leaves `r` modulo the step as the start does.
pub All-ladder :
    (k start step low top r : ℕ)
    → low ≤ start
    → start + k * step < top + step
    → start % step ≡ r
    → All (λ x. (low ≤ x) × (x < top) × (x % step ≡ r)) (ladder k start step)
unfolding ladder
All-ladder zero start step low top r hl h e = tt
All-ladder (suc k) start step low top r hl h e = (
  (hl, omega arith, e),
  All-ladder k (start + step) step low top r (omega arith) (omega arith)
      (add-mod_right start step ∙ e),
)

-- The ladder from 0 without its first number is the ladder from the step without its last.
pub ladder_shift :
    (k start step : ℕ) → ladder (suc k) start step ≡ ladder k start step ++ (start + k * step) ∷ []
unfolding ladder
ladder_shift zero start step = ap (λ n. n ∷ []) (omega arith)
ladder_shift (suc k) start step =
    let e : start + step + k * step ≡ start + suc k * step = omega arith in
    ap (◌∷◌ start)
      (ladder_shift k (start + step) step ∙ ap (λ n. ladder k (start + step) step ++ n ∷ []) e)
