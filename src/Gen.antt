-- ===== src/Gen.antt =====
-- cores/gen.go: `ShortCodeGenerator`, which spreads the codes of one length over batches.
pub mod Batches
pub mod Codes
use vshortlink.Prelude.{
  ℕ, zero, suc, ◌==◌, if◌then◌else◌, List, [], ◌∷◌, replicate, Result, ok, err, pool_exhausted,
  panicked, ◌≡◌, refl,
}
use vshortlink.Prelude.Int.{ℤ, pos, ltb_ℤ, add64, quot}
use vshortlink.Base62.{from_base62}

pub record Generator : Type 0 where
  pub length : ℕ
  pub step : ℤ
  pub batch_size : ℕ

-- `NewShortCodeGenerator`; the division by a batch size of 0 panics.
unfoldable pub new_generator : ℕ → ℕ → Result Generator
new_generator length batch_size =
    if batch_size == 0
    then err panicked
    else ok (record {
      length = length;
      step = quot (from_base62 (replicate length b'Z')) batch_size;
      batch_size = batch_size;
    })

-- The loop: `rounds` entries, each the one before it plus the step, on `int64`.
unfoldable pub fill_batch : ℕ → ℤ → ℤ → List ℤ
fill_batch zero start_index step = []
fill_batch (suc rounds) start_index step =
    start_index ∷ fill_batch rounds (add64 start_index step) step

-- The argument `length` of the method is not used by its body.
unfoldable pub generate_batch_numbers : Generator → ℤ → Result (List ℤ)
unfolding fill_batch
generate_batch_numbers g start_index =
    if ltb_ℤ g.step start_index
    then err pool_exhausted
    else ok (fill_batch g.batch_size start_index g.step)
