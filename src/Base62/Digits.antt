-- ===== src/Base62/Digits.antt =====
-- The digits of a number, and the alphabet.
use mathlib.Core.Logic.{ite, dite}
use mathlib.Core.WellFounded.{Acc, Acc-prop}
use native.Mathlib.Decide.{dec_lt}
use vshortlink.Prelude.{
  ℕ, zero, suc, ◌/◌, ◌%◌, ◌<◌, ◌≡◌, refl, Bool, true, false, if◌then◌else◌, Option, none, some, [],
  ◌∷◌, Text, ◌==◌, length, get_or, arith,
}
use vshortlink.Base62.{
  base62_chars, char_at, index_rune, quotient_lt, write_digits_acc, write_digits,
}

step_acc :
    (n : ℕ) (w : Acc ◌<◌ n) (w' : Acc ◌<◌ (n / 62))
    → write_digits_acc n w ≡ ite (dec_lt 0 n) (char_at (n % 62) ∷ write_digits_acc (n / 62) w') []
unfolding write_digits_acc
step_acc n (Acc.intro _ smaller) w' = λ i.
    dite (dec_lt 0 n)
      (λ h.
        char_at (n % 62)
        ∷ write_digits_acc (n / 62) (Acc-prop (smaller (n / 62) (quotient_lt h)) w' i))
      (λ _. [])

-- One round of the loop, as an equation.
pub write_digits_step :
    (n : ℕ) → write_digits n ≡ ite (dec_lt 0 n) (char_at (n % 62) ∷ write_digits (n / 62)) []
unfolding write_digits
write_digits_step n = step_acc n _ _

finds : Option ℕ → ℕ → Bool
finds none d = false
finds (some p) d = p == d

finds_lem : (o : Option ℕ) (d : ℕ) → finds o d ≡ true → o ≡ some d
unfolding finds
finds_lem none d h = ground arith
finds_lem (some p) d h = ground arith

-- The test that the first digits stand at their own places.
in_place : ℕ → Bool
unfolding finds
in_place zero = true
in_place (suc d) = if finds (index_rune base62_chars (char_at d)) d then in_place d else false

in_place-finds :
    (digits d : ℕ)
    → in_place digits ≡ true
    → d < digits
    → finds (index_rune base62_chars (char_at d)) d ≡ true
unfolding in_place
in_place-finds zero d h below = absurd (omega arith)
in_place-finds (suc last) d h below = ground (arith, in_place-finds last d)

alphabet_table : in_place 62 ≡ true
unfolding in_place finds index_rune char_at
alphabet_table = refl

-- Every digit is found in the alphabet at its own place.
pub index_rune-char_at : (d : ℕ) → d < 62 → index_rune base62_chars (char_at d) ≡ some d
index_rune-char_at d h = finds_lem _ d (in_place-finds 62 d alphabet_table h)

index_rune_sound :
    (s : Text) (c p : ℕ) → index_rune s c ≡ some p → (p < length s) × (get_or s p 0 ≡ c)
unfolding index_rune
index_rune_sound [] c p h = ground arith
index_rune_sound (d ∷ s) c zero h = ground arith
index_rune_sound (d ∷ s) c (suc p) h = ground (arith, index_rune_sound s c p)

-- A character that is found is the digit of its place.
pub char_at-index_rune : (c p : ℕ) → index_rune base62_chars c ≡ some p → (p < 62) × (char_at p ≡ c)
unfolding char_at
char_at-index_rune c p h = index_rune_sound base62_chars c p h
