-- ===== src/Base62.antt =====
-- cores/util.go: base 62 codes. `ToBase62`, `reverseString` and `FromBase62`.
pub mod Reverse
pub mod Digits
pub mod RoundTrip
mod Tests
use mathlib.Core.Logic.{dite}
use mathlib.Core.WellFounded.{Acc}
use native.Mathlib.Decide.{dec_lt}
use vshortlink.Prelude.{
  ℕ, zero, suc, ◌+◌, ◌-◌, ◌*◌, ◌/◌, ◌%◌, ◌^◌, ◌<◌, ◌≡◌, refl, Option, none, some, List, [], ◌∷◌,
  ◌++◌, Text, codes, ltb, ◌==◌, if◌then◌else◌, length, get_or, set, replicate, arith,
}
use vshortlink.Prelude.Int.{ℤ, pos, negsuc, pos_part, signed64}
use vshortlink.Prelude.Order.{lt_wf}

abbrev pub base62_chars : Text
base62_chars = codes "0123456789abcdefghijklmnopqrstuvwxyzABCDEFGHIJKLMNOPQRSTUVWXYZ"

abbrev pub base62_base : ℕ
base62_base = 62

-- `base62Chars[d]`
unfoldable pub char_at : ℕ → ℕ
char_at d = get_or base62_chars d 0

-- `strings.IndexRune(chars, c)`; `none` is its -1. The table is ASCII, so it holds no byte of a
-- longer rune.
unfoldable pub index_rune : Text → ℕ → Option ℕ
index_rune [] c = none
index_rune (d ∷ s) c =
    if d == c then some 0 else elim (index_rune s c) [ none ↦ none | some i ↦ some (suc i) ]

quotient_lt : {n : ℕ} → 0 < n → n / 62 < n
quotient_lt h = omega arith

pub write_digits_acc : (temp_id : ℕ) → Acc ◌<◌ temp_id → Text
write_digits_acc temp_id (Acc.intro _ smaller) =
    dite (dec_lt 0 temp_id)
      (λ h.
        char_at (temp_id % base62_base)
        ∷ write_digits_acc (temp_id / base62_base) (smaller (temp_id / 62) (quotient_lt h)))
      (λ _. [])

-- The loop `for tempID > 0`: what it writes to the builder, the last digit first.
pub write_digits : ℕ → Text
write_digits n = write_digits_acc n (lt_wf.apply n)

-- The loop of `reverseString`: `rounds` bounds the rounds, of which there are at most len/2.
unfoldable pub swap_ends : ℕ → ℕ → ℕ → Text → Text
swap_ends zero i j runes = runes
swap_ends (suc rounds) i j runes =
    let swapped = set (set runes i (get_or runes j 0)) j (get_or runes i 0) in
    let rest = swap_ends rounds (i + 1) (j - 1) swapped in if ltb i j then rest else runes

-- Its argument is ASCII, so the runes are the bytes. On "" the loop's test fails at once.
pub reverse_string : Text → Text
reverse_string s = swap_ends (length s) 0 (length s - 1) s

pub pad : Text → ℕ → Text
pad reversed length' =
    if ltb (length reversed) length'
    then replicate (length' - length reversed) b'0' ++ reversed
    else reversed

-- For a negative id the loop is not entered, as for 0.
pub to_base62 : ℤ → ℕ → Text
unfolding pad
to_base62 id length' = pad (reverse_string (write_digits (pos_part id))) length'

-- The loop of `FromBase62`; `id` is the bit pattern of the `int64`, which wraps around.
unfoldable pub from_digits : ℕ → Text → ℤ
from_digits id [] = signed64 id
from_digits id (c ∷ s) = elim (index_rune base62_chars c) [
  | none ↦ negsuc 0
  | some p ↦ from_digits ((id * base62_base + p) % 2 ^ 64) s
]

unfoldable pub from_base62 : Text → ℤ
unfolding from_digits
from_base62 short_code = from_digits 0 short_code
