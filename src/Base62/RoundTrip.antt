-- ===== src/Base62/RoundTrip.antt =====
-- `ToBase62` and `FromBase62` undo one another.
use mathlib.Core.List.{reverse, reverse-append}
use mathlib.Core.Logic.{if_pos, if_neg}
use mathlib.Core.WellFounded
use native.Mathlib.Decide.{dec_lt}
use native.Mathlib.Nat.{pow-suc, pow-succ', pow-le-pow_right}
use vshortlink.Prelude.{
  ℕ, zero, suc, ◌+◌, ◌-◌, ◌*◌, ◌/◌, ◌%◌, ◌^◌, ◌≤◌, ◌<◌, ◌≡◌, refl, ap, ◌∙◌, Option, none, some, [],
  ◌∷◌, ◌++◌, append_assoc, Text, ltb, ltb→lt, length, length-append, append-nil, sym,
  length-replicate, replicate, arith, Bool-cases, Option-cases, inl, inr,
}
use vshortlink.Prelude.Int.{ℤ, pos, negsuc, signed64}
use vshortlink.Prelude.Order.{lt_wf}
use vshortlink.Base62.{
  base62_chars, char_at, index_rune, write_digits, pad, reverse_string, to_base62, from_digits,
  from_base62,
}
use vshortlink.Base62.Digits.{write_digits_step, index_rune-char_at, char_at-index_rune}
use vshortlink.Base62.Reverse.{reverse_string_lem, length-reverse}

-- The number that digits spell behind `a`, with no bound.
unfoldable pub place_value : ℕ → Text → Option ℕ
place_value a [] = some a
place_value a (c ∷ s) = elim (index_rune base62_chars c) [
  | none ↦ none
  | some p ↦ place_value (a * 62 + p) s
]

abbrev read_back : Option ℕ → ℤ
read_back none = negsuc 0
read_back (some v) = signed64 (v % 2 ^ 64)

wrap_digit : (a p : ℕ) → (a % 2 ^ 64 * 62 + p) % 2 ^ 64 ≡ (a * 62 + p) % 2 ^ 64
wrap_digit a p = omega arith

from_digits-place_value :
    (a : ℕ) (s : Text) → from_digits (a % 2 ^ 64) s ≡ read_back (place_value a s)
unfolding from_digits place_value
from_digits-place_value a [] = refl
from_digits-place_value a (c ∷ s) = elim (Option-cases (index_rune base62_chars c)) [
  | inl missing ↦ rw (missing, from_digits, place_value) (ground arith)
  | inr (p, found) ↦ ground (arith, wrap_digit a p, from_digits-place_value (a * 62 + p) s)
]

-- `FromBase62` is -1 on a text with a foreign character, and wraps the number around otherwise.
pub from_base62-place_value : (s : Text) → from_base62 s ≡ read_back (place_value 0 s)
unfolding from_base62
from_base62-place_value s = from_digits-place_value 0 s

place_value-digit :
    (a d : ℕ) (s : Text) → d < 62 → place_value a (char_at d ∷ s) ≡ place_value (a * 62 + d) s
unfolding place_value
place_value-digit a d s h = ground (arith, index_rune-char_at d h)

write_digits_pos : (n : ℕ) → 0 < n → write_digits n ≡ char_at (n % 62) ∷ write_digits (n / 62)
write_digits_pos n h = write_digits_step n ∙ if_pos (dec_lt 0 n) h _ _

write_digits_zero : write_digits 0 ≡ []
write_digits_zero = write_digits_step 0 ∙ if_neg (dec_lt 0 0) (λ h. omega arith) _ _

place_value-digits :
    (n : ℕ) (rest : Text) → place_value 0 (reverse (write_digits n) ++ rest) ≡ place_value n rest
place_value-digits n =
    WellFounded.induction lt_wf
      {C = λ m.
        (rest : Text) → place_value 0 (reverse (write_digits m) ++ rest) ≡ place_value m rest}
      n
      λ m ih rest. elim (Bool-cases (ltb 0 m)) [
        | inl more ↦
            let h : 0 < m = ltb→lt 0 m more in
            let e : m / 62 * 62 + m % 62 ≡ m = omega arith in
            rw
              (
                write_digits_pos m h,
                reverse-append (char_at (m % 62) ∷ []) (write_digits (m / 62)),
                append_assoc,
              )
              (ih (m / 62) (omega arith) (char_at (m % 62) ∷ rest)
                ∙ place_value-digit (m / 62) (m % 62) rest (omega arith)
                ∙ ap (λ k. place_value k rest) e)
        | inr done ↦ let e : m ≡ 0 = ground arith in rw (e, write_digits_zero)
      ]

place_value-zeros : (k : ℕ) (s : Text) → place_value 0 (replicate k b'0' ++ s) ≡ place_value 0 s
unfolding place_value index_rune
place_value-zeros zero s = refl
place_value-zeros (suc k) s = place_value-zeros k s

place_value-pad : (s : Text) (n : ℕ) → place_value 0 (pad s n) ≡ place_value 0 s
unfolding pad
place_value-pad s n = ground (arith, place_value-zeros (n - length s) s)

-- The code of a number spells the number.
pub place_value-to_base62 : (n len : ℕ) → place_value 0 (to_base62 (pos n) len) ≡ some n
unfolding to_base62
place_value-to_base62 n len =
    place_value-pad (reverse_string (write_digits n)) len
    ∙ ap (place_value 0) (reverse_string_lem (write_digits n) ∙ sym (append-nil _))
    ∙ place_value-digits n []
    ∙ unfold place_value in refl

-- Every id from 0 to 2^63 - 1 is read back from its code, whatever length it is padded to.
pub from_base62-to_base62 : (n len : ℕ) → n < 2 ^ 63 → from_base62 (to_base62 (pos n) len) ≡ pos n
from_base62-to_base62 n len h = rw (from_base62-place_value, place_value-to_base62) (ground arith)

length-write_digits : (len n : ℕ) → n < 62 ^ len → length (write_digits n) ≤ len
length-write_digits zero n h =
    let e : n ≡ 0 = ground arith in rw (e, write_digits_zero) (omega arith)
length-write_digits (suc len) n h = elim (Bool-cases (ltb 0 n)) [
  | inl more ↦
      rw (write_digits_pos n (ltb→lt 0 n more))
        (omega (arith, length-write_digits len (n / 62) (omega (arith, pow-suc 62 len))))
  | inr done ↦ let e : n ≡ 0 = ground arith in rw (e, write_digits_zero) (omega arith)
]

-- A number below 62^len has a code of exactly `len` characters.
pub length-to_base62 : (n len : ℕ) → n < 62 ^ len → length (to_base62 (pos n) len) ≡ len
unfolding to_base62 pad
length-to_base62 n len h =
    let digits = reverse_string (write_digits n) in
    let short : length digits ≤ len =
      rw (reverse_string_lem, length-reverse) (length-write_digits len n h) in
    ground (
      arith,
      short,
      length-append {0} (replicate (len - length digits) b'0') digits,
      length-replicate {0} {A = ℕ} (len - length digits) b'0',
    )

place_value-cons :
    (c : ℕ) (s : Text) (a v : ℕ)
    → place_value a (c ∷ s) ≡ some v
    → (p : ℕ) × (index_rune base62_chars c ≡ some p) × (place_value (a * 62 + p) s ≡ some v)
unfolding place_value
place_value-cons c s a v h = elim (Option-cases (index_rune base62_chars c)) [
  | inl missing ↦ absurd (ground arith)
  | inr (p, found) ↦ (p, found, ground arith)
]

-- Texts of one length that spell one number are equal.
pub place_value_inj :
    (s t : Text) (a b v : ℕ)
    → length s ≡ length t
    → place_value a s ≡ some v
    → place_value b t ≡ some v
    → (a ≡ b) × (s ≡ t)
place_value_inj [] [] a b v e hs ht = unfold place_value in ground arith
place_value_inj [] (d ∷ t) a b v e hs ht = absurd (omega arith)
place_value_inj (c ∷ s) [] a b v e hs ht = absurd (omega arith)
place_value_inj (c ∷ s) (d ∷ t) a b v e hs ht =
    let (p, found_c, value_s) = place_value-cons c s a v hs in
    let (q, found_d, value_t) = place_value-cons d t b v ht in
    let (same_value, same_rest) =
      place_value_inj s t (a * 62 + p) (b * 62 + q) v (omega arith) value_s value_t in
    ground (arith, char_at-index_rune c p found_c, char_at-index_rune d q found_d)

place_value-lt : (s : Text) (a b v : ℕ) → a < b → place_value a s ≡ some v → v < b * 62 ^ length s
place_value-lt [] a b v h e = unfold place_value in ground arith
place_value-lt (c ∷ s) a b v h e =
    let (p, found, rest) = place_value-cons c s a v e in
    let (small, spelled) = char_at-index_rune c p found in
    let ih = place_value-lt s (a * 62 + p) (b * 62) v (omega arith) rest in
    rw (pow-succ' 62 (length s)) (omega (arith, ih))

place_value-lt-pow :
    (s : Text) (v len : ℕ) → length s ≤ len → place_value 0 s ≡ some v → v < 62 ^ len
place_value-lt-pow s v len short e =
    let bound : v < 1 * 62 ^ length s = place_value-lt s 0 1 v (omega arith) e in
    let wider : 62 ^ length s ≤ 62 ^ len = pow-le-pow_right (omega arith) short in omega arith

-- What is read from a short code is the number that it spells: nothing wrapped around.
pub place_value_of_from_base62 :
    (s : Text) (n : ℕ) → length s ≤ 10 → from_base62 s ≡ pos n → place_value 0 s ≡ some n
place_value_of_from_base62 s n short h = elim (Option-cases (place_value 0 s)) [
  | inl missing ↦ absurd (ground (arith, from_base62-place_value s))
  | inr (v, found) ↦
      let small : v < 62 ^ 10 = place_value-lt-pow s v 10 short found in
      ground (arith, from_base62-place_value s)
]

-- A code of at most ten characters that is read as an id from 0 on is rebuilt from it.
pub to_base62-from_base62 :
    (s : Text) (n : ℕ) → length s ≤ 10 → from_base62 s ≡ pos n → to_base62 (pos n) (length s) ≡ s
to_base62-from_base62 s n short h =
    let spelled = place_value_of_from_base62 s n short h in
    let same_length =
      length-to_base62 n (length s) (place_value-lt-pow s n (length s) (omega arith) spelled) in
    (place_value_inj (to_base62 (pos n) (length s)) s 0 0 n same_length
      (place_value-to_base62 n (length s)) spelled).1
