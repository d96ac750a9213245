-- ===== src/Prelude/Decimal/RoundTrip.antt =====
-- Every int64 is read back from its decimal print, and a text without the separator is one part.
use mathlib.Core.Logic.{ite, dite, if_pos, if_neg}
use mathlib.Core.WellFounded
use mathlib.Core.WellFounded.{Acc, Acc-prop}
use native.Mathlib.Decide.{dec_lt}
use vshortlink.Prelude.{
  ℕ, ◌+◌, ◌-◌, ◌*◌, ◌/◌, ◌%◌, ◌^◌, ◌≤◌, ◌<◌, ◌≡◌, ◌≢◌, refl, sym, ap, ◌∙◌, false, none, some, [],
  ◌∷◌, ◌++◌, Text, ltb, ◌==◌, All, Bool-cases, inl, inr, ltb→lt, arith,
}
use vshortlink.Prelude.Int.{ℤ, pos, negsuc}
use vshortlink.Prelude.Order.{lt_wf}
use vshortlink.Prelude.Decimal.{
  tenth_lt, decimal_acc, decimal, format_int, parse_digits, parse_uint, parse_int, split_once,
}

step_acc :
    (n : ℕ) (w : Acc ◌<◌ n) (w' : Acc ◌<◌ (n / 10)) (out : Text)
    → decimal_acc n w out
      ≡ ite (dec_lt 9 n) (decimal_acc (n / 10) w' ((b'0' + n % 10) ∷ out)) ((b'0' + n) ∷ out)
unfolding decimal_acc
step_acc n (Acc.intro _ smaller) w' out = λ i.
    dite (dec_lt 9 n)
      (λ h.
        decimal_acc (n / 10) (Acc-prop (smaller (n / 10) (tenth_lt h)) w' i)
          ((b'0' + n % 10) ∷ out))
      (λ _. (b'0' + n) ∷ out)

pub decimal_step :
    (n : ℕ) (out : Text)
    → decimal n out ≡ ite (dec_lt 9 n) (decimal (n / 10) ((b'0' + n % 10) ∷ out)) ((b'0' + n) ∷ out)
unfolding decimal
decimal_step n out = step_acc n _ _ out

-- Reading a print, and what follows it, goes on from the number.
parse_digits-decimal : (n : ℕ) (out : Text) → parse_digits 0 (decimal n out) ≡ parse_digits n out
unfolding parse_digits
parse_digits-decimal n =
    WellFounded.induction lt_wf
      {C = λ m. (out : Text) → parse_digits 0 (decimal m out) ≡ parse_digits m out} n
      λ m ih out. grind (arith, decimal_step m out, ih (m / 10))

-- A print starts with a digit.
decimal-cons :
    (n : ℕ) (out : Text) → (c : ℕ) × (s : Text) × (decimal n out ≡ c ∷ s) × (b'0' ≤ c) × (c ≤ b'9')
decimal-cons n =
    WellFounded.induction lt_wf
      {C = λ m.
        (out : Text) → (c : ℕ) × (s : Text) × (decimal m out ≡ c ∷ s) × (b'0' ≤ c) × (c ≤ b'9')}
      n
      λ m ih out. elim (Bool-cases (ltb 9 m)) [
        | inl more ↦
            let (c, s, e, low, high) =
              ih (m / 10) (omega (arith, ltb→lt 9 m more)) ((b'0' + m % 10) ∷ out) in
            (c, s, decimal_step m out ∙ if_pos (dec_lt 9 m) (ltb→lt 9 m more) _ _ ∙ e, low, high)
        | inr last ↦ (
          b'0' + m,
          out,
          decimal_step m out ∙ if_neg (dec_lt 9 m) (λ h. ground arith) _ _,
          omega arith,
          ground arith,
        )
      ]

parse_uint-decimal : (n : ℕ) → parse_uint (decimal n []) ≡ some n
unfolding parse_uint
parse_uint-decimal n =
    let (c, s, e, low, high) = decimal-cons n [] in
    ap parse_uint e
    ∙ ap (parse_digits 0) (sym e)
    ∙ parse_digits-decimal n []
    ∙ unfold parse_digits in refl

-- The numbers of an `int64`.
abbrev pub IsInt64 : ℤ → Type 0
IsInt64 (pos n) = n < 2 ^ 63
IsInt64 (negsuc n) = n < 2 ^ 63

-- Every `int64` is read back from its decimal print.
pub parse_int-format_int : (z : ℤ) → IsInt64 z → parse_int (format_int z) ≡ some z
unfolding format_int parse_int
parse_int-format_int (pos n) h =
    let (c, s, e, low, high) = decimal-cons n [] in
    let value : parse_uint (c ∷ s) ≡ some n = ap parse_uint (sym e) ∙ parse_uint-decimal n in
    ap parse_int e ∙ unfold parse_int in ground (arith, value)
parse_int-format_int (negsuc n) h = rw (parse_uint-decimal (n + 1)) (ground arith)

-- Every character differs from the separator.
abbrev pub Lacks : ℕ → Text → Type 0
Lacks sep = All (λ c. c ≢ sep)

-- A text is cut at its first separator.
pub split_once-append :
    (sep : ℕ) (s t : Text) → Lacks sep s → split_once sep (s ++ sep ∷ t) ≡ s ∷ t ∷ []
unfolding split_once
split_once-append sep [] t h = ground arith
split_once-append sep (c ∷ s) t h =
    let e : (c == sep) ≡ false = ground (arith, h.0) in rw (e, split_once-append sep s t h.1)

parse_digits-foreign : (v : ℕ) (s t : Text) (c : ℕ) → c < b'0' → parse_digits v (s ++ c ∷ t) ≡ none
unfolding parse_digits
parse_digits-foreign v [] t c h = ground arith
parse_digits-foreign v (d ∷ s) t c h =
    ground (arith, parse_digits-foreign (v * 10 + (d - b'0')) s t c h)

parse_uint-foreign : (s t : Text) (c : ℕ) → c < b'0' → parse_uint (s ++ c ∷ t) ≡ none
unfolding parse_uint
parse_uint-foreign [] t c h = parse_digits-foreign 0 [] t c h
parse_uint-foreign (d ∷ s) t c h = parse_digits-foreign 0 (d ∷ s) t c h

-- A text with a newline is no number.
pub parse_int-newline : (s t : Text) → parse_int (s ++ b'\n' ∷ t) ≡ none
unfolding parse_int
parse_int-newline [] t = ground (arith, parse_uint-foreign [] t b'\n' (omega arith))
parse_int-newline (d ∷ s) t = ground (
  arith,
  parse_uint-foreign s t b'\n' (omega arith),
  parse_uint-foreign (d ∷ s) t b'\n' (omega arith),
)

-- Different numbers have different prints.
pub format_int-inj : (n m : ℕ) → format_int (pos n) ≡ format_int (pos m) → n ≡ m
unfolding format_int
format_int-inj n m e = ground (arith, parse_uint-decimal n, parse_uint-decimal m, ap parse_uint e)

-- The print of a natural number starts with a digit.
pub format_int-cons :
    (n : ℕ) → (c : ℕ) × (s : Text) × (format_int (pos n) ≡ c ∷ s) × (b'0' ≤ c) × (c ≤ b'9')
unfolding format_int
format_int-cons n = decimal-cons n []
