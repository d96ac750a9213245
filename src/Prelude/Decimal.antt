-- ===== src/Prelude/Decimal.antt =====
-- What the source uses of Go's `strconv` and `strings`: `FormatInt` and `ParseInt` in base 10 for
-- 64 bits, and `SplitN` in two parts.
pub mod RoundTrip
use mathlib.Core.Logic.{dite}
use mathlib.Core.WellFounded.{Acc}
use native.Mathlib.Decide.{dec_lt}
use vshortlink.Prelude.{
  ℕ, ◌+◌, ◌-◌, ◌*◌, ◌/◌, ◌%◌, ◌^◌, ◌<◌, Option, none, some, List, [], ◌∷◌, Text, ltb, leb, ◌==◌,
  ◌&&◌, if◌then◌else◌, arith,
}
use vshortlink.Prelude.Int.{ℤ, pos, negsuc, sub_ℕ}
use vshortlink.Prelude.Order.{lt_wf}

tenth_lt : {n : ℕ} → 9 < n → n / 10 < n
tenth_lt h = omega arith

-- The last digit is written first, in front of what stands already.
decimal_acc : (n : ℕ) → Acc ◌<◌ n → Text → Text
decimal_acc n (Acc.intro _ smaller) out =
    dite (dec_lt 9 n)
      (λ h. decimal_acc (n / 10) (smaller (n / 10) (tenth_lt h)) ((b'0' + n % 10) ∷ out))
      (λ _. (b'0' + n) ∷ out)

pub decimal : ℕ → Text → Text
decimal n out = decimal_acc n (lt_wf.apply n) out

-- `strconv.FormatInt(z, 10)`
pub format_int : ℤ → Text
format_int (pos n) = decimal n []
format_int (negsuc n) = b'-' ∷ decimal (n + 1) []

-- The value of digits, with what stands before them; no bound.
unfoldable pub parse_digits : ℕ → Text → Option ℕ
parse_digits v [] = some v
parse_digits v (c ∷ s) =
    let rest = parse_digits (v * 10 + (c - b'0')) s in
    if leb b'0' c && leb c b'9' then rest else none

unfoldable pub parse_uint : Text → Option ℕ
unfolding parse_digits
parse_uint [] = none
parse_uint (c ∷ s) = parse_digits 0 (c ∷ s)

-- The range of `int64`; beyond it there is an error.
in_range : Option ℕ → Option ℤ
in_range none = none
in_range (some n) = if ltb n (2 ^ 63) then some (pos n) else none

negated : Option ℕ → Option ℤ
negated none = none
negated (some n) = if leb n (2 ^ 63) then some (sub_ℕ 0 n) else none

-- `strconv.ParseInt(s, 10, 64)`; `none` is an error, of the syntax or of the range.
unfoldable pub parse_int : Text → Option ℤ
unfolding parse_uint in_range negated
parse_int [] = none
parse_int (c ∷ s) =
    if c == b'-'
    then negated (parse_uint s)
    else if c == b'+'
    then in_range (parse_uint s)
    else in_range (parse_uint (c ∷ s))

prepend : ℕ → List Text → List Text
prepend c [] = []
prepend c (part ∷ parts) = (c ∷ part) ∷ parts

-- `strings.SplitN(s, sep, 2)` for a separator of one byte.
unfoldable pub split_once : ℕ → Text → List Text
unfolding prepend
split_once sep [] = [] ∷ []
split_once sep (c ∷ s) =
    let rest = prepend c (split_once sep s) in if c == sep then [] ∷ s ∷ [] else rest
