-- ===== src/Base62/Tests.antt =====
-- Base 62 codes of single numbers.
use native.Mathlib.Decide.{dec_lt}
use vshortlink.Prelude.{◌≡◌, refl, codes}
use vshortlink.Prelude.Int.{pos, negsuc}
use vshortlink.Prelude.Order.{lt_wf}
use vshortlink.Base62.{
  char_at, index_rune, write_digits_acc, write_digits, swap_ends, reverse_string, to_base62,
  from_base62,
}

to_base62_test : to_base62 (pos 125) 4 ≡ codes "0021"
unfolding to_base62 reverse_string swap_ends write_digits write_digits_acc char_at lt_wf dec_lt
to_base62_test = refl

from_base62_test : from_base62 (codes "0021") ≡ pos 125
unfolding from_base62 index_rune
from_base62_test = refl

from_base62_invalid : from_base62 (codes "00-1") ≡ negsuc 0
unfolding from_base62 index_rune
from_base62_invalid = refl
