-- ===== src/Redis/Cache/Entries.antt =====
-- The Redis cache keeps the contract of a cache, for links without a newline, to the second.
use vshortlink.Prelude.{
  ℕ, ◌*◌, ◌/◌, ◌^◌, ◌≤◌, ◌<◌, ◌≡◌, ◌-◌, leb, if_elim, append_assoc, refl, ap, ◌∙◌, none, some, ◌∷◌,
  ◌++◌, Text, ltb, arith,
}
use vshortlink.Prelude.Int.{pos, negsuc, add64, sub_ℕ}
use vshortlink.Prelude.Decimal.{format_int, split_once}
use vshortlink.Prelude.Decimal.RoundTrip.{
  IsInt64, parse_int-format_int, Lacks, split_once-append, parse_int-newline,
}
use vshortlink.Link.{Time}
use vshortlink.Redis.Keys.{unix, unix_offset, after_unix}
use vshortlink.Redis.Cache.{format_link_with_expire_time, split_link_and_expire_time, read_parts}

-- The instants that `int64` counts in seconds, nanoseconds apart.
abbrev pub IsInstant : Time → Type 0
IsInstant t = t / 10 ^ 9 < 2 ^ 63

-- The start of the second.
abbrev pub to_second : Time → Time
to_second t = t / 10 ^ 9 * 10 ^ 9

sub-IsInt64 : (a b : ℕ) → a < 2 ^ 63 → b ≤ 2 ^ 63 → IsInt64 (sub_ℕ a b)
sub-IsInt64 a b ha hb =
    if_elim IsInt64 (leb b a) (pos (a - b)) (negsuc (b - a - 1)) (omega arith) (omega arith)

pub unix-IsInt64 : (t : Time) → IsInstant t → IsInt64 (unix t)
unix-IsInt64 t h = sub-IsInt64 (t / 10 ^ 9) unix_offset h (omega arith)

add64-sub : (a b : ℕ) → a < 2 ^ 63 → b < 2 ^ 63 → add64 (sub_ℕ a b) (pos b) ≡ pos a
add64-sub a b ha hb = ground arith

pub after_unix-unix : (now t : Time) → IsInstant t → after_unix now (unix t) ≡ ltb (to_second t) now
unfolding after_unix
after_unix-unix now t h = rw (add64-sub (t / 10 ^ 9) unix_offset h (omega arith)) refl

-- A value is read as what it was made of, if the link has no newline.
pub read-format :
    (link : Text) (e : Time)
    → Lacks b'\n' link
    → IsInstant e
    → read_parts (split_link_and_expire_time (format_link_with_expire_time link e))
      ≡ some (link, unix e)
unfolding format_link_with_expire_time read_parts
read-format link e h he =
    ap read_parts (split_once-append b'\n' link (format_int (unix e)) h)
    ∙ ap (λ o. elim o [ none ↦ none | some z ↦ some (link, z) ])
        (parse_int-format_int (unix e) (unix-IsInt64 e he))

-- A link with a newline is not read back from the value that the cache writes for it.
pub read-format_newline :
    (a b : Text) (e : Time)
    → Lacks b'\n' a
    → read_parts (split_link_and_expire_time (format_link_with_expire_time (a ++ b'\n' ∷ b) e))
      ≡ none
unfolding format_link_with_expire_time read_parts
read-format_newline a b e h =
    ap (λ t. read_parts (split_once b'\n' t))
      (append_assoc a (b'\n' ∷ b) (b'\n' ∷ format_int (unix e)))
    ∙ ap read_parts (split_once-append b'\n' a (b ++ b'\n' ∷ format_int (unix e)) h)
    ∙ ap (λ o. elim o [ none ↦ none | some z ↦ some (a, z) ])
        (parse_int-newline b (format_int (unix e)))
