-- ===== src/Sql/Counts.antt =====
-- How many rows a code has, and how many of them are in use.
use vshortlink.Prelude.{
  ℕ, ◌+◌, ◌≡◌, Bool, ◌&&◌, ◌||◌, List, [], ◌∷◌, ◌++◌, Text, same, length, ◌==◌, if◌then◌else◌,
  arith,
}
use vshortlink.Link.{link_status_active, link_status_expired}
use vshortlink.Sql.{ShortLinkModel}

abbrev pub count : (ShortLinkModel → Bool) → List ShortLinkModel → ℕ
count test [] = 0
count test (m ∷ ms) = (if test m then 1 else 0) + count test ms

abbrev pub of_code : ℕ → Text → ShortLinkModel → Bool
of_code n k m = (m.length == n) && same m.code k

-- A link that is not recycled keeps its code.
abbrev pub in_use : ShortLinkModel → Bool
in_use m = (m.status == link_status_active) || (m.status == link_status_expired)

abbrev pub uses : ℕ → Text → List ShortLinkModel → ℕ
uses n k = count (λ m. in_use m && of_code n k m)

pub count-append :
    (test : ShortLinkModel → Bool) (ms rest : List ShortLinkModel)
    → count test (ms ++ rest) ≡ count test ms + count test rest
count-append test [] rest = omega arith
count-append test (m ∷ ms) rest = ground (arith, count-append test ms rest)

-- A row whose length is that of its code.
abbrev pub IsSized : ShortLinkModel → Type 0
IsSized m = m.length ≡ length m.code
