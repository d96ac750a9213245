-- ===== src/Sql/Uses.antt =====
-- The codes in use before and after links are marked as expired or as recycled.
use vshortlink.Prelude.{
  ℕ, ◌+◌, ◌≡◌, refl, List, [], ◌∷◌, map, Text, if◌then◌else◌, keep, arith, Bool-cases, inl, inr,
}
use vshortlink.Link.{Time}
use vshortlink.Sql.{ShortLinkModel}
use vshortlink.Sql.Counts.{count, of_code, uses}
use vshortlink.Sql.Due.{is_due, with_status}
use vshortlink.Sql.Expire.{expiring}
use vshortlink.Sql.Recycle.{recycling}

module _ (n : ℕ) (k : Text) where
  -- Marking links as expired frees no code.
  pub uses-expiring :
      (now : Time) (ms : List ShortLinkModel)
      → uses n k (map (λ m. if is_due (expiring now) m then with_status (expiring now) m else m) ms)
        ≡ uses n k ms
  uses-expiring now [] = refl
  uses-expiring now (m ∷ ms) = elim (Bool-cases (is_due (expiring now) m)) [
    | inl due ↦ rw due (ground (arith, uses-expiring now ms))
    | inr other ↦ rw other (ground (arith, uses-expiring now ms))
  ]

  -- Marking links as recycled frees their codes.
  pub uses-recycling :
      (before now : Time) (ms : List ShortLinkModel)
      → uses n k ms
        ≡ uses n k (
            map
              (λ m.
                if is_due (recycling before now) m then with_status (recycling before now) m else m)
              ms)
          + count (of_code n k) (keep (is_due (recycling before now)) ms)
  uses-recycling before now [] = refl
  uses-recycling before now (m ∷ ms) = elim (Bool-cases (is_due (recycling before now) m)) [
    | inl due ↦ rw due (ground (arith, uses-recycling before now ms))
    | inr other ↦ rw other (ground (arith, uses-recycling before now ms))
  ]
