-- ===== src/Sql/Saved.antt =====
-- A row that is written over itself, and the row that `GetByCode` finds.
use vshortlink.Prelude.{
  ◌+◌, ◌<◌, ◌≡◌, ◌⊎◌, refl, sym, ap, subst, ◌∙◌, Bool, true, false, none, some, List, [], ◌∷◌, Text,
  same, same_iff, ◌==◌, ==_iff, ltb, if◌then◌else◌, All, arith, Bool-cases, Option-cases, inl, inr,
}
use vshortlink.Link.{ShortLink}
use vshortlink.Sql.{ShortLinkModel, to_core}
use vshortlink.Sql.Table.{saved, IsAscending}
use vshortlink.Sql.Counts.{count}
use vshortlink.Sql.Lookup.{newest}

abbrev pub Has : ShortLinkModel → List ShortLinkModel → Type 0
Has m [] = ⊥
Has m (r ∷ rs) = (r ≡ m) ⊎ Has m rs

pub Has-All :
    (Q : ShortLinkModel → Type 0) (m : ShortLinkModel) (ms : List ShortLinkModel)
    → Has m ms
    → All Q ms
    → Q m
Has-All Q m [] h all = elim h [ ]
Has-All Q m (r ∷ rs) (inl own) all = subst Q own all.0
Has-All Q m (r ∷ rs) (inr later) all = Has-All Q m rs later all.1

-- The link that is found is that of a row with the code.
pub newest-Has :
    (code : Text) (ms : List ShortLinkModel) (l : ShortLink)
    → newest code ms ≡ some l
    → (m : ShortLinkModel) × (l ≡ to_core m) × Has m ms × (m.code ≡ code)
newest-Has code [] l e = absurd (ground (arith, e))
newest-Has code (m ∷ ms) l e = elim (Option-cases (newest code ms)) [
  | inl missing ↦ elim (Bool-cases (same code m.code)) [
    | inl own ↦
        let found : some (to_core m) ≡ some l = sym (rw (missing, own) refl) ∙ e in
        (
          m,
          sym (ap (λ o. elim o [ none ↦ l | some x ↦ x ]) found),
          inl refl,
          ground (arith, same_iff code m.code, own),
        )
    | inr other ↦
        let nothing : none ≡ some l = sym (rw (missing, other) refl) ∙ e in
        absurd (ground (arith, nothing))
  ]
  | inr (k, found) ↦
      let (r, its, has, own) = newest-Has code ms l (found ∙ (sym (rw found refl) ∙ e)) in
      (r, its, inr has, own)
]

module _ (m m' : ShortLinkModel) (same_id : m'.id ≡ m.id) where
  -- What counts a row and the row that replaces it alike counts the same.
  pub count-saved :
      (test : ShortLinkModel → Bool) (ms : List ShortLinkModel)
      → IsAscending ms
      → Has m ms
      → test m' ≡ test m
      → count test (saved m' ms) ≡ count test ms
  unfolding saved
  count-saved test [] a has alike = elim has [ ]
  count-saved test (r ∷ rs) a (inl own) alike =
      let here : (m'.id == r.id) ≡ true =
        ground (arith, ==_iff m'.id r.id, same_id, ap (λ k. k.id) own) in
      rw here (ap (λ b. (if b then 1 else 0) + count test rs) (alike ∙ ap test (sym own)))
  count-saved test (r ∷ rs) a (inr later) alike =
      let after : r.id < m.id = Has-All (λ k. r.id < k.id) m rs later a.1 in
      let not_here : (m'.id == r.id) ≡ false = ground (arith, ==_iff m'.id r.id, same_id) in
      let not_before : ltb m'.id r.id ≡ false = ground arith in
      rw (not_here, not_before)
        (ap (λ n. (if test r then 1 else 0) + n) (count-saved test rs a.2 later alike))

  pub All-saved :
      (Q : ShortLinkModel → Type 0) (ms : List ShortLinkModel)
      → Q m'
      → All Q ms
      → All Q (saved m' ms)
  unfolding saved
  All-saved Q [] q h = (q, tt)
  All-saved Q (r ∷ rs) q h = elim (Bool-cases (m'.id == r.id)) [
    | inl own ↦ rw own (q, h.1)
    | inr other ↦ elim (Bool-cases (ltb m'.id r.id)) [
      | inl before ↦ rw (other, before) (q, h)
      | inr after ↦ rw (other, after) (h.0, All-saved Q rs q h.1)
    ]
  ]
