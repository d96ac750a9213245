-- ===== src/Sql/Lookup.antt =====
-- `GetByCode` and `Create` of the SQL repository.
use mathlib.Core.List.{reverse, reverse-cons}
use vshortlink.Prelude.{
  ◌<◌, ◌≡◌, refl, sym, ap, subst, ◌∙◌, false, Option, none, some, List, [], ◌∷◌, ◌++◌, Text, same,
  if◌then◌else◌, keep, at_most, All, All-append, Bool-cases, inl, inr, arith, ok,
}
use vshortlink.Link.{ShortLink}
use vshortlink.Service.Edit.Lawful.{IsStoring}
use vshortlink.Sql.{ShortLinkModel, to_core, from_core, code_is, Gorm}
use vshortlink.Sql.Repo.{only_link, get_by_code, create, sql_repository}
use vshortlink.Sql.Table.{GormLaws, GormAnswers, IsAscending, meets_all}

abbrev or_else : Option ShortLink → Option ShortLink → Option ShortLink
or_else none other = other
or_else (some link) other = some link

-- The link of the last row with a code, so of the row with the largest id.
abbrev pub newest : Text → List ShortLinkModel → Option ShortLink
newest code [] = none
newest code (m ∷ ms) =
    or_else (newest code ms) (if same code m.code then some (to_core m) else none)

or_else-none : (l : Option ShortLink) → l ≡ or_else l none
or_else-none none = refl
or_else-none (some link) = refl

abbrev pub IsAllPositive : List ShortLinkModel → Type 0
IsAllPositive = All (λ m. 0 < m.id)

All-reverse : (ms : List ShortLinkModel) → IsAllPositive ms → IsAllPositive (reverse ms)
All-reverse [] h = tt
All-reverse (m ∷ ms) h =
    subst IsAllPositive (sym (reverse-cons m ms))
      (All-append (λ k. 0 < k.id) (reverse ms) (m ∷ []) (All-reverse ms h.1) (h.0, tt))

only_link-at_most : (ms : List ShortLinkModel) → only_link (at_most 1 ms) ≡ only_link ms
only_link-at_most [] = refl
only_link-at_most (m ∷ ms) = ground arith

only_link-append :
    (xs : List ShortLinkModel) (m : ShortLinkModel)
    → IsAllPositive xs
    → 0 < m.id
    → only_link (xs ++ m ∷ []) ≡ or_else (only_link xs) (some (to_core m))
only_link-append [] m h positive = ground arith
only_link-append (x ∷ xs) m h positive = ground (arith, h.0)

module _ (code : Text) where
  keep-positive :
      (ms : List ShortLinkModel)
      → IsAllPositive ms
      → IsAllPositive (keep (meets_all (code_is code ∷ [])) ms)
  keep-positive [] h = tt
  keep-positive (m ∷ ms) h = elim (Bool-cases (same code m.code)) [
    | inl own ↦ rw own (h.0, keep-positive ms h.1)
    | inr other ↦ rw other (keep-positive ms h.1)
  ]

  only_link-newest :
      (ms : List ShortLinkModel)
      → IsAllPositive ms
      → only_link (reverse (keep (meets_all (code_is code ∷ [])) ms)) ≡ newest code ms
  only_link-newest [] h = refl
  only_link-newest (m ∷ ms) h =
      let found : List ShortLinkModel = keep (meets_all (code_is code ∷ [])) ms in
      elim (Bool-cases (same code m.code)) [
        | inl own ↦ rw own (
            ap only_link (reverse-cons m found)
            ∙ only_link-append (reverse found) m (All-reverse found (keep-positive ms h.1)) h.0
            ∙ ap (λ l. or_else l (some (to_core m))) (only_link-newest ms h.1))
        | inr other ↦ rw other (only_link-newest ms h.1 ∙ or_else-none (newest code ms))
      ]

pub positive : (ms : List ShortLinkModel) → IsAscending ms → IsAllPositive ms
positive [] a = tt
positive (m ∷ ms) a = (a.0, positive ms a.2)

module _ {D : Type 0} (gorm : Gorm D) (laws : GormLaws gorm) where
  -- GetByCode of the SQL repository reads the table only: it returns the link of the last row with
  -- the code, or nil without an error if no row has it.
  pub get_by_code_newest :
      (code : Text) (d : D) → get_by_code gorm code d ≡ (ok (newest code (laws.committed d)), d)
  unfolding get_by_code
  get_by_code_newest code d =
      let found : List ShortLinkModel = keep (meets_all (code_is code ∷ [])) (laws.committed d) in
      rw
        (laws.find_shows
          (record { conditions = code_is code ∷ []; ascending = false; limit = some 1 }) d)
        (ap (λ l. (ok l, d))
          (only_link-at_most (reverse found)
            ∙ only_link-newest code (laws.committed d)
                (positive (laws.committed d) (laws.by_id d))))

  -- A repository that stores every link.
  pub sql_repository-IsStoring : GormAnswers gorm → IsStoring (sql_repository gorm)
  unfolding create
  sql_repository-IsStoring answers now l d =
      let (m, done) =
        answers.create_ok (record (from_core l) { create_time = now; modify_time = now }) d in
      (
        record l { id = m.id },
        (gorm.create (record (from_core l) { create_time = now; modify_time = now }) d).1,
        rw done refl,
        refl,
      )
