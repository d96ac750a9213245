-- ===== src/Sql/Table.antt =====
-- What the repository relies on of GORM and its database: a table of rows by ascending id, queries
-- that show what is committed, and transactions that are committed as a whole or not at all.
use mathlib.Core.List.{reverse}
use vshortlink.Prelude.{
  ℕ, ◌<◌, ◌≡◌, ◌⊎◌, Bool, true, false, ◌&&◌, ◌||◌, not, Option, none, some, List, [], ◌∷◌, ◌++◌,
  same, ltb, ◌==◌, if◌then◌else◌, keep, at_most, All, Error, ok, err,
}
use vshortlink.Prelude.Int.{pos, ltb_ℤ, leb_ℤ}
use vshortlink.Link.{LinkStatus}
use vshortlink.Sql.{
  ShortLinkModel, StartIndexModel, Condition, code_is, length_is, id_above, status_is, status_in,
  expire_before, Query, Gorm,
}

abbrev pub one_of : LinkStatus → List LinkStatus → Bool
one_of s [] = false
one_of s (t ∷ ts) = t == s || one_of s ts

abbrev pub meets : ShortLinkModel → Condition → Bool
meets m (code_is code) = same code m.code
meets m (length_is n) = leb_ℤ (pos m.length) n && leb_ℤ n (pos m.length)
meets m (id_above i) = ltb_ℤ i (pos m.id)
meets m (status_is s) = m.status == s
meets m (status_in ss) = one_of m.status ss
meets m (expire_before t) = ltb m.expire t

abbrev pub meets_all : List Condition → ShortLinkModel → Bool
meets_all [] m = true
meets_all (c ∷ cs) m = meets m c && meets_all cs m

abbrev pub limited : Option ℕ → List ShortLinkModel → List ShortLinkModel
limited none ms = ms
limited (some n) ms = at_most n ms

-- The rows of a query, of a table by ascending id.
abbrev pub run_query : Query → List ShortLinkModel → List ShortLinkModel
run_query q table =
    let found = keep (meets_all q.conditions) table in
    limited q.limit (if q.ascending then found else reverse found)

-- A row is written over the row that has its id, or is new.
unfoldable pub saved : ShortLinkModel → List ShortLinkModel → List ShortLinkModel
saved m [] = m ∷ []
saved m (r ∷ rs) =
    let rest = saved m rs in
    if m.id == r.id then m ∷ rs else if ltb m.id r.id then m ∷ r ∷ rs else r ∷ rest

abbrev pub IsAscending : List ShortLinkModel → Type 0
IsAscending [] = Unit
IsAscending (m ∷ ms) = (0 < m.id) × All (λ k. m.id < k.id) ms × IsAscending ms

-- `committed` is what other readers see, `pending` the same within the open transaction.
pub record GormLaws {D : Type 0} (gorm : Gorm D) : Type 0 where
  pub committed : D → List ShortLinkModel
  pub pending : D → List ShortLinkModel
  pub by_id : (d : D) → IsAscending (committed d)
  pub find_shows : (q : Query) (d : D) → gorm.find q d ≡ (ok (run_query q (committed d)), d)
  -- A new row gets an id above all others.
  pub create_adds :
      (m : ShortLinkModel) (d : D)
      → m.id ≡ 0
      → ((id : ℕ) × ((gorm.create m d).0 ≡ ok (record m { id = id }))
          × (committed (gorm.create m d).1 ≡ committed d ++ record m { id = id } ∷ []))
        ⊎ ((e : Error) × ((gorm.create m d).0 ≡ err e)
            × (committed (gorm.create m d).1 ≡ committed d))
  pub save_writes :
      (m : ShortLinkModel) (d : D)
      → 0 < m.id
      → (((gorm.save m d).0 ≡ ok tt) × (committed (gorm.save m d).1 ≡ saved m (committed d)))
        ⊎ ((e : Error) × ((gorm.save m d).0 ≡ err e) × (committed (gorm.save m d).1 ≡ committed d))
  pub delete_where_drops :
      (c : Condition) (d : D)
      → (((gorm.delete_where c d).0 ≡ ok tt)
          × (committed (gorm.delete_where c d).1 ≡ keep (λ m. not (meets m c)) (committed d)))
        ⊎ ((e : Error) × ((gorm.delete_where c d).0 ≡ err e)
            × (committed (gorm.delete_where c d).1 ≡ committed d))
  -- The other table.
  pub upsert_index_keeps :
      (m : StartIndexModel) (d : D) → committed (gorm.upsert_index m d).1 ≡ committed d
  -- Each call of a transaction may fail, and is not seen by others before the commit.
  pub begin_opens :
      (d : D)
      → (committed (gorm.begin d).1 ≡ committed d)
        × (((gorm.begin d).0 ≡ ok tt) → pending (gorm.begin d).1 ≡ committed d)
  pub tx_save_writes :
      (m : ShortLinkModel) (d : D)
      → 0 < m.id
      → (committed (gorm.tx_save m d).1 ≡ committed d)
        × (((gorm.tx_save m d).0 ≡ ok tt) → pending (gorm.tx_save m d).1 ≡ saved m (pending d))
  pub rollback_drops : (d : D) → committed (gorm.rollback d) ≡ committed d
  pub commit_shows :
      (d : D)
      → (((gorm.commit d).0 ≡ ok tt) × (committed (gorm.commit d).1 ≡ pending d))
        ⊎ ((e : Error) × ((gorm.commit d).0 ≡ err e) × (committed (gorm.commit d).1 ≡ committed d))

-- No call fails.
pub record GormAnswers {D : Type 0} (gorm : Gorm D) : Type 0 where
  pub create_ok :
      (m : ShortLinkModel) (d : D) → (m' : ShortLinkModel) × ((gorm.create m d).0 ≡ ok m')
  pub begin_ok : (d : D) → (gorm.begin d).0 ≡ ok tt
  pub tx_save_ok : (m : ShortLinkModel) (d : D) → (gorm.tx_save m d).0 ≡ ok tt
  pub commit_ok : (d : D) → (gorm.commit d).0 ≡ ok tt
