-- ===== src/Sql/Agrees.antt =====
-- `List` of the SQL repository against `List` of the memory repository.
use vshortlink.Prelude.{
  ℕ, zero, suc, ◌≤◌, ◌<◌, ◌≡◌, ◌≢◌, refl, sym, ap, ◌∙◌, Bool, true, false, ◌&&◌, ◌||◌, List, [],
  ◌∷◌, map, ltb, leb, ◌==◌, if◌then◌else◌, keep, take, at_most, All, All-imp, All-map, length-map,
  Bool-cases, inl, inr, arith, ok,
}
use vshortlink.Prelude.Int.{pos, leb_ℤ, ltb_ℤ}
use vshortlink.Link.{LinkStatus, ShortLink}
use vshortlink.Memory.Repo.{MemoryShortLinkRepository, insert_by_id, sort_by_id, has_status}
use vshortlink.Memory.Repo
use vshortlink.Memory.Repo.Rows.{
  matching, above, rows, IsTable, Ascending, DistinctIds, sort-Ascending, list-rows,
}
use vshortlink.Sql.{ShortLinkModel, to_core, Gorm}
use vshortlink.Sql.Repo.{list, list_query}
use vshortlink.Sql.Table.{GormLaws, IsAscending, meets_all, one_of}

-- Keeping some links and sorting them commute.
module _ (test : ShortLink → Bool) where
  insert_first :
      (x : ShortLink) (ls : List ShortLink) → All (λ l. x.id ≤ l.id) ls → insert_by_id x ls ≡ x ∷ ls
  unfolding insert_by_id
  insert_first x [] h = refl
  insert_first x (l ∷ ls) h = ground (arith, h.0)

  All-keep :
      (n : ℕ) (ls : List ShortLink) → All (λ l. n ≤ l.id) ls → All (λ l. n ≤ l.id) (keep test ls)
  All-keep n [] h = tt
  All-keep n (l ∷ ls) h = elim (Bool-cases (test l)) [
    | inl passed ↦ rw passed (h.0, All-keep n ls h.1)
    | inr failed ↦ rw failed (All-keep n ls h.1)
  ]

  keep-insert :
      (x : ShortLink) (ls : List ShortLink)
      → Ascending ls
      → keep test (insert_by_id x ls)
        ≡ (if test x then insert_by_id x (keep test ls) else keep test ls)
  unfolding insert_by_id
  keep-insert x [] a = ground arith
  keep-insert x (l ∷ ls) a = elim (Bool-cases (leb x.id l.id)) [
    | inl before ↦
        let later : All (λ k. x.id ≤ k.id) ls =
          All-imp (λ k. l.id < k.id) (λ k. x.id ≤ k.id) (λ k h. ground arith) ls a.0 in
        ground (arith, insert_first x (keep test ls) (All-keep x.id ls later))
    | inr after ↦ ground (arith, keep-insert x ls a.1)
  ]

  keep-sort :
      (ls : List ShortLink) → DistinctIds ls → keep test (sort_by_id ls) ≡ sort_by_id (keep test ls)
  unfolding sort_by_id
  keep-sort [] d = refl
  keep-sort (l ∷ ls) d =
      ground (arith, keep-insert l (sort_by_id ls) (sort-Ascending ls d.1), keep-sort ls d.1)

one_of-has_status : (s : LinkStatus) (ss : List LinkStatus) → one_of s ss ≡ has_status s ss
one_of-has_status s [] = refl
one_of-has_status s (t ∷ ss) = ap (λ b. t == s || b) (one_of-has_status s ss)

-- The test of `matching`, on the link alone.
abbrev fits : ℕ → List LinkStatus → ShortLink → Bool
fits n statuses link =
    leb_ℤ (pos link.length) (pos n)
    && leb_ℤ (pos n) (pos link.length)
    && has_status link.status statuses

module _ (n : ℕ) (statuses : List LinkStatus) where
  keep-matching :
      (es : List (ℕ × ShortLink))
      → map (λ e. e.1) (keep (matching n statuses) es) ≡ keep (fits n statuses) (map (λ e. e.1) es)
  keep-matching [] = refl
  keep-matching (e ∷ es) = ground (arith, keep-matching es)

  DistinctIds-IsTable : (es : List (ℕ × ShortLink)) → IsTable es → DistinctIds (map (λ e. e.1) es)
  DistinctIds-IsTable [] t = tt
  DistinctIds-IsTable (e ∷ es) t =
      (All-map (λ k. k.id ≢ e.1.id) (λ d. d.1) es t.1, DistinctIds-IsTable es t.2)

  rows-fits :
      (es : List (ℕ × ShortLink))
      → IsTable es
      → rows es n statuses ≡ keep (fits n statuses) (sort_by_id (map (λ e. e.1) es))
  unfolding rows
  rows-fits es t =
      ap sort_by_id (keep-matching es)
      ∙ sym (keep-sort (fits n statuses) (map (λ e. e.1) es) (DistinctIds-IsTable es t))

module _ (n limit from_id : ℕ) (s : LinkStatus) (ss : List LinkStatus) where
  row_test :
      (m : ShortLinkModel)
      → 0 < m.id
      → meets_all (list_query (pos n) (s ∷ ss) limit (pos from_id) true).conditions m
        ≡ (fits n (s ∷ ss) (to_core m) && ltb from_id m.id)
  row_test m has_id = elim (Bool-cases (ltb_ℤ (pos 0) (pos from_id))) [
    | inl given ↦ rw given (ground (arith, one_of-has_status m.status ss))
    | inr absent ↦ rw absent (ground (arith, one_of-has_status m.status ss))
  ]

  keep-list_query :
      (ms : List ShortLinkModel)
      → IsAscending ms
      → map to_core
          (keep (meets_all (list_query (pos n) (s ∷ ss) limit (pos from_id) true).conditions) ms)
        ≡ above from_id (keep (fits n (s ∷ ss)) (map to_core ms))
  keep-list_query [] a = refl
  keep-list_query (m ∷ ms) a = ground (arith, row_test m a.0, keep-list_query ms a.2)

take-map : (k : ℕ) (ms : List ShortLinkModel) → map to_core (take k ms) ≡ take k (map to_core ms)
take-map zero ms = refl
take-map (suc k) [] = refl
take-map (suc k) (m ∷ ms) = ap (◌∷◌ (to_core m)) (take-map k ms)

at_most-map :
    (k : ℕ) (ms : List ShortLinkModel) → map to_core (at_most k ms) ≡ at_most k (map to_core ms)
at_most-map k ms = ground (arith, take-map k ms, length-map ms to_core)

module _ {D : Type 0} (gorm : Gorm D) (laws : GormLaws gorm)
    (iterate : List (ℕ × ShortLink) → List (ℕ × ShortLink)) where
  -- Over a SQL table and a memory repository with the same links, each under its own id, and for a
  -- limit from 1 and at least one status: an ascending List returns the same links from both.
  pub list_agrees :
      (d : D) (r : MemoryShortLinkRepository) (n limit from_id : ℕ) (s : LinkStatus)
      (ss : List LinkStatus)
      → IsTable (iterate r.links)
      → map to_core (laws.committed d) ≡ sort_by_id (map (λ e. e.1) (iterate r.links))
      → 0 < limit
      → (list gorm (pos n) (s ∷ ss) limit (pos from_id) true d).0
        ≡ (Repo.list iterate (pos n) (s ∷ ss) limit (pos from_id) true r).0
  unfolding list
  list_agrees d r n limit from_id s ss t same_links positive =
      let q = list_query (pos n) (s ∷ ss) limit (pos from_id) true in
      let limits : (limit == 0) ≡ false = ground arith in
      rw (laws.find_shows q d, limits)
        (ap ok (
          at_most-map limit (keep (meets_all q.conditions) (laws.committed d))
          ∙ ap (at_most limit) (
              keep-list_query n limit from_id s ss (laws.committed d) (laws.by_id d)
              ∙ ap (λ ls. above from_id (keep (fits n (s ∷ ss)) ls)) same_links
              ∙ ap (above from_id) (sym (rows-fits n (s ∷ ss) (iterate r.links) t)))))
      ∙ sym (ap (λ x. x.0) (list-rows iterate r n limit from_id (s ∷ ss) t))
