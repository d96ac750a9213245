-- ===== src/Sql/Paging.antt =====
-- A table whose due rows are changed page by page, by ascending id.
use vshortlink.Prelude.{
  ℕ, ◌<◌, ◌≡◌, refl, subst, ◌∙◌, Bool, true, ◌&&◌, List, [], ◌∷◌, map, ltb, ==_iff, if◌then◌else◌,
  keep, All, All-imp, Bool-cases, inl, inr, arith,
}
use vshortlink.Sql.{ShortLinkModel}
use vshortlink.Sql.Table.{saved, IsAscending}

module _ (due : ShortLinkModel → Bool) (change : ShortLinkModel → ShortLinkModel)
    (keeps_id : (m : ShortLinkModel) → (change m).id ≡ m.id) where
  abbrev pub due_above : ℕ → List ShortLinkModel → List ShortLinkModel
  due_above f = keep (λ m. ltb f m.id && due m)

  -- The due rows up to an id are changed, the others are as they were.
  abbrev pub marked : ℕ → List ShortLinkModel → List ShortLinkModel
  marked f = map (λ m. if ltb f m.id then m else if due m then change m else m)

  abbrev pub all_changed : List ShortLinkModel → List ShortLinkModel
  all_changed = map (λ m. if due m then change m else m)

  pub due_above-marked :
      (f : ℕ) (table : List ShortLinkModel) → due_above f (marked f table) ≡ due_above f table
  due_above-marked f [] = refl
  due_above-marked f (m ∷ ms) = ground (arith, due_above-marked f ms, keeps_id m)

  pub due_above-0 :
      (table : List ShortLinkModel) → IsAscending table → due_above 0 table ≡ keep due table
  due_above-0 [] a = refl
  due_above-0 (m ∷ ms) a = ground (arith, due_above-0 ms a.2, a.0)

  pub marked-0 : (table : List ShortLinkModel) → IsAscending table → marked 0 table ≡ table
  marked-0 [] a = refl
  marked-0 (m ∷ ms) a = ground (arith, marked-0 ms a.2, a.0)

  pub marked_end :
      (f : ℕ) (table : List ShortLinkModel)
      → due_above f table ≡ []
      → marked f table ≡ all_changed table
  marked_end f [] e = refl
  marked_end f (m ∷ ms) e = elim (Bool-cases (ltb f m.id && due m)) [
    | inl inside ↦ absurd (ground (arith, e))
    | inr other ↦
        let none_later : due_above f ms ≡ [] = ground (arith, e) in
        ground (arith, marked_end f ms none_later)
  ]

  marked_above :
      (f : ℕ) (table : List ShortLinkModel) → All (λ k. f < k.id) table → marked f table ≡ table
  marked_above f [] h = refl
  marked_above f (m ∷ ms) h = ground (arith, marked_above f ms h.1, h.0)

  due_above_above :
      (f g : ℕ) (table : List ShortLinkModel)
      → All (λ k. f < k.id) table
      → All (λ k. g < k.id) table
      → due_above f table ≡ due_above g table
  due_above_above f g [] h h' = refl
  due_above_above f g (m ∷ ms) h h' = ground (arith, due_above_above f g ms h.1 h'.1, h.0, h'.0)

  All-due_above :
      (n f : ℕ) (table : List ShortLinkModel)
      → All (λ k. n < k.id) table
      → All (λ k. n < k.id) (due_above f table)
  All-due_above n f [] h = tt
  All-due_above n f (m ∷ ms) h = elim (Bool-cases (ltb f m.id && due m)) [
    | inl inside ↦ rw inside (h.0, All-due_above n f ms h.1)
    | inr other ↦ rw other (All-due_above n f ms h.1)
  ]

  change_here :
      (f : ℕ) (m : ShortLinkModel) (ms : List ShortLinkModel)
      → IsAscending (m ∷ ms)
      → (ltb f m.id && due m) ≡ true
      → (saved (change m) (marked f (m ∷ ms)) ≡ marked m.id (m ∷ ms))
        × (due_above m.id (m ∷ ms) ≡ due_above f ms)
  unfolding saved
  change_here f m ms a here =
      let above_f : All (λ k. f < k.id) ms =
        All-imp (λ k. m.id < k.id) (λ k. f < k.id) (λ k h. ground arith) ms a.1 in
      (
        ground (
          arith,
          keeps_id m,
          ==_iff (change m).id m.id,
          marked_above f ms above_f,
          marked_above m.id ms a.1,
        ),
        ground (arith, due_above_above m.id f ms a.1 above_f),
      )

  -- Changing the first due row above an id moves the id to that of the row.
  pub change_first :
      (f : ℕ) (m : ShortLinkModel) (rest table : List ShortLinkModel)
      → IsAscending table
      → due_above f table ≡ m ∷ rest
      → (saved (change m) (marked f table) ≡ marked m.id table) × (due_above m.id table ≡ rest)
  unfolding saved
  change_first f m rest [] a e = absurd (ground (arith, e))
  change_first f m rest (r ∷ rs) a e = elim (Bool-cases (ltb f r.id && due r)) [
    | inl here ↦
        let its : r ≡ m = ground (arith, e) in
        let follows : due_above f rs ≡ rest = ground (arith, e) in
        let (writes, leaves) = change_here f r rs a here in
        (
          subst (λ k. saved (change k) (marked f (r ∷ rs)) ≡ marked k.id (r ∷ rs)) its writes,
          subst (λ k. due_above k.id (r ∷ rs) ≡ due_above f rs) its leaves ∙ follows,
        )
    | inr later ↦
        let found : due_above f rs ≡ m ∷ rest = ground (arith, e) in
        let before : r.id < m.id =
          (subst (All (λ k. r.id < k.id)) found (All-due_above r.id f rs a.1)).0 in
        let (writes, leaves) = change_first f m rest rs a.2 found in
        (
          ground (arith, keeps_id m, keeps_id r, writes, ==_iff (change m).id r.id),
          ground (arith, leaves),
        )
  ]

  pub due_above-All :
      (f : ℕ) (table : List ShortLinkModel) → All (λ k. f < k.id) (due_above f table)
  due_above-All f [] = tt
  due_above-All f (m ∷ ms) = elim (Bool-cases (ltb f m.id && due m)) [
    | inl inside ↦ rw inside (ground arith, due_above-All f ms)
    | inr other ↦ rw other (due_above-All f ms)
  ]
