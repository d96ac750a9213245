-- ===== src/Sql/Due.antt =====
-- The pages by which the service goes through the due links of the SQL repository.
use vshortlink.Prelude.{
  ℕ, suc, ◌<◌, ◌≡◌, ◌⊎◌, refl, sym, ap, subst, ◌∙◌, Bool, List, [], ◌∷◌, ◌++◌, map, append-nil, ltb,
  keep, take, drop, take-append-drop, length-append, at_most, length, All, All-imp, All-map,
  Bool-cases, inl, inr, arith, ok,
}
use vshortlink.Link.{Time, ShortLink, LinkStatus}
use vshortlink.Service.Expire.{set_status, last_id}
use vshortlink.Sql.{ShortLinkModel, to_core, status_is, expire_before, Gorm}
use vshortlink.Sql.Repo.{due_query, updates}
use vshortlink.Sql.Table.{GormLaws, GormAnswers, IsAscending, meets_all}
use vshortlink.Sql.Paging.{due_above, marked, change_first, due_above-marked, due_above-All}
use vshortlink.Sql.Updates.{written, all_saved, updates_succeed}

-- A page of at most a hundred is empty with the list, or begins it.
pub page_of :
    (ms : List ShortLinkModel)
    → (ms ≡ [])
      ⊎ ((m : ShortLinkModel) × (page : List ShortLinkModel) × (rest : List ShortLinkModel)
          × (at_most 100 ms ≡ m ∷ page)
          × (ms ≡ m ∷ page ++ rest))
page_of [] = inl refl
page_of (m ∷ ms) = elim (Bool-cases (ltb 100 (length (m ∷ ms)))) [
  | inl more ↦
      inr (m, take 99 ms, drop 99 ms, rw more refl, ap (◌∷◌ m) (sym (take-append-drop 99 ms)))
  | inr whole ↦ inr (m, ms, [], rw whole refl, ap (◌∷◌ m) (sym (append-nil ms)))
]

All-prefix :
    (Q : ShortLinkModel → Type 0) (ms rest : List ShortLinkModel) → All Q (ms ++ rest) → All Q ms
All-prefix Q [] rest h = tt
All-prefix Q (m ∷ ms) rest h = (h.0, All-prefix Q ms rest h.1)

pub page_shorter :
    (fuel : ℕ) (m : ShortLinkModel) (page rest : List ShortLinkModel)
    {before after : List ShortLinkModel}
    → before ≡ m ∷ page ++ rest
    → after ≡ rest
    → length before < suc fuel
    → length after < fuel
page_shorter fuel m page rest whole left enough =
    omega (arith, enough, ap length whole, ap length left, length-append page rest)

-- The links with the status `old` that expire before an instant get the status `new`.
pub record Sweep : Type 0 where
  pub old : LinkStatus
  pub new : LinkStatus
  pub before : Time
  pub now : Time

module _ (w : Sweep) where
  abbrev pub is_due : ShortLinkModel → Bool
  is_due = meets_all (status_is w.old ∷ expire_before w.before ∷ [])

  abbrev pub with_status : ShortLinkModel → ShortLinkModel
  with_status m = written w.now (set_status w.new (to_core m))

  abbrev pub new_links : List ShortLinkModel → List ShortLink
  new_links ms = map (set_status w.new) (map to_core ms)

  -- When the pages have come to an id: the rows of the table, and those that are left to change.
  abbrev pub rows_at : ℕ → List ShortLinkModel → List ShortLinkModel
  rows_at = marked is_due with_status (λ k. refl)

  abbrev pub rows_left : ℕ → List ShortLinkModel → List ShortLinkModel
  rows_left = due_above is_due with_status (λ k. refl)

  -- Writing a page back moves the id to that of its last row.
  pub change_page :
      (f : ℕ) (m : ShortLinkModel) (page rest table : List ShortLinkModel)
      → IsAscending table
      → rows_left f table ≡ m ∷ page ++ rest
      → let g = last_id (to_core m) (map to_core page) in
        (all_saved w.now (new_links (m ∷ page)) (rows_at f table) ≡ rows_at g table)
        × (rows_left g table ≡ rest)
  unfolding all_saved last_id
  change_page f m [] rest table a e = change_first is_due with_status (λ k. refl) f m rest table a e
  change_page f m (k ∷ page) rest table a e =
      let (writes, leaves) =
        change_first is_due with_status (λ k. refl) f m (k ∷ page ++ rest) table a e in
      let (all_written, left) = change_page m.id k page rest table a leaves in
      (ap (all_saved w.now (new_links (k ∷ page))) writes ∙ all_written, left)

  pub page_ids :
      (f : ℕ) (m : ShortLinkModel) (page rest table : List ShortLinkModel)
      → rows_left f table ≡ m ∷ page ++ rest
      → All (λ l. 0 < l.id) (new_links (m ∷ page))
  page_ids f m page rest table whole =
      let above : All (λ k. f < k.id) (m ∷ page ++ rest) =
        subst (All (λ k. f < k.id)) whole (due_above-All is_due with_status (λ k. refl) f table) in
      All-map (λ l. 0 < l.id) (set_status w.new) (map to_core (m ∷ page))
        (All-map (λ l. 0 < l.id) to_core (m ∷ page)
          (All-imp (λ k. f < k.id) (λ k. 0 < k.id) (λ k h. omega (arith, h)) (m ∷ page)
            (All-prefix (λ k. f < k.id) (m ∷ page) rest above)))

  keep-due_query :
      (f : ℕ) (ms : List ShortLinkModel)
      → keep (meets_all (due_query w.old w.before f 100).conditions) ms ≡ rows_left f ms
  keep-due_query f [] = refl
  keep-due_query f (m ∷ ms) = ground (arith, keep-due_query f ms)

module _ {D : Type 0} (gorm : Gorm D) (laws : GormLaws gorm) (answers : GormAnswers gorm)
    (w : Sweep) where
  -- What a page shows when the pages have come to an id.
  pub found :
      (f : ℕ) (table : List ShortLinkModel) (d : D)
      → laws.committed d ≡ rows_at w f table
      → gorm.find (due_query w.old w.before f 100) d ≡ (ok (at_most 100 (rows_left w f table)), d)
  found f table d shows =
      rw (laws.find_shows (due_query w.old w.before f 100) d, shows)
        (ap (λ ms. (ok (at_most 100 ms), d))
          (keep-due_query w f (rows_at w f table)
            ∙ due_above-marked (is_due w) (with_status w) (λ k. refl) f table))

  -- Writing a page back succeeds, and moves the id to that of its last row.
  pub write_page :
      (f : ℕ) (m : ShortLinkModel) (page rest table : List ShortLinkModel) (d : D)
      → IsAscending table
      → laws.committed d ≡ rows_at w f table
      → rows_left w f table ≡ m ∷ page ++ rest
      → let after = updates gorm w.now (new_links w (m ∷ page)) d in
        let g = last_id (to_core m) (map to_core page) in
        (after.0 ≡ ok tt)
        × (laws.committed after.1 ≡ rows_at w g table)
        × (rows_left w g table ≡ rest)
  write_page f m page rest table d a shows whole =
      let links : List ShortLink = new_links w (m ∷ page) in
      let (done, writes) =
        updates_succeed gorm laws w.now links d answers (page_ids w f m page rest table whole) in
      let (all_written, left) = change_page w f m page rest table a whole in
      (done, writes ∙ ap (all_saved w.now links) shows ∙ all_written, left)
