-- ===== src/Memory/Repo/Rows.antt =====
-- What `List` of the memory repository returns, and what its pages add up to.
use vshortlink.Prelude.{
  ℕ, zero, suc, ◌≤◌, ◌<◌, ◌≡◌, ◌≢◌, refl, ap, sym, subst, ◌∙◌, Bool, true, ◌&&◌, List, [], ◌∷◌,
  ◌++◌, map, ltb, leb, if◌then◌else◌, length, keep, at_most, drop, take-append-drop, All, All-imp,
  ok, Bool-cases, inl, inr, ltb→lt, arith,
}
use vshortlink.Prelude.Int.{pos, leb_ℤ}
use vshortlink.Link.{LinkStatus, ShortLink}
use vshortlink.Memory.Repo.{
  MemoryShortLinkRepository, insert_by_id, sort_by_id, listed, has_status, list,
}
use vshortlink.Service.Expire.{last_id}

-- The links of one length with one of the statuses.
abbrev pub matching : ℕ → List LinkStatus → ℕ × ShortLink → Bool
matching length' statuses (id, link) =
    leb_ℤ (pos link.length) (pos length')
    && leb_ℤ (pos length') (pos link.length)
    && has_status link.status statuses

abbrev pub above : ℕ → List ShortLink → List ShortLink
above from_id = keep (λ l. ltb from_id l.id)

-- All of them, by ascending id.
unfoldable pub rows : List (ℕ × ShortLink) → ℕ → List LinkStatus → List ShortLink
rows entries length' statuses =
    sort_by_id (map (λ e. e.1) (keep (matching length' statuses) entries))

-- Each link stands under its own id, and no id occurs twice.
abbrev pub IsTable : List (ℕ × ShortLink) → Type 0
IsTable [] = Unit
IsTable (e ∷ es) = (e.0 ≡ e.1.id) × All (λ d. d.1.id ≢ e.1.id) es × IsTable es

abbrev pub Ascending : List ShortLink → Type 0
Ascending [] = Unit
Ascending (l ∷ ls) = All (λ k. l.id < k.id) ls × Ascending ls

abbrev pub DistinctIds : List ShortLink → Type 0
DistinctIds [] = Unit
DistinctIds (l ∷ ls) = All (λ k. k.id ≢ l.id) ls × DistinctIds ls

above-insert :
    (f : ℕ) (x : ShortLink) (ls : List ShortLink)
    → above f (insert_by_id x ls) ≡ (if ltb f x.id then insert_by_id x (above f ls) else above f ls)
unfolding insert_by_id
above-insert f x [] = refl
above-insert f x (l ∷ ls) = ground (arith, above-insert f x ls)

-- Taking the ids above a bound and sorting commute.
above-sort : (f : ℕ) (ls : List ShortLink) → sort_by_id (above f ls) ≡ above f (sort_by_id ls)
unfolding sort_by_id
above-sort f [] = refl
above-sort f (l ∷ ls) = ground (arith, above-sort f ls, above-insert f l (sort_by_id ls))

module _ {κ} (Q : ShortLink → Type κ) where
  All-insert : (x : ShortLink) (ls : List ShortLink) → Q x → All Q ls → All Q (insert_by_id x ls)
  unfolding insert_by_id
  All-insert x [] q h = (q, tt)
  All-insert x (l ∷ ls) q h = elim (Bool-cases (leb x.id l.id)) [
    | inl before ↦ rw before (q, h)
    | inr after ↦ rw after (h.0, All-insert x ls q h.1)
  ]

  All-sort : (ls : List ShortLink) → All Q ls → All Q (sort_by_id ls)
  unfolding sort_by_id
  All-sort [] h = tt
  All-sort (l ∷ ls) h = All-insert l (sort_by_id ls) h.0 (All-sort ls h.1)

insert-Ascending :
    (x : ShortLink) (ls : List ShortLink)
    → Ascending ls
    → All (λ k. k.id ≢ x.id) ls
    → Ascending (insert_by_id x ls)
unfolding insert_by_id
insert-Ascending x [] a d = (tt, tt)
insert-Ascending x (l ∷ ls) a d = elim (Bool-cases (leb x.id l.id)) [
  | inl before ↦
      let h : x.id < l.id = ground (arith, d.0) in
      rw before ((h, All-imp _ (λ k. x.id < k.id) (λ k lt. omega (arith, lt)) ls a.0), a)
  | inr after ↦
      rw after
        (All-insert (λ k. l.id < k.id) x ls (ground arith) a.0, insert-Ascending x ls a.1 d.1)
]

pub sort-Ascending : (ls : List ShortLink) → DistinctIds ls → Ascending (sort_by_id ls)
unfolding sort_by_id
sort-Ascending [] d = tt
sort-Ascending (l ∷ ls) d =
    insert-Ascending l (sort_by_id ls) (sort-Ascending ls d.1) (All-sort (λ k. k.id ≢ l.id) ls d.0)

module _ (length' : ℕ) (statuses : List LinkStatus) where
  All-matching :
      (P : ShortLink → Type 0) (es : List (ℕ × ShortLink))
      → All (λ e. P e.1) es
      → All P (map (λ e. e.1) (keep (matching length' statuses) es))
  All-matching P [] h = tt
  All-matching P (e ∷ es) h = elim (Bool-cases (matching length' statuses e)) [
    | inl fits ↦ rw fits (h.0, All-matching P es h.1)
    | inr other ↦ rw other (All-matching P es h.1)
  ]

  DistinctIds-matching :
      (es : List (ℕ × ShortLink))
      → IsTable es
      → DistinctIds (map (λ e. e.1) (keep (matching length' statuses) es))
  DistinctIds-matching [] t = tt
  DistinctIds-matching (e ∷ es) t = elim (Bool-cases (matching length' statuses e)) [
    | inl fits ↦ rw fits (All-matching (λ k. k.id ≢ e.1.id) es t.1, DistinctIds-matching es t.2)
    | inr other ↦ rw other (DistinctIds-matching es t.2)
  ]

  pub rows-Ascending :
      (es : List (ℕ × ShortLink)) → IsTable es → Ascending (rows es length' statuses)
  unfolding rows
  rows-Ascending es t = sort-Ascending _ (DistinctIds-matching es t)

  keep-listed :
      (f : ℕ) (es : List (ℕ × ShortLink))
      → IsTable es
      → map (λ e. e.1) (keep (listed (pos length') statuses (pos f)) es)
        ≡ above f (map (λ e. e.1) (keep (matching length' statuses) es))
  keep-listed f [] t = refl
  keep-listed f (e ∷ es) t = ground (arith, keep-listed f es t.2)

-- An ascending `List` is the first `limit` of the matching links above the id, in the order of ids.
pub list-rows :
    (iterate : List (ℕ × ShortLink) → List (ℕ × ShortLink)) (r : MemoryShortLinkRepository)
    (length' limit from_id : ℕ) (statuses : List LinkStatus)
    → IsTable (iterate r.links)
    → list iterate (pos length') statuses limit (pos from_id) true r
      ≡ (ok (at_most limit (above from_id (rows (iterate r.links) length' statuses))), r)
unfolding list rows
list-rows iterate r length' limit from_id statuses t =
    ap (λ ls. (ok (at_most limit ls), r))
      (ap sort_by_id (keep-listed length' statuses from_id (iterate r.links) t)
        ∙ above-sort from_id (map (λ e. e.1) (keep (matching length' statuses) (iterate r.links))))

above-All : (f : ℕ) (ls : List ShortLink) → All (λ k. f < k.id) ls → above f ls ≡ ls
above-All f [] h = refl
above-All f (l ∷ ls) h = ground (arith, above-All f ls h.1, h.0)

id-le-last :
    (l : ShortLink) (ls rest : List ShortLink) → Ascending (l ∷ ls ++ rest) → l.id ≤ last_id l ls
unfolding last_id
id-le-last l [] rest a = omega arith
id-le-last l (k ∷ ls) rest a = omega (arith, a.0.0, id-le-last k ls rest a.1)

-- Above the last id of a page lies what follows the page.
above-last :
    (l : ShortLink) (ls rest : List ShortLink)
    → Ascending (l ∷ ls ++ rest)
    → above (last_id l ls) (l ∷ ls ++ rest) ≡ rest
unfolding last_id
above-last l [] rest a = ground (arith, above-All l.id rest a.0)
above-last l (k ∷ ls) rest a =
    ground (arith, above-last k ls rest a.1, a.0.0, id-le-last k ls rest a.1)

above-above : (f g : ℕ) (ls : List ShortLink) → f ≤ g → above g (above f ls) ≡ above g ls
above-above f g [] h = refl
above-above f g (l ∷ ls) h = ground (arith, above-above f g ls h)

All-above : (P : ShortLink → Type 0) (f : ℕ) (ls : List ShortLink) → All P ls → All P (above f ls)
All-above P f [] h = tt
All-above P f (l ∷ ls) h = elim (Bool-cases (ltb f l.id)) [
  | inl inside ↦ rw inside (h.0, All-above P f ls h.1)
  | inr below ↦ rw below (All-above P f ls h.1)
]

above-Ascending : (f : ℕ) (ls : List ShortLink) → Ascending ls → Ascending (above f ls)
above-Ascending f [] a = tt
above-Ascending f (l ∷ ls) a = elim (Bool-cases (ltb f l.id)) [
  | inl inside ↦ rw inside (All-above (λ k. l.id < k.id) f ls a.0, above-Ascending f ls a.1)
  | inr below ↦ rw below (above-Ascending f ls a.1)
]

above-IsAbove : (f : ℕ) (ls : List ShortLink) → All (λ k. f < k.id) (above f ls)
above-IsAbove f [] = tt
above-IsAbove f (l ∷ ls) = elim (Bool-cases (ltb f l.id)) [
  | inl inside ↦ rw inside (ltb→lt f l.id inside, above-IsAbove f ls)
  | inr below ↦ rw below (above-IsAbove f ls)
]

-- The page that starts above `f` and ends at its last link leaves what is above that link.
pub next_page :
    (f : ℕ) (all rest page : List ShortLink) (l : ShortLink)
    → Ascending all
    → above f all ≡ l ∷ page ++ rest
    → above (last_id l page) all ≡ rest
next_page f all rest page l a e =
    let found : Ascending (l ∷ page ++ rest) = subst Ascending e (above-Ascending f all a) in
    let start : All (λ k. f < k.id) (l ∷ page ++ rest) =
      subst (All (λ k. f < k.id)) e (above-IsAbove f all) in
    let bound : f ≤ last_id l page = omega (arith, start.0, id-le-last l page rest found) in
    sym (above-above f (last_id l page) all bound)
    ∙ ap (above (last_id l page)) e
    ∙ above-last l page rest found

drop_all : (n : ℕ) (ls : List ShortLink) → length ls ≤ n → ls ++ drop n ls ≡ ls
drop_all zero [] h = refl
drop_all zero (l ∷ ls) h = elim h [ ]
drop_all (suc n) [] h = refl
drop_all (suc n) (l ∷ ls) h = ap (◌∷◌ l) (drop_all n ls (omega arith))

-- A page and what follows it are the list, and the page of a list that is not empty is not empty.
pub at_most-append-drop : (n : ℕ) (ls : List ShortLink) → at_most n ls ++ drop n ls ≡ ls
at_most-append-drop n ls = elim (Bool-cases (ltb n (length ls))) [
  | inl longer ↦ rw longer (take-append-drop n ls)
  | inr all ↦ rw all (drop_all n ls (ground arith))
]
