-- ===== src/Memory/Repo/Order.antt =====
-- The order of what `List` of the memory repository returns.
use mathlib.Core.List.{Perm}
use mathlib.Core.List.Perm
use vshortlink.Prelude.{
  ℕ, ◌≡◌, true, List, [], ◌∷◌, map, leb, keep, at_most, ok, Bool-cases, inl, inr,
}
use vshortlink.Prelude.Int.{pos}
use vshortlink.Link.{LinkStatus, ShortLink}
use vshortlink.Memory.Repo.{MemoryShortLinkRepository, insert_by_id, sort_by_id, list}
use vshortlink.Memory.Repo.Rows.{
  matching, above, rows, IsTable, Ascending, list-rows, rows-Ascending,
}

insert-perm : (x : ShortLink) (ls : List ShortLink) → Perm (insert_by_id x ls) (x ∷ ls)
unfolding insert_by_id
insert-perm x [] = Perm.refl (x ∷ [])
insert-perm x (l ∷ ls) = elim (Bool-cases (leb x.id l.id)) [
  | inl before ↦ rw before (Perm.refl (x ∷ l ∷ ls))
  | inr after ↦ rw after (Perm.trans (Perm.cons l (insert-perm x ls)) (Perm.swap x l ls))
]

sort-perm : (ls : List ShortLink) → Perm (sort_by_id ls) ls
unfolding sort_by_id
sort-perm [] = Perm.refl []
sort-perm (l ∷ ls) = Perm.trans (insert-perm l (sort_by_id ls)) (Perm.cons l (sort-perm ls))

rows-perm :
    (entries : List (ℕ × ShortLink)) (n : ℕ) (statuses : List LinkStatus)
    → Perm (rows entries n statuses) (map (λ e. e.1) (keep (matching n statuses) entries))
unfolding rows
rows-perm entries n statuses = sort-perm (map (λ e. e.1) (keep (matching n statuses) entries))

-- Over a repository whose links stand under their own ids, there is an arrangement of the links of a
-- length with one of some statuses, in which the ids ascend strictly; an ascending `List` changes
-- nothing and returns the first links of it, up to the limit, whose ids are above the given one.
pub list_in_order :
    (iterate : List (ℕ × ShortLink) → List (ℕ × ShortLink)) (r : MemoryShortLinkRepository)
    (n limit from_id : ℕ) (statuses : List LinkStatus)
    → IsTable (iterate r.links)
    → (all : List ShortLink) × Ascending all
      × Perm all (map (λ e. e.1) (keep (matching n statuses) (iterate r.links)))
      × (list iterate (pos n) statuses limit (pos from_id) true r
          ≡ (ok (at_most limit (above from_id all)), r))
list_in_order iterate r n limit from_id statuses t = (
  rows (iterate r.links) n statuses,
  rows-Ascending n statuses (iterate r.links) t,
  rows-perm (iterate r.links) n statuses,
  list-rows iterate r n limit from_id statuses t,
)
