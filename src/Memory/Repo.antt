-- ===== src/Memory/Repo.antt =====
-- ext/memx/repo.go: `MemoryShortLinkRepository`. The source keeps pointers to links and returns
-- them; here the maps hold values. The service writes every link that it changes back by `Update`
-- or `Updates`, so both hold the same links after each of its calls that succeeds.
pub mod Index
pub mod Rows
pub mod Order
use vshortlink.Prelude.{
  ℕ, zero, suc, ◌+◌, Bool, true, false, ◌&&◌, ◌||◌, Option, none, some, List, [], ◌∷◌, ◌++◌, map,
  Text, ltb, leb, ◌==◌, if◌then◌else◌, length, keep, at_most, Result, ok, err, link_not_found, Exec,
  ◌>>=◌, ◌>>◌, pure,
}
use vshortlink.Prelude.Int.{ℤ, pos, leb_ℤ}
use vshortlink.Prelude.Keyed.{lookup, insert, delete, nat_key, text_key}
use vshortlink.Link.{Time, LinkStatus, ShortLink, is_active, is_expired}
use vshortlink.Interfaces.{ShortLinkRepository}

pub record MemoryShortLinkRepository : Type 0 where
  pub links : List (ℕ × ShortLink)
  pub code_to_id : List (Text × ℕ)
  pub start_index : List (ℕ × ℤ)
  pub next_id : ℕ

abbrev pub new_repository : MemoryShortLinkRepository
new_repository = record { links = []; code_to_id = []; start_index = []; next_id = 1 }

-- The two map writes that `Create` and `Update` share.
unfoldable pub store : ShortLink → MemoryShortLinkRepository → MemoryShortLinkRepository
store link r = record r {
  links = insert link.id link r.links;
  code_to_id = insert link.code link.id r.code_to_id;
}

unfoldable pub create : Time → ShortLink → Exec MemoryShortLinkRepository ShortLink
unfolding store
create now link r =
    let with_id = record link { id = r.next_id } in
    (ok with_id, store with_id (record r { next_id = r.next_id + 1 }))

unfoldable pub update : Time → ShortLink → Exec MemoryShortLinkRepository (Unit {0})
unfolding store
update now link r = elim (lookup link.id r.links) [
  | none ↦ (err link_not_found, r)
  | some old ↦ (ok tt, store link r)
]

unfoldable pub updates : Time → List ShortLink → Exec MemoryShortLinkRepository (Unit {0})
unfolding update
updates now [] r = (ok tt, r)
updates now (link ∷ links) r = (update now link >> updates now links) r

unfoldable pub delete_by_id : ℕ → Exec MemoryShortLinkRepository (Unit {0})
delete_by_id id r = elim (lookup id r.links) [
  | none ↦ (err link_not_found, r)
  | some link ↦
      (ok tt, record r { code_to_id = delete link.code r.code_to_id; links = delete id r.links })
]

unfoldable pub delete_by_code : Text → Exec MemoryShortLinkRepository (Unit {0})
delete_by_code code r = elim (lookup code r.code_to_id) [
  | none ↦ (err link_not_found, r)
  | some id ↦ (ok tt, record r { code_to_id = delete code r.code_to_id; links = delete id r.links })
]

-- A code whose id has no link gives a nil link without an error.
unfoldable pub get_by_code : Text → Exec MemoryShortLinkRepository (Option ShortLink)
get_by_code code r = elim (lookup code r.code_to_id) [
  | none ↦ (err link_not_found, r)
  | some id ↦ (ok (lookup id r.links), r)
]

unfoldable pub get_by_id : ℕ → Exec MemoryShortLinkRepository (Option ShortLink)
get_by_id id r = elim (lookup id r.links) [
  | none ↦ (err link_not_found, r)
  | some link ↦ (ok (some link), r)
]

-- The loop of `FindExpiredActives` and of `FindExpires`: `continue` up to `from_id`, and `break` at
-- the limit.
unfoldable pub scan_links :
    (ShortLink → Bool) → ℕ → ℕ → List (ℕ × ShortLink) → List ShortLink → List ShortLink
scan_links test from_id limit [] result = result
scan_links test from_id limit ((id, link) ∷ rest) result =
    let found = if test link then result ++ link ∷ [] else result in
    let skip = scan_links test from_id limit rest result in
    let next = scan_links test from_id limit rest found in
    if leb id from_id then skip else if leb limit (length found) then found else next

-- A stable sort by id, as `sort.Slice` gives where the ids differ.
unfoldable pub insert_by_id : ShortLink → List ShortLink → List ShortLink
insert_by_id link [] = link ∷ []
insert_by_id link (l ∷ ls) = if leb link.id l.id then link ∷ l ∷ ls else l ∷ insert_by_id link ls

unfoldable pub sort_by_id : List ShortLink → List ShortLink
unfolding insert_by_id
sort_by_id [] = []
sort_by_id (l ∷ ls) = insert_by_id l (sort_by_id ls)

unfoldable pub insert_by_id_desc : ShortLink → List ShortLink → List ShortLink
insert_by_id_desc link [] = link ∷ []
insert_by_id_desc link (l ∷ ls) =
    if leb l.id link.id then link ∷ l ∷ ls else l ∷ insert_by_id_desc link ls

unfoldable pub sort_by_id_desc : List ShortLink → List ShortLink
unfolding insert_by_id_desc
sort_by_id_desc [] = []
sort_by_id_desc (l ∷ ls) = insert_by_id_desc l (sort_by_id_desc ls)

abbrev pub has_status : LinkStatus → List LinkStatus → Bool
has_status s [] = false
has_status s (t ∷ ts) = t == s || has_status s ts

-- The test of the loop of `List`.
abbrev pub listed : ℤ → List LinkStatus → ℤ → ℕ × ShortLink → Bool
listed length' statuses from_id (id, link) =
    if leb_ℤ (pos id) from_id
    then false
    else leb_ℤ (pos link.length) length'
      && leb_ℤ length' (pos link.length)
      && has_status link.status statuses

-- `range r.links` visits the entries in an order that Go leaves open: `iterate` gives them.
module _ (iterate : List (ℕ × ShortLink) → List (ℕ × ShortLink)) where
  unfoldable pub find_expired_actives :
      Time → ℕ → ℕ → Exec MemoryShortLinkRepository (List ShortLink)
  unfolding scan_links
  find_expired_actives now from_id limit r =
      (ok (scan_links (λ l. is_active l && ltb l.expire now) from_id limit (iterate r.links) []), r)

  unfoldable pub find_expires : ℕ → Time → ℕ → Exec MemoryShortLinkRepository (List ShortLink)
  unfolding scan_links
  find_expires from_id expired_before limit r = (
    ok (
        scan_links (λ l. is_expired l && ltb l.expire expired_before) from_id limit
          (iterate r.links) []),
    r,
  )

  unfoldable pub list :
      ℤ → List LinkStatus → ℕ → ℤ → Bool → Exec MemoryShortLinkRepository (List ShortLink)
  unfolding sort_by_id sort_by_id_desc
  list length' statuses limit from_id asc_sort r =
      let result = map (λ e. e.1) (keep (listed length' statuses from_id) (iterate r.links)) in
      (ok (at_most limit (if asc_sort then sort_by_id result else sort_by_id_desc result)), r)

unfoldable pub get_start_index : ℕ → Exec MemoryShortLinkRepository ℤ
get_start_index length' r =
    (ok (elim (lookup length' r.start_index) [ none ↦ pos 0 | some index ↦ index ]), r)

unfoldable pub save_start_index : Time → ℕ → ℤ → Exec MemoryShortLinkRepository (Unit {0})
save_start_index now length' index r =
    (ok tt, record r { start_index = insert length' index r.start_index })

abbrev pub memory_repository :
    (List (ℕ × ShortLink) → List (ℕ × ShortLink)) → ShortLinkRepository MemoryShortLinkRepository
memory_repository iterate = record {
  create = create;
  update = update;
  updates = updates;
  delete = delete_by_id;
  delete_by_code = delete_by_code;
  get_by_code = get_by_code;
  get_by_id = get_by_id;
  find_expired_actives = find_expired_actives iterate;
  find_expires = find_expires iterate;
  list = list iterate;
  get_start_index = get_start_index;
  save_start_index = save_start_index;
}
