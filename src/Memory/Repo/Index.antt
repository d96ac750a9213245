-- ===== src/Memory/Repo/Index.antt =====
-- The invariant between the two maps of the memory repository.
use vshortlink.Prelude.{
  ℕ, ◌+◌, ◌<◌, ◌≡◌, ◌≢◌, ◌⊎◌, sym, ap, ◌∙◌, some, Text, same, same_iff, ◌==◌, ==_iff, if◌then◌else◌,
  ok, err, link_not_found, arith, Bool-cases, Option-cases, inl, inr,
}
use vshortlink.Prelude.Keyed.{
  lookup, insert, delete, lookup-insert, lookup-delete, lookup_nil, nat_key, text_key,
}
use vshortlink.Link.{Time, ShortLink}
use vshortlink.Memory.Repo.{
  MemoryShortLinkRepository, new_repository, store, create, update, delete_by_id, delete_by_code,
  get_by_code,
}

-- Every code of the index leads to a link that has it, and every link stands under its own id, which
-- has been given out.
pub record IsIndexed (r : MemoryShortLinkRepository) : Type 0 where
  pub indexed :
      (code : Text) (id : ℕ)
      → lookup code r.code_to_id ≡ some id
      → (l : ShortLink) × (lookup id r.links ≡ some l) × (l.code ≡ code)
  pub stored :
      (id : ℕ) (l : ShortLink) → lookup id r.links ≡ some l → (l.id ≡ id) × (id < r.next_id)

pub new_repository-IsIndexed : IsIndexed new_repository
new_repository-IsIndexed = record {
  indexed = λ code id h. ground (arith, h, lookup_nil {V = ℕ} code);
  stored = λ id l h. ground (arith, h, lookup_nil {V = ShortLink} id);
}

pub store-IsIndexed :
    (link : ShortLink) (r : MemoryShortLinkRepository)
    → IsIndexed r
    → link.id < r.next_id
    → ((l : ShortLink) → lookup link.id r.links ≡ some l → l.code ≡ link.code)
    → IsIndexed (store link r)
unfolding store
store-IsIndexed link r w given keeps = record {
  indexed = λ code id h. elim (Bool-cases (same link.code code)) [
    | inl own ↦ (
      link,
      ground (arith, h, own, written_id code, written id, ==_iff link.id id),
      ground (arith, same_iff link.code code),
    )
    | inr other ↦
        let (l, found, its) = w.indexed code id (ground (arith, h, other, written_id code)) in
        elim (Bool-cases (link.id == id)) [
          | inl same_id ↦
              let e : link.id ≡ id = ground arith in
              (
                link,
                ground (arith, written id),
                sym (keeps l (ap (λ j. lookup j r.links) e ∙ found)) ∙ its,
              )
          | inr other_id ↦ (l, ground (arith, written id, found), its)
        ]
  ];
  stored = λ id l h. elim (Bool-cases (link.id == id)) [
    | inl own ↦ ground (arith, h, written id, ==_iff link.id id)
    | inr other ↦ w.stored id l (ground (arith, h, written id))
  ];
}
  where
    written :
        (id : ℕ)
        → lookup id (insert link.id link r.links)
          ≡ (if link.id == id then some link else lookup id r.links)
    written id = lookup-insert link.id id link r.links

    written_id :
        (code : Text)
        → lookup code (insert link.code link.id r.code_to_id)
          ≡ (if same link.code code then some link.id else lookup code r.code_to_id)
    written_id code = lookup-insert link.code code link.id r.code_to_id

-- `Create` keeps the invariant, also for a code that another link has.
pub create-IsIndexed :
    (now : Time) (link : ShortLink) (r : MemoryShortLinkRepository)
    → IsIndexed r
    → IsIndexed (create now link r).1
unfolding create
create-IsIndexed now link r w =
    let wider : IsIndexed (record r { next_id = r.next_id + 1 }) = record {
      indexed = w.indexed;
      stored = λ id l h. let (own, given) = w.stored id l h in (own, omega arith);
    } in
    store-IsIndexed (record link { id = r.next_id }) (record r { next_id = r.next_id + 1 }) wider
      (omega arith) (λ l h. let (own, given) = w.stored r.next_id l h in absurd (omega arith))

-- `Update` keeps the invariant, if the link keeps its code.
pub update-IsIndexed :
    (now : Time) (link : ShortLink) (r : MemoryShortLinkRepository)
    → IsIndexed r
    → ((l : ShortLink) → lookup link.id r.links ≡ some l → l.code ≡ link.code)
    → IsIndexed (update now link r).1
unfolding update
update-IsIndexed now link r w keeps = elim (Option-cases (lookup link.id r.links)) [
  | inl missing ↦ rw (missing, update) w
  | inr (old, found) ↦
      let (own, given) = w.stored link.id old found in
      rw (found, update) (store-IsIndexed link r w given keeps)
]

-- A link that goes together with an index entry of its code.
cut-IsIndexed :
    (code : Text) (id : ℕ) (r : MemoryShortLinkRepository)
    → IsIndexed r
    → ((l : ShortLink) → lookup id r.links ≡ some l → l.code ≡ code)
    → IsIndexed (record r { code_to_id = delete code r.code_to_id; links = delete id r.links })
cut-IsIndexed code id r w its = record {
  indexed = λ c j h.
      let left = lookup-delete code c r.code_to_id in
      let old : lookup c r.code_to_id ≡ some j = ground (arith, h, left) in
      let other : code ≢ c = λ e. ground (arith, h, left, same_iff code c, e) in
      let (l, found, has) = w.indexed c j old in
      let other_id : id ≢ j = λ e. other (sym (its l (rw e found)) ∙ has) in
      (l, ground (arith, lookup-delete id j r.links, ==_iff id j, found), has);
  stored = λ j l h. w.stored j l (ground (arith, h, lookup-delete id j r.links));
}

pub delete_by_id-IsIndexed :
    (id : ℕ) (r : MemoryShortLinkRepository) → IsIndexed r → IsIndexed (delete_by_id id r).1
unfolding delete_by_id
delete_by_id-IsIndexed id r w = elim (Option-cases (lookup id r.links)) [
  | inl missing ↦ rw (missing, delete_by_id) w
  | inr (old, found) ↦
      rw (found, delete_by_id) (cut-IsIndexed old.code id r w (λ l h. ground (arith, h, found)))
]

pub delete_by_code-IsIndexed :
    (code : Text) (r : MemoryShortLinkRepository)
    → IsIndexed r
    → IsIndexed (delete_by_code code r).1
unfolding delete_by_code
delete_by_code-IsIndexed code r w = elim (Option-cases (lookup code r.code_to_id)) [
  | inl missing ↦ rw (missing, delete_by_code) w
  | inr (id, found) ↦
      let (l, held, has) = w.indexed code id found in
      rw (found, delete_by_code) (cut-IsIndexed code id r w (λ k h. ground (arith, h, held, has)))
]

-- Under the invariant, `GetByCode` finds a link that has the code, or reports that there is none.
pub get_by_code-cases :
    (code : Text) (r : MemoryShortLinkRepository)
    → IsIndexed r
    → (get_by_code code r ≡ (err link_not_found, r))
      ⊎ ((l : ShortLink) × (get_by_code code r ≡ (ok (some l), r))
          × (l.code ≡ code)
          × (lookup code r.code_to_id ≡ some l.id)
          × (lookup l.id r.links ≡ some l))
unfolding get_by_code
get_by_code-cases code r w = elim (Option-cases (lookup code r.code_to_id)) [
  | inl missing ↦ inl (rw (missing, get_by_code))
  | inr (id, found) ↦
      let (l, held, has) = w.indexed code id found in
      let (own, given) = w.stored id l held in
      inr (
        l,
        rw (found, get_by_code) (ap (λ o. (ok o, r)) held),
        has,
        found ∙ ap some (sym own),
        ap (λ j. lookup j r.links) own ∙ held,
      )
]
