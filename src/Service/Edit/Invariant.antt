-- ===== src/Service/Edit/Invariant.antt =====
-- Sequences of edits over the memory backends, and the invariant of the repository.
use vshortlink.Prelude.{
  ℕ, ◌||◌, ◌≡◌, sym, subst, ap, true, List, [], ◌∷◌, Text, ok, err, link_not_found, ◌⊎◌, arith,
  Bool-cases, inl, inr, some,
}
use vshortlink.Prelude.Int.{ℤ, pos, negsuc, ltb_ℤ}
use vshortlink.Prelude.Keyed.{nat_key, text_key}
use vshortlink.Link.{Time, ShortLink}
use vshortlink.Memory.Pool.{memory_pool}
use vshortlink.Memory.Pool.Queue.{queue, head_or_empty}
use vshortlink.Memory.Cache
use vshortlink.Memory.Cache.{memory_cache}
use vshortlink.Memory.Repo
use vshortlink.Memory.Repo.{MemoryShortLinkRepository, memory_repository}
use vshortlink.Memory.Repo.Index.{
  IsIndexed, create-IsIndexed, update-IsIndexed, delete_by_code-IsIndexed, get_by_code-cases,
}
use vshortlink.Service.State.{Config}
use vshortlink.Service.Edit.{add, create, update, remove}
use vshortlink.Service.Edit.Memory.{AllMemory, new_link, create-add}

pub data Edit : Type 0 where
  adding : Time → Text → Text → Text → Time → Edit
  creating : Time → Text → Text → ℤ → Time → Edit
  updating : Time → Text → Text → Text → Time → Edit
  removing : Text → Edit

module _ {T L : Type 0} (iterate : List (ℕ × ShortLink) → List (ℕ × ShortLink)) (c : Config) where
  -- The state after an edit, whatever it returns.
  pub after_edit : Edit → AllMemory T L → AllMemory T L
  after_edit (adding now code title link expire) s =
      (add (memory_repository iterate) memory_cache memory_pool now code title link expire s).1
  after_edit (creating now title link n expire) s =
      (create (memory_repository iterate) memory_cache memory_pool c now title link n expire s).1
  after_edit (updating now code title link expire) s =
      (update (memory_repository iterate) memory_cache memory_pool now code title link expire s).1
  after_edit (removing code) s =
      (remove (memory_repository iterate) memory_cache memory_pool code s).1

  pub after_edits : List Edit → AllMemory T L → AllMemory T L
  unfolding after_edit
  after_edits [] s = s
  after_edits (e ∷ es) s = after_edits es (after_edit e s)

  add-IsIndexed :
      (now : Time) (code title link : Text) (expire : Time) (s : AllMemory T L)
      → IsIndexed s.repo
      → IsIndexed (after_edit (adding now code title link expire) s).repo
  unfolding after_edit add Cache.add
  add-IsIndexed now code title link expire s w =
      create-IsIndexed now (new_link 0 code title link expire) s.repo w

  remove-IsIndexed :
      (code : Text) (s : AllMemory T L)
      → IsIndexed s.repo
      → IsIndexed (after_edit (removing code) s).repo
  unfolding after_edit remove
  remove-IsIndexed code s w = delete_by_code-IsIndexed code s.repo w

  update-edit-IsIndexed :
      (now : Time) (code title link : Text) (expire : Time) (s : AllMemory T L)
      → IsIndexed s.repo
      → IsIndexed (after_edit (updating now code title link expire) s).repo
  unfolding after_edit update Cache.add
  update-edit-IsIndexed now code title link expire s w = elim (get_by_code-cases code s.repo w) [
    | inl missing ↦ rw (missing, after_edit) w
    | inr (l, found, has, code_id, held) ↦
        rw (found, after_edit)
          (update-IsIndexed now (record l { link = link; title = title; expire = expire }) s.repo w
            (λ k h. ground (arith, h, held)))
  ]

  create-edit-IsIndexed :
      (now : Time) (title link : Text) (n : ℤ) (expire : Time) (s : AllMemory T L)
      → IsIndexed s.repo
      → IsIndexed (after_edit (creating now title link n expire) s).repo
  unfolding after_edit create add
  create-edit-IsIndexed now title link (negsuc n) expire s w =
      let refused : (ltb_ℤ (negsuc n) (pos 1) || ltb_ℤ (pos c.max_code_length) (negsuc n)) ≡ true =
        ground arith in
      rw (refused, after_edit) w
  create-edit-IsIndexed now title link (pos n) expire s w =
      elim (Bool-cases (ltb_ℤ (pos n) (pos 1) || ltb_ℤ (pos c.max_code_length) (pos n))) [
        | inl refused ↦ rw (refused, after_edit) w
        | inr valid ↦
            subst (λ x. IsIndexed x.1.repo)
              (sym (create-add iterate c s n now title link expire (ground arith) (ground arith)))
              (add-IsIndexed now (head_or_empty (queue s.pool n)) title link expire _ w)
      ]

  after_edit-IsIndexed :
      (e : Edit) (s : AllMemory T L) → IsIndexed s.repo → IsIndexed (after_edit e s).repo
  after_edit-IsIndexed (adding now code title link expire) =
      add-IsIndexed now code title link expire
  after_edit-IsIndexed (creating now title link n expire) =
      create-edit-IsIndexed now title link n expire
  after_edit-IsIndexed (updating now code title link expire) =
      update-edit-IsIndexed now code title link expire
  after_edit-IsIndexed (removing code) = remove-IsIndexed code

  -- On the memory backends, whatever edits are made, failed ones included, from a repository in which
  -- every code of the index leads to a link that has it and every link stands under its own id, which
  -- has been given out: the repository stays so.
  pub edits-IsIndexed :
      (es : List Edit) (s : AllMemory T L) → IsIndexed s.repo → IsIndexed (after_edits es s).repo
  unfolding after_edits
  edits-IsIndexed [] s w = w
  edits-IsIndexed (e ∷ es) s w = edits-IsIndexed es (after_edit e s) (after_edit-IsIndexed e s w)

  -- On the memory backends, after any edits from a repository in which every code of the index
  -- leads to a link that has it and every link stands under its own id, which has been given out,
  -- `GetByCode` of a code reports that there is no link, or returns a link with that code: never a
  -- nil link, or that of another code.
  get_by_code-edits :
      (es : List Edit) (s : AllMemory T L) (code : Text)
      → IsIndexed s.repo
      → ((Repo.get_by_code code (after_edits es s).repo).0 ≡ err link_not_found)
        ⊎ ((l : ShortLink) × ((Repo.get_by_code code (after_edits es s).repo).0 ≡ ok (some l))
            × (l.code ≡ code))
  get_by_code-edits es s code w =
      elim (get_by_code-cases code (after_edits es s).repo (edits-IsIndexed es s w)) [
        | inl missing ↦ inl (ap (λ x. x.0) missing)
        | inr (l, found, has, code_id, held) ↦ inr (l, ap (λ x. x.0) found, has)
      ]
