-- ===== src/Sql/Repo.antt =====
-- ext/gormx/repo.go: `GormShortLinkRepository`.
use vshortlink.Prelude.{
  ℕ, Bool, true, false, Option, none, some, List, [], ◌∷◌, ◌++◌, map, Text, ◌==◌, if◌then◌else◌, ok,
  err, Exec, ◌>>=◌, ◌>>◌, pure,
}
use vshortlink.Prelude.Int.{ℤ, pos, ltb_ℤ}
use vshortlink.Link.{Time, LinkStatus, ShortLink, link_status_active, link_status_expired}
use vshortlink.Interfaces.{ShortLinkRepository}
use vshortlink.Sql.{
  ShortLinkModel, StartIndexModel, to_core, from_core, code_is, length_is, id_above, status_is,
  status_in, expire_before, Query, Gorm,
}

-- A `Find` with `Limit(1)` into one model: the zero model, with id 0, if there is no row.
abbrev pub only_link : List ShortLinkModel → Option ShortLink
only_link [] = none
only_link (m ∷ ms) = if m.id == 0 then none else some (to_core m)

abbrev pub only_index : List StartIndexModel → ℤ
only_index [] = pos 0
only_index (m ∷ ms) = if m.id == 0 then pos 0 else m.start_index

abbrev pub due_query : LinkStatus → Time → ℕ → ℕ → Query
due_query status before from_id limit = record {
  conditions = id_above (pos from_id) ∷ status_is status ∷ expire_before before ∷ [];
  ascending = true;
  limit = some limit;
}

abbrev pub list_query : ℤ → List LinkStatus → ℕ → ℤ → Bool → Query
list_query length' statuses limit from_id asc_sort = record {
  conditions =
      length_is length' ∷ (if ltb_ℤ (pos 0) from_id then id_above from_id ∷ [] else [])
      ++ elim statuses [ [] ↦ [] | s ∷ ss ↦ status_in (s ∷ ss) ∷ [] ];
  ascending = asc_sort;
  limit = if limit == 0 then none else some limit;
}

module _ {D : Type 0} (gorm : Gorm D) where
  unfoldable pub create : Time → ShortLink → Exec D ShortLink
  create now link = do
    model ← gorm.create (record (from_core link) { create_time = now; modify_time = now })
    pure (record link { id = model.id })

  unfoldable pub update : Time → ShortLink → Exec D (Unit {0})
  update now link = gorm.save (record (from_core link) { modify_time = now })

  -- The loop of `Updates`, up to its `return`.
  unfoldable pub save_all : Time → List ShortLink → Exec D (Unit {0})
  save_all now [] d = gorm.commit d
  save_all now (link ∷ links) d =
      let (r, d') = gorm.tx_save (record (from_core link) { modify_time = now }) d in
      let rest = save_all now links d' in elim r [ ok u ↦ rest | err e ↦ (err e, gorm.rollback d') ]

  unfoldable pub updates : Time → List ShortLink → Exec D (Unit {0})
  unfolding save_all
  updates now links = do gorm.begin; save_all now links

  unfoldable pub delete_by_id : ℕ → Exec D (Unit {0})
  delete_by_id id = gorm.delete id

  unfoldable pub delete_by_code : Text → Exec D (Unit {0})
  delete_by_code code = gorm.delete_where (code_is code)

  unfoldable pub get_by_code : Text → Exec D (Option ShortLink)
  get_by_code code = do
    models ←
        gorm.find (record { conditions = code_is code ∷ []; ascending = false; limit = some 1 })
    pure (only_link models)

  unfoldable pub get_by_id : ℕ → Exec D (Option ShortLink)
  get_by_id id = do
    model ← gorm.first id
    pure (elim model [ none ↦ none | some m ↦ some (to_core m) ])

  unfoldable pub find_expired_actives : Time → ℕ → ℕ → Exec D (List ShortLink)
  find_expired_actives now from_id limit = do
    models ← gorm.find (due_query link_status_active now from_id limit)
    pure (map to_core models)

  unfoldable pub find_expires : ℕ → Time → ℕ → Exec D (List ShortLink)
  find_expires from_id expired_before limit = do
    models ← gorm.find (due_query link_status_expired expired_before from_id limit)
    pure (map to_core models)

  unfoldable pub get_start_index : ℕ → Exec D ℤ
  get_start_index length' = do models ← gorm.find_index length'; pure (only_index models)

  unfoldable pub list : ℤ → List LinkStatus → ℕ → ℤ → Bool → Exec D (List ShortLink)
  list length' statuses limit from_id asc_sort = do
    models ← gorm.find (list_query length' statuses limit from_id asc_sort)
    pure (map to_core models)

  unfoldable pub save_start_index : Time → ℕ → ℤ → Exec D (Unit {0})
  save_start_index now length' index =
      gorm.upsert_index
        (record { id = length'; start_index = index; create_time = now; modify_time = now })

  abbrev pub sql_repository : ShortLinkRepository D
  sql_repository = record {
    create = create;
    update = update;
    updates = updates;
    delete = delete_by_id;
    delete_by_code = delete_by_code;
    get_by_code = get_by_code;
    get_by_id = get_by_id;
    find_expired_actives = find_expired_actives;
    find_expires = find_expires;
    list = list;
    get_start_index = get_start_index;
    save_start_index = save_start_index;
  }
