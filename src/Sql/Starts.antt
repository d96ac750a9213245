-- ===== src/Sql/Starts.antt =====
-- The table of start indices: what the repository relies on of GORM for it, and the calls of the
-- service that leave it as it is.
use vshortlink.Prelude.{
  ℕ, ◌<◌, ◌≡◌, refl, ◌∙◌, if◌then◌else◌, List, [], ◌∷◌, Text, map, length, ok, Exec, Result-cases,
  Option-cases, inl, inr, ◌==◌, zero, suc, ◌>>=◌, ◌-◌, ◌*◌,
}
use vshortlink.Prelude.Int.{ℤ}
use vshortlink.Link.{Time, ShortLink, link_status_active, link_status_expired, link_status_recycled}
use vshortlink.Interfaces.{ShortLinkCache, ShortCodePool}
use vshortlink.Service.State.{State, on_repo, on_cache, on_pool, hour}
use vshortlink.Service.Keeps.{Keeps, bind-Keeps}
use vshortlink.Service.Edit.{add, update, remove}
use vshortlink.Service.Expire.{
  set_status, last_id, remove_from_cache, expire_loop, expire_actives, add_to_pool, recycle_loop,
  recycle_expires,
}
use vshortlink.Service.Edit.Memory.{new_link}
use vshortlink.Sql.Lookup.{newest, get_by_code_newest}
use vshortlink.Sql.{code_is, to_core, ShortLinkModel, StartIndexModel, Condition, Gorm, from_core}
use vshortlink.Sql.Repo
use vshortlink.Sql.Repo.{sql_repository, only_index, save_all, due_query}
use vshortlink.Sql.Table.{GormLaws, run_query}

-- The start index of each length, 0 where there is none. Its calls do not fail, and those on the
-- other table leave it.
pub record IndexLaws {D : Type 0} (gorm : Gorm D) : Type 0 where
  pub starts : D → ℕ → ℤ
  pub find_index_shows :
      (n : ℕ) (d : D)
      → (ms : List StartIndexModel) × (gorm.find_index n d ≡ (ok ms, d))
        × (only_index ms ≡ starts d n)
  pub upsert_index_writes :
      (m : StartIndexModel) (d : D)
      → 0 < m.id
      → ((gorm.upsert_index m d).0 ≡ ok tt)
        × ((n : ℕ)
            → starts (gorm.upsert_index m d).1 n
              ≡ (if m.id == n then m.start_index else starts d n))
  pub create_keeps :
      (m : ShortLinkModel) (d : D) (n : ℕ) → starts (gorm.create m d).1 n ≡ starts d n
  pub save_keeps : (m : ShortLinkModel) (d : D) (n : ℕ) → starts (gorm.save m d).1 n ≡ starts d n
  pub delete_where_keeps :
      (c : Condition) (d : D) (n : ℕ) → starts (gorm.delete_where c d).1 n ≡ starts d n
  pub begin_keeps : (d : D) (n : ℕ) → starts (gorm.begin d).1 n ≡ starts d n
  pub tx_save_keeps :
      (m : ShortLinkModel) (d : D) (n : ℕ) → starts (gorm.tx_save m d).1 n ≡ starts d n
  pub commit_keeps : (d : D) (n : ℕ) → starts (gorm.commit d).1 n ≡ starts d n
  pub rollback_keeps : (d : D) (n : ℕ) → starts (gorm.rollback d) n ≡ starts d n

module _ {D : Type 0} (gorm : Gorm D) (laws : GormLaws gorm) (index : IndexLaws gorm) (n : ℕ) where
  abbrev KeepsStart : {A : Type 0} → Exec D A → Type 0
  KeepsStart = Keeps (λ d. index.starts d n)

  save_all-starts : (now : Time) (ls : List ShortLink) → KeepsStart (save_all gorm now ls)
  unfolding save_all
  save_all-starts now [] d = index.commit_keeps d n
  save_all-starts now (l ∷ ls) d =
      let m : ShortLinkModel = record (from_core l) { modify_time = now } in
      elim (Result-cases (gorm.tx_save m d).0) [
        | inl (u, done) ↦
            rw (save_all, done)
              (save_all-starts now ls (gorm.tx_save m d).1 ∙ index.tx_save_keeps m d n)
        | inr (e, failed) ↦
            rw (save_all, failed)
              (index.rollback_keeps (gorm.tx_save m d).1 n ∙ index.tx_save_keeps m d n)
      ]

  updates-starts : (now : Time) (ls : List ShortLink) → KeepsStart (Repo.updates gorm now ls)
  unfolding Repo.updates
  updates-starts now ls =
      bind-Keeps (λ d. index.starts d n) gorm.begin (λ u. save_all gorm now ls)
        (λ d. index.begin_keeps d n) (λ u. save_all-starts now ls)

  create-starts : (now : Time) (l : ShortLink) → KeepsStart (Repo.create gorm now l)
  unfolding Repo.create
  create-starts now l =
      bind-Keeps (λ d. index.starts d n) (gorm.create _) _ (λ d. index.create_keeps _ d n)
        (λ m d. refl)

  -- What the two queries for due links show.
  find_expired_actives_shows :
      (now : Time) (from_id : ℕ) (d : D)
      → (ls : List ShortLink) × (Repo.find_expired_actives gorm now from_id 100 d ≡ (ok ls, d))
  unfolding Repo.find_expired_actives
  find_expired_actives_shows now from_id d = (
    map to_core (run_query (due_query link_status_active now from_id 100) (laws.committed d)),
    rw (laws.find_shows _ d) refl,
  )

  find_expires_shows :
      (from_id : ℕ) (before : Time) (d : D)
      → (ls : List ShortLink) × (Repo.find_expires gorm from_id before 100 d ≡ (ok ls, d))
  unfolding Repo.find_expires
  find_expires_shows from_id before d = (
    map to_core (run_query (due_query link_status_expired before from_id 100) (laws.committed d)),
    rw (laws.find_shows _ d) refl,
  )

module _ {D C P T L : Type 0} (gorm : Gorm D) (laws : GormLaws gorm) (index : IndexLaws gorm)
    (cache : ShortLinkCache C) (pool : ShortCodePool P) (n : ℕ) where
  abbrev start_of : State D C P T L → ℤ
  start_of s = index.starts s.repo n

  abbrev KeepsStarts : {A : Type 0} → Exec (State D C P T L) A → Type 0
  KeepsStarts = Keeps start_of

  pub add-starts :
      (now : Time) (code title link : Text) (expire : Time)
      → KeepsStarts (add (sql_repository gorm) cache pool now code title link expire)
  unfolding add
  add-starts now code title link expire =
      bind-Keeps start_of (on_cache (cache.add (length code) code link expire))
        (λ u. on_repo (Repo.create gorm now (new_link 0 code title link expire))) (λ s. refl)
        (λ u s. create-starts gorm laws index n now (new_link 0 code title link expire) s.repo)

  pub update-starts :
      (now : Time) (code title link : Text) (expire : Time)
      → KeepsStarts (update (sql_repository gorm) cache pool now code title link expire)
  unfolding update Repo.update
  update-starts now code title link expire s =
      elim (Option-cases (newest code (laws.committed s.repo))) [
        | inl missing ↦ rw (get_by_code_newest gorm laws code s.repo, missing) refl
        | inr (l, found) ↦
            elim (Result-cases (cache.add (length code) code link expire s.cache).0) [
              | inl (u, done) ↦
                  rw (get_by_code_newest gorm laws code s.repo, found, done)
                    (index.save_keeps _ s.repo n)
              | inr (e, failed) ↦ rw (get_by_code_newest gorm laws code s.repo, found, failed) refl
            ]
      ]

  pub remove-starts : (code : Text) → KeepsStarts (remove (sql_repository gorm) cache pool code)
  unfolding remove Repo.delete_by_code
  remove-starts code s = index.delete_where_keeps (code_is code) s.repo n

  remove_from_cache-starts :
      (ls : List ShortLink) → KeepsStarts (remove_from_cache (sql_repository gorm) cache pool ls)
  unfolding remove_from_cache
  remove_from_cache-starts [] s = refl
  remove_from_cache-starts (l ∷ ls) s =
      bind-Keeps start_of (on_cache (cache.remove l.length l.code))
        (λ u. remove_from_cache (sql_repository gorm) cache pool ls) (λ t. refl)
        (λ u. remove_from_cache-starts ls) s

  expire_page-starts :
      (fuel : ℕ) (now : Time) (from_id : ℕ) (ls : List ShortLink) (s : State D C P T L)
      → ((g : ℕ) → KeepsStarts (expire_loop (sql_repository gorm) cache pool fuel now g))
      → Repo.find_expired_actives gorm now from_id 100 s.repo ≡ (ok ls, s.repo)
      → start_of (expire_loop (sql_repository gorm) cache pool (suc fuel) now from_id s).1
        ≡ start_of s
  unfolding expire_loop
  expire_page-starts fuel now from_id [] s rest_keeps shown = rw shown refl
  expire_page-starts fuel now from_id (l ∷ rest) s rest_keeps shown = rw shown (
      bind-Keeps start_of (remove_from_cache (sql_repository gorm) cache pool (l ∷ rest))
        (λ u.
          on_repo (Repo.updates gorm now (map (set_status link_status_expired) (l ∷ rest))) >>= λ v.
          expire_loop (sql_repository gorm) cache pool fuel now (last_id l rest))
        (remove_from_cache-starts (l ∷ rest))
        (λ u.
          bind-Keeps start_of
            (on_repo (Repo.updates gorm now (map (set_status link_status_expired) (l ∷ rest))))
            (λ v. expire_loop (sql_repository gorm) cache pool fuel now (last_id l rest))
            (λ t. updates-starts gorm laws index n now _ t.repo) (λ v. rest_keeps (last_id l rest)))
        s)

  expire_loop-starts :
      (fuel : ℕ) (now : Time) (from_id : ℕ)
      → KeepsStarts (expire_loop (sql_repository gorm) cache pool fuel now from_id)
  unfolding expire_loop
  expire_loop-starts zero now from_id s = refl
  expire_loop-starts (suc fuel) now from_id s =
      let (ls, shown) = find_expired_actives_shows gorm laws index n now from_id s.repo in
      expire_page-starts fuel now from_id ls s (expire_loop-starts fuel now) shown

  pub expire_actives-starts :
      (fuel : ℕ) (now : Time)
      → KeepsStarts (expire_actives (sql_repository gorm) cache pool fuel now)
  unfolding expire_actives
  expire_actives-starts fuel now = expire_loop-starts fuel now 0

  add_to_pool-starts :
      (now : Time) (ls : List ShortLink)
      → KeepsStarts (add_to_pool (sql_repository gorm) cache pool now ls)
  unfolding add_to_pool
  add_to_pool-starts now [] s = refl
  add_to_pool-starts now (l ∷ ls) s =
      bind-Keeps start_of (on_pool (pool.add now l.length l.code))
        (λ u. add_to_pool (sql_repository gorm) cache pool now ls) (λ t. refl)
        (λ u. add_to_pool-starts now ls) s

  recycle_page-starts :
      (fuel : ℕ) (now before : Time) (from_id : ℕ) (ls : List ShortLink) (s : State D C P T L)
      → ((g : ℕ) → KeepsStarts (recycle_loop (sql_repository gorm) cache pool fuel now before g))
      → Repo.find_expires gorm from_id before 100 s.repo ≡ (ok ls, s.repo)
      → start_of (recycle_loop (sql_repository gorm) cache pool (suc fuel) now before from_id s).1
        ≡ start_of s
  unfolding recycle_loop
  recycle_page-starts fuel now before from_id [] s rest_keeps shown = rw shown refl
  recycle_page-starts fuel now before from_id (l ∷ rest) s rest_keeps shown = rw shown (
      bind-Keeps start_of (add_to_pool (sql_repository gorm) cache pool now (l ∷ rest))
        (λ u.
          on_repo (Repo.updates gorm now (map (set_status link_status_recycled) (l ∷ rest)))
          >>= λ v. recycle_loop (sql_repository gorm) cache pool fuel now before (last_id l rest))
        (add_to_pool-starts now (l ∷ rest))
        (λ u.
          bind-Keeps start_of
            (on_repo (Repo.updates gorm now (map (set_status link_status_recycled) (l ∷ rest))))
            (λ v. recycle_loop (sql_repository gorm) cache pool fuel now before (last_id l rest))
            (λ t. updates-starts gorm laws index n now _ t.repo) (λ v. rest_keeps (last_id l rest)))
        s)

  recycle_loop-starts :
      (fuel : ℕ) (now before : Time) (from_id : ℕ)
      → KeepsStarts (recycle_loop (sql_repository gorm) cache pool fuel now before from_id)
  unfolding recycle_loop
  recycle_loop-starts zero now before from_id s = refl
  recycle_loop-starts (suc fuel) now before from_id s =
      let (ls, shown) = find_expires_shows gorm laws index n from_id before s.repo in
      recycle_page-starts fuel now before from_id ls s (recycle_loop-starts fuel now before) shown

  pub recycle_expires-starts :
      (fuel : ℕ) (now : Time)
      → KeepsStarts (recycle_expires (sql_repository gorm) cache pool fuel now)
  unfolding recycle_expires
  recycle_expires-starts fuel now = recycle_loop-starts fuel now (now - hour * 24 * 365) 0
