-- ===== src/Service/Expire.antt =====
-- cores/service.go: `ExpireActives` and `RecycleExpires`.
pub mod Ends
pub mod Recycles
use vshortlink.Prelude.{
  ℕ, zero, suc, ◌-◌, ◌*◌, List, [], ◌∷◌, map, Exec, out_of_fuel, ◌>>=◌, ◌>>◌, pure, throw,
}
use vshortlink.Link.{Time, ShortLink, LinkStatus, link_status_expired, link_status_recycled}
use vshortlink.Interfaces.{ShortLinkRepository, ShortLinkCache, ShortCodePool}
use vshortlink.Service.State.{State, on_repo, on_cache, on_pool, hour}

abbrev pub set_status : LinkStatus → ShortLink → ShortLink
set_status status link = record link { status = status }

-- `links[len(links)-1].ID` of `link ∷ links`.
unfoldable pub last_id : ShortLink → List ShortLink → ℕ
last_id link [] = link.id
last_id link (l ∷ ls) = last_id l ls

module _ {R C P T L : Type 0} (repo : ShortLinkRepository R) (cache : ShortLinkCache C)
    (pool : ShortCodePool P) where
  -- The inner loop of `ExpireActives`.
  unfoldable pub remove_from_cache : List ShortLink → Exec (State R C P T L) (Unit {0})
  remove_from_cache [] = pure tt
  remove_from_cache (link ∷ links) = do
    on_cache (cache.remove link.length link.code)
    remove_from_cache links

  -- The outer loop; the source bounds it by nothing. A page that is empty ends it.
  unfoldable pub expire_loop : ℕ → Time → ℕ → Exec (State R C P T L) (Unit {0})
  unfolding remove_from_cache
  expire_loop zero now from_id = throw out_of_fuel
  expire_loop (suc fuel) now from_id = do
    links ← on_repo (repo.find_expired_actives now from_id 100)
    elim links [
      | [] ↦ pure tt
      | link ∷ rest ↦ do
        remove_from_cache (link ∷ rest)
        on_repo (repo.updates now (map (set_status link_status_expired) (link ∷ rest)))
        expire_loop fuel now (last_id link rest)
    ]

  unfoldable pub expire_actives : ℕ → Time → Exec (State R C P T L) (Unit {0})
  unfolding expire_loop
  expire_actives fuel now = expire_loop fuel now 0

  -- The inner loop of `RecycleExpires`.
  unfoldable pub add_to_pool : Time → List ShortLink → Exec (State R C P T L) (Unit {0})
  add_to_pool now [] = pure tt
  add_to_pool now (link ∷ links) = do
    on_pool (pool.add now link.length link.code)
    add_to_pool now links

  unfoldable pub recycle_loop : ℕ → Time → Time → ℕ → Exec (State R C P T L) (Unit {0})
  unfolding add_to_pool
  recycle_loop zero now expired_before from_id = throw out_of_fuel
  recycle_loop (suc fuel) now expired_before from_id = do
    links ← on_repo (repo.find_expires from_id expired_before 100)
    elim links [
      | [] ↦ pure tt
      | link ∷ rest ↦ do
        add_to_pool now (link ∷ rest)
        on_repo (repo.updates now (map (set_status link_status_recycled) (link ∷ rest)))
        recycle_loop fuel now expired_before (last_id link rest)
    ]

  -- `time.Now().Add(-time.Hour * 24 * 365)`; before Go's year 2 the subtraction stops at 0.
  unfoldable pub recycle_expires : ℕ → Time → Exec (State R C P T L) (Unit {0})
  unfolding recycle_loop
  recycle_expires fuel now = recycle_loop fuel now (now - hour * 24 * 365) 0
