-- ===== src/Service/Edit.antt =====
-- cores/service.go: `Create`, `Add`, `Update` and `Remove`.
pub mod Memory
pub mod Change
pub mod Invariant
pub mod Lawful
use vshortlink.Prelude.{
  ℕ, ◌||◌, Bool, Option, none, some, List, Text, if◌then◌else◌, length, Result, ok, err, Exec,
  invalid_length, link_not_found, ◌>>=◌, ◌>>◌, pure, throw,
}
use vshortlink.Prelude.Int.{ℤ, pos, pos_part, ltb_ℤ}
use vshortlink.Link.{Time, ShortLink, link_status_active}
use vshortlink.Interfaces.{ShortLinkRepository, ShortLinkCache, ShortCodePool}
use vshortlink.Service.State.{Config, State, on_repo, on_cache, on_pool, spawn}

-- The error of the cache comes before that of the repository.
first_error : Result (Unit {0}) → Result (Unit {0}) → Result (Unit {0})
first_error (err e) delete_err = err e
first_error (ok u) delete_err = delete_err

module _ {R C P T L : Type 0} (repo : ShortLinkRepository R) (cache : ShortLinkCache C)
    (pool : ShortCodePool P) where
  unfoldable pub add : Time → Text → Text → Text → Time → Exec (State R C P T L) ShortLink
  add now code title link expire_time = do
    on_cache (cache.add (length code) code link expire_time)
    on_repo (
        repo.create now (record {
          id = 0;
          length = length code;
          code = code;
          title = title;
          link = link;
          expire = expire_time;
          status = link_status_active;
          create_time = 0;
          modify_time = 0;
        }))

  unfoldable pub create : Config → Time → Text → Text → ℤ → Time → Exec (State R C P T L) ShortLink
  unfolding add
  create c now title link short_code_length expire_time =
      if ltb_ℤ short_code_length (pos 1) || ltb_ℤ (pos c.max_code_length) short_code_length
      then throw invalid_length
      else do
        (short_code, enough) ← on_pool (pool.pull (pos_part short_code_length))
        if enough then pure tt else spawn (pos_part short_code_length)
        add now short_code title link expire_time

  update_found :
      Time → Text → Text → Text → Time → Option ShortLink → Exec (State R C P T L) (Unit {0})
  update_found now code title link expire_time none = throw link_not_found
  update_found now code title link expire_time (some short_link) = do
    on_cache (cache.add (length code) code link expire_time)
    on_repo
        (repo.update now (record short_link { link = link; title = title; expire = expire_time }))

  unfoldable pub update : Time → Text → Text → Text → Time → Exec (State R C P T L) (Unit {0})
  unfolding update_found
  update now code title link expire_time = do
    short_link ← on_repo (repo.get_by_code code)
    update_found now code title link expire_time short_link

  -- Both calls are made, whatever the first returns.
  unfoldable pub remove : Text → Exec (State R C P T L) (Unit {0})
  unfolding first_error
  remove code s =
      let (remove_err, s') = on_cache (cache.remove (length code) code) s in
      let (delete_err, s'') = on_repo (repo.delete_by_code code) s' in
      (first_error remove_err delete_err, s'')
