-- ===== src/Http/Redirect.antt =====
-- cores/http.go: `HttpHandle`.
use vshortlink.Prelude.{
  ℕ, Option, none, some, [], ◌∷◌, Text, codes, same, is_empty, ltb, if◌then◌else◌, length,
}
use vshortlink.Link.{Time}
use vshortlink.Interfaces.{ShortLinkRepository, ShortLinkCache, ShortCodePool, ShortLinkStats}
use vshortlink.Service.State.{Config, State, LruCache, add_mem_lru_cache, get_mem_lru_cache}
use vshortlink.Service.Query.{service_record_hit}
use vshortlink.Http.Types.{Request, Response, status_ok, not_found, redirect, panic, strip_prefix}
use vshortlink.Http.Manage.{Handler, http_handle_management}

abbrev pub management_code_prefix : Text
management_code_prefix = codes "__"

module _ {R C P T L : Type 0} (repo : ShortLinkRepository R) (cache : ShortLinkCache C)
    (pool : ShortCodePool P) (stats : ShortLinkStats T) (lru : LruCache L) (c : Config)
    (day_key : ℕ → Text) (now : Time) where
  answer_hit : Text → Text → Handler R C P T L
  answer_hit code link s = (redirect link, service_record_hit c code s)

  -- What follows the lookup in the cache, which is made when the LRU cache has no entry.
  unfoldable pub from_cache : Text → Option Text → Handler R C P T L
  unfolding answer_hit
  from_cache code none s = (not_found, s)
  from_cache code (some link) s =
      if is_empty link
      then (not_found, s)
      else answer_hit code link (add_mem_lru_cache lru code link s)

  from_lru : Text → Option Text × State R C P T L → Response × State R C P T L
  unfolding from_cache
  from_lru code (some link, s) = answer_hit code link s
  from_lru code (none, s) =
      let (found, x) = cache.get now (length code) code s.cache in
      from_cache code found (record s { cache = x })

  unfoldable pub redirect_code : Text → Handler R C P T L
  unfolding from_lru
  redirect_code code s =
      if ltb c.max_code_length (length code)
      then (not_found, s)
      else from_lru code (get_mem_lru_cache lru code s)

  unfoldable pub dispatch : Request → Text → Option Text → Handler R C P T L
  unfolding redirect_code
  dispatch r code (some op) s = http_handle_management repo cache pool stats c day_key now r op s
  dispatch r code none s = if is_empty code then (status_ok, s) else redirect_code code s

  unfoldable pub handle_path : Request → Text → Handler R C P T L
  unfolding dispatch
  handle_path r [] s = (panic, s)
  handle_path r (slash ∷ code) s = dispatch r code (strip_prefix management_code_prefix code) s

  unfoldable pub http_handle : Request → Handler R C P T L
  unfolding handle_path strip_prefix
  http_handle r s =
      if same r.method (codes "OPTIONS") then (status_ok, s) else handle_path r r.path s
