-- ===== src/Http/Answers.antt =====
-- What `HttpHandle` answers to a short code.
use vshortlink.Prelude.{
  ℕ, ◌≤◌, ◌≡◌, ◌≢◌, refl, ap, ◌∙◌, Bool, true, false, ◌&&◌, Option, none, some, [], ◌∷◌, ◌++◌, Text,
  codes, same_ne, is_empty, is_empty_ne, ltb, if◌then◌else◌, length, arith, Bool-cases, inl, inr,
}
use vshortlink.Link.{Time}
use vshortlink.Interfaces.{ShortLinkRepository, ShortLinkCache, ShortCodePool, ShortLinkStats}
use vshortlink.Memory.Cache.{MemoryShortLinkCache, memory_cache}
use vshortlink.Memory.Cache.Entries.{entry, visible, get-entry}
use vshortlink.Recorder.{record_hit}
use vshortlink.Service.State.{Config, State, LruCache}
use vshortlink.Service.Edit.{remove}
use vshortlink.Service.Query.{service_record_hit}
use vshortlink.Http.Types.{Request, Response, not_found, redirect, strip_prefix}
use vshortlink.Http.Redirect.{
  http_handle, handle_path, dispatch, from_cache, redirect_code, management_code_prefix,
}

-- The answer to a link that a reader sees.
abbrev pub answer : Option Text → Response
answer none = not_found
answer (some link) = if is_empty link then not_found else redirect link

abbrev pub is_answered : Option Text → Bool
is_answered none = false
is_answered (some []) = false
is_answered (some (b ∷ link)) = true

-- A request for a short code that is not a management path.
pub record IsCodeRequest (c : Config) (r : Request) (code : Text) : Type 0 where
  pub path : r.path ≡ codes "/" ++ code
  pub method : r.method ≢ codes "OPTIONS"
  pub plain : strip_prefix management_code_prefix code ≡ none
  pub nonempty : code ≢ []
  pub short : length code ≤ c.max_code_length

module _ {R C P T L : Type 0} (repo : ShortLinkRepository R) (cache : ShortLinkCache C)
    (pool : ShortCodePool P) (stats : ShortLinkStats T) (lru : LruCache L) (c : Config)
    (day_key : ℕ → Text) (now : Time) where
  pub handle-redirect_code :
      (r : Request) (code : Text) (s : State R C P T L)
      → IsCodeRequest c r code
      → http_handle repo cache pool stats lru c day_key now r s
        ≡ redirect_code repo cache pool stats lru c day_key now code s
  unfolding http_handle handle_path dispatch
  handle-redirect_code r code s h = rw (same_ne r.method (codes "OPTIONS") h.method) (
      ap (λ p. handle_path repo cache pool stats lru c day_key now r p s) h.path
      ∙ rw (h.plain, dispatch, is_empty_ne code h.nonempty))

  code_in_lru :
      (code link : Text) (s : State R C P T L)
      → length code ≤ c.max_code_length
      → (lru.get code s.mem_lru_cache).0 ≡ some link
      → (redirect_code repo cache pool stats lru c day_key now code s).0 ≡ redirect link
  unfolding redirect_code
  code_in_lru code link s short held =
      let fits : ltb c.max_code_length (length code) ≡ false = ground arith in rw (fits, held)

  -- A code that the LRU cache still has is redirected after its link was removed.
  pub removed_still_redirects :
      (r : Request) (code link : Text) (s : State R C P T L)
      → IsCodeRequest c r code
      → (lru.get code s.mem_lru_cache).0 ≡ some link
      → (http_handle repo cache pool stats lru c day_key now r (remove repo cache pool code s).1).0
        ≡ redirect link
  removed_still_redirects r code link s h held =
      ap (λ x. x.0) (handle-redirect_code r code (remove repo cache pool code s).1 h)
      ∙ code_in_lru code link (remove repo cache pool code s).1 h.short (unfold remove in held)

module _ {R P T L : Type 0} (repo : ShortLinkRepository R) (pool : ShortCodePool P)
    (stats : ShortLinkStats T) (lru : LruCache L) (c : Config) (day_key : ℕ → Text)
    (now : Time) where
  abbrev Answered :
      Option Text
      → Text
      → State R MemoryShortLinkCache P T L
      → Response × State R MemoryShortLinkCache P T L
      → Type 0
  Answered seen code s (response, s') =
      (response ≡ answer seen)
      × (s'.recorder ≡ (
          if is_answered seen && c.stats_enabled then record_hit code s.recorder else s.recorder))

  from_cache-Answered :
      (seen : Option Text) (code : Text) (s x : State R MemoryShortLinkCache P T L)
      → x.recorder ≡ s.recorder
      → Answered seen code s (from_cache repo memory_cache pool stats lru c day_key now code seen x)
  unfolding from_cache service_record_hit
  from_cache-Answered none code s x e = (refl, e)
  from_cache-Answered (some []) code s x e = (refl, e)
  from_cache-Answered (some (b ∷ link)) code s x e = elim (Bool-cases c.stats_enabled) [
    | inl on ↦ rw on (refl, ap (record_hit code) e)
    | inr off ↦ rw off (refl, e)
  ]

  -- Where the LRU cache has no entry, the answer is what the memory cache shows of the code: a
  -- redirect to a link that has not expired and is not "", and 404 otherwise. A redirect, and only
  -- it, is recorded as a hit where statistics are enabled.
  code_answer :
      (r : Request) (code : Text) (s : State R MemoryShortLinkCache P T L)
      → IsCodeRequest c r code
      → (lru.get code s.mem_lru_cache).0 ≡ none
      → ((http_handle repo memory_cache pool stats lru c day_key now r s).0
          ≡ answer (visible now (entry s.cache (length code) code)))
        × ((http_handle repo memory_cache pool stats lru c day_key now r s).1.recorder ≡ (
            if is_answered (visible now (entry s.cache (length code) code)) && c.stats_enabled
            then record_hit code s.recorder
            else s.recorder))
  unfolding redirect_code
  code_answer r code s h missing =
      let fits : ltb c.max_code_length (length code) ≡ false = ground (arith, h.short) in
      rw
        (
          handle-redirect_code repo memory_cache pool stats lru c day_key now r code s h,
          fits,
          missing,
          (get-entry s.cache (length code) 0 code code now).0,
        )
        (from_cache-Answered (visible now (entry s.cache (length code) code)) code s _ refl)
