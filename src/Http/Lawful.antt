-- ===== src/Http/Lawful.antt =====
-- `HttpHandle` over any cache that keeps its contract: what it answers after `Add` and `Remove`.
use vshortlink.Prelude.{
  ℕ, ◌≡◌, refl, ap, ◌∙◌, false, Option, none, some, [], ◌∷◌, Text, same_refl, ==_iff, ltb,
  if◌then◌else◌, length, ok, arith,
}
use vshortlink.Link.{Time}
use vshortlink.Interfaces.{ShortLinkRepository, ShortLinkCache, ShortCodePool, ShortLinkStats}
use vshortlink.Interfaces.Contract.{CacheLaws}
use vshortlink.Service.State.{Config, State, LruCache}
use vshortlink.Service.Edit.{add, remove}
use vshortlink.Http.Types.{Request}
use vshortlink.Http.Redirect.{http_handle, from_cache, redirect_code}
use vshortlink.Http.Answers.{IsCodeRequest, answer, handle-redirect_code}

module _ {R C P T L : Type 0} (repo : ShortLinkRepository R) (cache : ShortLinkCache C)
    (pool : ShortCodePool P) (stats : ShortLinkStats T) (lru : LruCache L) (c : Config)
    (day_key : ℕ → Text) where
  from_cache-answer :
      (now : Time) (code : Text) (seen : Option Text) (s : State R C P T L)
      → (from_cache repo cache pool stats lru c day_key now code seen s).0 ≡ answer seen
  unfolding from_cache
  from_cache-answer now code none s = refl
  from_cache-answer now code (some []) s = refl
  from_cache-answer now code (some (b ∷ link)) s = refl

  answer_of_cache :
      (now : Time) (r : Request) (code : Text) (s : State R C P T L)
      → IsCodeRequest c r code
      → (lru.get code s.mem_lru_cache).0 ≡ none
      → (http_handle repo cache pool stats lru c day_key now r s).0
        ≡ answer (cache.get now (length code) code s.cache).0
  unfolding redirect_code
  answer_of_cache now r code s h missing =
      let fits : ltb c.max_code_length (length code) ≡ false = ground (arith, h.short) in
      rw (handle-redirect_code repo cache pool stats lru c day_key now r code s h, fits, missing)
        (from_cache-answer now code _ _)

  cache-add :
      (t : Time) (code title link : Text) (expire : Time) (s : State R C P T L)
      → (cache.add (length code) code link expire s.cache).0 ≡ ok tt
      → ((add repo cache pool t code title link expire s).1.cache
          ≡ (cache.add (length code) code link expire s.cache).1)
        × ((add repo cache pool t code title link expire s).1.mem_lru_cache ≡ s.mem_lru_cache)
  unfolding add
  cache-add t code title link expire s h = rw h (refl, refl)

  cache-remove :
      (code : Text) (s : State R C P T L)
      → ((remove repo cache pool code s).1.cache ≡ (cache.remove (length code) code s.cache).1)
        × ((remove repo cache pool code s).1.mem_lru_cache ≡ s.mem_lru_cache)
  unfolding remove
  cache-remove code s = (refl, refl)

  module _ (laws : CacheLaws cache) (now : Time) (r : Request) (code : Text) (s : State R C P T L)
      (asked : IsCodeRequest c r code) (missing : (lru.get code s.mem_lru_cache).0 ≡ none)
      (fine : laws.IsFine s.cache) where
    -- Over any cache that keeps the contract, and any other backends: after `Add` of a link that the
    -- cache takes, whatever the repository answers, a request for the code that the LRU cache does
    -- not have is redirected to the link, until the expiry as the cache keeps it; from then on, and
    -- for an empty link, the answer is 404.
    pub redirect-add :
        (t : Time) (title link : Text) (expire : Time)
        → laws.Takes link expire
        → (http_handle repo cache pool stats lru c day_key now r
            (add repo cache pool t code title link expire s).1).0
          ≡ answer (if ltb (laws.kept expire) now then none else some link)
    redirect-add t title link expire takes =
        let (done, kept, shows) =
          laws.add_shown s.cache (length code) code link expire fine takes in
        let (same_cache, same_lru) = cache-add t code title link expire s done in
        let s' = (add repo cache pool t code title link expire s).1 in
        answer_of_cache now r code s' asked (ap (λ l. (lru.get code l).0) same_lru ∙ missing)
        ∙ ap (λ x. answer (cache.get now (length code) code x).0) same_cache
        ∙ ap answer (
            (laws.get_shown (cache.add (length code) code link expire s.cache).1 now (length code)
              code kept).0
            ∙ shows now (length code) code
            ∙ ground (arith, same_refl code, ==_iff (length code) (length code)))

    -- Over any cache that keeps the contract, and any other backends: after `Remove`, a request for
    -- the code that the LRU cache does not have is answered 404.
    pub not_found-remove :
        (http_handle repo cache pool stats lru c day_key now r (remove repo cache pool code s).1).0
        ≡ answer none
    not_found-remove =
        let (done, kept, shows) = laws.remove_shown s.cache (length code) code fine in
        let (same_cache, same_lru) = cache-remove code s in
        answer_of_cache now r code (remove repo cache pool code s).1 asked
          (ap (λ l. (lru.get code l).0) same_lru ∙ missing)
        ∙ ap (λ x. answer (cache.get now (length code) code x).0) same_cache
        ∙ ap answer {y = none} (
            (laws.get_shown (cache.remove (length code) code s.cache).1 now (length code) code
              kept).0
            ∙ shows now (length code) code
            ∙ ground (arith, same_refl code, ==_iff (length code) (length code)))
