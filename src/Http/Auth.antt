-- ===== src/Http/Auth.antt =====
-- The authorization of the management requests, and the creation of a manual code.
use vshortlink.Prelude.{
  ℕ, ◌≤◌, ◌≡◌, ◌≢◌, ap, ◌∙◌, true, false, none, List, [], ◌++◌, Text, codes, same_ne, is_empty_ne,
  link_not_found, arith,
}
use vshortlink.Prelude.Int.{pos, leb_ℤ, ltb_ℤ}
use vshortlink.Prelude.Keyed.{lookup, nat_key, text_key}
use vshortlink.Link.{Time, ShortLink}
use vshortlink.Interfaces.{ShortLinkRepository, ShortLinkCache, ShortCodePool, ShortLinkStats}
use vshortlink.Memory.Repo.{memory_repository}
use vshortlink.Memory.Repo.{MemoryShortLinkRepository}
use vshortlink.Service.State.{Config, State, LruCache}
use vshortlink.Service.Edit.Change.{get_missing}
use vshortlink.Http.Types.{Request, EditLinkRequest, bad_msg, bad_error}
use vshortlink.Http.Manage.{http_handle_management, http_handle_create, equals_ℤ}
use vshortlink.Http.Redirect.{http_handle, handle_path}

-- With a token configured, a request to a path under "/__" whose header differs from it is answered
-- "unauthorized" and changes nothing, whatever the operation; only OPTIONS is answered otherwise.
pub unauthorized_changes_nothing :
    {R C P T L : Type 0} (repo : ShortLinkRepository R) (cache : ShortLinkCache C)
    (pool : ShortCodePool P) (stats : ShortLinkStats T) (lru : LruCache L) (c : Config)
    (day_key : ℕ → Text) (now : Time) (r : Request) (op : Text) (s : State R C P T L)
    → r.path ≡ codes "/__" ++ op
    → r.method ≢ codes "OPTIONS"
    → c.auth_token ≢ []
    → r.authorization ≢ c.auth_token
    → http_handle repo cache pool stats lru c day_key now r s ≡ (bad_msg (codes "unauthorized"), s)
unfolding http_handle http_handle_management
unauthorized_changes_nothing repo cache pool stats lru c day_key now r op s path method token
      differ =
    rw (same_ne r.method (codes "OPTIONS") method) (
      ap (λ p. handle_path repo cache pool stats lru c day_key now r p s) path
      ∙ rw (is_empty_ne c.auth_token token, same_ne r.authorization c.auth_token differ))

-- On the memory repository, where the largest manual length is at most the largest configured one: a
-- request to create a code that no link has, with a link, a title and a length from 1 or below 0 up to
-- the largest manual one, fails with "link not found" and changes nothing.
pub manual_create_fails :
    {C P T L : Type 0} (iterate : List (ℕ × ShortLink) → List (ℕ × ShortLink))
    (cache : ShortLinkCache C) (pool : ShortCodePool P) (c : Config) (now : Time)
    (req : EditLinkRequest) (s : State MemoryShortLinkRepository C P T L)
    → req.link ≢ []
    → req.title ≢ []
    → req.code ≢ []
    → equals_ℤ req.length (pos 0) ≡ false
    → leb_ℤ req.length (pos c.manual_code_length) ≡ true
    → c.manual_code_length ≤ c.max_code_length
    → lookup req.code s.repo.code_to_id ≡ none
    → http_handle_create (memory_repository iterate) cache pool c now req s
      ≡ (bad_error link_not_found, s)
unfolding http_handle_create
manual_create_fails iterate cache pool c now req s hl ht hc nonzero manual wide missing =
    let fits : ltb_ℤ (pos c.max_code_length) req.length ≡ false = ground arith in
    rw (
      is_empty_ne req.link hl,
      is_empty_ne req.title ht,
      nonzero,
      fits,
      manual,
      is_empty_ne req.code hc,
      get_missing req.code s.repo missing,
    )
