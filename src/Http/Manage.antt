-- ===== src/Http/Manage.antt =====
-- cores/http.go: `HttpHandleManagement` and the handlers that it calls.
use vshortlink.Prelude.{
  ℕ, ◌+◌, ◌*◌, ◌&&◌, ◌||◌, not, Bool, false, Option, none, some, List, [], ◌∷◌, Text, codes, same,
  is_empty, ltb, ◌==◌, if◌then◌else◌, Result, ok, err,
}
use vshortlink.Prelude.Int.{ℤ, pos, pos_part, ltb_ℤ, leb_ℤ}
use vshortlink.Link.{Time, ShortLink, LinkStatus, link_status_recycled}
use vshortlink.Interfaces.{ShortLinkRepository, ShortLinkCache, ShortCodePool, ShortLinkStats}
use vshortlink.Service.State.{Config, State, on_repo, hour}
use vshortlink.Service.Edit.{add, create, update, remove}
use vshortlink.Service.Query.{get_stats, batch_get_stats}
use vshortlink.Http.Types.{
  EditLinkRequest, StatsBatchRequest, Request, nil, one_link, links, counts, table, Response,
  bad_msg, bad_error, success,
}

-- `req.Expire.IsZero() || req.Expire.Before(time.Now())`
abbrev pub default_expire : Time → Time → Time
default_expire now expire = if (expire == 0) || ltb expire now then now + 24 * hour else expire

abbrev pub equals_ℤ : ℤ → ℤ → Bool
equals_ℤ a b = leb_ℤ a b && leb_ℤ b a

-- The limit of a list request.
unfoldable pub clamp_limit : ℤ → ℕ
clamp_limit limit = if leb_ℤ limit (pos 0) || ltb_ℤ (pos 100) limit then 100 else pos_part limit

abbrev status_list : ℤ → List LinkStatus
status_list status = if ltb_ℤ (pos 0) status then pos_part status ∷ [] else []

module _ {S A : Type 0} where
  -- `if err != nil { BadError }`, and the answer otherwise.
  abbrev pub respond : (A → Response) → Result A × S → Response × S
  respond f (ok a, s) = (f a, s)
  respond f (err e, s) = (bad_error e, s)

abbrev pub Handler : Type 0 → Type 0 → Type 0 → Type 0 → Type 0 → Type 0
Handler R C P T L = State R C P T L → Response × State R C P T L

-- The link in the answer of a create request.
abbrev created : ShortLink → Response
created l = success (one_link (some l))

-- `exists != nil && exists.Status != LinkStatusRecycled`
abbrev pub taken : Option ShortLink → Bool
taken none = false
taken (some l) = not (l.status == link_status_recycled)

module _ {R C P T L : Type 0} (repo : ShortLinkRepository R) (cache : ShortLinkCache C)
    (pool : ShortCodePool P) where
  -- `httpHandleCreate` from the expiry on, for a manual code and for one of the pool.
  create_manual : Time → EditLinkRequest → Handler R C P T L
  create_manual now req s =
      respond created
        (add repo cache pool now req.code req.title req.link (default_expire now req.expire) s)

  create_pooled : Config → Time → EditLinkRequest → Handler R C P T L
  create_pooled c now req s =
      respond created (
        create repo cache pool c now req.title req.link req.length (default_expire now req.expire)
          s)

  unless_taken :
      Time
      → EditLinkRequest
      → Result (Option ShortLink) × State R C P T L
      → Response × State R C P T L
  unfolding create_manual
  unless_taken now req (err e, s) = (bad_error e, s)
  unless_taken now req (ok exists, s) =
      if taken exists then (bad_msg (codes "code already exists"), s) else create_manual now req s

  unfoldable pub http_handle_create : Config → Time → EditLinkRequest → Handler R C P T L
  unfolding unless_taken create_pooled
  http_handle_create c now req s =
      if is_empty req.link
      then (bad_msg (codes "link is empty"), s)
      else if is_empty req.title
      then (bad_msg (codes "title is empty"), s)
      else if equals_ℤ req.length (pos 0) || ltb_ℤ (pos c.max_code_length) req.length
      then (bad_msg (codes "invalid code length"), s)
      else if leb_ℤ req.length (pos c.manual_code_length)
      then (if is_empty req.code
          then (bad_msg (codes "code is empty"), s)
          else unless_taken now req (on_repo (repo.get_by_code req.code) s))
      else create_pooled c now req s

  unfoldable pub http_handle_update : Time → EditLinkRequest → Handler R C P T L
  http_handle_update now req s =
      if is_empty req.code || is_empty req.title || is_empty req.link || (req.expire == 0)
      then (bad_msg (codes "code, title, link, expire is empty"), s)
      else respond (λ u. success nil)
          (update repo cache pool now req.code req.title req.link req.expire s)

  unfoldable pub http_handle_remove : EditLinkRequest → Handler R C P T L
  http_handle_remove req s =
      if is_empty req.code
      then (bad_msg (codes "code is empty"), s)
      else respond (λ u. success nil) (remove repo cache pool req.code s)

  unfoldable pub http_handle_get : Request → Handler R C P T L
  http_handle_get r s =
      let (code, present) = r.query_string (codes "code") in
      if not present || is_empty code
      then (bad_msg (codes "code is empty"), s)
      else respond (λ link. success (one_link link)) (on_repo (repo.get_by_code code) s)

  -- A missing parameter reads as the zero value.
  unfoldable pub http_handle_list : Request → Handler R C P T L
  unfolding clamp_limit
  http_handle_list r s =
      let (length', present) = r.query_int (codes "length") in
      let limit = clamp_limit (r.query_int (codes "limit")).0 in
      let statuses = status_list (r.query_int (codes "status")).0 in
      if not present
      then (bad_msg (codes "invalid length"), s)
      else respond (λ found. success (links found))
          (on_repo
            (repo.list length' statuses limit (r.query_int (codes "from")).0
              (r.query_bool (codes "asc")).0)
            s)

  abbrev pub http_handle_edit :
      Result EditLinkRequest → (EditLinkRequest → Handler R C P T L) → Handler R C P T L
  http_handle_edit (err e) edit_handler s = (bad_error e, s)
  http_handle_edit (ok req) edit_handler s = edit_handler req s

module _ {R C P T L : Type 0} (stats : ShortLinkStats T) (c : Config) (day_key : ℕ → Text) where
  unfoldable pub http_handle_stats : Request → Handler R C P T L
  http_handle_stats r s =
      let (code, present) = r.query_string (codes "code") in
      if not present || is_empty code
      then (bad_msg (codes "code is empty"), s)
      else respond (λ result. success (counts result))
          (get_stats stats c day_key code (r.query_int (codes "days")).0 s)

  stats_batch : Result StatsBatchRequest → Handler R C P T L
  stats_batch (err e) s = (bad_error e, s)
  stats_batch (ok req) s =
      respond (λ result. success (table result))
        (batch_get_stats stats c day_key req.codes req.days s)

  unfoldable pub http_handle_stats_batch : Request → Handler R C P T L
  unfolding stats_batch
  http_handle_stats_batch r s = stats_batch r.stats_batch_body s

-- The operations of `HttpHandleManagement`.
pub data ManagementOp : Type 0 where
  op_get op_create op_update op_remove op_list op_stats op_stats_batch op_invalid : ManagementOp

unfoldable pub management_op : Text → ManagementOp
management_op op =
    if same op (codes "get")
    then op_get
    else if same op (codes "create")
    then op_create
    else if same op (codes "update")
    then op_update
    else if same op (codes "remove")
    then op_remove
    else if same op (codes "list")
    then op_list
    else if same op (codes "stats")
    then op_stats
    else if same op (codes "stats_batch")
    then op_stats_batch
    else op_invalid

module _ {R C P T L : Type 0} (repo : ShortLinkRepository R) (cache : ShortLinkCache C)
    (pool : ShortCodePool P) (stats : ShortLinkStats T) (c : Config) (day_key : ℕ → Text) where
  unfoldable pub run_op : ManagementOp → Time → Request → Handler R C P T L
  run_op op_get now r = http_handle_get repo cache pool r
  run_op op_create now r =
      http_handle_edit repo cache pool r.edit_body (http_handle_create repo cache pool c now)
  run_op op_update now r =
      http_handle_edit repo cache pool r.edit_body (http_handle_update repo cache pool now)
  run_op op_remove now r =
      http_handle_edit repo cache pool r.edit_body (http_handle_remove repo cache pool)
  run_op op_list now r = http_handle_list repo cache pool r
  run_op op_stats now r = http_handle_stats stats c day_key r
  run_op op_stats_batch now r = http_handle_stats_batch stats c day_key r
  run_op op_invalid now r = λ s. (bad_msg (codes "invalid op"), s)

  unfoldable pub http_handle_management : Time → Request → Text → Handler R C P T L
  unfolding run_op management_op
  http_handle_management now r op s =
      if not (is_empty c.auth_token) && not (same r.authorization c.auth_token)
      then (bad_msg (codes "unauthorized"), s)
      else run_op (management_op op) now r s
