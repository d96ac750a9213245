-- ===== src/Http/Types.antt =====
-- Requests and responses of cores/http.go. What net/http, vhttpquery and vjson read from a request
-- comes with the request.
use vshortlink.Prelude.{
  ℕ, Bool, Option, none, some, List, [], ◌∷◌, Text, ◌==◌, if◌then◌else◌, Result, Error,
}
use vshortlink.Prelude.Int.{ℤ}
use vshortlink.Link.{Time, ShortLink}

pub record EditLinkRequest : Type 0 where
  pub code : Text
  pub title : Text
  pub link : Text
  pub length : ℤ
  pub expire : Time

pub record StatsBatchRequest : Type 0 where
  pub codes : List Text
  pub days : ℤ

-- `query_int` is `vhttpquery.Int` or `Int64`: the value, and whether it was there.
pub record Request : Type 0 where
  pub method : Text
  pub path : Text
  pub authorization : Text
  pub query_string : Text → Text × Bool
  pub query_int : Text → ℤ × Bool
  pub query_bool : Text → Bool × Bool
  pub edit_body : Result EditLinkRequest
  pub stats_batch_body : Result StatsBatchRequest

pub data Payload : Type 0 where
  nil : Payload
  one_link : Option ShortLink → Payload
  links : List ShortLink → Payload
  counts : List (Text × ℕ) → Payload
  table : List (Text × List (Text × ℕ)) → Payload

-- `panic` is the slice of an empty path.
pub data Response : Type 0 where
  status_ok : Response
  not_found : Response
  redirect : Text → Response
  bad_msg : Text → Response
  bad_error : Error → Response
  success : Payload → Response
  panic : Response

-- `strings.HasPrefix(s, prefix)`, with the rest of the text.
unfoldable pub strip_prefix : Text → Text → Option Text
strip_prefix [] s = some s
strip_prefix (c ∷ prefix) [] = none
strip_prefix (c ∷ prefix) (d ∷ s) = if c == d then strip_prefix prefix s else none
