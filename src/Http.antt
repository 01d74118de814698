-- ===== src/Http.antt =====
-- router/handler and router/api/response.go: requests, response writers, and the pipeline of
-- handlers that serves a request.
pub mod Pipeline
mod Tests
use crank4go.Base.{
  ℕ, zero, suc, ◌≡◌, Bool, true, false, ◌&&◌, ◌||◌, Option, none, some, List, [], ◌∷◌, ◌++◌, Text,
  codes, text_eq, to_lower, ℤ, pos, negsuc, ltb_ℤ, atoi, if◌then◌else◌, Map,
}

-- The calls that reach an `http.ResponseWriter`, in order.
pub data WriterCall : Type 0 where
  add_header set_header : Text → Text → WriterCall
  write_header : ℤ → WriterCall
  write : Text → WriterCall

abbrev pub ResponseWriter : Type 0
ResponseWriter = List WriterCall

-- An `http.Header`: the fields in the order in which a loop visits them, which Go leaves open.
abbrev pub Header : Type 0
Header = Map (List Text)

-- `Header.Get` on a key in canonical form: the first value, or the empty text.
first_value : Option (List Text) → Text
first_value none = []
first_value (some []) = []
first_value (some (v ∷ vs)) = v

find_values : Text → Header → Option (List Text)
find_values key [] = none
find_values key ((k, vs) ∷ h) = if text_eq k key then some vs else find_values key h

unfoldable pub header_get : Text → Header → Text
unfolding first_value find_values
header_get key h = first_value (find_values key h)

or_nil : Option (List Text) → List Text
or_nil none = []
or_nil (some vs) = vs

-- `Header.Values`
unfoldable pub header_values : Text → Header → List Text
unfolding or_nil find_values
header_values key h = or_nil (find_values key h)

-- What the source reads of an `*http.Request`.
pub record HttpRequest : Type 0 where
  pub method : Text
  pub path : Text
  pub raw_query : Text
  pub scheme : Text
  pub host : Text
  pub remote_addr : Text
  pub header : Header

abbrev pub text_plain : Text
text_plain = codes "text/plain"

abbrev pub application_json : Text
application_json = codes "application/json"

unfoldable pub resp_text_plain_with_status : ResponseWriter → Text → ℤ → ResponseWriter
resp_text_plain_with_status w text status =
    w ++ add_header (codes "Content-Type") text_plain ∷ write_header status ∷ write text ∷ []

unfoldable pub resp_text_plain_ok : ResponseWriter → Text → ResponseWriter
unfolding resp_text_plain_with_status
resp_text_plain_ok w text = resp_text_plain_with_status w text (pos 200)

-- `json` is the text that `json.Marshal` returns.
unfoldable pub resp_json_ok : ResponseWriter → Text → ResponseWriter
resp_json_ok w json =
    w
    ++ add_header (codes "Content-Type") application_json ∷ write_header (pos 200) ∷ write json ∷ []

-- A handler over a state `W` that holds the response writer and all else that it may change; its
-- Boolean prevents the handlers behind it from being called.
abbrev pub XHandler : Type 0 → Type 0
XHandler W = HttpRequest → W → W × Bool

-- PreLoggingFilter and PostLoggingFilter only log.
unfoldable pub logging_filter : {W : Type 0} → XHandler W
logging_filter r w = (w, false)

-- A `Content-Length` that `Atoi` refuses, or a positive one of a chunked request.
bad_length : Text → ℤ × Bool → Bool
bad_length transfer_encoding (n, failed) =
    failed || (text_eq (codes "chunked") (to_lower transfer_encoding) && ltb_ℤ (pos 0) n)

refuses_length : HttpRequest → Bool
unfolding bad_length
refuses_length r =
    if text_eq (header_get (codes "Content-Length") r.header) []
    then false
    else bad_length (header_get (codes "Transfer-Encoding") r.header)
        (atoi (header_get (codes "Content-Length") r.header))

abbrev pub is_not_local_env : Bool
is_not_local_env = true

unfoldable pub req_validator_filter : XHandler ResponseWriter
unfolding refuses_length
req_validator_filter r w =
    if refuses_length r
    then (
      w
          ++ write_header (pos 400)
            ∷ write (codes "Invalid request: chunked request with Content-Length")
            ∷ [],
      true,
    )
    else if text_eq (codes "trace") (to_lower r.method)
    then (w ++ write_header (pos 405) ∷ write (codes "Method Not Allowed") ∷ [], true)
    else if text_eq (codes "options") (to_lower r.method) && is_not_local_env
    then (w ++ write_header (pos 405) ∷ write (codes "Method Not Allowed") ∷ [], true)
    else (w, false)
