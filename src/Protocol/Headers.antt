-- ===== src/Protocol/Headers.antt =====
-- protocol/cranker_protocol.go: the constants, `HeadersBuilder` and the version test.
use crank4go.Base.{
  ℕ, ◌≡◌, sym, ◌∙◌, Bool, true, false, not, List, [], ◌∷◌, ◌++◌, append_assoc, append-nil, Text,
  codes, text_eq, terminated, if◌then◌else◌,
}

abbrev pub nl : ℕ
nl = b'\n'

abbrev pub space : ℕ
space = b' '

abbrev pub colon : ℕ
colon = b':'

abbrev pub supporting_http_version : Text
supporting_http_version = codes "HTTP/1.1"

abbrev pub cranker_protocol_version10 : Text
cranker_protocol_version10 = codes "1.0"

abbrev pub cranker_protocol_debug_header : Text
cranker_protocol_debug_header = codes "X-ROUTER_DEBUG_MODE"

abbrev pub cranker_protocol_debug_header_value_enable : Text
cranker_protocol_debug_header_value_enable = codes "1"

abbrev pub request_body_pending_marker : Text
request_body_pending_marker = codes "_1"

abbrev pub request_has_no_body_marker : Text
request_has_no_body_marker = codes "_2"

abbrev pub request_body_ended_marker : Text
request_body_ended_marker = codes "_3"

unfoldable pub validate_cranker_protocol_version : Text → Bool
validate_cranker_protocol_version version =
    if text_eq version []
    then false
    else if not (text_eq version cranker_protocol_version10)
    then false
    else true

pub record HeadersBuilder : Type 0 where
  pub headers : Text

abbrev pub new_headers_builder : HeadersBuilder
new_headers_builder = record { headers = [] }

unfoldable pub append_header : HeadersBuilder → Text → Text → HeadersBuilder
append_header b header value = record b {
  headers = b.headers ++ header ++ colon ∷ value ++ nl ∷ [];
}

unfoldable pub append_headers : HeadersBuilder → List Text → HeadersBuilder
append_headers b [] = b
append_headers b (header ∷ headers) =
    append_headers (record b { headers = b.headers ++ header ++ nl ∷ [] }) headers

-- The loop appends every line with its newline.
pub append_headers-terminated :
    (b : HeadersBuilder) (hs : List Text)
    → (append_headers b hs).headers ≡ b.headers ++ terminated nl hs
unfolding append_headers
append_headers-terminated b [] = sym (append-nil b.headers)
append_headers-terminated b (h ∷ hs) = append_headers-terminated _ hs ∙ simp append_assoc
