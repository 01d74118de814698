-- ===== src/Protocol/Request.antt =====
-- protocol/cranker_protocol.go: `CrankerProtocolRequestBuilder` and `CrankerProtocolRequest`.
pub mod Laws
use crank4go.Base.{
  ℕ, Bool, true, false, not, ◌&&◌, Option, none, some, List, [], ◌∷◌, ◌++◌, Text, Parts, codes,
  text_eq, split, length, but_last, last, copy, replicate, if◌then◌else◌,
}
use crank4go.Protocol.Headers.{
  nl, space, HeadersBuilder, request_body_pending_marker, request_has_no_body_marker,
  request_body_ended_marker,
}

pub record RequestBuilder : Type 0 where
  pub req_line : Text
  pub headers : Option HeadersBuilder
  pub end_marker : Text

abbrev pub new_request_builder : RequestBuilder
new_request_builder = record { req_line = []; headers = none; end_marker = [] }

abbrev pub with_req_line : RequestBuilder → Text → RequestBuilder
with_req_line b line = record b { req_line = line }

abbrev pub with_req_headers : RequestBuilder → HeadersBuilder → RequestBuilder
with_req_headers b headers = record b { headers = some headers }

abbrev pub with_req_body_pending : RequestBuilder → RequestBuilder
with_req_body_pending b = record b { end_marker = request_body_pending_marker }

abbrev pub with_req_has_no_body : RequestBuilder → RequestBuilder
with_req_has_no_body b = record b { end_marker = request_has_no_body_marker }

abbrev pub with_req_body_ended : RequestBuilder → RequestBuilder
with_req_body_ended b = record b { end_marker = request_body_ended_marker }

build_with : RequestBuilder → Option HeadersBuilder → Text
build_with b none = b.end_marker
build_with b (some h) =
    if not (text_eq b.req_line [])
    then b.req_line ++ nl ∷ h.headers ++ nl ∷ b.end_marker
    else b.end_marker

unfoldable pub build : RequestBuilder → Text
unfolding build_with
build b = build_with b b.headers

-- `headers` is `none` for the nil slice.
pub record Request : Type 0 where
  pub http_method : Text
  pub dest : Text
  pub headers : Option (List Text)
  pub end_marker : Text
  pub request_line : Text

-- `bits[1]` of a line with one bit, and a slice of length -1 for a message of one line, panic.
read_request : Parts → List Text → List Text → Option Request
read_request p [] others = none
read_request p (dest ∷ more) [] = none
read_request p (dest ∷ more) (l ∷ ls) = some (record {
  http_method = (split space p.first).first;
  dest = dest;
  headers = some (copy (replicate (length ls) []) (but_last l ls));
  end_marker = last l ls;
  request_line = p.first;
})

abbrev ended_request : Text → Request
ended_request marker = record {
  http_method = [];
  dest = [];
  headers = none;
  end_marker = marker;
  request_line = [];
}

-- NewCrankerProtocolRequest; `none` is a panic.
unfoldable pub new_request : Text → Option Request
unfolding read_request
new_request msg =
    if text_eq msg request_body_ended_marker
    then some (ended_request msg)
    else read_request (split nl msg) (split space (split nl msg).first).others (split nl msg).others

unfoldable pub request_body_pending : Request → Bool
request_body_pending r = text_eq r.end_marker request_body_pending_marker

unfoldable pub request_body_ended : Request → Bool
request_body_ended r = text_eq r.end_marker request_body_ended_marker

unfoldable pub request_has_no_body : Request → Bool
request_has_no_body r = text_eq r.end_marker request_has_no_body_marker

-- The loop `headersStr += hl + "\n"`.
write_lines : Text → List Text → Text
write_lines out [] = out
write_lines out (hl ∷ hls) = write_lines (out ++ hl ++ nl ∷ []) hls

write_request : Request → Option (List Text) → Text
write_request r none = r.end_marker
write_request r (some headers) =
    if not (text_eq r.request_line [])
    then r.request_line ++ nl ∷ write_lines [] headers ++ r.end_marker
    else r.end_marker

-- CrankerProtocolRequest.ToProtocolMessage
unfoldable pub to_protocol_message : Request → Text
unfolding write_request write_lines
to_protocol_message r = write_request r r.headers

-- CrankerProtocolRequest.String
unfoldable pub to_string : Request → Text
to_string r = codes "CrankerProtocolRequest{" ++ r.http_method ++ codes " " ++ r.dest ++ codes "}"
