-- ===== src/Protocol/Response.antt =====
-- protocol/cranker_protocol.go: `CrankerProtocolResponseBuilder` and `CrankerProtocolResponse`.
pub mod Laws
use crank4go.Base.{
  ℕ, Bool, true, false, Option, none, some, List, [], ◌∷◌, ◌++◌, Text, Parts, codes, split, copy, ℤ,
  pos, atoi, itoa,
}
use crank4go.Protocol.Headers.{nl, space, HeadersBuilder, new_headers_builder, append_headers}

pub record ResponseBuilder : Type 0 where
  pub source_url : Text
  pub http_method : Text
  pub status : ℤ
  pub reason : Text
  pub headers : Option HeadersBuilder

abbrev pub new_response_builder : ResponseBuilder
new_response_builder = record {
  source_url = [];
  http_method = [];
  status = pos 0;
  reason = [];
  headers = none;
}

abbrev pub with_resp_status : ResponseBuilder → ℤ → ResponseBuilder
with_resp_status b status = record b { status = status }

abbrev pub with_resp_reason : ResponseBuilder → Text → ResponseBuilder
with_resp_reason b reason = record b { reason = reason }

abbrev pub with_resp_headers : ResponseBuilder → HeadersBuilder → ResponseBuilder
with_resp_headers b headers = record b { headers = some headers }

abbrev pub with_source_url : ResponseBuilder → Text → ResponseBuilder
with_source_url b url = record b { source_url = url }

abbrev pub with_http_method : ResponseBuilder → Text → ResponseBuilder
with_http_method b method = record b { http_method = method }

build_with : ResponseBuilder → Option HeadersBuilder → Option Text
build_with b none = none
build_with b (some h) = some (
    codes "HTTP/1.1 "
    ++ (itoa b.status
        ++ (space ∷ b.reason
            ++ (space ∷ nl ∷ b.http_method ++ (space ∷ b.source_url ++ nl ∷ h.headers)))))

-- A builder without headers panics.
unfoldable pub build : ResponseBuilder → Option Text
unfolding build_with
build b = build_with b b.headers

pub record Response : Type 0 where
  pub headers : List Text
  pub status : ℤ
  pub reason : Text
  pub source_url : Text
  pub http_method : Text

-- `bits[2]` of a line, if it has a third bit.
third : List Text → Text
third [] = []
third (reason ∷ more) = reason

second : List Text → Text
second [] = []
second (url ∷ more) = url

-- The slice is made with length 0 and capacity `len(msgArr)-2`, and `copy` fills its length.
read_response : List Text → List Text → Option Response
unfolding third second
read_response [] others = none
read_response (code ∷ more) [] = none
read_response (code ∷ more) (original_request ∷ rest) = some (record {
  headers = copy [] rest;
  status = (atoi code).0;
  reason = third more;
  source_url = second (split space original_request).others;
  http_method = (split space original_request).first;
})

-- NewCrankerProtocolResponse; `none` is a panic.
unfoldable pub new_response : Text → Option Response
unfolding read_response
new_response msg = read_response (split space (split nl msg).first).others (split nl msg).others

-- CrankerProtocolResponse.ToProtocolMessage
unfoldable pub to_protocol_message : Response → Option Text
to_protocol_message r = build (record {
  source_url = r.source_url;
  http_method = r.http_method;
  status = r.status;
  reason = r.reason;
  headers = some (append_headers new_headers_builder r.headers);
})
