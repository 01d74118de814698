-- ===== src/Protocol/Tests.antt =====
-- Runs of the protocol code, and the theorems about it at concrete messages.
use crank4go.Base.{
  ◌≡◌, refl, true, none, some, List, [], ◌∷◌, ◌++◌, arith, Text, codes, split, pos, atoi, ◌>>=◌,
  text_eq, has_prefix, trim_space,
}
use crank4go.Protocol.Headers.{
  nl, space, new_headers_builder, append_header, request_has_no_body_marker,
  request_body_pending_marker,
}
use crank4go.Protocol.Request
use crank4go.Protocol.Request.{Request, new_request, with_req_has_no_body, with_req_body_pending}
use crank4go.Protocol.Request.Laws.{
  to_protocol_message-new_request, new_request-build, header_message, parsed_request,
}
use crank4go.Protocol.Response
use crank4go.Protocol.Response.{Response, new_response}
use crank4go.Protocol.Response.Laws.{new_response-headers, new_response-build, response_builder}
use crank4go.Protocol.Debug.{check_debug_header}

abbrev get_line : Text
get_line = codes "GET /a?x=1 HTTP/1.1"

abbrev get_message : Text
get_message = get_line ++ nl ∷ codes "A:b" ++ nl ∷ nl ∷ codes "_2"

abbrev get_request : Request
get_request = parsed_request (codes "GET") (codes "/a?x=1") (codes "A:b" ∷ []) (codes "_2")

get_parsed : new_request get_message ≡ some get_request
unfolding new_request text_eq split
get_parsed = refl

to_protocol_message-new_request_example : Request.to_protocol_message get_request ≡ get_message
to_protocol_message-new_request_example = to_protocol_message-new_request get_message get_parsed

new_request-build_example :
    (new_request (
        Request.build
          (with_req_has_no_body (header_message (codes "GET") (codes "/a") (codes "A:b" ∷ []))))
      ≡ some
          (parsed_request (codes "GET") (codes "/a") (codes "A:b" ∷ []) request_has_no_body_marker))
    × (new_request (
          Request.build
            (with_req_body_pending (header_message (codes "GET") (codes "/a") (codes "A:b" ∷ []))))
        ≡ some (
            parsed_request
              (codes "GET")
              (codes "/a")
              (codes "A:b" ∷ [])
              request_body_pending_marker))
new_request-build_example =
    new_request-build (codes "GET") (codes "/a") (codes "A:b" ∷ []) (omega arith) (omega arith)
      (omega arith) (omega arith)

-- A text frame with no space in its first line panics.
no_space : new_request (codes "hello") ≡ none
unfolding new_request split text_eq
no_space = refl

abbrev ok_message : Text
ok_message = codes "HTTP/1.1 200 OK" ++ nl ∷ codes "GET /a" ++ nl ∷ codes "A:b" ++ nl ∷ []

abbrev ok_response : Response
ok_response = record {
  headers = [];
  status = pos 200;
  reason = codes "OK";
  source_url = codes "/a";
  http_method = codes "GET";
}

ok_parsed : new_response ok_message ≡ some ok_response
unfolding new_response split atoi
ok_parsed = refl

new_response-headers_example : ◌≡◌ {A = List Text} ok_response.headers []
new_response-headers_example = new_response-headers ok_message ok_parsed

new_response-build_example :
    (Response.build (
        response_builder 200
          (codes "200 OK")
          (codes "GET")
          (codes "/a")
          (append_header new_headers_builder (codes "A") (codes "b")))
      >>= new_response)
    ≡ some (record ok_response { reason = (split space (codes "200 OK")).first })
new_response-build_example =
    new_response-build 200 (codes "200 OK") (codes "GET") (codes "/a")
      (append_header new_headers_builder (codes "A") (codes "b")) (omega arith) (omega arith)
      (omega arith) (omega arith) (omega arith) (omega arith)

debug_on : check_debug_header (some (codes "A:b" ∷ codes "X-ROUTER_DEBUG_MODE: 1" ∷ [])) ≡ true
unfolding check_debug_header has_prefix split trim_space text_eq
debug_on = refl

-- Two colons switch the debug mode off.
debug_two_colons : ¬ (check_debug_header (some (codes "X-ROUTER_DEBUG_MODE:1:" ∷ [])) ≡ true)
unfolding check_debug_header has_prefix split trim_space text_eq
debug_two_colons h = cc

negative_status : atoi (codes "-7x") ≡ (pos 0, true)
unfolding atoi
negative_status = refl
