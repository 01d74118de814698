-- ===== src/ReverseProxy/Message.antt =====
-- The message that the proxy sends for a client request, as the connector reads it.
use crank4go.Base.{
  ◌≡◌, refl, ap, ◌∙◌, inl, inr, Bool, true, false, some, List, [], ◌∷◌, ◌++◌, append_assoc, Text,
  codes, text_eq, All, Lacks, if◌then◌else◌, Bool-cases,
}
use crank4go.Protocol.Headers.{
  nl, space, colon, HeadersBuilder, new_headers_builder, append_header, append_headers,
  request_has_no_body_marker, request_body_pending_marker,
}
use crank4go.Protocol.Request.{build, new_request, with_req_body_pending, with_req_has_no_body}
use crank4go.Protocol.Request.Laws.{request_line, header_message, parsed_request, new_request-build}
use crank4go.Http.{HttpRequest, Header, header_values}
use crank4go.ReverseProxy.{
  should_send_header_from_client_to_target, append_unless, add_proxy_forwarding_headers,
  append_values, copy_headers, set_target_req_headers, request_uri, create_req_line,
}
use crank4go.ReverseProxy.Handling.{request_builder}
use crank4go.ReverseProxy.Headers.{
  header_line, value_lines, kept_lines, line_unless, forwarding_lines, sent_lines,
}

append_header-line :
    (b : HeadersBuilder) (name value : Text)
    → append_header b name value ≡ append_headers b (header_line name value ∷ [])
unfolding append_header append_headers
append_header-line b name value =
    λ i. record { headers = append_assoc b.headers name (colon ∷ value) i ++ nl ∷ [] }

append_headers-append :
    (b : HeadersBuilder) (xs ys : List Text)
    → append_headers (append_headers b xs) ys ≡ append_headers b (xs ++ ys)
unfolding append_headers
append_headers-append b [] ys = refl
append_headers-append b (x ∷ xs) ys = append_headers-append _ xs ys

append_values-lines :
    (b : HeadersBuilder) (name : Text) (vs : List Text)
    → append_values b name vs ≡ append_headers b (value_lines name vs)
unfolding append_values append_headers
append_values-lines b name [] = refl
append_values-lines b name (v ∷ vs) =
    ap (λ c. append_values c name vs) (append_header-line b name v) ∙ append_values-lines _ name vs

copy_headers-lines :
    (conn : List Text) (h : Header) (c t : Bool) (b : HeadersBuilder)
    → (copy_headers conn h c t b).1 ≡ append_headers b (kept_lines conn h)
unfolding copy_headers kept_lines append_headers
copy_headers-lines conn [] c t b = refl
copy_headers-lines conn ((name, values) ∷ h) c t b =
    copy_headers-lines conn h _ _ _ ∙ by_test (should_send_header_from_client_to_target name conn)
  where
    by_test :
        (test : Bool)
        → append_headers (if test then append_values b name values else b) (kept_lines conn h)
          ≡ append_headers b
              (if test then value_lines name values ++ kept_lines conn h else kept_lines conn h)
    by_test true =
        ap (λ c. append_headers c (kept_lines conn h)) (append_values-lines b name values)
        ∙ append_headers-append b (value_lines name values) (kept_lines conn h)
    by_test false = refl

append_unless-lines :
    (there name value : Text) (b : HeadersBuilder)
    → append_unless there name value b ≡ append_headers b (line_unless there name value)
unfolding append_unless append_headers
append_unless-lines there name value b = elim (Bool-cases (text_eq there [])) [
  | inl e ↦ simp e (append_header-line b name value)
  | inr e ↦ simp e
]

append_unless-after :
    (there name value : Text) (b : HeadersBuilder) (xs : List Text) {c : HeadersBuilder}
    → c ≡ append_headers b xs
    → append_unless there name value c ≡ append_headers b (xs ++ line_unless there name value)
append_unless-after there name value b xs {c} e =
    append_unless-lines there name value c
    ∙ ap (λ d. append_headers d (line_unless there name value)) e
    ∙ append_headers-append b xs (line_unless there name value)

forwarding-lines :
    (by : Text) (b : HeadersBuilder) (r : HttpRequest)
    → add_proxy_forwarding_headers by b r ≡ append_headers b (forwarding_lines by r)
unfolding add_proxy_forwarding_headers
forwarding-lines by b r = append_unless-after _ (codes "X-Forwarded-Server") by b _ (
    append_unless-after _ (codes "X-Forwarded-Host") r.host b _ (
      append_unless-after _ (codes "X-Forwarded-Proto") r.scheme b _ (
        append_unless-after _ (codes "X-Forwarded-For") r.remote_addr b _
          (append_header-line b (codes "Forwarded") _))))

request_builder-lines :
    (by : Text) (r : HttpRequest)
    → request_builder by r ≡ header_message r.method (request_uri r) (sent_lines by r)
unfolding request_builder create_req_line set_target_req_headers
request_builder-lines by r =
    let conn = header_values (codes "Connection") r.header in
    ap (λ h. record (header_message r.method (request_uri r) []) { headers = some h })
      (forwarding-lines by (copy_headers conn r.header false false new_headers_builder).1 r
        ∙ ap (λ c. append_headers c (forwarding_lines by r))
            (copy_headers-lines conn r.header false false new_headers_builder)
        ∙ append_headers-append new_headers_builder (kept_lines conn r.header)
            (forwarding_lines by r))

-- The connector reads the message that is sent for a client request, with or without a body, as its
-- method, its path and query, the header lines kept of the request with the forwarding lines behind
-- them and one empty line, and the marker, if method and URI hold no space and no line a newline.
pub new_request-proxied :
    (by : Text) (r : HttpRequest)
    → Lacks space r.method
    → Lacks space (request_uri r)
    → Lacks nl (request_line r.method (request_uri r))
    → All (Lacks nl) (sent_lines by r)
    → (new_request (build (with_req_has_no_body (request_builder by r)))
        ≡ some
            (parsed_request r.method (request_uri r) (sent_lines by r) request_has_no_body_marker))
      × (new_request (build (with_req_body_pending (request_builder by r)))
          ≡ some (
              parsed_request r.method
                (request_uri r)
                (sent_lines by r)
                request_body_pending_marker))
new_request-proxied by r method_word uri_word line lines =
    rw (request_builder-lines by r)
      (new_request-build r.method (request_uri r) (sent_lines by r) method_word uri_word line lines)
