-- ===== src/ReverseProxy/Headers.antt =====
-- Which headers of a client request reach the connector, when a body is sent, and what the
-- connector reads back of the message.
use crank4go.Base.{
  ◌≡◌, refl, ◌∙◌, Bool, true, false, ◌||◌, List, [], ◌∷◌, ◌++◌, Text, codes, text_eq, to_lower,
  if◌then◌else◌,
}
use crank4go.Protocol.Headers.{colon, HeadersBuilder}
use crank4go.Http.{HttpRequest, Header, header_get, header_values}
use crank4go.ReverseProxy.{
  should_send_header_from_client_to_target, copy_headers, set_target_req_headers,
}

-- A header with the name in any case.
unfoldable pub has_name : Text → Header → Bool
has_name key [] = false
has_name key ((name, values) ∷ h) = text_eq key (to_lower name) || has_name key h

-- Whether the header that the loop visits last has the name.
unfoldable pub last_is : Text → Bool → Header → Bool
last_is key last [] = last
last_is key last ((name, values) ∷ h) = last_is key (text_eq key (to_lower name)) h

copy_headers-flags :
    (conn : List Text) (h : Header) (content_length transfer_encoding : Bool) (b : HeadersBuilder)
    → (copy_headers conn h content_length transfer_encoding b).0 ≡ (
        (content_length || has_name (codes "content-length") h)
        || last_is (codes "transfer-encoding") transfer_encoding h)
unfolding copy_headers has_name last_is
copy_headers-flags conn [] true t b = refl
copy_headers-flags conn [] false t b = refl
copy_headers-flags conn ((name, values) ∷ h) c t b =
    copy_headers-flags conn h _ _ _
    ∙ by_found c (text_eq (codes "content-length") (to_lower name))
        (text_eq (codes "transfer-encoding") (to_lower name))
  where
    by_found :
        (c x y : Bool)
        → (((c || x) || has_name (codes "content-length") h)
            || last_is (codes "transfer-encoding") ((c || x) || y) h)
          ≡ ((c || (x || has_name (codes "content-length") h))
              || last_is (codes "transfer-encoding") y h)
    by_found true x y = refl
    by_found false true y = refl
    by_found false false y = refl

-- A request is sent with a body exactly when it has a `Content-Length` header or the header that
-- the loop happens to visit last is `Transfer-Encoding`: a chunked request with another header
-- behind it is sent without its body.
pub set_target_req_headers-has_body :
    (by : Text) (r : HttpRequest) (b : HeadersBuilder)
    → (set_target_req_headers by r b).0 ≡ (
        has_name (codes "content-length") r.header
        || last_is (codes "transfer-encoding") false r.header)
unfolding set_target_req_headers
set_target_req_headers-has_body by r b =
    copy_headers-flags (header_values (codes "Connection") r.header) r.header false false b

abbrev pub header_line : Text → Text → Text
header_line name value = name ++ colon ∷ value

abbrev pub value_lines : Text → List Text → List Text
value_lines name [] = []
value_lines name (v ∷ vs) = header_line name v ∷ value_lines name vs

unfoldable pub kept_lines : List Text → Header → List Text
kept_lines conn [] = []
kept_lines conn ((name, values) ∷ h) =
    if should_send_header_from_client_to_target name conn
    then value_lines name values ++ kept_lines conn h
    else kept_lines conn h

abbrev pub line_unless : Text → Text → Text → List Text
line_unless there name value = if text_eq there [] then header_line name value ∷ [] else []

abbrev pub forwarding_lines : Text → HttpRequest → List Text
forwarding_lines by r =
    header_line (codes "Forwarded") (
        codes "for="
        ++ (r.remote_addr
            ++ (codes ";proto="
                ++ (r.scheme ++ (codes ";host=" ++ (r.host ++ (codes ";by=" ++ by)))))))
      ∷ []
    ++ line_unless (header_get (codes "X-Forwarded-For") r.header) (codes "X-Forwarded-For")
        r.remote_addr
    ++ line_unless (header_get (codes "X-Forwarded-Proto") r.header) (codes "X-Forwarded-Proto")
        r.scheme
    ++ line_unless (header_get (codes "X-Forwarded-Host") r.header) (codes "X-Forwarded-Host")
        r.host
    ++ line_unless (header_get (codes "X-Forwarded-Server") r.header) (codes "X-Forwarded-Server")
        by

-- The header lines that the connector gets.
abbrev pub sent_lines : Text → HttpRequest → List Text
sent_lines by r =
    kept_lines (header_values (codes "Connection") r.header) r.header ++ forwarding_lines by r
