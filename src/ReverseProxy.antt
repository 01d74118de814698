-- ===== src/ReverseProxy.antt =====
-- router/reverse_proxy.go: `ReverseProxy`, which takes a socket for a client request and sends the
-- request over it.
pub mod Headers
pub mod Message
pub mod Handling
pub mod Sending
mod Tests
use crank4go.Base.{
  ℕ, zero, suc, ◌+◌, ◌%◌, ◌⊎◌, inl, inr, Bool, true, false, not, ◌&&◌, ◌||◌, Option, none, some,
  List, [], ◌∷◌, ◌++◌, ℤ, pos, Text, codes, text_eq, to_lower, trim_space, length, if◌then◌else◌,
  ◌==◌, leb, u64_mod,
}
use crank4go.Protocol.Headers.{HeadersBuilder, new_headers_builder, append_header, space}
use crank4go.Protocol.Request.{
  RequestBuilder, new_request_builder, with_req_line, with_req_headers, with_req_body_pending,
  with_req_has_no_body, with_req_body_ended, build, new_request,
}
use crank4go.Http.{
  HttpRequest, Header, header_get, header_values, ResponseWriter, write_header, write,
}
use crank4go.DarkLaunch.{DarkLaunchManager}
use crank4go.Socket.{RouterSocket}
use crank4go.Farm.{Net}
use crank4go.Farm.Operations.{acquire_socket}
use crank4go.SocketEvents.{World, the, change, set_response, on_send_or_receive_data_error}

abbrev pub hop_by_hop_headers_fields : List Text
hop_by_hop_headers_fields =
    codes "Connection"
    ∷ codes "Keep-Alive"
    ∷ codes "Proxy-Authenticate"
    ∷ codes "Proxy-Authorization"
    ∷ codes "TE"
    ∷ codes "Trailer"
    ∷ codes "Transfer-Encoding"
    ∷ codes "Upgrade"
    ∷ []

abbrev pub is_one_of : List Text → Text → Bool
is_one_of [] name = false
is_one_of (n ∷ names) name = text_eq n name || is_one_of names name

-- UUI31223NotSendingHostHeader
abbrev pub not_sending_host_header : Bool
not_sending_host_header = false

unfoldable pub should_send_header_from_client_to_target : Text → List Text → Bool
should_send_header_from_client_to_target name conn_headers =
    if not_sending_host_header && text_eq (codes "Host") name
    then false
    else if is_one_of hop_by_hop_headers_fields name
    then false
    else if is_one_of conn_headers name
    then false
    else true

unfoldable pub append_unless : Text → Text → Text → HeadersBuilder → HeadersBuilder
append_unless there name value b = if text_eq there [] then append_header b name value else b

-- `by` is the router's own address.
unfoldable pub add_proxy_forwarding_headers : Text → HeadersBuilder → HttpRequest → HeadersBuilder
unfolding append_unless
add_proxy_forwarding_headers by headers r =
    append_unless (header_get (codes "X-Forwarded-Server") r.header) (codes "X-Forwarded-Server") by
      (append_unless (header_get (codes "X-Forwarded-Host") r.header) (codes "X-Forwarded-Host")
        r.host
        (append_unless (header_get (codes "X-Forwarded-Proto") r.header) (codes "X-Forwarded-Proto")
          r.scheme
          (append_unless (header_get (codes "X-Forwarded-For") r.header) (codes "X-Forwarded-For")
            r.remote_addr
            (append_header headers (codes "Forwarded") (
              codes "for="
              ++ (r.remote_addr
                  ++ (codes ";proto="
                      ++ (r.scheme ++ (codes ";host=" ++ (r.host ++ (codes ";by=" ++ by)))))))))))

unfoldable pub append_values : HeadersBuilder → Text → List Text → HeadersBuilder
append_values b name [] = b
append_values b name (v ∷ vs) = append_values (append_header b name v) name vs

-- The loop over the client's headers, with its two flags.
unfoldable pub copy_headers :
    List Text → Header → Bool → Bool → HeadersBuilder → Bool × HeadersBuilder
unfolding append_values
copy_headers conn [] content_length transfer_encoding b = (content_length || transfer_encoding, b)
copy_headers conn ((name, values) ∷ h) content_length transfer_encoding b =
    let found = content_length || text_eq (codes "content-length") (to_lower name) in
    copy_headers conn h found (found || text_eq (codes "transfer-encoding") (to_lower name)) (
      if should_send_header_from_client_to_target name conn then append_values b name values else b)

-- Whether there is a body, and the headers.
unfoldable pub set_target_req_headers : Text → HttpRequest → HeadersBuilder → Bool × HeadersBuilder
unfolding copy_headers
set_target_req_headers by r b =
    let (has_body, copied) =
      copy_headers (header_values (codes "Connection") r.header) r.header false false b in
    (has_body, add_proxy_forwarding_headers by copied r)

-- The path with the query.
unfoldable pub request_uri : HttpRequest → Text
request_uri r = if text_eq r.raw_query [] then r.path else r.path ++ b'?' ∷ r.raw_query

unfoldable pub create_req_line : HttpRequest → Text
unfolding request_uri
create_req_line r = r.method ++ space ∷ (request_uri r ++ codes " HTTP/1.1")

-- `canonical` is textproto.CanonicalMIMEHeaderKey, which `Header.Get` applies to its key.
unfoldable pub component_name_from_header : (Text → Text) → Text → HttpRequest → Text
component_name_from_header canonical req_component_header r =
    if not (text_eq (trim_space req_component_header) [])
    then header_get (canonical (trim_space req_component_header)) r.header
    else []
