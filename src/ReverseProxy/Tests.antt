-- ===== src/ReverseProxy/Tests.antt =====
-- The theorems about the proxy at concrete requests.
use crank4go.Base.{
  ℕ, ◌+◌, ◌≡◌, refl, true, false, ◌||◌, Option, none, some, [], ◌∷◌, ◌++◌, arith, Text, codes,
  text_eq, count, ◌==◌, if◌then◌else◌,
}
use crank4go.Protocol.Headers.{
  request_has_no_body_marker, request_body_pending_marker, new_headers_builder,
}
use crank4go.Protocol.Request.{build, new_request, with_req_body_pending, with_req_has_no_body}
use crank4go.Protocol.Request.Laws.{parsed_request}
use crank4go.Http.{HttpRequest, header_get, header_values}
use crank4go.Monitor.{new_connection_monitor}
use crank4go.DarkLaunch.{DarkLaunchManager, new_dark_launch_manager}
use crank4go.Socket.{new_router_socket}
use crank4go.Farm.{Net, new_websocket_farm}
use crank4go.SocketEvents.{World}
use crank4go.SocketEvents.Finishing.{waiting}
use crank4go.ReverseProxy.{
  request_uri, should_send_header_from_client_to_target, set_target_req_headers,
}
use crank4go.ReverseProxy.Handling.{
  chunk, end_of_body, text_message, complete, transmit, ended_message, request_builder,
  send_request_over_websocket,
}
use crank4go.ReverseProxy.Headers.{
  has_name, last_is, sent_lines, kept_lines, set_target_req_headers-has_body,
}
use crank4go.ReverseProxy.Message.{new_request-proxied}
use crank4go.ReverseProxy.Sending.{
  body_of, data_frames, no_failure, still_waits, transmit-complete, send_request-waiting,
  send_request-stuck,
}

-- Go's canonical form of the name TE is `Te`, which is in no list.
te_sent : should_send_header_from_client_to_target (codes "Te") [] ≡ true
unfolding should_send_header_from_client_to_target text_eq
te_sent = refl

abbrev chunked_request : HttpRequest
chunked_request = record {
  method = codes "POST";
  path = codes "/a";
  raw_query = codes "x=1";
  scheme = [];
  host = codes "h";
  remote_addr = codes "10.0.0.1:80";
  header =
      (codes "Transfer-Encoding", codes "chunked" ∷ []) ∷ (codes "Accept", codes "*/*" ∷ []) ∷ [];
}

set_target_req_headers-has_body_example :
    (set_target_req_headers (codes "r") chunked_request new_headers_builder).0 ≡ (
      has_name (codes "content-length") chunked_request.header
      || last_is (codes "transfer-encoding") false chunked_request.header)
set_target_req_headers-has_body_example =
    set_target_req_headers-has_body (codes "r") chunked_request new_headers_builder

-- The chunked request goes without its body.
no_body : (set_target_req_headers (codes "r") chunked_request new_headers_builder).0 ≡ false
unfolding set_target_req_headers text_eq
no_body = refl

new_request-proxied_example :
    (new_request (build (with_req_has_no_body (request_builder (codes "r") chunked_request)))
      ≡ some (
          parsed_request
            (codes "POST")
            (request_uri chunked_request)
            (sent_lines (codes "r") chunked_request)
            request_has_no_body_marker))
    × (new_request (build (with_req_body_pending (request_builder (codes "r") chunked_request)))
        ≡ some (
            parsed_request
              (codes "POST")
              (request_uri chunked_request)
              (sent_lines (codes "r") chunked_request)
              request_body_pending_marker))
unfolding request_uri text_eq kept_lines header_get header_values
    should_send_header_from_client_to_target
new_request-proxied_example =
    new_request-proxied (codes "r") chunked_request (omega arith) (omega arith) (omega arith)
      (omega arith)

transmit-complete_example :
    transmit no_failure (codes "r") chunked_request (body_of (codes "ab" ∷ [] ∷ []) (codes "c")) ≡ (
      if (set_target_req_headers (codes "r") chunked_request new_headers_builder).0
      then (
        text_message (build (with_req_body_pending (request_builder (codes "r") chunked_request)))
            ∷ (data_frames (codes "ab" ∷ [] ∷ codes "c" ∷ []) ++ text_message ended_message ∷ []),
        complete,
      )
      else (
        text_message (build (with_req_has_no_body (request_builder (codes "r") chunked_request)))
            ∷ [],
        complete,
      ))
unfolding request_uri text_eq kept_lines header_get header_values
    should_send_header_from_client_to_target
transmit-complete_example =
    transmit-complete (codes "r") chunked_request (omega arith) (omega arith) (omega arith)
      (omega arith) (codes "ab" ∷ [] ∷ []) (codes "c")

abbrev world : World
world = record {
  net = record {
    farm = new_websocket_farm;
    heap = λ p.
        record (new_router_socket (codes "a") (codes "id") (codes "c1") true (codes "10.0.0.7")) {
          session = true;
        };
    toggle = 0;
    conn_monitor = new_connection_monitor [];
  };
  done = [];
}

abbrev manager : DarkLaunchManager Net
manager = new_dark_launch_manager

-- The second write fails.
abbrev fails : ℕ → Option Text
fails i = if i == 0 then none else some (codes "broken pipe")

send_request-waiting_example :
    let w' =
      send_request_over_websocket manager fails
        (codes "r")
        chunked_request
        (end_of_body (codes "c"))
        []
        4
        world in
    (waiting 4 w'
      ≡ still_waits (transmit fails (codes "r") chunked_request (end_of_body (codes "c"))).1)
    × (count 4 w'.done
          + still_waits (transmit fails (codes "r") chunked_request (end_of_body (codes "c"))).1
        ≡ count 4 world.done + 1)
send_request-waiting_example =
    send_request-waiting manager fails (codes "r") chunked_request [] 4 world refl
      (end_of_body (codes "c"))

abbrev sized_request : HttpRequest
sized_request = record chunked_request { header = (codes "Content-Length", codes "3" ∷ []) ∷ [] }

sized : (set_target_req_headers (codes "r") sized_request new_headers_builder).0 ≡ true
unfolding set_target_req_headers text_eq
sized = refl

send_request-stuck_example :
    let w' =
      send_request_over_websocket manager fails
        (codes "r")
        sized_request
        (chunk (codes "ab") (end_of_body (codes "c")))
        []
        4
        world in
    (waiting 4 w' ≡ 1) × (count 4 w'.done ≡ count 4 world.done)
send_request-stuck_example =
    send_request-stuck manager fails (codes "r") sized_request [] 4 world refl b'a' (codes "b")
      (codes "broken pipe") (end_of_body (codes "c")) sized refl refl
