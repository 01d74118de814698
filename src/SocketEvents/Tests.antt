-- ===== src/SocketEvents/Tests.antt =====
-- The theorems about the sockets' events at a concrete socket and client.
use crank4go.Base.{◌≡◌, refl, true, some, [], ◌∷◌, ◌++◌, arith, Text, codes, pos, inc32}
use crank4go.Protocol.Headers.{nl}
use crank4go.Protocol.Response.{Response}
use crank4go.Http.{set_header}
use crank4go.Monitor.{new_connection_monitor}
use crank4go.DarkLaunch.{DarkLaunchManager, new_dark_launch_manager}
use crank4go.Socket.{RouterSocket, new_router_socket}
use crank4go.Farm.{Net, new_websocket_farm}
use crank4go.SocketEvents.{
  World, the, set_response, run_forever, on_end, on_frame, other_frame, broken,
}
use crank4go.SocketEvents.Responses.{request_num-run_forever, on_end-removed}

abbrev serving : RouterSocket
serving =
    record (new_router_socket (codes "shop") (codes "id") (codes "c1") true (codes "10.0.0.7")) {
      session = true;
      handle_done = true;
      resp_writer = some (set_header (codes "A") (codes "b") ∷ []);
    }

abbrev world : World
world = record {
  net = record {
    farm = new_websocket_farm;
    heap = λ p. serving;
    toggle = 0;
    conn_monitor = new_connection_monitor (1 ∷ []);
  };
  done = [];
}

abbrev manager : DarkLaunchManager Net
manager = new_dark_launch_manager

abbrev message : Text
message =
    codes "HTTP/1.1 200 OK"
    ++ nl ∷ codes "GET /a"
    ++ nl ∷ codes "Content-Type:text/plain"
    ++ nl ∷ []

abbrev response : Response
response = record {
  headers = [];
  status = pos 200;
  reason = codes "OK";
  source_url = codes "/a";
  http_method = codes "GET";
}

request_num-run_forever_example :
    (on_end manager 4
      (broken (codes "timeout"))
      (set_response 4 [] world)).net.conn_monitor.request_num
    ≡ inc32 0
unfolding new_connection_monitor run_forever on_frame
request_num-run_forever_example =
    request_num-run_forever manager 4 [] world [] (other_frame ∷ []) (broken (codes "timeout"))
      (omega arith) refl

on_end-removed_example : (the 4 (on_end manager 4 (broken (codes "eof")) world)).is_removed ≡ true
unfolding new_router_socket
on_end-removed_example = on_end-removed manager 4 (broken (codes "eof")) world refl
