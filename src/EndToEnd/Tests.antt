-- ===== src/EndToEnd/Tests.antt =====
-- A request and a response between client and target.
use crank4go.Base.{◌≡◌, refl, true, none, some, List, [], ◌∷◌, ◌++◌, map, arith, Text, codes, pos}
use crank4go.Monitor.{new_connection_monitor}
use crank4go.Protocol.Request.{Request}
use crank4go.Protocol.Response.{new_response_builder, with_source_url, with_http_method}
use crank4go.Http.{HttpRequest, set_header, add_header, write_header, write}
use crank4go.DarkLaunch.{DarkLaunchManager, new_dark_launch_manager}
use crank4go.Socket.{RouterSocket, new_router_socket}
use crank4go.Farm.{Net, new_websocket_farm}
use crank4go.SocketEvents.{World, the, closed, run_forever}
use crank4go.Connector.Farm.{Url, new_connection_info}
use crank4go.Connector.Target.{IntermediateRequest, new_intermediate_request, answered, SentFrame}
use crank4go.Connector.Client.{
  Client, ConnectorSocket, reading, new_connector_socket, new_connector,
}
use crank4go.Connector.Socket.{socket}
use crank4go.Connector.Events.{target_answers}
use crank4go.Connector.Events.Relaying.{no_failures}
use crank4go.EndToEnd.Responses.{delivered, non_empty, response_reaches_client}

abbrev client_request : HttpRequest
client_request = record {
  method = codes "POST";
  path = codes "/a";
  raw_query = codes "x=1";
  scheme = [];
  host = codes "h";
  remote_addr = codes "10.0.0.1:80";
  header =
      (codes "Transfer-Encoding", codes "chunked" ∷ []) ∷ (codes "Accept", codes "*/*" ∷ []) ∷ [];
}

abbrev asked : IntermediateRequest
asked = record (new_intermediate_request (codes "http://t/a")) {
  ptc_resp = with_http_method (with_source_url new_response_builder (codes "/a")) (codes "GET");
}

abbrev router_url : Url
router_url = record { scheme = codes "ws"; host = codes "r:9070"; path = []; raw_query = [] }

abbrev serving : ConnectorSocket
serving = record (new_connector_socket router_url 0) {
  session = true;
  phase = reading;
  request_to_target = some asked;
  new_socket_added = true;
  firing = true;
}

abbrev connector : Client
connector =
    new_connector (router_url ∷ []) 2 (new_connection_monitor []) (codes "i") (codes "c") serving
      (new_connection_info router_url 0)

abbrev waiting_client : RouterSocket
waiting_client =
    record (new_router_socket (codes "shop") (codes "id") (codes "c1") true (codes "10.0.0.7")) {
      session = true;
      handle_done = true;
      resp_writer = some (set_header (codes "A") (codes "b") ∷ []);
    }

abbrev router : World
router = record {
  net = record {
    farm = new_websocket_farm;
    heap = λ p. waiting_client;
    toggle = 0;
    conn_monitor = new_connection_monitor [];
  };
  done = [];
}

abbrev manager : DarkLaunchManager Net
manager = new_dark_launch_manager

alive : (socket 1 connector).session ≡ true
unfolding new_connector
alive = refl

in_flight : (socket 1 connector).request_to_target ≡ some asked
unfolding new_connector
in_flight = refl

abbrev body_reads : List Text
body_reads = codes "no" ∷ [] ∷ codes "t" ∷ []

response_reaches_client_example :
    (frames : List SentFrame) × (c' : Client) × (w' : World) × (target_answers no_failures
        (answered
          (record { status_code = pos 404; status = codes "404 Not Found"; header = [] })
          (record { reads = body_reads; ends_with = none }))
        1
        connector
      ≡ some c')
    × ((socket 1 c').sent ≡ (socket 1 connector).sent ++ frames)
    × (run_forever manager [] 4 (delivered frames) (closed 1000 (pos 7)) router ≡ some w')
    × ((the 4 w').resp_writer
        ≡ some (
            set_header (codes "A") (codes "b") ∷ []
            ++ (add_header (codes "Via") (codes "1.1 crnk")
                ∷ write_header (pos 404)
                ∷ map write (non_empty body_reads))))
unfolding new_intermediate_request
response_reaches_client_example =
    response_reaches_client 404 (codes "404 Not Found") (codes "GET") (codes "/a") (omega arith)
      (omega arith) (omega arith) (omega arith) (omega arith) (omega arith) [] body_reads 1
      connector {r = asked} manager (pos 7) 4 router alive in_flight refl refl refl refl
