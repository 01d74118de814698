-- ===== src/Connector/Tests.antt =====
-- Tests of the connector, and its theorems at concrete inputs.
use crank4go.Base.{
  ℕ, ◌+◌, ◌++◌, dec32, ◌*◌, ◌%◌, ◌≤◌, ◌≡◌, refl, true, false, none, some, [], ◌∷◌, arith, Text,
  codes, text_eq, split, has_prefix, u32_mod, ltb, if◌then◌else◌, pos, pos_part, count,
}
use crank4go.Monitor.{new_connection_monitor}
use crank4go.Connector.Farm.{
  Url, ConnectionInfo, new_connection_info, idle_socket_num, retry_after_millis,
  on_connection_starting, on_connected_successfully,
}
use crank4go.Connector.Farm.Retry.{retry_after_millis_bounds}
use crank4go.Connector.Config.{new_connector_config, set_all, window, sliding_window_size_bounds}
use crank4go.Connector.Plugins.{
  ConnectorPlugin, StatCarriers, get_carrier, handle_plugins_after_response_received,
}
use crank4go.Connector.Plugins.Closing.{holdings, handle_plugins_after-closes}
use crank4go.Connector.Urls.{register_uri, resolve_path}
use crank4go.Connector.Client.{
  Client, ConnectorSocket, dialing, reading, new_connector_socket, new_connector, start,
}
use crank4go.Connector.Client.Starting.{window_of, PathsFine}
use crank4go.Connector.Socket.{socket}
use crank4go.Connector.Ending.{on_websocket_close, on_websocket_error, timer_fires}
use crank4go.Connector.Steps.{Reach, here, next_step, fails_to_dial}
use crank4go.Connector.Steps.Keeps.{full_window, retries_in_time}
use crank4go.Connector.Window.{count_below, unadded, unadded_at, idle_at}
use crank4go.Connector.Window.Full.{has}
use crank4go.Protocol.Headers.{space}
use crank4go.Protocol.Response.{
  Response, new_response, new_response_builder, with_source_url, with_http_method,
}
use crank4go.Connector.Target.{
  IntermediateRequest, new_intermediate_request, TargetResponse, Body, answered, text_message,
  close_message,
}
use crank4go.Connector.Events.{target_answers}
use crank4go.Connector.Events.Relaying.{no_failures, data_frames, read_as, target_answers-relayed}
use crank4go.Connector.Events.Abandoned.{answer_after-close, answer_after-close_1011}

abbrev test_router : Url
test_router = record { scheme = codes "ws"; host = codes "r:9070"; path = []; raw_query = [] }

-- As net/url resolves them.
resolves : (register_uri (codes "i") (codes "c") test_router).path ≡ codes "/register/"
unfolding register_uri split text_eq
resolves = refl

resolves_dots : resolve_path (codes "/a/./b/../c") (codes "deregister/") ≡ codes "/a/deregister/"
unfolding resolve_path split text_eq
resolves_dots = refl

abbrev test_info : ConnectionInfo
test_info = new_connection_info test_router 0

abbrev test_made : Client
test_made =
    new_connector (test_router ∷ []) 2 (new_connection_monitor []) (codes "i") (codes "c")
      (new_connector_socket test_router 0) test_info

abbrev attempts : ℕ → ConnectionInfo
attempts n = record test_info { cur_conn_attempts = n }

test_none_yet : (new_connection_monitor []).available_conns ≡ 0
unfolding new_connection_monitor
test_none_yet = refl

abbrev test_failed : Client
test_failed = on_websocket_error 0 (start test_made)

-- The first socket of a connector fails to dial.
test-Reach : Reach (λ d. some d) [] (start test_made) test_failed
unfolding start new_connector
test-Reach = next_step here (fails_to_dial 0 (start test_made) (omega arith) refl)

test_paths :
    PathsFine (record { id = codes "i"; component = codes "c"; size = 2 }) (test_router ∷ [])
unfolding register_uri split text_eq has_prefix
test_paths = (refl, tt)

test_twice :
    (u : Text)
    → window_of (record { id = codes "i"; component = codes "c"; size = 2 }) (test_router ∷ []) u
      ≤ 2 * 2
test_twice u = ground arith

full_window_example :
    (count_below (unadded_at (codes "ws://r")) test_failed.next test_failed.heap
      ≡ window_of
          (record { id = codes "i"; component = codes "c"; size = 2 })
          (test_router ∷ [])
          (codes "ws://r"))
    × (idle_socket_num (codes "ws://r") test_failed.websocket_client_farm
        ≡ count_below (idle_at (codes "ws://r")) test_failed.next test_failed.heap)
    × (test_failed.conn_monitor.available_conns
        ≡ count_below unadded test_failed.next test_failed.heap % u32_mod)
full_window_example =
    full_window (λ d. some d) [] (test_router ∷ []) 2 (new_connection_monitor []) (codes "i")
      (codes "c") (new_connector_socket test_router 0) test_info (omega arith) test_none_yet
      test_twice test_paths test-Reach (codes "ws://r")

retries_in_time_example :
    (has (socket 0 test_failed).retry ≡ true)
    × ((timer_fires 0 test_failed).next ≡ test_failed.next + 1)
    × ((socket test_failed.next (timer_fires 0 test_failed)).phase ≡ dialing)
    × ((socket test_failed.next (timer_fires 0 test_failed)).register_url
        ≡ (socket 0 test_failed).register_url)
unfolding start new_connector on_websocket_error
retries_in_time_example =
    retries_in_time (λ d. some d) [] (test_router ∷ []) 2 (new_connection_monitor []) (codes "i")
      (codes "c") (new_connector_socket test_router 0) test_info (omega arith) test_none_yet
      test_twice test_paths test-Reach 0 (omega arith) refl refl

retry_after_millis_bounds_example :
    (500 ≤ retry_after_millis (attempts 12))
    × (retry_after_millis (attempts 12) ≤ 5000000)
    × (retry_after_millis (on_connection_starting (attempts 12)) ≡ (
        if ltb (2 * retry_after_millis (attempts 12)) 5000000
        then 2 * retry_after_millis (attempts 12)
        else 5000000))
    × (retry_after_millis (on_connected_successfully (attempts 12)) ≡ 500)
retry_after_millis_bounds_example = retry_after_millis_bounds (attempts 12) (omega arith)

delays :
    (retry_after_millis (attempts 0) ≡ 500)
    × (retry_after_millis (attempts 13) ≡ 4096000)
    × (retry_after_millis (attempts 14) ≡ 5000000)
unfolding retry_after_millis
delays = (refl, refl, refl)

sliding_window_size_bounds_example :
    let size =
      (set_all (window (pos 5000) ∷ []) (
        new_connector_config
          (codes "i")
          test_router
          (codes "s")
          (test_router ∷ [])
          (codes "c"))).sliding_window_size in
    (1 ≤ pos_part size) × (pos_part size ≤ 1000)
sliding_window_size_bounds_example =
    sliding_window_size_bounds (codes "i") (codes "s") (codes "c") test_router (test_router ∷ [])
      (window (pos 5000) ∷ [])

-- A plugin that leaves a carrier with the request and returns it with the response.
abbrev test_plugin : ConnectorPlugin
test_plugin = record {
  plugin_id = 7;
  handle_before_request_sent = λ r. (r, some (some 3));
  handle_after_response_received = λ r c. (r, some c);
}

abbrev test_response : Response
test_response = record {
  headers = [];
  status = pos 200;
  reason = [];
  source_url = [];
  http_method = [];
}

abbrev test_carriers : StatCarriers
test_carriers = record { stat_carrier_map = (7, 3) ∷ []; closed = [] }

abbrev test_closed : StatCarriers
test_closed = record { stat_carrier_map = (7, 3) ∷ []; closed = 3 ∷ 3 ∷ [] }

handle_plugins_after-closes_example : holdings 3 test_carriers ≤ count 3 test_closed.closed
unfolding handle_plugins_after_response_received get_carrier
handle_plugins_after-closes_example =
    handle_plugins_after-closes (λ c. false) 3 (test_plugin ∷ []) test_response test_carriers
      {r' = test_response} {cs' = test_closed} refl

-- A request of the method GET for `/a`, made and under way, on a socket in its loop.
abbrev test_asked : IntermediateRequest
test_asked = record (new_intermediate_request (codes "http://t/a")) {
  ptc_resp = with_http_method (with_source_url new_response_builder (codes "/a")) (codes "GET");
}

abbrev serving : ConnectorSocket
serving = record (new_connector_socket test_router 0) {
  session = true;
  phase = reading;
  request_to_target = some test_asked;
  new_socket_added = true;
  firing = true;
}

abbrev test_serving : Client
test_serving = record test_made { heap = λ p. serving }

abbrev target_response : TargetResponse
target_response = record {
  status_code = pos 404;
  status = codes "404 Not Found";
  header = (codes "A", codes "b" ∷ []) ∷ [];
}

abbrev target_body : Body
target_body = record { reads = codes "no" ∷ [] ∷ []; ends_with = none }

target_answers-relayed_example :
    (msg : Text) × (c' : Client) × (new_response msg
      ≡ some (read_as 404 (split space (codes "404 Not Found")).first (codes "GET") (codes "/a")))
    × (target_answers no_failures (answered target_response target_body) 1 test_serving ≡ some c')
    × ((socket 1 c').sent
        ≡ text_message msg ∷ (data_frames target_body.reads ++ close_message 1000 ∷ []))
    × ((socket 1 c').request_complete ≡ true)
    × (c'.conn_monitor.request_num ≡ dec32 test_serving.conn_monitor.request_num)
unfolding new_intermediate_request
target_answers-relayed_example =
    target_answers-relayed 404 (codes "404 Not Found") (codes "GET") (codes "/a") (omega arith)
      (omega arith) (omega arith) (omega arith) (omega arith) (omega arith) target_response.header
      target_body.reads 1 test_serving {r = test_asked} refl refl refl refl

answer_after-close_example :
    (c' : Client) × (target_answers no_failures
        (answered target_response target_body)
        1
        (on_websocket_close 1006 1 test_serving)
      ≡ some c')
    × ((socket 1 c').sent ≡ [])
    × (c'.conn_monitor.request_num ≡ dec32 test_serving.conn_monitor.request_num)
unfolding new_intermediate_request
answer_after-close_example =
    answer_after-close 1006 1 test_serving {r = test_asked} refl refl refl no_failures
      target_response target_body (omega arith) refl

answer_after-close_1011_example :
    target_answers no_failures
      (answered target_response target_body)
      1
      (on_websocket_close 1011 1 test_serving)
    ≡ none
unfolding new_intermediate_request
answer_after-close_1011_example =
    answer_after-close_1011 1011 1 test_serving {r = test_asked} refl refl refl no_failures
      target_response target_body refl refl refl
