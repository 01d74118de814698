-- ===== src/Connector/Client.antt =====
-- connector/connector.go: `Connector` with its sockets, and the action that replaces a socket. The
-- goroutines are phases of the sockets; each action and each event runs as one step.
pub mod Opening
pub mod Starting
use crank4go.Base.{
  ℕ, zero, suc, ◌+◌, Bool, true, false, Option, none, some, List, [], ◌∷◌, Text, pos, if◌then◌else◌,
  ◌==◌,
}
use crank4go.Monitor.{
  ConnectionMonitor, on_connection_available, on_connection_consumed, connection_count,
}
use crank4go.Connector.Farm.{
  Url, url_string, WebsocketClientFarm, new_websocket_client_farm, add_websocket,
  is_safe_to_add_websocket, ConnectionInfo, new_connection_info, on_connection_starting,
}
use crank4go.Connector.Target.{IntermediateRequest, SentFrame}
use crank4go.Connector.Urls.{register_uri, deregister_uri}

pub data State : Type 0 where
  not_started running shutting_down shut_down : State

-- Where the goroutine of a socket stands: not started, dialing, in its loop, at its end.
pub data Phase : Type 0 where
  undialed dialing reading ended : Phase

-- `cancel_ping` is whether the function is there; `content_writer` is the pipe that feeds the
-- target, as what was written and whether it was closed; `retry` is the delay of a timer that is
-- set; `firing` is whether the request to the target is under way; `sent` is a history.
pub record ConnectorSocket : Type 0 where
  pub register_url : Url
  pub conn_info : ℕ
  pub phase : Phase
  pub session : Bool
  pub request_to_target : Option IntermediateRequest
  pub content_writer : Option (List Text × Bool)
  pub cancel_ping : Bool
  pub ping_cancelled : Bool
  pub request_complete : Bool
  pub new_socket_added : Bool
  pub had_error : Bool
  pub retry : Option ℕ
  pub firing : Bool
  pub sent : List SentFrame

abbrev pub new_connector_socket : Url → ℕ → ConnectorSocket
new_connector_socket url info = record {
  register_url = url;
  conn_info = info;
  phase = undialed;
  session = false;
  request_to_target = none;
  content_writer = none;
  cancel_ping = false;
  ping_cancelled = false;
  request_complete = false;
  new_socket_added = false;
  had_error = false;
  retry = none;
  firing = false;
  sent = [];
}

-- `heap` and `infos` are the sockets and connection infos that were made, below `next` and
-- `next_info`; `parent_done` is whether ParentCtx was cancelled.
pub record Client : Type 0 where
  pub sliding_window_size : ℕ
  pub router_uris : List Url
  pub conn_monitor : ConnectionMonitor
  pub websocket_client_farm : WebsocketClientFarm
  pub connector_instance_id : Text
  pub component_name : Text
  pub state : State
  pub parent_done : Bool
  pub heap : ℕ → ConnectorSocket
  pub next : ℕ
  pub infos : ℕ → ConnectionInfo
  pub next_info : ℕ

abbrev pub assign {ℓ} : {A : Type ℓ} → ℕ → A → (ℕ → A) → ℕ → A
assign p a f q = if p == q then a else f q

abbrev pub change : ℕ → (ConnectorSocket → ConnectorSocket) → Client → Client
change p f c = record c { heap = assign p (f (c.heap p)) c.heap }

abbrev pub change_info : ℕ → (ConnectionInfo → ConnectionInfo) → Client → Client
change_info i f c = record c { infos = assign i (f (c.infos i)) c.infos }

abbrev pub with_monitor : (ConnectionMonitor → ConnectionMonitor) → Client → Client
with_monitor f c = record c { conn_monitor = f c.conn_monitor }

abbrev pub with_farm : (WebsocketClientFarm → WebsocketClientFarm) → Client → Client
with_farm f c = record c { websocket_client_farm = f c.websocket_client_farm }

-- The heaps hold unused sockets and infos at first.
unfoldable pub new_connector :
    List Url → ℕ → ConnectionMonitor → Text → Text → ConnectorSocket → ConnectionInfo → Client
new_connector uris window m instance_id component no_socket no_info = record {
  sliding_window_size = window;
  router_uris = uris;
  conn_monitor = m;
  websocket_client_farm = new_websocket_client_farm window;
  connector_instance_id = instance_id;
  component_name = component;
  state = not_started;
  parent_done = false;
  heap = λ p. no_socket;
  next = 0;
  infos = λ i. no_info;
  next_info = 0;
}

abbrev pub is_shut_down : State → Bool
is_shut_down shut_down = true
is_shut_down _ = false

abbrev pub is_closing : State → Bool
is_closing not_started = false
is_closing running = false
is_closing shutting_down = true
is_closing shut_down = true

alloc : Url → ℕ → Client → Client
alloc url info c = record c {
  heap = assign c.next (new_connector_socket url info) c.heap;
  next = c.next + 1;
}

alloc_info : Url → ℕ → Client → Client
alloc_info url i c = record c {
  infos = assign c.next_info (new_connection_info url i) c.infos;
  next_info = c.next_info + 1;
}

dial : ℕ → ℕ → Client → Client
dial p info c =
    change p (λ s. record s { phase = dialing }) (change_info info on_connection_starting c)

unfoldable pub connect_to_router : Url → ℕ → Client → Client
unfolding alloc dial
connect_to_router url info c =
    let c' = alloc url info c in if is_shut_down c.state then c' else dial c.next info c'

-- A new socket, counted as idle and as available.
unfoldable pub add_socket : Url → ℕ → Client → Client
unfolding connect_to_router
add_socket url info c =
    with_monitor on_connection_available
      (with_farm (add_websocket (url_string url)) (connect_to_router url info c))

-- The action that `connectToRouter` sets for its socket.
unfoldable pub when_consumed : ℕ → Client → Client
unfolding add_socket
when_consumed p c =
    let c' = with_monitor on_connection_consumed c in
    if is_closing c.state
    then c'
    else if is_safe_to_add_websocket (c.heap p).register_url c.websocket_client_farm
    then add_socket (c.heap p).register_url (c.heap p).conn_info c'
    else c'

pub open_window : Url → ℕ → ℕ → Client → Client
unfolding add_socket alloc_info
open_window url zero i c = c
open_window url (suc n) i c =
    open_window url n (i + 1) (add_socket url c.next_info (alloc_info url i c))

open_windows : List Url → Client → Client
unfolding open_window
open_windows [] c = c
open_windows (router ∷ routers) c =
    let url = register_uri c.connector_instance_id c.component_name router in
    open_windows routers (open_window url c.sliding_window_size 0 c)

unfoldable pub start : Client → Client
unfolding open_windows
start c = record (open_windows c.router_uris c) { state = running }

deregister_each : List Url → Client → Client
unfolding connect_to_router alloc_info
deregister_each [] c = c
deregister_each (router ∷ routers) c =
    let url = deregister_uri c.connector_instance_id c.component_name router in
    deregister_each routers (connect_to_router url c.next_info (alloc_info url 0 c))

unfoldable pub call_shut_down : Client → Client
unfolding deregister_each
call_shut_down c =
    record (deregister_each c.router_uris
      (record c { state = shutting_down; parent_done = true })) { state = shut_down }

-- The loop of ShutDownAfterTimeout, on the monitors that it finds and whether the time was up.
-- `none` is a loop that goes on.
await : List (ConnectionMonitor × Bool) → Option Bool
await [] = none
await ((m, is_late) ∷ polls) =
    let later = await polls in
    elim (connection_count m) [ pos zero ↦ some true | _ ↦ if is_late then some false else later ]

unfoldable pub shut_down_after_timeout :
    List (ConnectionMonitor × Bool) → Client → Client × Option Bool
unfolding call_shut_down await
shut_down_after_timeout polls c =
    (if is_shut_down c.state then c else call_shut_down c, await polls)
