-- ===== src/Connector/Window/Farm.antt =====
-- The counter of a URL after a socket was added or taken out, and the action that replaces one.
use crank4go.Base.{
  ℕ, ◌+◌, ◌<◌, ◌≤◌, ◌^◌, ◌≡◌, ap, true, false, arith, Text, codes, text_eq, get-put, get,
  has_prefix, inl, inr, Option-cases, inc32, dec32, if◌then◌else◌,
}
use crank4go.Connector.Farm.{
  Url, url_string, WebsocketClientFarm, idle_socket_num, add_websocket, remove_websocket,
  is_safe_to_add_websocket, on_connection_starting,
}
use crank4go.Monitor.{on_connection_available, on_connection_consumed}
use crank4go.Connector.Client.{
  ConnectorSocket, new_connector_socket, dialing, Client, assign, is_closing, is_shut_down, State,
  connect_to_router, add_socket, when_consumed,
}

pub num-add :
    (url u : Text) (f : WebsocketClientFarm)
    → idle_socket_num u (add_websocket url f)
      ≡ (if text_eq url u then inc32 (idle_socket_num url f) else idle_socket_num u f)
unfolding idle_socket_num add_websocket
num-add url u f = ground (arith, get-put url u (inc32 (idle_socket_num url f)) f.connector_sockets)

pub num-remove :
    (url u : Text) (f : WebsocketClientFarm)
    → 0 < idle_socket_num url f
    → idle_socket_num u (remove_websocket url f)
      ≡ (if text_eq url u then dec32 (idle_socket_num url f) else idle_socket_num u f)
unfolding idle_socket_num remove_websocket
num-remove url u f h = elim (Option-cases (get url f.connector_sockets)) [
  | inl e ↦ absurd (ground (arith, e))
  | inr (n, e) ↦ ground (arith, e, get-put url u (dec32 n) f.connector_sockets)
]

pub is_safe :
    (url : Url) (f : WebsocketClientFarm)
    → has_prefix url.path (codes "/deregister") ≡ false
    → idle_socket_num (url_string url) f < f.max_sliding_window_size
    → f.max_sliding_window_size < 2 ^ 31
    → is_safe_to_add_websocket url f ≡ true
unfolding is_safe_to_add_websocket
is_safe url f path room small = ground arith

pub assign_self : (p : ℕ) (s : ConnectorSocket) (heap : ℕ → ConnectorSocket) → assign p s heap p ≡ s
assign_self p s heap = ground arith

abbrev pub fresh : ℕ → Client → ConnectorSocket
fresh p c = new_connector_socket (c.heap p).register_url (c.heap p).conn_info

-- What the action makes of a connector that may add a socket.
abbrev pub grown : ℕ → Client → Client
grown p c =
    let s = c.heap p in
    record c {
      heap =
          assign c.next (record (fresh p c) { phase = dialing }) (assign c.next (fresh p c) c.heap);
      next = c.next + 1;
      infos = assign s.conn_info (on_connection_starting (c.infos s.conn_info)) c.infos;
      websocket_client_farm = add_websocket (url_string s.register_url) c.websocket_client_farm;
      conn_monitor = on_connection_available (on_connection_consumed c.conn_monitor);
    }

pub not_shut_down : (s : State) → is_closing s ≡ false → is_shut_down s ≡ false
not_shut_down s h = ground arith

pub when_consumed-grown :
    (p : ℕ) (c : Client)
    → is_closing c.state ≡ false
    → is_safe_to_add_websocket (c.heap p).register_url c.websocket_client_farm ≡ true
    → when_consumed p c ≡ grown p c
unfolding when_consumed add_socket connect_to_router
when_consumed-grown p c opened safe =
    rw (opened, safe, not_shut_down c.state opened)
      (ap
        (λ (s : ConnectorSocket). record (grown p c) {
          heap = assign c.next (record s { phase = dialing }) (assign c.next (fresh p c) c.heap);
        })
        (assign_self c.next (fresh p c) c.heap))

pub when_consumed-next : (p : ℕ) (c : Client) → c.next ≤ (when_consumed p c).next
unfolding when_consumed add_socket connect_to_router
when_consumed-next p c = ground arith
