-- ===== src/Socket.antt =====
-- router/router_socket/router_socket.go: the fields of a `RouterSocket` and its constructor. What
-- its event handlers do is in SocketEvents.antt, above the farm that they call.
use crank4go.Base.{
  ℕ, Bool, false, not, Option, none, List, [], ◌∷◌, Text, codes, text_eq, if◌then◌else◌,
}
use crank4go.Http.{ResponseWriter}

abbrev pub allow_fixed_length_responses : Bool
allow_fixed_length_responses = false

-- `session` says that the websocket connection is not nil, `handle_done` that the wait group of the
-- waiting client request is not nil; the client's response writer is the calls made on it so far.
pub record RouterSocket : Type 0 where
  pub resp_headers_not_send_back : List Text
  pub route : Text
  pub router_socket_id : Text
  pub connector_instance_id : Text
  pub is_register : Bool
  pub session : Bool
  pub resp_writer : Option ResponseWriter
  pub handle_done : Bool
  pub remote_addr : Text
  pub is_removed : Bool
  pub bytes_received : ℕ
  pub bytes_sent : ℕ
  pub ip : Text
  pub req_component_name : Text

-- NewRouterSocket2; `id` is the new UUID.
unfoldable pub new_router_socket : Text → Text → Text → Bool → Text → RouterSocket
new_router_socket route id connector_instance_id is_register ip = record {
  resp_headers_not_send_back =
      if not allow_fixed_length_responses
      then codes "server" ∷ codes "content-length" ∷ []
      else codes "server" ∷ [];
  route = route;
  router_socket_id = id;
  connector_instance_id = connector_instance_id;
  is_register = is_register;
  session = false;
  resp_writer = none;
  handle_done = false;
  remote_addr = [];
  is_removed = false;
  bytes_received = 0;
  bytes_sent = 0;
  ip = ip;
  req_component_name = [];
}

unfoldable pub is_catch_all : RouterSocket → Bool
is_catch_all s = text_eq s.route []

unfoldable pub set_req_component_name : Text → RouterSocket → RouterSocket
set_req_component_name name s = record s { req_component_name = name }

-- CloseSocketSession: it drops the connection.
unfoldable pub close_socket_session : RouterSocket → RouterSocket
close_socket_session s = if s.session then record s { session = false } else s
