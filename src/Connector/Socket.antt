-- ===== src/Connector/Socket.antt =====
-- connector/connector_socket.go: what a `ConnectorSocket` does on the events of its websocket, and
-- when the target's response comes. `none` is a panic that nothing recovers from.
pub mod Keeps
pub mod Headers
use crank4go.Base.{
  ℕ, Bool, true, false, ◌||◌, Option, none, some, ◌>>=◌, List, [], ◌∷◌, ◌++◌, Text, codes, cut_at,
  if◌then◌else◌,
}
use crank4go.Http.{Header}
use crank4go.Monitor.{on_connection_started}
use crank4go.Protocol.Headers.{colon, HeadersBuilder, new_headers_builder, append_header}
use crank4go.Protocol.Request.{
  Request, new_request, request_body_pending, request_body_ended, request_has_no_body,
}
use crank4go.Protocol.Response.{new_response_builder, with_source_url, with_http_method}
use crank4go.Connector.Farm.{url_string, remove_websocket, on_connected_successfully}
use crank4go.Connector.Plugins.{
  ConnectorPlugin, new_connector_plugin_stat_carriers, handle_plugins_before_request_sent,
}
use crank4go.Connector.Target.{
  IntermediateRequest, new_intermediate_request, add, agent, with_method, content,
}
use crank4go.Connector.Client.{
  ConnectorSocket, reading, Client, change, change_info, with_monitor, with_farm, when_consumed,
}

abbrev pub socket : ℕ → Client → ConnectorSocket
socket p c = c.heap p

abbrev pub close_normal_closure : ℕ
close_normal_closure = 1000

abbrev pub close_internal_server_err : ℕ
close_internal_server_err = 1011

unfoldable pub session_opened : ConnectorSocket → ConnectorSocket
session_opened s = record s { session = true; cancel_ping = true; phase = reading }

-- OnWebsocketConnect, up to its loop.
unfoldable pub on_websocket_connect : ℕ → Client → Client
unfolding session_opened
on_websocket_connect p c = change p session_opened c

-- `failed` is whether the pipe refuses the bytes; it does when it is closed.
write_content : Bool → Text → Option (List Text × Bool) → Option (List Text × Bool)
write_content failed payload none = none
write_content failed payload (some (written, is_closed)) =
    some (if failed || is_closed then written else written ++ payload ∷ [], is_closed)

with_content : List Text × Bool → ConnectorSocket → ConnectorSocket
with_content pipe s = record s { content_writer = some pipe }

-- Without a pipe the call panics.
unfoldable pub on_websocket_binary : Bool → Text → ℕ → Client → Option Client
unfolding write_content with_content
on_websocket_binary failed payload p c =
    write_content failed payload (socket p c).content_writer >>= λ pipe.
    some (change p (with_content pipe) c)

close_content : Option (List Text × Bool) → Option (List Text × Bool)
close_content none = none
close_content (some (written, is_closed)) = some (written, true)

put_line : Option (Text × Text) → IntermediateRequest → IntermediateRequest
put_line none r = r
put_line (some ([], value)) r = r
put_line (some (b ∷ name, value)) r = add (b ∷ name) value r

put_lines : List Text → IntermediateRequest → IntermediateRequest
unfolding put_line
put_lines [] r = r
put_lines (line ∷ lines) r = put_lines lines (put_line (cut_at colon line) r)

abbrev pub lines_of : Option (List Text) → List Text
lines_of none = []
lines_of (some lines) = lines

unfoldable pub put_headers_to : Request → IntermediateRequest → IntermediateRequest
unfolding put_lines
put_headers_to req r = add (codes "Via") (codes "1.1 crnk") (put_lines (lines_of req.headers) r)

parse_values : Text → List Text → HeadersBuilder → HeadersBuilder
parse_values k [] b = b
parse_values k (v ∷ vs) b = parse_values k vs (append_header b k v)

parse_fields : Header → HeadersBuilder → HeadersBuilder
unfolding parse_values
parse_fields [] b = b
parse_fields ((k, vs) ∷ h) b = parse_fields h (parse_values k vs b)

unfoldable pub parse_headers : Header → HeadersBuilder
unfolding parse_fields
parse_headers h = parse_fields h new_headers_builder

-- The request that is made for the target, at `dest`, and the message as the plugins leave it.
unfoldable pub target_request :
    List ConnectorPlugin → Text → Request → Request × IntermediateRequest
unfolding put_headers_to
target_request plugins dest req =
    let (req', carriers) =
      handle_plugins_before_request_sent plugins req new_connector_plugin_stat_carriers in
    (
      req',
      put_headers_to req' (
          agent [] (
            with_method req'.http_method (record (new_intermediate_request dest) {
              carriers = carriers;
              ptc_resp =
                  with_http_method (with_source_url new_response_builder req.dest) req.http_method;
            }))),
    )

unfoldable pub mark_added : ConnectorSocket → ConnectorSocket
mark_added s = record s { new_socket_added = true }

unfoldable pub on_request_received : ℕ → Client → Client
unfolding mark_added
on_request_received p c =
    let s = socket p c in
    change p mark_added (
      when_consumed p (
        change_info s.conn_info on_connected_successfully
          (with_farm (remove_websocket (url_string s.register_url)) c)))

with_request : IntermediateRequest → ConnectorSocket → ConnectorSocket
with_request r s = record s { request_to_target = some r }

with_pipe : IntermediateRequest → ConnectorSocket → ConnectorSocket
with_pipe r s = record s { request_to_target = some (content r); content_writer = some ([], false) }

mark_firing : ConnectorSocket → ConnectorSocket
mark_firing s = record s { firing = true }

fire_off : ℕ → Client → Client
unfolding mark_firing
fire_off p c = with_monitor on_connection_started (change p mark_firing c)

-- sendRequestToTarget: the request is fired in a goroutine of its own.
unfoldable pub send_request_to_target : Request → IntermediateRequest → ℕ → Client → Client
unfolding with_request with_pipe fire_off
send_request_to_target req r p c =
    if request_body_pending req
    then fire_off p (change p (with_pipe r) c)
    else if request_has_no_body req
    then fire_off p (change p (with_request r) c)
    else change p (with_request r) c

-- `resolve` makes the target's URL of a destination; one that cannot be parsed panics.
first_text : (Text → Option Text) → List ConnectorPlugin → Request → ℕ → Client → Option Client
unfolding on_request_received send_request_to_target
first_text resolve plugins req p c = resolve req.dest >>= λ dest.
    let (req', r) = target_request plugins dest req in
    some (send_request_to_target req' r p (on_request_received p c))

-- A body that ends where there is no pipe panics.
later_text : Request → ℕ → Client → Option Client
unfolding close_content with_content
later_text req p c =
    let closed =
      close_content (socket p c).content_writer >>= λ pipe. some (change p (with_content pipe) c) in
    if request_body_ended req then closed else some c

unfoldable pub on_websocket_text :
    (Text → Option Text) → List ConnectorPlugin → Text → ℕ → Client → Option Client
unfolding first_text later_text
on_websocket_text resolve plugins msg p c = new_request msg >>= λ req.
    elim (socket p c).request_to_target [
      | none ↦ first_text resolve plugins req p c
      | some r ↦ later_text req p c
    ]
