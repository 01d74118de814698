-- ===== src/Connector/Events.antt =====
-- connector/connector_socket.go: the response of the target, the end of a websocket, and the loop.
pub mod Keeps
pub mod Relaying
pub mod Abandoned
use crank4go.Base.{
  ℕ, Bool, true, false, ◌||◌, Option, none, some, ◌>>=◌, List, [], ◌∷◌, ◌++◌, Text, if◌then◌else◌,
}
use crank4go.Monitor.{on_connection_ended}
use crank4go.Protocol.Response.{
  ResponseBuilder, with_resp_status, with_resp_reason, with_resp_headers, build, new_response,
  to_protocol_message,
}
use crank4go.Connector.Plugins.{ConnectorPlugin, handle_plugins_after_response_received}
use crank4go.Connector.Target.{
  Failure, IntermediateRequest, TargetResponse, Answer, SentFrame, text_message, close_message,
  Fired, fire_request,
}
use crank4go.Connector.Client.{ConnectorSocket, Client, change, with_monitor}
use crank4go.Connector.Socket.{
  close_normal_closure, close_internal_server_err, socket, parse_headers,
}

-- The builder of the message about a response.
unfoldable pub response_builder : TargetResponse → ResponseBuilder → ResponseBuilder
response_builder resp b =
    with_resp_headers (with_resp_reason (with_resp_status b resp.status_code) resp.status)
      (parse_headers resp.header)

-- How the websocket and the carriers behave, and which plugins there are.
pub record Surroundings : Type 0 where
  pub plugins : List ConnectorPlugin
  pub close_fails : ℕ → Bool
  pub write_fails : ℕ → Option Text

text_frame : Option Text → Text → List SentFrame
text_frame none msg = text_message msg ∷ []
text_frame (some err) msg = []

-- onResponseBegin: without a session it panics; a write that fails is only logged. What it has
-- done before a panic is not looked at again.
unfoldable pub on_response_begin :
    Surroundings → Bool → TargetResponse → IntermediateRequest → Option Fired
unfolding response_builder text_frame
on_response_begin env session resp r = do
  msg ← build (response_builder resp r.ptc_resp)
  parsed ← new_response msg
  out ← handle_plugins_after_response_received env.close_fails env.plugins parsed r.carriers
  written ← to_protocol_message out.0
  if session
      then some (text_frame (env.write_fails 0) written, record r { carriers = out.1 })
      else none

-- A close frame is sent if there is a session.
also_close : ℕ → ConnectorSocket → ConnectorSocket
also_close code s = if s.session then record s { sent = s.sent ++ close_message code ∷ [] } else s

cancel : ConnectorSocket → ConnectorSocket
cancel s = record s { ping_cancelled = s.ping_cancelled || s.cancel_ping }

completed : ℕ → Bool → ConnectorSocket → ConnectorSocket
unfolding also_close cancel
completed code is_complete s =
    also_close code (record (cancel s) { request_complete = is_complete })

-- The callback. A request that neither succeeded nor has a failure makes it panic.
callback : Bool → Option Failure → ℕ → Client → Option Client
unfolding completed
callback true failure p c =
    some (with_monitor on_connection_ended (change p (completed close_normal_closure true) c))
callback false (some err) p c =
    some (with_monitor on_connection_ended (change p (completed close_internal_server_err false) c))
callback false none p c = none

-- The request's goroutine has written its frames and is at its end.
fired : Fired → ConnectorSocket → ConnectorSocket
fired t s = record s { request_to_target = some t.1; sent = s.sent ++ t.0; firing = false }

answer_to : Surroundings → Answer → ℕ → Option IntermediateRequest → Client → Option Client
unfolding callback fired
answer_to env answer p none c = some c
answer_to env answer p (some r) c =
    let t = fire_request (on_response_begin env (socket p c).session) env.write_fails answer r in
    callback t.1.is_succeeded t.1.failure p (change p (fired t) c)

-- The goroutine that fires the request, when the target's answer comes.
unfoldable pub target_answers : Surroundings → Answer → ℕ → Client → Option Client
unfolding answer_to
target_answers env answer p c = answer_to env answer p (socket p c).request_to_target c
