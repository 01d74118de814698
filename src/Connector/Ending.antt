-- ===== src/Connector/Ending.antt =====
-- connector/connector_socket.go: how a websocket ends, the retry behind it, and the loop that reads
-- it; and the dialing of connector/connector.go.
pub mod Sound
pub mod Keeps
use crank4go.Base.{
  ℕ, Bool, true, false, not, ◌&&◌, ◌||◌, Option, none, some, ◌>>=◌, List, [], ◌∷◌, Text, codes,
  if◌then◌else◌, ◌==◌,
}
use crank4go.Connector.Farm.{url_string, remove_websocket, retry_after_millis}
use crank4go.Connector.Plugins.{ConnectorPlugin}
use crank4go.Connector.Target.{IntermediateRequest, cancel_err, abort}
use crank4go.Connector.Client.{ConnectorSocket, ended, Client, change, with_farm, when_consumed}
use crank4go.Connector.Socket.{
  socket, mark_added, close_internal_server_err, on_websocket_connect, on_websocket_text,
  on_websocket_binary,
}

-- `clean`, and the ping task that is cancelled.
pub end_session : ConnectorSocket → ConnectorSocket
end_session s = record s {
  phase = ended;
  session = false;
  ping_cancelled = s.ping_cancelled || s.cancel_ping;
  cancel_ping = false;
}

-- The socket is replaced now.
replace_socket : ℕ → Client → Client
unfolding mark_added
replace_socket p c =
    change p mark_added
      (when_consumed p (with_farm (remove_websocket (url_string (socket p c).register_url)) c))

unless_added : ℕ → Client → Client
unfolding replace_socket
unless_added p c = if (socket p c).new_socket_added then c else replace_socket p c

pub abort_request : Option IntermediateRequest → Option IntermediateRequest
abort_request none = none
abort_request (some r) =
    some (abort (cancel_err (codes "the websocket session to router is close")) r)

pub give_up : ℕ → ConnectorSocket → ConnectorSocket
unfolding abort_request
give_up code s =
    if not s.request_complete && not (code == close_internal_server_err)
    then record s { request_to_target = abort_request s.request_to_target }
    else s

-- The reply to the close frame is never sent, since the session is nil by then.
unfoldable pub on_websocket_close : ℕ → ℕ → Client → Client
unfolding end_session unless_added give_up
on_websocket_close code p c = change p (give_up code) (unless_added p (change p end_session c))

pub end_ping : ConnectorSocket → ConnectorSocket
end_ping s = record s {
  phase = ended;
  had_error = true;
  ping_cancelled = s.ping_cancelled || s.cancel_ping;
  cancel_ping = false;
}

-- The timer is set unless the connector is being shut down.
pub set_timer : Bool → ℕ → ConnectorSocket → ConnectorSocket
set_timer parent_done delay s = record s {
  session = false;
  retry = if parent_done then s.retry else some delay;
}

retry_later : ℕ → Client → Client
unfolding set_timer end_ping
retry_later p c =
    let s = socket p c in
    let delay = retry_after_millis (c.infos s.conn_info) in
    change p (λ s. set_timer c.parent_done delay (end_ping s))
      (with_farm (remove_websocket (url_string s.register_url)) c)

at_end : ConnectorSocket → ConnectorSocket
at_end s = record s { phase = ended }

-- A second error is ignored.
unfoldable pub on_websocket_error : ℕ → Client → Client
unfolding at_end end_ping retry_later
on_websocket_error p c =
    if (socket p c).had_error
    then change p at_end c
    else if (socket p c).new_socket_added
    then change p end_ping c
    else retry_later p c

-- The function of the timer.
pub retried : ConnectorSocket → ConnectorSocket
retried s = record s { new_socket_added = true; retry = none }

unfoldable pub timer_fires : ℕ → Client → Client
unfolding retried
timer_fires p c = change p retried (when_consumed p c)

-- What `ReadMessage` returns: a frame (for a binary one, whether the pipe refuses it), or how the
-- connection ends.
pub data Frame : Type 0 where
  text_frame : Text → Frame
  binary_frame : Bool → Text → Frame
  other_frame : Frame

pub data Ended : Type 0 where
  closed : ℕ → Ended
  broken : Ended

unfoldable pub on_frame :
    (Text → Option Text) → List ConnectorPlugin → ℕ → Frame → Client → Option Client
unfolding on_websocket_text on_websocket_binary
on_frame resolve plugins p (text_frame msg) c = on_websocket_text resolve plugins msg p c
on_frame resolve plugins p (binary_frame failed payload) c = on_websocket_binary failed payload p c
on_frame resolve plugins p other_frame c = some c

unfoldable pub on_end : ℕ → Ended → Client → Client
unfolding on_websocket_close on_websocket_error
on_end p (closed code) c = on_websocket_close code p c
on_end p broken c = on_websocket_error p c

-- runForever
unfoldable pub run_forever :
    (Text → Option Text) → List ConnectorPlugin → ℕ → List Frame → Ended → Client → Option Client
unfolding on_frame on_end
run_forever resolve plugins p [] end c = some (on_end p end c)
run_forever resolve plugins p (frame ∷ frames) end c =
    on_frame resolve plugins p frame c >>= run_forever resolve plugins p frames end

-- What the goroutine of connectToRouter does: the dial fails, or the websocket is read to its end.
pub data Connection : Type 0 where
  dial_failed : Connection
  dialed : List Frame → Ended → Connection

unfoldable pub connection :
    (Text → Option Text) → List ConnectorPlugin → ℕ → Connection → Client → Option Client
unfolding on_websocket_error on_websocket_connect run_forever
connection resolve plugins p dial_failed c = some (on_websocket_error p c)
connection resolve plugins p (dialed frames end) c =
    run_forever resolve plugins p frames end (on_websocket_connect p c)
