-- ===== src/SocketEvents.antt =====
-- router/router_socket/router_socket.go: what a `RouterSocket` does on the events of its websocket,
-- with the farm, the monitor and the client's request that it works on.
pub mod Finishing
pub mod Responses
pub mod Writing
mod Tests
use crank4go.Base.{
  ℕ, ◌+◌, ◌%◌, Bool, true, false, not, ◌&&◌, ◌||◌, Option, none, some, ◌>>=◌, List, [], ◌∷◌, ◌++◌,
  ℤ, pos, negsuc, leb, Text, codes, text_eq, to_lower, contains, cut_at, length, if◌then◌else◌,
  ◌==◌, u64_mod, to_int64,
}
use crank4go.Protocol.Headers.{colon}
use crank4go.Protocol.Response.{Response, new_response}
use crank4go.Http.{WriterCall, add_header, set_header, write_header, write, ResponseWriter}
use crank4go.Monitor.{ConnectionMonitor, on_connection_started, on_connection_ended3, RequestStats}
use crank4go.DarkLaunch.{DarkLaunchManager}
use crank4go.Socket.{RouterSocket, close_socket_session}
use crank4go.Farm.{Net, update}
use crank4go.Farm.Operations.{remove_websocket}

-- `done` are the sockets whose wait group was told that a request is done, a history.
pub record World : Type 0 where
  pub net : Net
  pub done : List ℕ

abbrev pub the : ℕ → World → RouterSocket
the p w = w.net.heap p

abbrev pub change : ℕ → (RouterSocket → RouterSocket) → World → World
change p f w = record w { net = record w.net { heap = update w.net.heap p f } }

-- A call on the client's response writer; on a nil writer it panics, so it is made behind a test.
abbrev pub respond : ResponseWriter → RouterSocket → RouterSocket
respond calls s = elim s.resp_writer [
  | none ↦ s
  | some w ↦ record s { resp_writer = some (w ++ calls) }
]

-- `if s.handleDone != nil { s.handleDone.Done(); s.handleDone = nil }`
unfoldable pub finish : ℕ → World → World
finish p w =
    if (the p w).handle_done
    then record (change p (λ s. record s { handle_done = false }) w) { done = p ∷ w.done }
    else w

-- `calls` are the calls that the client's writer has seen already.
unfoldable pub set_response : ℕ → ResponseWriter → World → World
set_response p calls w =
    change p (λ s. record s { resp_writer = some calls; handle_done = true })
      (record w { net = record w.net { conn_monitor = on_connection_started w.net.conn_monitor } })

unfoldable pub take_out : DarkLaunchManager Net → ℕ → World → World
take_out m p w =
    change p (λ s. record s { is_removed = true })
      (record w { net = remove_websocket m (the p w).route p w.net })

-- removeBadWebsocket
unfoldable pub remove_bad_websocket : DarkLaunchManager Net → ℕ → World → World
unfolding take_out
remove_bad_websocket m p w =
    if (the p w).is_removed then w else take_out m p (change p close_socket_session w)

-- `failed` is whether the write of the control frame returned an error.
unfoldable pub send_ping_to_connector : DarkLaunchManager Net → Bool → ℕ → World → World
unfolding remove_bad_websocket
send_ping_to_connector m failed p w =
    if (the p w).session && failed then remove_bad_websocket m p w else w

abbrev pub close_internal_server_err : ℕ
close_internal_server_err = 1011

abbrev pub close_policy_violation : ℕ
close_policy_violation = 1008

close_calls : ℕ → ResponseWriter
close_calls code =
    if code == close_internal_server_err
    then write_header (pos 502) ∷ []
    else if code == close_policy_violation
    then write_header (pos 400) ∷ []
    else []

-- The report and the answer to the waiting client, if there is one.
end_request : ℕ → ℤ → ℕ → World → World
unfolding close_calls
end_request code duration p w = elim (the p w).resp_writer [
  | none ↦ w
  | some calls ↦ change p (respond (close_calls code)) (record w {
    net = record w.net {
      conn_monitor =
          on_connection_ended3 (the p w).route
            (record {
              resp_status = pos 200;
              req_duration = duration;
              req_bytes = to_int64 (the p w).bytes_sent;
              resp_bytes = to_int64 (the p w).bytes_received;
            })
            w.net.conn_monitor;
    };
  })
]

remove_registered : DarkLaunchManager Net → ℕ → World → World
unfolding take_out
remove_registered m p w =
    if (the p w).is_register && not (the p w).is_removed then take_out m p w else w

unfoldable pub on_websocket_close : DarkLaunchManager Net → ℕ → ℤ → ℕ → World → World
unfolding end_request finish remove_registered
on_websocket_close m code duration p w =
    remove_registered m p
      (finish p (end_request code duration p (change p (λ s. record s { session = false }) w)))

-- A line is sent on if it has a name in front of a colon that is not held back.
abbrev pub holds_back : List Text → Text → Bool
holds_back [] name = false
holds_back (held ∷ names) name = text_eq held name || holds_back names name

sent_line : List Text → Option (Text × Text) → ResponseWriter
sent_line held none = []
sent_line held (some ([], value)) = []
sent_line held (some (c ∷ name, value)) =
    if holds_back held (to_lower (c ∷ name)) then [] else add_header (c ∷ name) value ∷ []

unfoldable pub sent_headers : List Text → List Text → ResponseWriter
unfolding sent_line
sent_headers held [] = []
sent_headers held (line ∷ lines) = sent_line held (cut_at colon line) ++ sent_headers held lines

-- putHeadersTo, on the calls that it makes.
unfoldable pub put_headers_to : RouterSocket → Response → ResponseWriter
unfolding sent_headers
put_headers_to s r =
    sent_headers s.resp_headers_not_send_back r.headers
    ++ add_header (codes "Via") (codes "1.1 crnk") ∷ []

-- What the plugins make of the response; their errors are only logged.
abbrev pub run_plugins : List (Response → Response) → Response → Response
run_plugins [] r = r
run_plugins (f ∷ fs) r = run_plugins fs (f r)

received : ℕ → RouterSocket → RouterSocket
received n s = record s { bytes_received = (s.bytes_received + n) % u64_mod }

text_calls : List (Response → Response) → RouterSocket → Response → ResponseWriter
unfolding put_headers_to
text_calls plugins s r =
    put_headers_to s (run_plugins plugins r) ++ write_header (run_plugins plugins r).status ∷ []

-- A writer whose header is written ignores a status; before that net/http panics on a status that is
-- no number of three digits.
abbrev pub wrote_header : ResponseWriter → Bool
wrote_header [] = false
wrote_header (add_header name value ∷ calls) = wrote_header calls
wrote_header (set_header name value ∷ calls) = wrote_header calls
wrote_header (write_header status ∷ calls) = true
wrote_header (write buf ∷ calls) = true

abbrev pub is_status : ℤ → Bool
is_status (pos n) = leb 100 n && leb n 999
is_status (negsuc n) = false

abbrev pub takes_status : ResponseWriter → ℤ → Bool
takes_status calls status = wrote_header calls || is_status status

-- A message that is no response panics, and so does a status that the writer does not take: `none`.
unfoldable pub on_websocket_text : List (Response → Response) → Text → ℕ → World → Option World
unfolding received text_calls
on_websocket_text plugins msg p w = elim (the p w).resp_writer [
  | none ↦ some w
  | some calls ↦ (elim (new_response msg) [
    | none ↦ none
    | some r ↦
        if takes_status calls (run_plugins plugins r).status
        then some (change p (λ s. respond (text_calls plugins s r) (received (length msg) s)) w)
        else none
  ])
]

-- `failed` is whether the client's writer returned an error.
write_binary : Bool → Text → ℕ → World → World
unfolding received finish
write_binary failed buf p w =
    let w' = change p (λ s. respond (write buf ∷ []) (received (length buf) s)) w in
    if failed then change p close_socket_session (finish p w') else w'

-- Without a writer the call panics.
with_writer : Option ResponseWriter → World → Option World
with_writer none w = none
with_writer (some calls) w = some w

unfoldable pub on_websocket_binary : Bool → Text → ℕ → World → Option World
unfolding write_binary with_writer
on_websocket_binary failed buf p w = with_writer (the p w).resp_writer (write_binary failed buf p w)

error_calls : Text → ResponseWriter
error_calls err =
    if contains err (codes "timeout")
    then write_header (pos 504) ∷ write (codes "504 Gateway Timeout, err: " ++ err) ∷ []
    else write_header (pos 502) ∷ write (codes "502 Bad Gateway, err: " ++ err) ∷ []

-- OnSendOrReceiveDataError, and OnWebsocketError, which calls it.
unfoldable pub on_send_or_receive_data_error : DarkLaunchManager Net → Text → ℕ → World → World
unfolding remove_bad_websocket error_calls finish
on_send_or_receive_data_error m err p w =
    finish p (change p (respond (error_calls err)) (remove_bad_websocket m p w))

sent : ℕ → RouterSocket → RouterSocket
sent n s = record s { bytes_sent = (s.bytes_sent + n) % u64_mod }

-- SendText and SendData count the bytes and write one frame; without a session they panic.
unfoldable pub send_frame : Text → ℕ → World → Option World
unfolding sent
send_frame msg p w = if (the p w).session then some (change p (sent (length msg)) w) else none

-- What `ReadMessage` returns: a frame (for a binary one, whether the client takes it), or how the
-- connection ends.
pub data Frame : Type 0 where
  text_frame : Text → Frame
  binary_frame : Bool → Text → Frame
  other_frame : Frame

pub data Ended : Type 0 where
  closed : ℕ → ℤ → Ended
  broken : Text → Ended

unfoldable pub on_frame : List (Response → Response) → ℕ → Frame → World → Option World
unfolding on_websocket_text on_websocket_binary
on_frame plugins p (text_frame msg) w = on_websocket_text plugins msg p w
on_frame plugins p (binary_frame failed buf) w = on_websocket_binary failed buf p w
on_frame plugins p other_frame w = some w

unfoldable pub on_end : DarkLaunchManager Net → ℕ → Ended → World → World
unfolding on_websocket_close on_send_or_receive_data_error
on_end m p (closed code duration) w = on_websocket_close m code duration p w
on_end m p (broken err) w = on_send_or_receive_data_error m err p w

-- runForever
unfoldable pub run_forever :
    DarkLaunchManager Net
    → List (Response → Response)
    → ℕ
    → List Frame
    → Ended
    → World
    → Option World
unfolding on_frame on_end
run_forever m plugins p [] end w = some (on_end m p end w)
run_forever m plugins p (frame ∷ frames) end w =
    on_frame plugins p frame w >>= run_forever m plugins p frames end

-- OnWebsocketConnect up to its loop; `ready` is the action that the registration has set.
unfoldable pub connected : Text → (World → World) → ℕ → World → World
connected addr ready p w =
    let w' = change p (λ s. record s { session = true; remote_addr = addr }) w in
    if (the p w').is_register then ready w' else w'

unfoldable pub on_websocket_connect :
    DarkLaunchManager Net
    → List (Response → Response)
    → Text
    → (World → World)
    → ℕ
    → List Frame
    → Ended
    → World
    → Option World
unfolding run_forever connected
on_websocket_connect m plugins addr ready p frames end w =
    run_forever m plugins p frames end (connected addr ready p w)
