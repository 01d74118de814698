-- ===== src/ReverseProxy/Handling.antt =====
-- router/reverse_proxy.go: the frames of a request, their failures, and `Handle`.
use crank4go.Base.{
  ℕ, ◌+◌, ◌%◌, inl, inr, Bool, Option, none, some, List, [], ◌∷◌, ◌++◌, pos, Text, codes, length,
  if◌then◌else◌, u64_mod,
}
use crank4go.Protocol.Headers.{new_headers_builder}
use crank4go.Protocol.Request.{
  RequestBuilder, new_request_builder, with_req_line, with_req_headers, with_req_body_pending,
  with_req_has_no_body, with_req_body_ended, build, new_request,
}
use crank4go.Http.{HttpRequest, ResponseWriter, write_header, write}
use crank4go.DarkLaunch.{DarkLaunchManager}
use crank4go.Socket.{RouterSocket}
use crank4go.Farm.{Net}
use crank4go.Farm.Operations.{acquire_socket}
use crank4go.SocketEvents.{World, the, change, set_response, on_send_or_receive_data_error}
use crank4go.ReverseProxy.{component_name_from_header, create_req_line, set_target_req_headers}

-- What `Body.Read` returns, call by call: bytes and no error, bytes and io.EOF, or bytes and an error.
pub data Body : Type 0 where
  chunk : Text → Body → Body
  end_of_body : Text → Body
  broken_body : Text → Text → Body

pub data Outgoing : Type 0 where
  text_message data_message : Text → Outgoing

-- `raised none` is `panic(nil)`.
pub data Outcome : Type 0 where
  complete : Outcome
  raised : Option Text → Outcome

-- The frames that were given to the websocket, the last one in vain if its write failed.
abbrev pub Transmission : Type 0
Transmission = List Outgoing × Outcome

abbrev pub eof : Text
eof = codes "EOF"

-- One write, by its error, and what follows it.
abbrev pub then_send : Outgoing → Option Text → Outcome → Transmission → Transmission
then_send f none otherwise rest = (f ∷ rest.0, rest.1)
then_send f (some e) otherwise rest = (f ∷ [], otherwise)

-- The error of a failed text write, which is what is raised.
abbrev pub write_error : Option Text → Outcome
write_error none = complete
write_error (some e) = raised (some e)

-- The builder without headers builds its marker alone.
abbrev pub ended_message : Text
ended_message = build (with_req_body_ended new_request_builder)

unfoldable pub send_ended : Option Text → Transmission
send_ended failed =
    then_send (text_message ended_message) failed (write_error failed) ([], complete)

-- A chunk, if there is one; its failed write raises the error of the read.
unfoldable pub send_chunk : Text → Option Text → Option Text → Transmission → Transmission
send_chunk [] failed read_error rest = rest
send_chunk (c ∷ buf) failed read_error rest =
    then_send (data_message (c ∷ buf)) failed (raised read_error) rest

-- The number of writes that a chunk takes.
abbrev pub writes_of : Text → ℕ
writes_of [] = 0
writes_of (c ∷ buf) = 1

-- `fails i` is the error of the i-th write.
unfoldable pub send_body : (ℕ → Option Text) → ℕ → Body → Transmission
unfolding send_chunk send_ended
send_body fails i (chunk buf body) =
    let rest = send_body fails (i + writes_of buf) body in send_chunk buf (fails i) none rest
send_body fails i (end_of_body buf) =
    send_chunk buf (fails i) (some eof) (send_ended (fails (i + writes_of buf)))
send_body fails i (broken_body buf err) =
    send_chunk buf (fails i) (some err) ([], raised (some err))

unfoldable pub request_builder : Text → HttpRequest → RequestBuilder
request_builder by r =
    with_req_headers (with_req_line new_request_builder (create_req_line r))
      (set_target_req_headers by r new_headers_builder).1

-- The message is parsed again for the interceptors, whose changes reach nobody. A built message has
-- several lines, so that the parser can only miss the second word of the first one.
unfoldable pub reparsed : Text → Transmission → Transmission
reparsed msg (frames, raised e) = (frames, raised e)
reparsed msg (frames, complete) = elim (new_request msg) [
  | none ↦ (frames, raised (some (codes "runtime error: index out of range [1] with length 1")))
  | some r ↦ (frames, complete)
]

unfoldable pub transmit : (ℕ → Option Text) → Text → HttpRequest → Body → Transmission
unfolding reparsed send_body
transmit fails by r body =
    let pending = build (with_req_body_pending (request_builder by r)) in
    let bodiless = build (with_req_has_no_body (request_builder by r)) in
    if (set_target_req_headers by r new_headers_builder).0
    then reparsed pending (
        then_send (text_message pending) (fails 0) (write_error (fails 0)) (send_body fails 1 body))
    else reparsed bodiless
        (then_send (text_message bodiless) (fails 0) (write_error (fails 0)) ([], complete))

unfoldable pub bytes_of : List Outgoing → ℕ
bytes_of [] = 0
bytes_of (text_message m ∷ fs) = length m + bytes_of fs
bytes_of (data_message m ∷ fs) = length m + bytes_of fs

-- The deferred function: `recover` returns nil for `panic(nil)`, as for no panic.
unfoldable pub recovered : DarkLaunchManager Net → ℕ → Outcome → World → World
recovered m p complete w = w
recovered m p (raised none) w = w
recovered m p (raised (some e)) w = on_send_or_receive_data_error m e p w

unfoldable pub sent_bytes : ℕ → RouterSocket → RouterSocket
sent_bytes n s = record s { bytes_sent = (s.bytes_sent + n) % u64_mod }

first_frame : List Outgoing → List Outgoing
first_frame [] = []
first_frame (f ∷ fs) = f ∷ []

-- `calls` are the calls that the client's writer has seen. A socket whose session is nil panics at
-- the first message, after it has counted its bytes.
unfoldable pub send_request_over_websocket :
    DarkLaunchManager Net
    → (ℕ → Option Text)
    → Text
    → HttpRequest
    → Body
    → ResponseWriter
    → ℕ
    → World
    → World
unfolding recovered bytes_of sent_bytes first_frame
send_request_over_websocket m fails by r body calls p w =
    let w' = set_response p calls w in
    let (frames, outcome) = transmit fails by r body in
    if (the p w').session
    then recovered m p outcome (change p (sent_bytes (bytes_of frames)) w')
    else recovered m p
        (raised (some (codes "runtime error: invalid memory address or nil pointer dereference")))
        (change p (sent_bytes (bytes_of (first_frame frames))) w')

-- How `Handle` goes on: the client is refused, or waits for the socket with the pointer.
pub data Handled : Type 0 where
  refused : World → ResponseWriter → Handled
  waits : World → ℕ → Handled

-- Handle; the error of AcquireSocket is always a `TimeoutErr`.
unfoldable pub handle :
    DarkLaunchManager Net
    → (ℕ → Bool)
    → List (ℕ × Bool)
    → (Text → Text)
    → Text
    → (ℕ → Option Text)
    → Text
    → HttpRequest
    → Body
    → ResponseWriter
    → World
    → Handled
handle m late arrivals canonical component fails by r body calls w =
    let (n, found) =
      acquire_socket m late arrivals r.path (component_name_from_header canonical component r)
        w.net in
    (elim found [
      | inl err ↦
          refused (record w { net = n })
            (calls ++ write_header (pos 503) ∷ write (codes "No crankers Available") ∷ [])
      | inr p ↦
          waits (send_request_over_websocket m fails by r body calls p (record w { net = n })) p
    ])
