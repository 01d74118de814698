-- ===== src/ReverseProxy/Sending.antt =====
-- The frames that a request is sent in, and what the client's wait comes to when a write fails.
use crank4go.Base.{
  ℕ, ◌+◌, ◌≡◌, refl, ap, ◌∙◌, true, Option, none, some, List, [], ◌∷◌, ◌++◌, arith, Text, All,
  Lacks, count, if◌then◌else◌,
}
use crank4go.Protocol.Headers.{nl, space, new_headers_builder}
use crank4go.Protocol.Request.{
  Request, build, new_request, with_req_body_pending, with_req_has_no_body,
}
use crank4go.Protocol.Request.Laws.{request_line}
use crank4go.Http.{HttpRequest, ResponseWriter}
use crank4go.DarkLaunch.{DarkLaunchManager}
use crank4go.Farm.{Net}
use crank4go.SocketEvents.{World, the, change, set_response, broken, on_end}
use crank4go.SocketEvents.Finishing.{waiting, on_end-Balanced}
use crank4go.ReverseProxy.{set_target_req_headers, request_uri}
use crank4go.ReverseProxy.Handling.{
  Body, chunk, end_of_body, Outgoing, text_message, data_message, Outcome, complete, raised,
  Transmission, ended_message, send_ended, send_chunk, send_body, request_builder, reparsed,
  transmit, recovered, sent_bytes, bytes_of, send_request_over_websocket,
}
use crank4go.ReverseProxy.Headers.{sent_lines}
use crank4go.ReverseProxy.Message.{new_request-proxied}

-- A body that is read in chunks, the last of them with io.EOF.
abbrev pub body_of : List Text → Text → Body
body_of [] last = end_of_body last
body_of (buf ∷ bufs) last = chunk buf (body_of bufs last)

-- A frame for each chunk that is not empty.
abbrev pub data_frames : List Text → List Outgoing
data_frames [] = []
data_frames ([] ∷ bufs) = data_frames bufs
data_frames ((c ∷ buf) ∷ bufs) = data_message (c ∷ buf) ∷ data_frames bufs

abbrev pub no_failure : ℕ → Option Text
no_failure i = none

send_body-complete :
    (i : ℕ) (bufs : List Text) (last : Text)
    → send_body no_failure i (body_of bufs last)
      ≡ (data_frames (bufs ++ last ∷ []) ++ text_message ended_message ∷ [], complete)
unfolding send_body send_chunk send_ended
send_body-complete i [] [] = refl
send_body-complete i [] (c ∷ last) = refl
send_body-complete i ([] ∷ bufs) last = send_body-complete (i + 0) bufs last
send_body-complete i ((c ∷ buf) ∷ bufs) last =
    ap (λ (t : Transmission). (data_message (c ∷ buf) ∷ t.0, t.1))
      (send_body-complete (i + 1) bufs last)

reparsed-read :
    (msg : Text) (frames : List Outgoing) {q : Request}
    → new_request msg ≡ some q
    → reparsed msg (frames, complete) ≡ (frames, complete)
unfolding reparsed
reparsed-read msg frames e = rw (reparsed, e)

module _ (by : Text) (r : HttpRequest) (method_word : Lacks space r.method)
    (uri_word : Lacks space (request_uri r))
    (line : Lacks nl (request_line r.method (request_uri r)))
    (lines : All (Lacks nl) (sent_lines by r)) where
  -- When no write fails and the body is read to its end, method and URI hold no space, and the request
  -- line and the header lines hold no newline: a request with a body is sent as its message, one data
  -- frame for each chunk of the body that is not empty, in order, and the end-of-body message; a
  -- request without one is sent as its message alone.
  pub transmit-complete :
      (bufs : List Text) (last : Text)
      → transmit no_failure by r (body_of bufs last) ≡ (
          if (set_target_req_headers by r new_headers_builder).0
          then (
            text_message (build (with_req_body_pending (request_builder by r)))
                ∷ (data_frames (bufs ++ last ∷ []) ++ text_message ended_message ∷ []),
            complete,
          )
          else (text_message (build (with_req_has_no_body (request_builder by r))) ∷ [], complete))
  unfolding transmit
  transmit-complete bufs last =
      let (bodiless, pending) = new_request-proxied by r method_word uri_word line lines in
      rw (send_body-complete, reparsed-read _ _ pending, reparsed-read _ _ bodiless)

-- Whether the client's request is still waiting after an outcome.
abbrev pub still_waits : Outcome → ℕ
still_waits complete = 1
still_waits (raised none) = 1
still_waits (raised (some e)) = 0

module _ (m : DarkLaunchManager Net) (fails : ℕ → Option Text) (by : Text) (r : HttpRequest)
    (calls : ResponseWriter) (p : ℕ) (w : World) (open_session : (the p w).session ≡ true) where
  recovered-waiting :
      (outcome : Outcome) (u : World)
      → (the p u).handle_done ≡ true
      → u.done ≡ w.done
      → (waiting p (recovered m p outcome u) ≡ still_waits outcome)
        × (count p (recovered m p outcome u).done + still_waits outcome ≡ count p w.done + 1)
  unfolding recovered on_end
  recovered-waiting complete u h e = (ground arith, ground arith)
  recovered-waiting (raised none) u h e = (ground arith, ground arith)
  recovered-waiting (raised (some err)) u h e =
      let (b, finished) = on_end-Balanced p m (broken err) u in
      (ground (arith, finished), ground (arith, b.balance, finished))

  -- If the socket has a session, then after the sending the client's request waits on, exactly if
  -- nothing was raised or `panic(nil)` was; else `Done` was called for it once.
  pub send_request-waiting :
      (body : Body)
      → let w' = send_request_over_websocket m fails by r body calls p w in
        (waiting p w' ≡ still_waits (transmit fails by r body).1)
        × (count p w'.done + still_waits (transmit fails by r body).1 ≡ count p w.done + 1)
  unfolding send_request_over_websocket set_response sent_bytes
  send_request-waiting body =
      let (frames, outcome) = transmit fails by r body in
      let u = change p (sent_bytes (bytes_of frames)) (set_response p calls w) in
      let open_still : (the p (set_response p calls w)).session ≡ true = ground arith in
      rw open_still (recovered-waiting outcome u (ground arith) refl)

  -- If the socket has a session, the request goes with a body, its message is written, and the write of
  -- the body's first bytes fails, which were read without an error: then `panic(err)` raises the nil
  -- error of the read, no error is handled, and after the sending the request still waits, without
  -- a call of `Done`.
  pub send_request-stuck :
      (c : ℕ) (buf err : Text) (body : Body)
      → (set_target_req_headers by r new_headers_builder).0 ≡ true
      → fails 0 ≡ none
      → fails 1 ≡ some err
      → let w' = send_request_over_websocket m fails by r (chunk (c ∷ buf) body) calls p w in
        (waiting p w' ≡ 1) × (count p w'.done ≡ count p w.done)
  unfolding transmit reparsed send_body send_chunk
  send_request-stuck c buf err body has_body first second =
      let outcome : (transmit fails by r (chunk (c ∷ buf) body)).1 ≡ raised none =
        rw (has_body, first, second) in
      let (waits, once) = send_request-waiting (chunk (c ∷ buf) body) in
      let still : still_waits (transmit fails by r (chunk (c ∷ buf) body)).1 ≡ 1 =
        ap still_waits outcome in
      (waits ∙ still, omega (arith, once, still))
