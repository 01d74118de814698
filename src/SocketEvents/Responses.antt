-- ===== src/SocketEvents/Responses.antt =====
-- What the client is sent, what the monitor counts, and when a socket counts as removed.
use crank4go.Base.{
  ℕ, ◌<◌, ◌≡◌, ◌≢◌, Bool, Option, none, List, refl, ap, ◌∙◌, inl, inr, true, false, some, [], ◌∷◌,
  ◌++◌, arith, sym, some_eq, Text, codes, ℤ, length, Bool-cases, Option-cases, u32_mod, inc32,
  dec32, dec32-inc32,
}
use mathlib.Core.Path.{subst}
use crank4go.Protocol.Response.{Response, new_response}
use crank4go.Protocol.Response.Laws.{new_response-headers}
use crank4go.Http.{ResponseWriter, add_header, write_header}
use crank4go.Monitor.{ConnectionMonitor}
use crank4go.Monitor.Laws.{request_num-started, request_num-ended3}
use crank4go.DarkLaunch.{DarkLaunchManager}
use crank4go.Socket.{RouterSocket, close_socket_session}
use crank4go.Farm.{Net}
use crank4go.Farm.Operations.{remove_websocket}
use crank4go.SocketEvents.{
  World, the, change, respond, finish, take_out, remove_bad_websocket, end_request,
  remove_registered, set_response, on_websocket_close, on_send_or_receive_data_error,
  on_websocket_text, takes_status, put_headers_to, text_calls, received, error_calls, write_binary,
  with_writer, Frame, text_frame, binary_frame, other_frame, on_frame, run_forever, run_plugins,
  on_websocket_binary, Ended, closed, broken, on_end,
}

no_headers :
    (s : RouterSocket) (r : Response)
    → r.headers ≡ []
    → put_headers_to s r ≡ add_header (codes "Via") (codes "1.1 crnk") ∷ []
unfolding put_headers_to
no_headers s r h = rw h

the-change :
    (p : ℕ) (f : RouterSocket → RouterSocket) (w : World) → the p (change p f w) ≡ f (the p w)
the-change p f w = ground arith

-- Without plugins, a response of the connector with a status that the client's writer takes makes
-- two calls on it, whatever headers it carries: the `Via` header is added, and the status is written.
pub on_websocket_text_lem :
    (msg : Text) (p : ℕ) (w : World) {calls : ResponseWriter} {r : Response}
    → (the p w).resp_writer ≡ some calls
    → new_response msg ≡ some r
    → takes_status calls r.status ≡ true
    → (w' : World) × (on_websocket_text [] msg p w ≡ some w')
      × ((the p w').resp_writer
          ≡ some
              (calls ++ add_header (codes "Via") (codes "1.1 crnk") ∷ write_header r.status ∷ []))
unfolding on_websocket_text received text_calls
on_websocket_text_lem msg p w {calls} {r} e parsed takes =
    let f = λ (s : RouterSocket). respond (text_calls [] s r) (received (length msg) s) in
    (
      change p f w,
      rw (on_websocket_text, e, parsed, takes),
      ap (λ (s : RouterSocket). s.resp_writer) (the-change p f w)
          ∙ rw
              (e, no_headers (received (length msg) (the p w)) r (new_response-headers msg parsed)),
    )

finish-monitor : (p : ℕ) (w : World) → (finish p w).net.conn_monitor ≡ w.net.conn_monitor
unfolding finish
finish-monitor p w = ground arith

remove_registered-monitor :
    (m : DarkLaunchManager Net) (p : ℕ) (w : World)
    → (remove_registered m p w).net.conn_monitor ≡ w.net.conn_monitor
unfolding remove_registered take_out remove_websocket
remove_registered-monitor m p w = ground arith

remove_bad-monitor :
    (m : DarkLaunchManager Net) (p : ℕ) (w : World)
    → (remove_bad_websocket m p w).net.conn_monitor ≡ w.net.conn_monitor
unfolding remove_bad_websocket take_out remove_websocket
remove_bad-monitor m p w = ground arith

end_request-request_num :
    (code : ℕ) (duration : ℤ) (p : ℕ) (w : World) {calls : ResponseWriter}
    → (the p w).resp_writer ≡ some calls
    → (end_request code duration p w).net.conn_monitor.request_num
      ≡ dec32 w.net.conn_monitor.request_num
unfolding end_request
end_request-request_num code duration p w e =
    rw (end_request, e) (request_num-ended3 _ _ w.net.conn_monitor)

module _ (m : DarkLaunchManager Net) (p : ℕ) (calls : ResponseWriter) (w : World) where
  close-request_num :
      (code : ℕ) (duration : ℤ) (w : World) {calls : ResponseWriter}
      → (the p w).resp_writer ≡ some calls
      → (on_websocket_close m code duration p w).net.conn_monitor.request_num
        ≡ dec32 w.net.conn_monitor.request_num
  unfolding on_websocket_close
  close-request_num code duration w e =
      let w₁ = change p (λ s. record s { session = false }) w in
      ap (λ (x : ConnectionMonitor). x.request_num)
        (remove_registered-monitor m p (finish p (end_request code duration p w₁))
          ∙ finish-monitor p (end_request code duration p w₁))
      ∙ end_request-request_num code duration p w₁ (
          ap (λ (s : RouterSocket). s.resp_writer)
            (the-change p (λ s. record s { session = false }) w)
          ∙ e)

  broken-monitor :
      (err : Text) (w : World)
      → (on_send_or_receive_data_error m err p w).net.conn_monitor ≡ w.net.conn_monitor
  unfolding on_send_or_receive_data_error
  broken-monitor err w =
      finish-monitor p (change p (respond (error_calls err)) (remove_bad_websocket m p w))
      ∙ remove_bad-monitor m p w

  -- The monitor's count stays, and a socket with a writer keeps one.
  abbrev IsQuiet : World → World → Type 0
  IsQuiet w w' =
      (w'.net.conn_monitor ≡ w.net.conn_monitor)
      × ((the p w).resp_writer ≢ none → (the p w').resp_writer ≢ none)

  write_binary-IsQuiet :
      (failed : Bool) (buf : Text) (w : World) → IsQuiet w (write_binary failed buf p w)
  unfolding write_binary received finish close_socket_session
  write_binary-IsQuiet failed buf w = (ground arith, λ h. ground (arith, h))

  text-IsQuiet :
      (plugins : List (Response → Response)) (msg : Text) (r : Response) (w : World)
      → IsQuiet w (change p (λ s. respond (text_calls plugins s r) (received (length msg) s)) w)
  unfolding received
  text-IsQuiet plugins msg r w = (refl, λ h. ground (arith, h))

  with_writer-IsQuiet :
      (o : Option ResponseWriter) (w v : World) {w' : World}
      → IsQuiet w v
      → with_writer o v ≡ some w'
      → IsQuiet w w'
  unfolding with_writer
  with_writer-IsQuiet none w v quiet h = cc
  with_writer-IsQuiet (some calls) w v quiet h = subst (IsQuiet w) (some_eq h) quiet

  on_frame-IsQuiet :
      (plugins : List (Response → Response)) (frame : Frame) (w : World) {w' : World}
      → on_frame plugins p frame w ≡ some w'
      → IsQuiet w w'
  unfolding on_frame on_websocket_text on_websocket_binary with_writer received
  on_frame-IsQuiet plugins (text_frame msg) w {w'} h = elim (Option-cases (the p w).resp_writer) [
    | inl e ↦ subst (IsQuiet w) (some_eq (rw (on_websocket_text, e) at h)) (refl, λ k. k)
    | inr (calls, e) ↦ (elim (Option-cases (new_response msg)) [
      | inl k ↦ cc (rw (on_websocket_text, e, k) at h)
      | inr (r, k) ↦ (elim (Bool-cases (takes_status calls (run_plugins plugins r).status)) [
        | inl t ↦
            subst (IsQuiet w) (some_eq (rw (on_websocket_text, e, k, t) at h))
              (text-IsQuiet plugins msg r w)
        | inr t ↦ cc (rw (on_websocket_text, e, k, t) at h)
      ])
    ])
  ]
  on_frame-IsQuiet plugins (binary_frame failed buf) w {w'} h =
      with_writer-IsQuiet (the p w).resp_writer w (write_binary failed buf p w)
        (write_binary-IsQuiet failed buf w) h
  on_frame-IsQuiet plugins other_frame w h = subst (IsQuiet w) (some_eq h) (refl, λ k. k)

  -- What the connection's end makes of the count of requests.
  abbrev pub counted_after : Ended → ℕ → ℕ
  counted_after (closed code duration) n = n
  counted_after (broken err) n = inc32 n

  end-request_num :
      (end : Ended) (u : World)
      → (the p u).resp_writer ≢ none
      → u.net.conn_monitor.request_num ≡ inc32 w.net.conn_monitor.request_num
      → w.net.conn_monitor.request_num < u32_mod
      → (on_end m p end u).net.conn_monitor.request_num
        ≡ counted_after end w.net.conn_monitor.request_num
  unfolding on_end
  end-request_num (closed code duration) u has_writer counted word =
      elim (Option-cases (the p u).resp_writer) [
        | inl e ↦ absurd (has_writer e)
        | inr (calls, e) ↦
            close-request_num code duration u e
            ∙ ap dec32 counted
            ∙ dec32-inc32 w.net.conn_monitor.request_num word
      ]
  end-request_num (broken err) u has_writer counted word =
      ap (λ (x : ConnectionMonitor). x.request_num) (broken-monitor err u) ∙ counted

  loop-request_num :
      (plugins : List (Response → Response)) (frames : List Frame) (end : Ended) (u : World)
      {w' : World}
      → (the p u).resp_writer ≢ none
      → u.net.conn_monitor.request_num ≡ inc32 w.net.conn_monitor.request_num
      → w.net.conn_monitor.request_num < u32_mod
      → run_forever m plugins p frames end u ≡ some w'
      → w'.net.conn_monitor.request_num ≡ counted_after end w.net.conn_monitor.request_num
  unfolding run_forever
  loop-request_num plugins [] end u has_writer counted word h =
      ap (λ (v : World). v.net.conn_monitor.request_num) (sym (some_eq h))
      ∙ end-request_num end u has_writer counted word
  loop-request_num plugins (frame ∷ frames) end u has_writer counted word h =
      elim (Option-cases (on_frame plugins p frame u)) [
        | inl e ↦ cc (rw (run_forever, e) at h)
        | inr (v, e) ↦
            let (same, keeps) = on_frame-IsQuiet plugins frame u e in
            loop-request_num plugins frames end v (keeps has_writer)
              (ap (λ (x : ConnectionMonitor). x.request_num) same ∙ counted) word
              (rw (run_forever, e) at h)
      ]

  -- A request is counted, in a word of 32 bits, when its socket gets it. When the socket's loop has
  -- ended, whatever frames came, it is counted off if the connector closed the connection, and is
  -- still counted if the connection broke with an error.
  pub request_num-run_forever :
      (plugins : List (Response → Response)) (frames : List Frame) (end : Ended) {w' : World}
      → w.net.conn_monitor.request_num < u32_mod
      → run_forever m plugins p frames end (set_response p calls w) ≡ some w'
      → w'.net.conn_monitor.request_num ≡ counted_after end w.net.conn_monitor.request_num
  unfolding set_response
  request_num-run_forever plugins frames end word h =
      loop-request_num plugins frames end (set_response p calls w) (ground arith)
        (request_num-started w.net.conn_monitor) word h

take_out-removed :
    (m : DarkLaunchManager Net) (p : ℕ) (w : World) → (the p (take_out m p w)).is_removed ≡ true
unfolding take_out remove_websocket
take_out-removed m p w = ground arith

finish-removed : (p : ℕ) (w : World) → (the p (finish p w)).is_removed ≡ (the p w).is_removed
unfolding finish
finish-removed p w = ground arith

finish-register : (p : ℕ) (w : World) → (the p (finish p w)).is_register ≡ (the p w).is_register
unfolding finish
finish-register p w = ground arith

respond-removed :
    (calls : ResponseWriter) (s : RouterSocket) → (respond calls s).is_removed ≡ s.is_removed
respond-removed calls s = ground arith

end_request-register :
    (code : ℕ) (duration : ℤ) (p : ℕ) (w : World)
    → (the p (end_request code duration p w)).is_register ≡ (the p w).is_register
unfolding end_request
end_request-register code duration p w = elim (Option-cases (the p w).resp_writer) [
  | inl e ↦ rw (end_request, e)
  | inr (calls, e) ↦ ground arith
]

remove_registered-removed :
    (m : DarkLaunchManager Net) (p : ℕ) (w : World)
    → (the p w).is_register ≡ true
    → (the p (remove_registered m p w)).is_removed ≡ true
unfolding remove_registered
remove_registered-removed m p w h = ground (arith, take_out-removed m p w)

remove_bad-removed :
    (m : DarkLaunchManager Net) (p : ℕ) (w : World)
    → (the p (remove_bad_websocket m p w)).is_removed ≡ true
unfolding remove_bad_websocket
remove_bad-removed m p w = elim (Bool-cases (the p w).is_removed) [
  | inl e ↦ ground arith
  | inr e ↦ ground (arith, take_out-removed m p (change p close_socket_session w))
]

-- A registered socket is marked as removed when its connection ends, however it ends.
pub on_end-removed :
    (m : DarkLaunchManager Net) (p : ℕ) (end : Ended) (w : World)
    → (the p w).is_register ≡ true
    → (the p (on_end m p end w)).is_removed ≡ true
unfolding on_end on_websocket_close on_send_or_receive_data_error
on_end-removed m p (closed code duration) w h =
    let f = λ (s : RouterSocket). record s { session = false } in
    let w₁ = end_request code duration p (change p f w) in
    remove_registered-removed m p (finish p w₁) (
      finish-register p w₁
      ∙ end_request-register code duration p (change p f w)
      ∙ ap (λ (s : RouterSocket). s.is_register) (the-change p f w)
      ∙ h)
on_end-removed m p (broken err) w h =
    let w₁ = remove_bad_websocket m p w in
    finish-removed p (change p (respond (error_calls err)) w₁)
    ∙ ap (λ (s : RouterSocket). s.is_removed) (the-change p (respond (error_calls err)) w₁)
    ∙ respond-removed (error_calls err) (the p w₁)
    ∙ remove_bad-removed m p w
