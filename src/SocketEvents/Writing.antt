-- ===== src/SocketEvents/Writing.antt =====
-- What reaches the client of a socket when its connector answers.
use crank4go.Base.{
  true, ℕ, ◌≡◌, refl, sym, ap, ◌∙◌, false, some, List, [], ◌∷◌, ◌++◌, append_assoc, append-nil, map,
  arith, Text, codes, ℤ, length,
}
use crank4go.Protocol.Response.{Response, new_response}
use crank4go.Http.{ResponseWriter, add_header, write_header, write}
use crank4go.DarkLaunch.{DarkLaunchManager}
use crank4go.Socket.{RouterSocket}
use crank4go.Farm.{Net}
use crank4go.Farm.Operations.{remove_websocket}
use crank4go.SocketEvents.{
  takes_status, World, the, change, respond, finish, take_out, end_request, remove_registered,
  on_websocket_close, on_websocket_binary, write_binary, with_writer, received, text_frame,
  binary_frame, closed, on_frame, on_end, run_forever, close_calls,
}
use crank4go.SocketEvents.Responses.{on_websocket_text_lem}

the-change :
    (p : ℕ) (f : RouterSocket → RouterSocket) (w : World) → the p (change p f w) ≡ f (the p w)
the-change p f w = ground arith

respond-some :
    (more : ResponseWriter) (s : RouterSocket) {calls : ResponseWriter}
    → s.resp_writer ≡ some calls
    → (respond more s).resp_writer ≡ some (calls ++ more)
respond-some more s e = ground (arith, e)

module _ (m : DarkLaunchManager Net) (p : ℕ) where
  finish-writer : (w : World) → (the p (finish p w)).resp_writer ≡ (the p w).resp_writer
  unfolding finish
  finish-writer w = ground arith

  remove_registered-writer :
      (w : World) → (the p (remove_registered m p w)).resp_writer ≡ (the p w).resp_writer
  unfolding remove_registered take_out remove_websocket
  remove_registered-writer w = ground arith

  end_request-writer :
      (duration : ℤ) (w : World) {calls : ResponseWriter}
      → (the p w).resp_writer ≡ some calls
      → (the p (end_request 1000 duration p w)).resp_writer ≡ some calls
  unfolding end_request close_calls
  end_request-writer duration w {calls} e =
      rw (end_request, e)
        (ap (λ (s : RouterSocket). s.resp_writer) (the-change p (respond []) w)
          ∙ respond-some [] (the p w) e
          ∙ ap some (append-nil calls))

  -- A normal close makes no call on the client's writer.
  close-writer :
      (duration : ℤ) (w : World) {calls : ResponseWriter}
      → (the p w).resp_writer ≡ some calls
      → (the p (on_websocket_close m 1000 duration p w)).resp_writer ≡ some calls
  unfolding on_websocket_close
  close-writer duration w {calls} e =
      let f = λ (s : RouterSocket). record s { session = false } in
      let w₁ = change p f w in
      let e₁ : (the p w₁).resp_writer ≡ some calls =
        ap (λ (s : RouterSocket). s.resp_writer) (the-change p f w) ∙ e in
      remove_registered-writer (finish p (end_request 1000 duration p w₁))
      ∙ finish-writer (end_request 1000 duration p w₁)
      ∙ end_request-writer duration w₁ e₁

  binary-writes :
      (buf : Text) (w : World) {calls : ResponseWriter}
      → (the p w).resp_writer ≡ some calls
      → (w' : World) × (on_websocket_binary false buf p w ≡ some w')
        × ((the p w').resp_writer ≡ some (calls ++ write buf ∷ []))
  unfolding on_websocket_binary write_binary received
  binary-writes buf w {calls} e =
      let f = λ (s : RouterSocket). respond (write buf ∷ []) (received (length buf) s) in
      (
        change p f w,
        ap (λ o. with_writer o (change p f w)) e,
        ap (λ (s : RouterSocket). s.resp_writer) (the-change p f w)
            ∙ respond-some (write buf ∷ []) (received (length buf) (the p w)) e,
      )

  frames-write :
      (bufs : List Text) (duration : ℤ) (w : World) {calls : ResponseWriter}
      → (the p w).resp_writer ≡ some calls
      → (w' : World) × (run_forever m [] p (map (binary_frame false) bufs) (closed 1000 duration) w
          ≡ some w')
        × ((the p w').resp_writer ≡ some (calls ++ map write bufs))
  unfolding run_forever on_end on_frame
  frames-write [] duration w {calls} e = (
    on_websocket_close m 1000 duration p w,
    refl,
    close-writer duration w e ∙ ap some (sym (append-nil calls)),
  )
  frames-write (buf ∷ bufs) duration w {calls} e =
      let (w₁, runs, writes) = binary-writes buf w e in
      let (w₂, more, all) = frames-write bufs duration w₁ writes in
      (
        w₂,
        rw (run_forever, runs) more,
        all ∙ ap some (append_assoc calls (write buf ∷ []) (map write bufs)),
      )

  -- A response of the connector with a status that the writer takes, the data frames of its body and a normal close: the client gets the
  -- `Via` header, the status, and each frame's bytes, in this order, and nothing else.
  pub run_forever-writes :
      (msg : Text) (bufs : List Text) (duration : ℤ) (w : World) {calls : ResponseWriter}
      {r : Response}
      → (the p w).resp_writer ≡ some calls
      → new_response msg ≡ some r
      → takes_status calls r.status ≡ true
      → (w' : World) × (run_forever m [] p
            (text_frame msg ∷ map (binary_frame false) bufs)
            (closed 1000 duration)
            w
          ≡ some w')
        × ((the p w').resp_writer
            ≡ some (
                calls
                ++ (add_header (codes "Via") (codes "1.1 crnk")
                    ∷ write_header r.status
                    ∷ map write bufs)))
  unfolding run_forever on_frame
  run_forever-writes msg bufs duration w {calls} {r} e parsed takes =
      let (w₁, runs, writes) = on_websocket_text_lem msg p w e parsed takes in
      let (w₂, more, all) = frames-write bufs duration w₁ writes in
      (w₂, rw (run_forever, runs) more, all ∙ ap some (append_assoc calls _ (map write bufs)))
