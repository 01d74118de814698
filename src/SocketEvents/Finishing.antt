-- ===== src/SocketEvents/Finishing.antt =====
-- How often a socket calls `Done` for the request of its client.
use crank4go.Base.{
  ℕ, ◌+◌, ◌≡◌, ◌≢◌, refl, ◌∙◌, inl, inr, Bool, true, false, not, ◌&&◌, none, some, List, arith, ℤ,
  count, count-cons, if◌then◌else◌, Bool-cases, Option-cases,
}
use crank4go.Protocol.Response.{Response, new_response}
use crank4go.Http.{ResponseWriter}
use crank4go.DarkLaunch.{DarkLaunchManager}
use crank4go.Socket.{RouterSocket, close_socket_session}
use crank4go.Farm.{Net}
use crank4go.Farm.Operations.{remove_websocket}
use crank4go.SocketEvents.{
  World, the, change, respond, finish, take_out, remove_bad_websocket, end_request,
  remove_registered, on_websocket_close, on_send_or_receive_data_error, Frame, text_frame,
  binary_frame, other_frame, Ended, closed, broken, on_end, error_calls, run_plugins, is_status,
}

-- A text frame that is a response, with a status that a writer takes.
abbrev pub Readable : List (Response → Response) → Frame → Type 0
Readable plugins (text_frame msg) =
    (r : Response) × (new_response msg ≡ some r) × (is_status (run_plugins plugins r).status ≡ true)
Readable plugins (binary_frame failed buf) = Unit
Readable plugins other_frame = Unit

-- The calls of `Done` that the request of a socket has still to come.
abbrev pub waiting : ℕ → World → ℕ
waiting p w = if (the p w).handle_done then 1 else 0

module _ (p : ℕ) where
  -- The calls of `Done` that came and are still to come stay the same, and a writer stays one.
  pub record Balanced (w w' : World) : Type 0 where
    pub balance : count p w'.done + waiting p w' ≡ count p w.done + waiting p w
    pub answers : (the p w).resp_writer ≢ none → (the p w').resp_writer ≢ none

  Balanced-trans : {u v w : World} → Balanced u v → Balanced v w → Balanced u w
  Balanced-trans b c = record {
    balance = omega (arith, b.balance, c.balance);
    answers = λ h. c.answers (b.answers h);
  }

  the-change : (f : RouterSocket → RouterSocket) (w : World) → the p (change p f w) ≡ f (the p w)
  the-change f w = ground arith

  -- A change of the socket that leaves its wait group and its writer, or only appends to the writer.
  pub change-Balanced :
      (f : RouterSocket → RouterSocket) (w : World)
      → (f (the p w)).handle_done ≡ (the p w).handle_done
      → ((the p w).resp_writer ≢ none → (f (the p w)).resp_writer ≢ none)
      → Balanced w (change p f w)
  change-Balanced f w h k = record {
    balance = ground (arith, the-change f w);
    answers = λ e. rw (the-change f w) (k e);
  }

  respond-writer :
      (calls : ResponseWriter) (s : RouterSocket)
      → s.resp_writer ≢ none
      → (respond calls s).resp_writer ≢ none
  respond-writer calls s h = elim (Option-cases s.resp_writer) [
    | inl e ↦ absurd (h e)
    | inr (w, e) ↦ ground (arith, e)
  ]

  respond-done :
      (calls : ResponseWriter) (s : RouterSocket) → (respond calls s).handle_done ≡ s.handle_done
  respond-done calls s = ground arith

  -- After `finish` nothing is waiting.
  finish-Balanced :
      (w : World) → Balanced w (finish p w) × ((the p (finish p w)).handle_done ≡ false)
  unfolding finish
  finish-Balanced w = elim (Bool-cases (the p w).handle_done) [
    | inl e ↦ (
      record {
        balance =
            ground
              (arith, the-change (λ s. record s { handle_done = false }) w, count-cons p p w.done);
        answers = λ h. ground (arith, the-change (λ s. record s { handle_done = false }) w, h);
      },
      ground (arith, the-change (λ s. record s { handle_done = false }) w),
    )
    | inr e ↦ (record { balance = ground arith; answers = λ h. ground (arith, h) }, ground arith)
  ]

  take_out-Balanced : (m : DarkLaunchManager Net) (w : World) → Balanced w (take_out m p w)
  unfolding take_out remove_websocket
  take_out-Balanced m w = record { balance = ground arith; answers = λ h. ground (arith, h) }

  close-Balanced : (w : World) → Balanced w (change p close_socket_session w)
  unfolding close_socket_session
  close-Balanced w = change-Balanced close_socket_session w (ground arith) (λ h. ground (arith, h))

  Balanced-refl : (w : World) → Balanced w w
  Balanced-refl w = record { balance = refl; answers = λ h. h }

  Balanced-if :
      (test : Bool) {w u v : World}
      → Balanced w u
      → Balanced w v
      → Balanced w (if test then u else v)
  Balanced-if true b c = b
  Balanced-if false b c = c

  remove_bad-Balanced :
      (m : DarkLaunchManager Net) (w : World) → Balanced w (remove_bad_websocket m p w)
  unfolding remove_bad_websocket
  remove_bad-Balanced m w =
      Balanced-if (the p w).is_removed (Balanced-refl w)
        (Balanced-trans (close-Balanced w) (take_out-Balanced m (change p close_socket_session w)))

  end_request-Balanced :
      (code : ℕ) (duration : ℤ) (w : World) → Balanced w (end_request code duration p w)
  unfolding end_request
  end_request-Balanced code duration w = elim (Option-cases (the p w).resp_writer) [
    | inl e ↦ rw (end_request, e) (Balanced-refl w)
    | inr (calls, e) ↦ record { balance = ground arith; answers = λ h. ground (arith, h) }
  ]

  remove_registered-Balanced :
      (m : DarkLaunchManager Net) (w : World) → Balanced w (remove_registered m p w)
  unfolding remove_registered
  remove_registered-Balanced m w =
      Balanced-if ((the p w).is_register && not (the p w).is_removed) (take_out-Balanced m w)
        (Balanced-refl w)

  remove_registered-done :
      (m : DarkLaunchManager Net) (w : World)
      → (the p (remove_registered m p w)).handle_done ≡ (the p w).handle_done
  unfolding remove_registered take_out remove_websocket
  remove_registered-done m w = ground arith

  -- The end of the connection tells the request to be done if it is waiting, however it ends.
  pub on_end-Balanced :
      (m : DarkLaunchManager Net) (end : Ended) (w : World)
      → Balanced w (on_end m p end w) × ((the p (on_end m p end w)).handle_done ≡ false)
  unfolding on_end on_websocket_close on_send_or_receive_data_error
  on_end-Balanced m (closed code duration) w =
      let w₁ = change p (λ s. record s { session = false }) w in
      let w₂ = end_request code duration p w₁ in
      let b₁ = change-Balanced (λ s. record s { session = false }) w refl (λ h. h) in
      let b₂ = end_request-Balanced code duration w₁ in
      let (b₃, finished) = finish-Balanced w₂ in
      (
        Balanced-trans b₁
            (Balanced-trans b₂ (Balanced-trans b₃ (remove_registered-Balanced m (finish p w₂)))),
        remove_registered-done m (finish p w₂) ∙ finished,
      )
  on_end-Balanced m (broken err) w =
      let w₁ = remove_bad_websocket m p w in
      let calls = error_calls err in
      let b₂ =
        change-Balanced (respond calls) w₁ (respond-done calls (the p w₁))
          (respond-writer calls (the p w₁)) in
      let (b₃, finished) = finish-Balanced (change p (respond calls) w₁) in
      (Balanced-trans (remove_bad-Balanced m w) (Balanced-trans b₂ b₃), finished)
