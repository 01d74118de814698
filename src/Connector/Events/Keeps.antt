-- ===== src/Connector/Events/Keeps.antt =====
-- The answer of the target keeps the window of the connector full.
use crank4go.Base.{
  ℕ, ◌<◌, ◌≡◌, refl, sym, ap, ◌∙◌, Bool, true, false, Option, none, some, Text, arith,
}
use crank4go.Monitor.{on_connection_ended}
use crank4go.Monitor.Laws.{available-ended}
use crank4go.Connector.Target.{Failure, IntermediateRequest, Answer, Fired, fire_request}
use crank4go.Connector.Client.{ConnectorSocket, Client, change}
use crank4go.Connector.Socket.{socket}
use crank4go.Connector.Events.{
  Surroundings, on_response_begin, also_close, completed, callback, fired, answer_to,
  target_answers,
}
use crank4go.Connector.Window.Full.{has, Windowed}
use crank4go.Connector.Window.Keeps.{Kept, Stays, Kept-Windowed, monitor-Windowed}

completed-Kept : (code : ℕ) (b : Bool) (s : ConnectorSocket) → Kept s (completed code b s)
unfolding completed also_close
completed-Kept code b s = record {
  url = ground arith;
  added = ground arith;
  err = ground arith;
  retry = ground arith;
  phase = ground arith;
}

completed-request :
    (code : ℕ) (b : Bool) (s : ConnectorSocket)
    → (completed code b s).request_to_target ≡ s.request_to_target
unfolding completed also_close
completed-request code b s = ground arith

fired-Kept : (t : Fired) (s : ConnectorSocket) → Kept s (fired t s)
unfolding fired
fired-Kept t s = record { url = refl; added = refl; err = refl; retry = refl; phase = refl }

module _ (window : Text → ℕ) (c : Client) (w : Windowed window c) (p : ℕ) (lt : p < c.next) where
  completed-Windowed :
      (code : ℕ) (b : Bool)
      → Windowed window (record (change p (completed code b) c) {
        conn_monitor = on_connection_ended c.conn_monitor;
      })
  completed-Windowed code b =
      monitor-Windowed window (change p (completed code b) c) (on_connection_ended c.conn_monitor)
        (Kept-Windowed window c w p lt (completed code b) (completed-Kept code b (c.heap p)) (λ e k.
          (w.sound p lt).waiting e (sym (ap has (completed-request code b (c.heap p))) ∙ k)))
        (available-ended c.conn_monitor)

  callback-Stays : (b : Bool) (failure : Option Failure) → Stays window (callback b failure p c)
  unfolding callback
  callback-Stays true failure = completed-Windowed 1000 true
  callback-Stays false (some err) = completed-Windowed 1011 false
  callback-Stays false none = tt

module _ (window : Text → ℕ) (c : Client) (w : Windowed window c) (p : ℕ) (lt : p < c.next) where
  pub answer-Stays :
      (env : Surroundings) (answer : Answer) → Stays window (target_answers env answer p c)
  unfolding target_answers answer_to fired
  answer-Stays env answer = answer_to-Stays (socket p c).request_to_target
    where
      answer_to-Stays : (o : Option IntermediateRequest) → Stays window (answer_to env answer p o c)
      answer_to-Stays none = w
      answer_to-Stays (some r) =
          let t =
            fire_request (on_response_begin env (socket p c).session) env.write_fails answer r in
          callback-Stays window (change p (fired t) c)
            (Kept-Windowed window c w p lt (fired t) (fired-Kept t (c.heap p)) (λ e k. cc)) p lt
            t.1.is_succeeded t.1.failure
