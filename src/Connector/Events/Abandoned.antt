-- ===== src/Connector/Events/Abandoned.antt =====
-- The target answers a request whose websocket was closed in the meantime.
use crank4go.Base.{
  ℕ, ◌≡◌, ◌≢◌, refl, ap, ◌∙◌, Bool, true, false, Option, none, some, ◌>>=◌, [], append-nil, arith,
  codes, dec32, ◌==◌, if◌then◌else◌,
}
use crank4go.Monitor.{ConnectionMonitor, on_connection_ended}
use crank4go.Monitor.Laws.{request_num-ended}
use crank4go.Protocol.Response.{build, new_response, to_protocol_message}
use crank4go.Connector.Plugins.{handle_plugins_after_response_received}
use crank4go.Connector.Target.{
  Failure, Fired, IntermediateRequest, cancel_err, abort, TargetResponse, Body, answered,
  fire_request, relay_behind, unless_aborted,
}
use crank4go.Connector.Client.{Client, ConnectorSocket, change}
use crank4go.Connector.Socket.{socket}
use crank4go.Connector.Ending.{on_websocket_close}
use crank4go.Connector.Events
use crank4go.Connector.Events.{
  Surroundings, on_response_begin, also_close, completed, callback, fired, answer_to,
  target_answers,
}
use crank4go.Connector.Window.Farm.{assign_self}

bind-none {ℓ κ} :
    {A : Type ℓ} {B : Type κ} (o : Option A) (f : A → Option B)
    → ((a : A) → f a ≡ none)
    → (o >>= f) ≡ none
bind-none none f h = refl
bind-none (some a) f h = h a

begin-none :
    (env : Surroundings) (resp : TargetResponse) (r : IntermediateRequest)
    → on_response_begin env false resp r ≡ none
unfolding on_response_begin
begin-none env resp r = bind-none (build (Events.response_builder resp r.ptc_resp)) _ λ msg.
    bind-none (new_response msg) _ λ parsed.
      bind-none
        (handle_plugins_after_response_received env.close_fails env.plugins parsed r.carriers) _
        λ out. bind-none (to_protocol_message out.0) _ λ written. refl

-- Without a session the response's beginning panics, which leaves the request as it is.
fired_without-session :
    (env : Surroundings) (resp : TargetResponse) (body : Body) (session : Bool)
    (r : IntermediateRequest)
    → session ≡ false
    → r.failure ≡ none
    → fire_request (on_response_begin env session) env.write_fails (answered resp body) r ≡ ([], r)
unfolding fire_request
fired_without-session env resp body session r closed alive =
    ap (λ f. unless_aborted env.write_fails body r f (on_response_begin env session resp r)) alive
    ∙ ap (λ b. relay_behind env.write_fails body r (on_response_begin env b resp r)) closed
    ∙ ap (relay_behind env.write_fails body r) (begin-none env resp r)

-- A request that was aborted is given up.
fired-aborted :
    (env : Surroundings) (resp : TargetResponse) (body : Body) (session : Bool)
    (r : IntermediateRequest) (err : Failure)
    → fire_request
        (on_response_begin env session)
        env.write_fails
        (answered resp body)
        (abort err r)
      ≡ ([], abort err r)
unfolding fire_request abort
fired-aborted env resp body session r err = refl

sent-given_up :
    (r : IntermediateRequest) (s : ConnectorSocket)
    → s.session ≡ false
    → (completed 1011 false (fired ([], r) s)).sent ≡ s.sent
unfolding completed fired
sent-given_up r s h = rw (completed, h) (append-nil s.sent)

module _ (code p : ℕ) (c : Client) {r : IntermediateRequest}
    (asked : (socket p c).request_to_target ≡ some r) (added : (socket p c).new_socket_added ≡ true)
    (waits : (socket p c).request_complete ≡ false) where
  closed_request :
      (socket p (on_websocket_close code p c)).request_to_target
      ≡ some (
          if code == 1011
          then r
          else abort (cancel_err (codes "the websocket session to router is close")) r)
  unfolding on_websocket_close
  closed_request = ground arith

  closed_session : (socket p (on_websocket_close code p c)).session ≡ false
  unfolding on_websocket_close
  closed_session = ground arith

  closed_sent : (socket p (on_websocket_close code p c)).sent ≡ (socket p c).sent
  unfolding on_websocket_close
  closed_sent = ground arith

  closed_monitor : (on_websocket_close code p c).conn_monitor ≡ c.conn_monitor
  unfolding on_websocket_close
  closed_monitor = ground arith

  abbrev closed_client : Client
  closed_client = on_websocket_close code p c

  answer-crashes :
      (env : Surroundings) (resp : TargetResponse) (body : Body)
      → r.failure ≡ none
      → r.is_succeeded ≡ false
      → (code == 1011) ≡ true
      → target_answers env (answered resp body) p closed_client ≡ none
  unfolding target_answers answer_to callback
  answer-crashes env resp body alive unfinished internal =
      let a = answered resp body in
      let c₁ = closed_client in
      let same : (socket p c₁).request_to_target ≡ some r = closed_request ∙ rw internal in
      ap (λ o. answer_to env a p o c₁) same
      ∙ ap (λ (t : Fired). callback t.1.is_succeeded t.1.failure p (change p (fired t) c₁))
          (fired_without-session env resp body (socket p c₁).session r closed_session alive)
      ∙ ap (λ b. callback b r.failure p (change p (fired ([], r)) c₁)) unfinished
      ∙ ap (λ f. callback false f p (change p (fired ([], r)) c₁)) alive

  answer-dropped :
      (env : Surroundings) (resp : TargetResponse) (body : Body)
      → r.is_succeeded ≡ false
      → (code == 1011) ≡ false
      → (c' : Client) × (target_answers env (answered resp body) p closed_client ≡ some c')
        × ((socket p c').sent ≡ (socket p c).sent)
        × (c'.conn_monitor.request_num ≡ dec32 c.conn_monitor.request_num)
  unfolding target_answers answer_to callback abort
  answer-dropped env resp body unfinished other =
      let a = answered resp body in
      let c₁ = closed_client in
      let err = cancel_err (codes "the websocket session to router is close") in
      let r' = abort err r in
      let same : (socket p c₁).request_to_target ≡ some r' = closed_request ∙ rw other in
      let c₂ = change p (fired ([], r')) c₁ in
      let c₃ = change p (completed 1011 false) c₂ in
      let here : socket p c₃ ≡ completed 1011 false (fired ([], r') (socket p c₁)) =
        assign_self p (completed 1011 false (c₂.heap p)) c₂.heap
        ∙ ap (completed 1011 false) (assign_self p (fired ([], r') (c₁.heap p)) c₁.heap) in
      (
        record c₃ { conn_monitor = on_connection_ended c₃.conn_monitor },
        ap (λ o. answer_to env a p o c₁) same
            ∙ ap (λ (t : Fired). callback t.1.is_succeeded t.1.failure p (change p (fired t) c₁))
                (fired-aborted env resp body (socket p c₁).session r err)
            ∙ ap (λ b. callback b (some err) p c₂) unfinished,
        ap (λ (s : ConnectorSocket). s.sent) here
            ∙ sent-given_up r' (socket p c₁) closed_session
            ∙ closed_sent,
        request_num-ended c₁.conn_monitor
            ∙ ap (λ (x : ConnectionMonitor). dec32 x.request_num) closed_monitor,
      )

  -- The router closes the websocket, with any code but 1011, while the target works on the request:
  -- the target's answer is dropped, no frame is written for it, and the request is counted off.
  pub answer_after-close :
      (env : Surroundings) (resp : TargetResponse) (body : Body)
      → code ≢ 1011
      → r.is_succeeded ≡ false
      → (c' : Client) × (target_answers env (answered resp body) p (on_websocket_close code p c)
          ≡ some c')
        × ((socket p c').sent ≡ (socket p c).sent)
        × (c'.conn_monitor.request_num ≡ dec32 c.conn_monitor.request_num)
  answer_after-close env resp body other unfinished =
      answer-dropped env resp body unfinished (ground arith)

  -- If it closes it with the code 1011, the connector panics when the target answers, whatever the
  -- answer, the plugins and the network.
  pub answer_after-close_1011 :
      (env : Surroundings) (resp : TargetResponse) (body : Body)
      → code ≡ 1011
      → r.failure ≡ none
      → r.is_succeeded ≡ false
      → target_answers env (answered resp body) p (on_websocket_close code p c) ≡ none
  answer_after-close_1011 env resp body internal alive unfinished =
      answer-crashes env resp body alive unfinished (ground arith)
