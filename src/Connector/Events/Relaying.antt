-- ===== src/Connector/Events/Relaying.antt =====
-- The response of the target, as it is written to the websocket.
use crank4go.Base.{
  ℕ, ◌+◌, ◌<◌, ◌^◌, ◌≡◌, refl, ap, ◌∙◌, inl, inr, Bool, true, false, Option, none, some, ◌>>=◌,
  List, [], ◌∷◌, ◌++◌, append_assoc, arith, Text, split, Lacks, pos, dec32, Bool-cases, ◌==◌,
}
use crank4go.Http.{Header}
use crank4go.Monitor.{on_connection_ended}
use crank4go.Monitor.Laws.{request_num-ended}
use crank4go.Protocol.Headers.{nl, space, HeadersBuilder, new_headers_builder, append_headers}
use crank4go.Protocol.Response.{
  Response, ResponseBuilder, new_response_builder, with_source_url, with_http_method, build,
  new_response, to_protocol_message,
}
use crank4go.Protocol.Response.Laws.{response_builder, new_response-build}
use crank4go.Connector.Plugins.{close_carriers, handle_plugins_after_response_received}
use crank4go.Connector.Target.{
  IntermediateRequest, TargetResponse, Body, answered, SentFrame, text_message, data_message,
  close_message, Fired, relay, relay_behind, unless_aborted, fire_request,
}
use crank4go.Connector.Client.{Client, ConnectorSocket, change}
use crank4go.Connector.Socket.{socket, parse_headers}
use crank4go.Connector.Events
use crank4go.Connector.Events.{
  Surroundings, on_response_begin, also_close, completed, callback, fired, answer_to,
  target_answers,
}
use crank4go.Connector.Window.Farm.{assign_self}

-- No plugins, and a websocket whose writes succeed.
abbrev pub no_failures : Surroundings
no_failures = record { plugins = []; close_fails = λ c. false; write_fails = λ i. none }

-- A frame for each read that is not empty.
abbrev pub data_frames : List Text → List SentFrame
data_frames [] = []
data_frames ([] ∷ bufs) = data_frames bufs
data_frames ((c ∷ buf) ∷ bufs) = data_message (c ∷ buf) ∷ data_frames bufs

relay_complete :
    (i : ℕ) (bufs : List Text) (r : IntermediateRequest)
    → relay (λ i. none) i bufs none r ≡ (data_frames bufs, record r { is_succeeded = true })
unfolding relay
relay_complete i [] r = refl
relay_complete i ([] ∷ bufs) r = relay_complete i bufs r
relay_complete i ((c ∷ buf) ∷ bufs) r =
    ap (λ (t : Fired). (data_message (c ∷ buf) ∷ t.0, t.1)) (relay_complete (i + 1) bufs r)

bind_some {ℓ κ} :
    {A : Type ℓ} {B : Type κ} (o : Option A) (f : A → Option B) {b : B}
    → (o >>= f) ≡ some b
    → (a : A) × (o ≡ some a) × (f a ≡ some b)
bind_some none f h = cc
bind_some (some a) f h = (a, refl, h)

first-Lacks : (b sep : ℕ) (s : Text) → Lacks b s → Lacks b (split sep s).first
unfolding split
first-Lacks b sep [] h = tt
first-Lacks b sep (c ∷ s) (hc, hs) = elim (Bool-cases (c == sep)) [
  | inl e ↦ rw e tt
  | inr e ↦ rw e (hc, first-Lacks b sep s hs)
]

first_first : (sep : ℕ) (s : Text) → (split sep (split sep s).first).first ≡ (split sep s).first
unfolding split
first_first sep [] = refl
first_first sep (c ∷ s) = elim (Bool-cases (c == sep)) [
  | inl e ↦ rw e
  | inr e ↦ rw (e, e) (ap (◌∷◌ c) (first_first sep s))
]

sent-completed :
    (t : Fired) (s : ConnectorSocket)
    → s.session ≡ true
    → (completed 1000 true (fired t s)).sent ≡ s.sent ++ (t.0 ++ close_message 1000 ∷ [])
unfolding completed fired
sent-completed t s h = rw (completed, h) (append_assoc s.sent t.0 (close_message 1000 ∷ []))

complete-completed :
    (t : Fired) (s : ConnectorSocket) → (completed 1000 true (fired t s)).request_complete ≡ true
unfolding completed fired also_close
complete-completed t s = ground arith

-- What the connector makes of a response, and what it becomes when it is read.
abbrev pub read_as : ℕ → Text → Text → Text → Response
read_as status reason method url = record {
  headers = [];
  status = pos status;
  reason = reason;
  source_url = url;
  http_method = method;
}

module _ (status : ℕ) (reason method url : Text) (fits : status < 2 ^ 63)
    (reason_line : Lacks nl reason) (method_word : Lacks space method)
    (method_line : Lacks nl method) (url_word : Lacks space url) (url_line : Lacks nl url) where
  message :
      (reason : Text) (h : HeadersBuilder)
      → Lacks nl reason
      → (msg : Text) × (build (response_builder status reason method url h) ≡ some msg)
        × (new_response msg ≡ some (read_as status (split space reason).first method url))
  message reason h line =
      bind_some (build (response_builder status reason method url h)) new_response (
        new_response-build status reason method url h fits line method_word method_line url_word
          url_line)

  abbrev first : Text
  first = (split space reason).first

  begin-relayed :
      (header : Header) (r : IntermediateRequest)
      → r.ptc_resp ≡ with_http_method (with_source_url new_response_builder url) method
      → (msg : Text) × (on_response_begin no_failures true
            (record { status_code = pos status; status = reason; header = header })
            r
          ≡ some (text_message msg ∷ [], record r { carriers = close_carriers r.carriers }))
        × (new_response msg ≡ some (read_as status first method url))
  unfolding on_response_begin handle_plugins_after_response_received to_protocol_message
      append_headers
  begin-relayed header r made =
      let (msg, built, parsed) = message reason (parse_headers header) reason_line in
      let (msg', built', parsed') =
        message first new_headers_builder (first-Lacks nl space reason reason_line) in
      let resp : TargetResponse = record {
        status_code = pos status;
        status = reason;
        header = header;
      } in
      let built₁ =
        ap (λ (b : ResponseBuilder). build (Events.response_builder resp b)) made ∙ built in
      (
        msg',
        rw (on_response_begin, built₁, parsed, built'),
        parsed' ∙ ap (λ (t : Text). some (read_as status t method url)) (first_first space reason),
      )

  abbrev resp : Header → TargetResponse
  resp header = record { status_code = pos status; status = reason; header = header }

  fired-relayed :
      (header : Header) (reads : List Text) (session : Bool) (r : IntermediateRequest)
      → session ≡ true
      → r.failure ≡ none
      → r.ptc_resp ≡ with_http_method (with_source_url new_response_builder url) method
      → (msg : Text) × (fire_request
            (on_response_begin no_failures session)
            (λ i. none)
            (answered (resp header) (record { reads = reads; ends_with = none }))
            r
          ≡ (
            text_message msg ∷ data_frames reads,
            record r { carriers = close_carriers r.carriers; is_succeeded = true },
          ))
        × (new_response msg ≡ some (read_as status first method url))
  unfolding fire_request
  fired-relayed header reads session r opened alive made =
      let (msg, begun, parsed) = begin-relayed header r made in
      let r' : IntermediateRequest = record r { carriers = close_carriers r.carriers } in
      let body : Body = record { reads = reads; ends_with = none } in
      (
        msg,
        ap
              (λ b.
                unless_aborted (λ i. none) body r r.failure
                  (on_response_begin no_failures b (resp header) r))
              opened
            ∙ ap
                (λ f.
                  unless_aborted (λ i. none) body r f
                    (on_response_begin no_failures true (resp header) r))
                alive
            ∙ ap (relay_behind (λ i. none) body r) begun
            ∙ ap (λ (t : Fired). (text_message msg ∷ t.0, t.1)) (relay_complete 1 reads r'),
        parsed,
      )

  -- The target's answer to a request in flight is relayed as one text frame, one data frame for each
  -- read of the body that is not empty, in order, and a close frame with code 1000, if there are no
  -- plugins, no write fails, the body is read to its end, and reason, method and URL are words and
  -- lines as a message takes them. The router reads the text frame as the status, the first word
  -- of the reason, the method and the URL, and no header, whatever headers the target sent. The
  -- request is complete, and the monitor counts it off.
  pub target_answers-relayed :
      (header : Header) (reads : List Text) (p : ℕ) (c : Client) {r : IntermediateRequest}
      → (socket p c).session ≡ true
      → (socket p c).request_to_target ≡ some r
      → r.failure ≡ none
      → r.ptc_resp ≡ with_http_method (with_source_url new_response_builder url) method
      → (msg : Text) × (c' : Client) × (new_response msg
          ≡ some (read_as status (split space reason).first method url))
        × (target_answers no_failures
              (answered
                (record { status_code = pos status; status = reason; header = header })
                (record { reads = reads; ends_with = none }))
              p
              c
            ≡ some c')
        × ((socket p c').sent
            ≡ (socket p c).sent
              ++ (text_message msg ∷ (data_frames reads ++ close_message 1000 ∷ [])))
        × ((socket p c').request_complete ≡ true)
        × (c'.conn_monitor.request_num ≡ dec32 c.conn_monitor.request_num)
  unfolding target_answers answer_to
  target_answers-relayed header reads p c {r} opened asked alive made =
      let s = socket p c in
      let answer = answered (resp header) (record { reads = reads; ends_with = none }) in
      let (msg, fires, parsed) = fired-relayed header reads s.session r opened alive made in
      let t : Fired = (
        text_message msg ∷ data_frames reads,
        record r { carriers = close_carriers r.carriers; is_succeeded = true },
      ) in
      let c₁ = change p (fired t) c in
      let c₂ = change p (completed 1000 true) c₁ in
      let here : socket p c₂ ≡ completed 1000 true (fired t s) =
        assign_self p (completed 1000 true (c₁.heap p)) c₁.heap
        ∙ ap (completed 1000 true) (assign_self p (fired t s) c.heap) in
      (
        msg,
        record c₂ { conn_monitor = on_connection_ended c₂.conn_monitor },
        parsed,
        ap (λ o. answer_to no_failures answer p o c) asked
            ∙ ap (λ (t : Fired). callback t.1.is_succeeded t.1.failure p (change p (fired t) c))
                fires,
        ap (λ (s : ConnectorSocket). s.sent) here ∙ sent-completed t s opened,
        ap (λ (s : ConnectorSocket). s.request_complete) here ∙ complete-completed t s,
        request_num-ended c.conn_monitor,
      )
