-- ===== src/Connector/Socket/Keeps.antt =====
-- A frame from the router keeps the window of the connector full.
use crank4go.Base.{
  ℕ, ◌<◌, ◌≡◌, refl, sym, ap, ◌∙◌, inl, inr, Bool, true, false, Option, none, some, ◌>>=◌, List,
  Text, codes, has_prefix, if◌then◌else◌, Option-cases,
}
use crank4go.Monitor.Laws.{available-started}
use crank4go.Protocol.Request.{
  Request, new_request, request_body_pending, request_has_no_body, request_body_ended,
}
use crank4go.Connector.Farm.{Url, url_string, remove_websocket, on_connected_successfully}
use crank4go.Connector.Plugins.{ConnectorPlugin}
use crank4go.Connector.Target.{IntermediateRequest}
use crank4go.Connector.Client.{ConnectorSocket, reading, Client, assign, change, when_consumed}
use crank4go.Connector.Socket.{
  socket, write_content, with_content, close_content, on_websocket_binary, mark_added,
  on_request_received, with_request, with_pipe, mark_firing, fire_off, send_request_to_target,
  first_text, later_text, on_websocket_text, target_request,
}
use crank4go.Connector.Window.Full.{has, is_live, IsSound, Windowed}
use crank4go.Connector.Window.Replacing.{replaced-Windowed}
use crank4go.Connector.Window.Keeps.{
  Kept, Stays, change-change, Kept-Windowed, monitor-Windowed, removed_counts, max-remove,
}

with_content-Kept : (pipe : List Text × Bool) (s : ConnectorSocket) → Kept s (with_content pipe s)
unfolding with_content
with_content-Kept pipe s = record {
  url = refl;
  added = refl;
  err = refl;
  retry = refl;
  phase = refl;
}

-- A socket that got its first request and has a new socket in its place.
IsSound-received :
    (s : ConnectorSocket) (g : ConnectorSocket → ConnectorSocket)
    → IsSound s
    → s.had_error ≡ false
    → Kept (mark_added s) (g (mark_added s))
    → has (g (mark_added s)).request_to_target ≡ true
    → IsSound (g (mark_added s))
unfolding mark_added
IsSound-received s g h fine k request = record {
  path = ap (λ (u : Url). has_prefix u.path (codes "/deregister")) k.url ∙ h.path;
  retrying = λ e f. cc (k.added, f);
  armed = λ e. cc ((h.armed (sym (ap has k.retry) ∙ e)).0, fine);
  waiting = λ e f. cc (request, f);
  lively = λ e. k.err ∙ fine;
}

module _ (window : Text → ℕ) (c : Client) (w : Windowed window c) (p : ℕ) (lt : p < c.next) where
  content-Stays :
      (pipe : Option (List Text × Bool))
      → Stays window (pipe >>= λ pipe. some (change p (with_content pipe) c))
  unfolding with_content
  content-Stays none = tt
  content-Stays (some pipe) =
      Kept-Windowed window c w p lt (with_content pipe) (with_content-Kept pipe (c.heap p))
        (w.sound p lt).waiting

  pub binary-Stays :
      (failed : Bool) (payload : Text) → Stays window (on_websocket_binary failed payload p c)
  unfolding on_websocket_binary
  binary-Stays failed payload =
      content-Stays (write_content failed payload (socket p c).content_writer)

  Stays-if :
      (test : Bool) (o o' : Option Client)
      → Stays window o
      → Stays window o'
      → Stays window (if test then o else o')
  Stays-if true o o' h k = h
  Stays-if false o o' h k = k

  later-Stays : (req : Request) → Stays window (later_text req p c)
  unfolding later_text
  later-Stays req =
      Stays-if (request_body_ended req) _ (some c)
        (content-Stays (close_content (socket p c).content_writer)) w

  module _ (before : (c.heap p).new_socket_added ≡ false)
      (fine : (c.heap p).had_error ≡ false) where
    received-Windowed :
        (g : ConnectorSocket → ConnectorSocket)
        → Kept (mark_added (c.heap p)) (g (mark_added (c.heap p)))
        → has (g (mark_added (c.heap p))).request_to_target ≡ true
        → Windowed window (change p g (on_request_received p c))
    unfolding on_request_received
    received-Windowed g k request =
        let url = url_string (c.heap p).register_url in
        let i = (c.heap p).conn_info in
        let infos = assign i (on_connected_successfully (c.infos i)) c.infos in
        let farm = remove_websocket url c.websocket_client_farm in
        let c₀ = record c { infos = infos; websocket_client_farm = farm } in
        rw (← change-change p mark_added g (when_consumed p c₀)) (
          replaced-Windowed window c w p lt (λ s. g (mark_added s))
            (IsSound-received (c.heap p) g (w.sound p lt) fine k request) (k.added ∙ refl) before
            infos farm (max-remove url c.websocket_client_farm)
            (removed_counts window c w p lt before fine))

    with_request-Kept : (r : IntermediateRequest) (s : ConnectorSocket) → Kept s (with_request r s)
    unfolding with_request
    with_request-Kept r s = record {
      url = refl;
      added = refl;
      err = refl;
      retry = refl;
      phase = refl;
    }

    fired-Windowed :
        (g : ConnectorSocket → ConnectorSocket)
        → Kept (mark_added (c.heap p)) (g (mark_added (c.heap p)))
        → has (g (mark_added (c.heap p))).request_to_target ≡ true
        → Windowed window (fire_off p (change p g (on_request_received p c)))
    unfolding fire_off mark_firing
    fired-Windowed g k request =
        let c₁ = on_request_received p c in
        let both = change-change p g mark_firing c₁ in
        let w₁ : Windowed window (change p mark_firing (change p g c₁)) = rw (← both) (
          received-Windowed (λ s. mark_firing (g s))
            (record { url = k.url; added = k.added; err = k.err; retry = k.retry; phase = k.phase })
            request) in
        monitor-Windowed window (change p mark_firing (change p g c₁)) _ w₁
          (available-started c₁.conn_monitor)

    Windowed-if :
        (test : Bool) {u v : Client}
        → Windowed window u
        → Windowed window v
        → Windowed window (if test then u else v)
    Windowed-if true h k = h
    Windowed-if false h k = k

    send-Windowed :
        (req : Request) (r : IntermediateRequest)
        → Windowed window (send_request_to_target req r p (on_request_received p c))
    unfolding send_request_to_target with_request with_pipe
    send-Windowed req r =
        let s = mark_added (c.heap p) in
        let kept : (r : IntermediateRequest) → Kept s (with_request r s) =
          λ r. with_request-Kept r s in
        Windowed-if (request_body_pending req)
          (fired-Windowed (with_pipe r)
            (record { url = refl; added = refl; err = refl; retry = refl; phase = refl }) refl)
          (Windowed-if (request_has_no_body req) (fired-Windowed (with_request r) (kept r) refl)
            (received-Windowed (with_request r) (kept r) refl))

    first-Stays :
        (resolve : Text → Option Text) (plugins : List ConnectorPlugin) (req : Request)
        → Stays window (first_text resolve plugins req p c)
    unfolding first_text
    first-Stays resolve plugins req = elim (Option-cases (resolve req.dest)) [
      | inl e ↦ rw e tt
      | inr (dest, e) ↦
          let (req', r) = target_request plugins dest req in rw e (send-Windowed req' r)
    ]

  text_with :
      (resolve : Text → Option Text) (plugins : List ConnectorPlugin) (req : Request)
      → (c.heap p).phase ≡ reading
      → Stays window (elim (socket p c).request_to_target [
        | none ↦ first_text resolve plugins req p c
        | some r ↦ later_text req p c
      ])
  text_with resolve plugins req phase = elim (Option-cases (socket p c).request_to_target) [
    | inl e ↦
        let h = w.sound p lt in
        let live = ap is_live phase in
        rw e (first-Stays (h.waiting live (ap has e)) (h.lively live) resolve plugins req)
    | inr (r, e) ↦ rw e (later-Stays req)
  ]

  pub text-Stays :
      (resolve : Text → Option Text) (plugins : List ConnectorPlugin) (msg : Text)
      → (socket p c).phase ≡ reading
      → Stays window (on_websocket_text resolve plugins msg p c)
  unfolding on_websocket_text
  text-Stays resolve plugins msg phase = elim (Option-cases (new_request msg)) [
    | inl e ↦ rw e tt
    | inr (req, e) ↦ rw e (text_with resolve plugins req phase)
  ]
