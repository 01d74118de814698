-- ===== src/Connector/Window/Keeps.antt =====
-- Each handler of a socket keeps the window of its connector full.
use mathlib.Core.Path.{fun_ext}
use crank4go.Base.{
  ℕ, get, ◌+◌, ◌<◌, ◌^◌, ◌≡◌, refl, sym, ap, ◌∙◌, true, false, Option, none, some, arith, Text,
  codes, text_eq, text_eq_iff, text_eq_refl, has_prefix, inl, inr, Bool-cases, Option-cases,
}
use crank4go.Monitor.{ConnectionMonitor}
use crank4go.Connector.Farm.{
  Url, url_string, WebsocketClientFarm, idle_socket_num, remove_websocket,
}
use crank4go.Connector.Client.{ConnectorSocket, Client, assign, change}
use crank4go.Connector.Window.{
  count_below, unadded, unadded_at, idle_at, count-assign, count-has, count_mono,
}
use crank4go.Connector.Window.Farm.{assign_self, num-remove}
use crank4go.Connector.Window.Full.{has, is_live, IsSound, Windowed, quiet-Windowed, IsSound-assign}

pub max-remove :
    (url : Text) (f : WebsocketClientFarm)
    → (remove_websocket url f).max_sliding_window_size ≡ f.max_sliding_window_size
unfolding remove_websocket
max-remove url f = elim (Option-cases (get url f.connector_sockets)) [
  | inl e ↦ rw e
  | inr (n, e) ↦ rw e
]

-- A change that leaves what the window is made of.
abbrev pub Same : ConnectorSocket → ConnectorSocket → Type 0
Same s s' =
    (s'.register_url ≡ s.register_url)
    × (s'.new_socket_added ≡ s.new_socket_added)
    × (s'.new_socket_added ≡ false → s'.had_error ≡ s.had_error)

-- A socket that keeps what the window is made of, and the phase of its goroutine and its timer.
pub record Kept (s s' : ConnectorSocket) : Type 0 where
  pub url : s'.register_url ≡ s.register_url
  pub added : s'.new_socket_added ≡ s.new_socket_added
  pub err : s'.had_error ≡ s.had_error
  pub retry : s'.retry ≡ s.retry
  pub phase : s'.phase ≡ s.phase

pub IsSound-Kept :
    (s s' : ConnectorSocket)
    → IsSound s
    → Kept s s'
    → (is_live s.phase ≡ true → has s'.request_to_target ≡ false → s.new_socket_added ≡ false)
    → IsSound s'
IsSound-Kept s s' h k waits = record {
  path = ap (λ (u : Url). has_prefix u.path (codes "/deregister")) k.url ∙ h.path;
  retrying = λ e f. ap has k.retry ∙ h.retrying (sym k.err ∙ e) (sym k.added ∙ f);
  armed =
      λ e. let (err, added) = h.armed (sym (ap has k.retry) ∙ e) in (k.err ∙ err, k.added ∙ added);
  waiting = λ e f. k.added ∙ waits (sym (ap is_live k.phase) ∙ e) f;
  lively = λ e. k.err ∙ h.lively (sym (ap is_live k.phase) ∙ e);
}

-- Two changes of a socket are one.
pub change-change :
    (p : ℕ) (f g : ConnectorSocket → ConnectorSocket) (c : Client)
    → change p (λ s. g (f s)) c ≡ change p g (change p f c)
change-change p f g c =
    ap (λ (h : ℕ → ConnectorSocket). record c { heap = h }) (fun_ext λ q. assign-assign q)
  where
    assign-assign :
        (q : ℕ)
        → assign p (g (f (c.heap p))) c.heap q
          ≡ assign p (g (assign p (f (c.heap p)) c.heap p)) (assign p (f (c.heap p)) c.heap) q
    assign-assign q = ground (arith, assign_self p (f (c.heap p)) c.heap)

-- An outcome that is no panic keeps the window full.
abbrev pub Stays : (Text → ℕ) → Option Client → Type 0
Stays window none = Unit
Stays window (some c) = Windowed window c

pub monitor-Windowed :
    (window : Text → ℕ) (c : Client) (m : ConnectionMonitor)
    → Windowed window c
    → m.available_conns ≡ c.conn_monitor.available_conns
    → Windowed window (record c { conn_monitor = m })
monitor-Windowed window c m w e = record {
  opened = w.opened;
  listening = w.listening;
  room = w.room;
  small = w.small;
  sound = w.sound;
  counted = w.counted;
  full = w.full;
  available = e ∙ w.available;
}

module _ (window : Text → ℕ) where
  module _ (c : Client) (w : Windowed window c) (p : ℕ) (lt : p < c.next) where
    pub change-Windowed :
        (f : ConnectorSocket → ConnectorSocket)
        → IsSound (f (c.heap p))
        → Same (c.heap p) (f (c.heap p))
        → Windowed window (change p f c)
    change-Windowed f sound (url, added, err) =
        quiet-Windowed window c w p lt (f (c.heap p)) sound url c.conn_monitor refl added err

    abbrev own_url : Text
    own_url = url_string (c.heap p).register_url

    own_one :
        (c.heap p).new_socket_added ≡ false
        → (c.heap p).had_error ≡ false
        → 0 < idle_socket_num own_url c.websocket_client_farm
    own_one before err =
        let one : idle_at own_url (c.heap p) ≡ 1 =
          ground (arith, before, err, text_eq_refl own_url) in
        omega (arith, one, w.counted own_url, count-has (idle_at own_url) p c.heap c.next lt)

    own_below : idle_socket_num own_url c.websocket_client_farm < 2 ^ 31
    own_below =
        let below =
          count_mono (idle_at own_url) (unadded_at own_url) c.heap c.next (λ s. ground arith) in
        omega (arith, below, w.counted own_url, w.full own_url, w.room own_url, w.small)

    pub removed_counts :
        (c.heap p).new_socket_added ≡ false
        → (c.heap p).had_error ≡ false
        → (u : Text)
        → idle_socket_num u (remove_websocket own_url c.websocket_client_farm)
            + idle_at u (c.heap p)
          ≡ count_below (idle_at u) c.next c.heap
    removed_counts before err u =
        let farm = c.websocket_client_farm in
        let remains = num-remove own_url u farm (own_one before err) in
        elim (Bool-cases (text_eq own_url u)) [
          | inl e ↦
              let same : idle_socket_num own_url farm ≡ idle_socket_num u farm =
                ap (λ (t : Text). idle_socket_num t farm) ((text_eq_iff own_url u).0 e) in
              let one : idle_at u (c.heap p) ≡ 1 = ground (arith, before, err, e) in
              let k = rw e at remains in
              omega (arith, k, one, same, w.counted u, own_one before err, own_below)
          | inr e ↦
              let zero_here : idle_at u (c.heap p) ≡ 0 = ground (arith, e) in
              let k = rw e at remains in omega (arith, k, zero_here, w.counted u)
        ]

    -- The socket had an error and waits for its timer.
    pub erring-Windowed :
        (s : ConnectorSocket)
        → IsSound s
        → s.register_url ≡ (c.heap p).register_url
        → s.new_socket_added ≡ false
        → s.had_error ≡ true
        → (c.heap p).new_socket_added ≡ false
        → (c.heap p).had_error ≡ false
        → Windowed window (record c {
          heap = assign p s c.heap;
          websocket_client_farm = remove_websocket own_url c.websocket_client_farm;
        })
    erring-Windowed s sound same_url added err before fine = record {
      opened = w.opened;
      listening = w.listening;
      room = λ u. omega (arith, max-remove own_url c.websocket_client_farm, w.room u);
      small = omega (arith, max-remove own_url c.websocket_client_farm, w.small);
      sound = IsSound-assign p c.next s c.heap sound w.sound;
      counted = λ u.
          (let gone : idle_at u s ≡ 0 = ground (arith, err) in
            omega (
              arith,
              gone,
              removed_counts before fine u,
              count-assign (idle_at u) p s c.heap c.next lt,
            ));
      full = λ u.
          (let same : unadded_at u s ≡ unadded_at u (c.heap p) =
              ground (arith, added, before, same_url) in
            omega (arith, same, w.full u, count-assign (unadded_at u) p s c.heap c.next lt));
      available =
          ground (arith, w.available, added, before, count-assign unadded p s c.heap c.next lt);
    }

    pub Kept-Windowed :
        (f : ConnectorSocket → ConnectorSocket)
        → Kept (c.heap p) (f (c.heap p))
        → (is_live (c.heap p).phase ≡ true
            → has (f (c.heap p)).request_to_target ≡ false
            → (c.heap p).new_socket_added ≡ false)
        → Windowed window (change p f c)
    Kept-Windowed f k waits =
        change-Windowed f (IsSound-Kept (c.heap p) (f (c.heap p)) (w.sound p lt) k waits)
          (k.url, k.added, λ e. k.err)
