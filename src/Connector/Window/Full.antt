-- ===== src/Connector/Window/Full.antt =====
-- The window of a connector is full: what stays so while its sockets come and go.
use crank4go.Base.{
  ℕ, ◌+◌, ◌%◌, ◌≤◌, ◌<◌, ◌^◌, ◌≡◌, refl, Bool, true, false, Option, none, some, arith, Text, codes,
  has_prefix, inl, inr, Bool-cases, u32_mod, ◌==◌,
}
use crank4go.Monitor.{ConnectionMonitor}
use crank4go.Connector.Farm.{Url, WebsocketClientFarm, idle_socket_num, add_websocket}
use crank4go.Connector.Client.{
  ConnectorSocket, Phase, undialed, dialing, reading, ended, Client, new_connector_socket, assign,
  is_closing,
}
use crank4go.Connector.Window.{count_below, unadded, unadded_at, idle_at, count-assign}

abbrev pub has {ℓ} : {A : Type ℓ} → Option A → Bool
has none = false
has (some a) = true

abbrev pub is_live : Phase → Bool
is_live undialed = false
is_live dialing = true
is_live reading = true
is_live ended = false

-- A socket that had an error and is not replaced has its timer set; one that is alive and has no
-- request yet is not replaced.
pub record IsSound (s : ConnectorSocket) : Type 0 where
  pub path : has_prefix s.register_url.path (codes "/deregister") ≡ false
  pub retrying : s.had_error ≡ true → s.new_socket_added ≡ false → has s.retry ≡ true
  pub armed : has s.retry ≡ true → (s.had_error ≡ true) × (s.new_socket_added ≡ false)
  pub waiting :
      is_live s.phase ≡ true → has s.request_to_target ≡ false → s.new_socket_added ≡ false
  pub lively : is_live s.phase ≡ true → s.had_error ≡ false

-- `window url` sockets of each URL are not replaced yet; those of them that had no error are the
-- ones that the farm counts.
pub record Windowed (window : Text → ℕ) (c : Client) : Type 0 where
  pub opened : is_closing c.state ≡ false
  pub listening : c.parent_done ≡ false
  pub room : (url : Text) → window url ≤ c.websocket_client_farm.max_sliding_window_size
  pub small : c.websocket_client_farm.max_sliding_window_size < 2 ^ 31
  pub sound : (p : ℕ) → p < c.next → IsSound (c.heap p)
  pub counted :
      (url : Text)
      → idle_socket_num url c.websocket_client_farm ≡ count_below (idle_at url) c.next c.heap
  pub full : (url : Text) → count_below (unadded_at url) c.next c.heap ≡ window url
  pub available : c.conn_monitor.available_conns ≡ count_below unadded c.next c.heap % u32_mod

abbrev pub Sounds : Client → Type 0
Sounds c = (p : ℕ) → p < c.next → IsSound (c.heap p)

pub IsSound-assign :
    (p n : ℕ) (s : ConnectorSocket) (heap : ℕ → ConnectorSocket)
    → IsSound s
    → ((q : ℕ) → q < n → IsSound (heap q))
    → (q : ℕ) → q < n
    → IsSound (assign p s heap q)
IsSound-assign p n s heap h all q lt = elim (Bool-cases (p == q)) [
  | inl e ↦ rw e h
  | inr e ↦ rw e (all q lt)
]

pub IsSound-add :
    (n : ℕ) (s : ConnectorSocket) (heap : ℕ → ConnectorSocket)
    → IsSound s
    → ((q : ℕ) → q < n → IsSound (heap q))
    → (q : ℕ) → q < n + 1
    → IsSound (assign n s heap q)
IsSound-add n s heap h all q lt = elim (Bool-cases (n == q)) [
  | inl e ↦ rw e h
  | inr e ↦ rw e (all q (ground arith))
]

module _ (window : Text → ℕ) (c : Client) (w : Windowed window c) (p : ℕ) (lt : p < c.next)
    (s : ConnectorSocket) (sound : IsSound s)
    (same_url : s.register_url ≡ (c.heap p).register_url) where
  idle_same :
      (url : Text)
      → s.new_socket_added ≡ (c.heap p).new_socket_added
      → (s.new_socket_added ≡ false → s.had_error ≡ (c.heap p).had_error)
      → idle_at url s ≡ idle_at url (c.heap p)
  idle_same url added err = elim (Bool-cases s.new_socket_added) [
    | inl e ↦ ground (arith, added, e)
    | inr e ↦ ground (arith, added, err e, same_url)
  ]

  unadded_same :
      (url : Text)
      → s.new_socket_added ≡ (c.heap p).new_socket_added
      → unadded_at url s ≡ unadded_at url (c.heap p)
  unadded_same url added = ground (arith, added, same_url)

  -- The socket stays as far as it goes, and so does the count of available connections.
  pub quiet-Windowed :
      (m : ConnectionMonitor)
      → m.available_conns ≡ c.conn_monitor.available_conns
      → s.new_socket_added ≡ (c.heap p).new_socket_added
      → (s.new_socket_added ≡ false → s.had_error ≡ (c.heap p).had_error)
      → Windowed window (record c { heap = assign p s c.heap; conn_monitor = m })
  quiet-Windowed m avail added err = record {
    opened = w.opened;
    listening = w.listening;
    room = w.room;
    small = w.small;
    sound = IsSound-assign p c.next s c.heap sound w.sound;
    counted = λ url. omega (
      arith,
      w.counted url,
      idle_same url added err,
      count-assign (idle_at url) p s c.heap c.next lt,
    );
    full = λ url. omega (
      arith,
      w.full url,
      unadded_same url added,
      count-assign (unadded_at url) p s c.heap c.next lt,
    );
    available =
        ground (arith, w.available, avail, added, count-assign unadded p s c.heap c.next lt);
  }

pub assign-other :
    (n p : ℕ) (s : ConnectorSocket) (heap : ℕ → ConnectorSocket)
    → p < n
    → assign n s heap p ≡ heap p
assign-other n p s heap lt = ground arith

pub max-add :
    (url : Text) (f : WebsocketClientFarm)
    → (add_websocket url f).max_sliding_window_size ≡ f.max_sliding_window_size
unfolding add_websocket
max-add url f = refl

pub IsSound-fresh :
    (url : Url) (info : ℕ) (phase : Phase)
    → has_prefix url.path (codes "/deregister") ≡ false
    → IsSound (record (new_connector_socket url info) { phase = phase })
IsSound-fresh url info phase h = record {
  path = h;
  retrying = λ e. cc;
  armed = λ e. cc;
  waiting = λ e k. refl;
  lively = λ e. refl;
}
