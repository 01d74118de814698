-- ===== src/Connector/Client/Opening.antt =====
-- A socket more for a router, and the window to one router.
use crank4go.Base.{
  ℕ, zero, suc, ◌+◌, ◌^◌, ◌≤◌, ◌<◌, ◌≡◌, refl, ap, ◌∙◌, false, arith, Text, codes, text_eq,
  text_eq_iff, has_prefix, inl, inr, Bool-cases, if◌then◌else◌,
}
use crank4go.Monitor.{on_connection_available}
use crank4go.Monitor.Laws.{available-available}
use crank4go.Connector.Farm.{
  Url, url_string, WebsocketClientFarm, idle_socket_num, add_websocket, on_connection_starting,
}
use crank4go.Connector.Client.{
  ConnectorSocket, new_connector_socket, undialed, dialing, Client, assign, is_closing,
  connect_to_router, add_socket, alloc_info, open_window,
}
use crank4go.Connector.Window.{
  count_below, number, unadded, unadded_at, idle_at, count-above, count-add, count_mono,
}
use crank4go.Connector.Window.Farm.{num-add, assign_self, not_shut_down}
use crank4go.Connector.Window.Full.{Windowed, IsSound-add, IsSound-assign, IsSound-fresh, max-add}

-- A socket that is added to those there are.
abbrev with_socket : Url → ℕ → Client → Client
with_socket url info c = record c {
  heap =
      assign c.next (record (new_connector_socket url info) { phase = dialing })
        (assign c.next (new_connector_socket url info) c.heap);
  next = c.next + 1;
  infos = assign info (on_connection_starting (c.infos info)) c.infos;
  websocket_client_farm = add_websocket (url_string url) c.websocket_client_farm;
  conn_monitor = on_connection_available c.conn_monitor;
}

add_socket-with :
    (url : Url) (info : ℕ) (c : Client)
    → is_closing c.state ≡ false
    → add_socket url info c ≡ with_socket url info c
unfolding add_socket connect_to_router
add_socket-with url info c opened = rw (not_shut_down c.state opened) (
    ap
      (λ (s : ConnectorSocket). record (with_socket url info c) {
        heap =
            assign c.next (record s { phase = dialing })
              (assign c.next (new_connector_socket url info) c.heap);
      })
      (assign_self c.next (new_connector_socket url info) c.heap))

count-with :
    (f : ConnectorSocket → ℕ) (n : ℕ) (s₀ s : ConnectorSocket) (heap : ℕ → ConnectorSocket)
    → count_below f (n + 1) (assign n s (assign n s₀ heap)) ≡ count_below f n heap + f s
count-with f n s₀ s heap =
    omega (arith, count-add f n s (assign n s₀ heap), count-above f n s₀ heap n (omega arith))

module _ (window more : Text → ℕ) (url : Url) (info : ℕ) (c : Client) (w : Windowed window c)
    (grows : (u : Text) → more u ≡ window u + number (text_eq (url_string url) u))
    (room : (u : Text) → more u ≤ c.websocket_client_farm.max_sliding_window_size)
    (path : has_prefix url.path (codes "/deregister") ≡ false) where
  abbrev new_one : ConnectorSocket
  new_one = record (new_connector_socket url info) { phase = dialing }

  own_below : idle_socket_num (url_string url) c.websocket_client_farm < 2 ^ 31
  own_below =
      let u = url_string url in
      let below = count_mono (idle_at u) (unadded_at u) c.heap c.next (λ s. ground arith) in
      omega (arith, below, w.counted u, w.full u, w.room u, w.small)

  with_socket-counted :
      (u : Text)
      → idle_socket_num u (with_socket url info c).websocket_client_farm
        ≡ count_below (idle_at u) (with_socket url info c).next (with_socket url info c).heap
  with_socket-counted u =
      let farm = c.websocket_client_farm in
      let all = count-with (idle_at u) c.next (new_connector_socket url info) new_one c.heap in
      elim (Bool-cases (text_eq (url_string url) u)) [
        | inl e ↦
            let same : idle_socket_num (url_string url) farm ≡ idle_socket_num u farm =
              ap (λ (t : Text). idle_socket_num t farm) ((text_eq_iff (url_string url) u).0 e) in
            let one : idle_at u new_one ≡ 1 = ground (arith, e) in
            num-add (url_string url) u farm
            ∙ rw e (omega (arith, all, one, same, w.counted u, own_below))
        | inr e ↦
            let not_one : idle_at u new_one ≡ 0 = ground (arith, e) in
            num-add (url_string url) u farm ∙ rw e (omega (arith, all, not_one, w.counted u))
      ]

  with_socket-Windowed : Windowed more (with_socket url info c)
  with_socket-Windowed = record {
    opened = w.opened;
    listening = w.listening;
    room = λ u. omega (arith, max-add (url_string url) c.websocket_client_farm, room u);
    small = omega (arith, max-add (url_string url) c.websocket_client_farm, w.small);
    sound =
        IsSound-assign c.next (c.next + 1) new_one
          (assign c.next (new_connector_socket url info) c.heap)
          (IsSound-fresh url info dialing path)
          (IsSound-add c.next (new_connector_socket url info) c.heap
            (IsSound-fresh url info undialed path) w.sound);
    counted = with_socket-counted;
    full = λ u.
        (omega (
          arith,
          grows u,
          w.full u,
          count-with (unadded_at u) c.next (new_connector_socket url info) new_one c.heap,
        ));
    available = omega (
      arith,
      w.available,
      available-available c.conn_monitor,
      count-with unadded c.next (new_connector_socket url info) new_one c.heap,
    );
  }

  added-Windowed : Windowed more (add_socket url info c)
  added-Windowed = rw (add_socket-with url info c w.opened) with_socket-Windowed

-- As many sockets as are opened for a URL that one URL of a router is resolved to.
abbrev pub share : ℕ → Text → Text → ℕ
share n url u = if text_eq url u then n else 0

alloc_info-Windowed :
    (window : Text → ℕ) (url : Url) (i : ℕ) (c : Client)
    → Windowed window c
    → Windowed window (alloc_info url i c)
unfolding alloc_info
alloc_info-Windowed window url i c w = record {
  opened = w.opened;
  listening = w.listening;
  room = w.room;
  small = w.small;
  sound = w.sound;
  counted = w.counted;
  full = w.full;
  available = w.available;
}

alloc_info-room :
    (url : Url) (i : ℕ) (c : Client)
    → (alloc_info url i c).websocket_client_farm ≡ c.websocket_client_farm
unfolding alloc_info
alloc_info-room url i c = refl

-- What a client's farm and its settings are sized by.
abbrev pub max_of : Client → ℕ
max_of c = c.websocket_client_farm.max_sliding_window_size

add_socket-max : (url : Url) (info : ℕ) (c : Client) → max_of (add_socket url info c) ≡ max_of c
unfolding add_socket connect_to_router add_websocket
add_socket-max url info c = ground arith

pub open_window-Windowed :
    (url : Url) (n i : ℕ) (window more : Text → ℕ) (c : Client)
    → Windowed window c
    → ((u : Text) → more u ≡ window u + share n (url_string url) u)
    → ((u : Text) → more u ≤ max_of c)
    → has_prefix url.path (codes "/deregister") ≡ false
    → Windowed more (open_window url n i c) × (max_of (open_window url n i c) ≡ max_of c)
unfolding open_window
open_window-Windowed url zero i window more c w grows room path = (
  record {
    opened = w.opened;
    listening = w.listening;
    room = room;
    small = w.small;
    sound = w.sound;
    counted = w.counted;
    full = λ u. ground (arith, w.full u, grows u);
    available = w.available;
  },
  refl,
)
open_window-Windowed url (suc n) i window more c w grows room path =
    let c₁ = alloc_info url i c in
    let w₁ = alloc_info-Windowed window url i c w in
    let max₁ : max_of c₁ ≡ max_of c =
      ap (λ (f : WebsocketClientFarm). f.max_sliding_window_size) (alloc_info-room url i c) in
    let next_window = λ (u : Text). window u + number (text_eq (url_string url) u) in
    let below : (u : Text) → next_window u ≤ max_of c₁ =
      λ u. ground (arith, grows u, room u, max₁) in
    let w₂ = added-Windowed window next_window url c.next_info c₁ w₁ (λ u. refl) below path in
    let c₂ = add_socket url c.next_info c₁ in
    let max₂ = add_socket-max url c.next_info c₁ in
    let (w₃, max₃) =
      open_window-Windowed url n (i + 1) next_window more c₂ w₂ (λ u. ground (arith, grows u))
        (λ u. omega (arith, room u, max₁, max₂)) path in
    (w₃, max₃ ∙ max₂ ∙ max₁)
