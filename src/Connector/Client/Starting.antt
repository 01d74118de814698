-- ===== src/Connector/Client/Starting.antt =====
-- Starting a connector opens its window to each router.
use crank4go.Base.{
  ℕ, zero, suc, ◌+◌, ◌*◌, ◌≤◌, ◌≡◌, refl, sym, ap, ◌∙◌, false, List, [], ◌∷◌, arith, Text, codes,
  text_eq, has_prefix, if◌then◌else◌, get,
}
use crank4go.Monitor.{ConnectionMonitor}
use crank4go.Connector.Farm.{
  Url, url_string, idle_socket_num, new_websocket_client_farm, ConnectionInfo,
}
use crank4go.Connector.Urls.{register_uri}
use crank4go.Connector.Client.{
  ConnectorSocket, Client, new_connector, connect_to_router, add_socket, alloc_info, open_window,
  open_windows, start,
}
use crank4go.Connector.Window.{count_below}
use crank4go.Connector.Window.Full.{Windowed}
use crank4go.Connector.Client.Opening.{share, max_of, open_window-Windowed}

-- What a connector was made with.
pub record Settings : Type 0 where
  pub id : Text
  pub component : Text
  pub size : ℕ

abbrev pub settings : Client → Settings
settings c = record {
  id = c.connector_instance_id;
  component = c.component_name;
  size = c.sliding_window_size;
}

add_socket-settings :
    (url : Url) (info : ℕ) (c : Client) → settings (add_socket url info c) ≡ settings c
unfolding add_socket connect_to_router
add_socket-settings url info c = ground arith

open_window-settings :
    (url : Url) (n i : ℕ) (c : Client) → settings (open_window url n i c) ≡ settings c
unfolding open_window alloc_info
open_window-settings url zero i c = refl
open_window-settings url (suc n) i c =
    open_window-settings url n (i + 1) (add_socket url c.next_info (alloc_info url i c))
    ∙ add_socket-settings url c.next_info (alloc_info url i c)

-- The URL under which a connector with these settings registers at a router.
abbrev pub registers_at : Settings → Url → Url
registers_at s router = register_uri s.id s.component router

-- How many sockets are opened for a URL: the size of the window for each router that it comes from.
abbrev pub window_of : Settings → List Url → Text → ℕ
window_of s [] u = 0
window_of s (router ∷ routers) u =
    window_of s routers u + (if text_eq (url_string (registers_at s router)) u then s.size else 0)

-- No router has a path that makes the connector register under "/deregister".
abbrev pub PathsFine : Settings → List Url → Type 0
PathsFine s [] = Unit
PathsFine s (router ∷ routers) =
    (has_prefix (registers_at s router).path (codes "/deregister") ≡ false) × PathsFine s routers

open_windows-Windowed :
    (routers : List Url) (s : Settings) (window more : Text → ℕ) (c : Client)
    → Windowed window c
    → settings c ≡ s
    → ((u : Text) → more u ≡ window u + window_of s routers u)
    → ((u : Text) → more u ≤ max_of c)
    → PathsFine s routers
    → Windowed more (open_windows routers c)
unfolding open_windows
open_windows-Windowed [] s window more c w same grows room paths = record {
  opened = w.opened;
  listening = w.listening;
  room = room;
  small = w.small;
  sound = w.sound;
  counted = w.counted;
  full = λ u. ground (arith, w.full u, grows u);
  available = w.available;
}
open_windows-Windowed (router ∷ routers) s window more c w same grows room (path, paths) =
    let t = settings c in
    let url = registers_at t router in
    let next_window = λ (u : Text). window u + share t.size (url_string url) u in
    let grows' : (u : Text) → more u ≡ window u + window_of t (router ∷ routers) u = λ u.
      grows u ∙ ap (λ (x : Settings). window u + window_of x (router ∷ routers) u) (sym same) in
    let path' : has_prefix url.path (codes "/deregister") ≡ false =
      ap (λ (x : Settings). has_prefix (registers_at x router).path (codes "/deregister")) same
      ∙ path in
    let (w₁, max₁) =
      open_window-Windowed url t.size 0 window next_window c w (λ u. refl)
        (λ u. ground (arith, grows' u, room u)) path' in
    let c₁ = open_window url t.size 0 c in
    let same₁ = open_window-settings url t.size 0 c ∙ same in
    open_windows-Windowed routers s next_window more c₁ w₁ same₁
      (λ u. ground (
        arith,
        grows u,
        ap (λ (x : Settings). share x.size (url_string (registers_at x router)) u) same,
      ))
      (λ u. omega (arith, room u, max₁)) paths

module _ (uris : List Url) (size : ℕ) (m : ConnectionMonitor) (id component : Text)
    (no_socket : ConnectorSocket) (no_info : ConnectionInfo) where
  abbrev pub made_with : Settings
  made_with = record { id = id; component = component; size = size }

  abbrev made : Client
  made = new_connector uris size m id component no_socket no_info

  pub start-Windowed :
      size ≤ 1000
      → m.available_conns ≡ 0
      → ((u : Text) → window_of made_with uris u ≤ size * 2)
      → PathsFine made_with uris
      → Windowed (window_of made_with uris) (start made)
  unfolding start new_connector new_websocket_client_farm count_below idle_socket_num get
  start-Windowed bound none_yet twice paths =
      let fresh : Windowed (λ u. 0) made = record {
        opened = refl;
        listening = refl;
        room = λ u. omega arith;
        small = omega arith;
        sound = λ p lt. absurd (omega arith);
        counted = λ u. refl;
        full = λ u. refl;
        available = none_yet;
      } in
      let w =
        open_windows-Windowed uris made_with (λ u. 0) (window_of made_with uris) made fresh refl
          (λ u. omega arith) twice paths in
      record {
        opened = refl;
        listening = w.listening;
        room = w.room;
        small = w.small;
        sound = w.sound;
        counted = w.counted;
        full = w.full;
        available = w.available;
      }
