-- ===== src/Connector/Window/Replacing.antt =====
-- A socket is replaced by a new one: the window stays full.
use crank4go.Base.{
  ℕ, ◌+◌, ◌%◌, ◌<◌, ◌≡◌, ap, ◌∙◌, true, false, arith, Text, codes, text_eq, text_eq_iff,
  text_eq_refl, has_prefix, inl, inr, Bool-cases, u32_mod,
}
use crank4go.Monitor.{on_connection_available, on_connection_consumed}
use crank4go.Monitor.Laws.{available-available, available-consumed}
use crank4go.Connector.Farm.{
  Url, url_string, WebsocketClientFarm, idle_socket_num, add_websocket, is_safe_to_add_websocket,
  ConnectionInfo,
}
use crank4go.Connector.Client.{
  ConnectorSocket, undialed, dialing, Client, assign, change, when_consumed,
}
use crank4go.Connector.Window.{
  count_below, unadded, unadded_at, idle_at, count-above, count-assign, count-add,
  count_mono_without,
}
use crank4go.Connector.Window.Farm.{num-add, is_safe, fresh, when_consumed-grown}
use crank4go.Connector.Window.Full.{
  IsSound, Windowed, IsSound-assign, IsSound-add, IsSound-fresh, assign-other, max-add,
}

-- The heap with a new socket behind it, and the old one changed.
abbrev grown_heap :
    ℕ
    → (ConnectorSocket → ConnectorSocket)
    → ℕ
    → ConnectorSocket
    → ConnectorSocket
    → (ℕ → ConnectorSocket)
    → ℕ
    → ConnectorSocket
grown_heap p f n s₀ s heap = let h = assign n s (assign n s₀ heap) in assign p (f (h p)) h

count-grown :
    (g : ConnectorSocket → ℕ) (p : ℕ) (f : ConnectorSocket → ConnectorSocket) (n : ℕ)
    (s₀ s : ConnectorSocket) (heap : ℕ → ConnectorSocket)
    → p < n
    → count_below g (n + 1) (grown_heap p f n s₀ s heap) + g (heap p)
      ≡ count_below g n heap + g s + g (f (heap p))
count-grown g p f n s₀ s heap lt =
    let h = assign n s (assign n s₀ heap) in
    let e : h p ≡ heap p = assign-other n p s (assign n s₀ heap) lt ∙ assign-other n p s₀ heap lt in
    let same_g : g (h p) ≡ g (heap p) = ap g e in
    let same_f : g (f (h p)) ≡ g (f (heap p)) = ap (λ (t : ConnectorSocket). g (f t)) e in
    omega (
      arith,
      same_g,
      same_f,
      count-assign g p (f (h p)) h (n + 1) (omega arith),
      count-add g n s (assign n s₀ heap),
      count-above g n s₀ heap n (omega arith),
    )

IsSound-grown :
    (p : ℕ) (f : ConnectorSocket → ConnectorSocket) (n : ℕ) (s₀ s : ConnectorSocket)
    (heap : ℕ → ConnectorSocket)
    → p < n
    → IsSound (f (heap p))
    → IsSound s₀
    → IsSound s
    → ((q : ℕ) → q < n → IsSound (heap q))
    → (q : ℕ) → q < n + 1
    → IsSound (grown_heap p f n s₀ s heap q)
IsSound-grown p f n s₀ s heap lt k k₀ k₁ all =
    let h = assign n s (assign n s₀ heap) in
    let e : h p ≡ heap p = assign-other n p s (assign n s₀ heap) lt ∙ assign-other n p s₀ heap lt in
    IsSound-assign p (n + 1) (f (h p)) h (rw e k)
      (IsSound-assign n (n + 1) s (assign n s₀ heap) k₁ (IsSound-add n s₀ heap k₀ all))

module _ (window : Text → ℕ) (c : Client) (w : Windowed window c) (p : ℕ) (lt : p < c.next)
    (f : ConnectorSocket → ConnectorSocket) (sound : IsSound (f (c.heap p)))
    (added : (f (c.heap p)).new_socket_added ≡ true)
    (before : (c.heap p).new_socket_added ≡ false) where
  module _ (i : ℕ → ConnectionInfo) (farm : WebsocketClientFarm)
      (same_max : farm.max_sliding_window_size ≡ c.websocket_client_farm.max_sliding_window_size)
      (counts : (url : Text)
        → idle_socket_num url farm + idle_at url (c.heap p)
          ≡ count_below (idle_at url) c.next c.heap) where
    abbrev consuming : Client
    consuming = record c { infos = i; websocket_client_farm = farm }

    abbrev own_url : Text
    own_url = url_string (c.heap p).register_url

    own_room : idle_socket_num own_url farm < farm.max_sliding_window_size
    own_room =
        let below =
          count_mono_without (idle_at own_url) (unadded_at own_url) p c.heap c.next
            (λ s. ground arith) lt in
        let one : unadded_at own_url (c.heap p) ≡ 1 =
          ground (arith, before, text_eq_refl own_url) in
        omega (arith, below, one, counts own_url, w.full own_url, w.room own_url, same_max)

    pub own_safe : is_safe_to_add_websocket (c.heap p).register_url farm ≡ true
    own_safe =
        is_safe (c.heap p).register_url farm (w.sound p lt).path own_room
          (omega (arith, same_max, w.small))

    abbrev url : Url
    url = (c.heap p).register_url

    abbrev info : ℕ
    info = (c.heap p).conn_info

    own_path : has_prefix url.path (codes "/deregister") ≡ false
    own_path = (w.sound p lt).path

    abbrev new_socket : ConnectorSocket
    new_socket = record (fresh p consuming) { phase = dialing }

    abbrev new_heap : ℕ → ConnectorSocket
    new_heap = grown_heap p f c.next (fresh p consuming) new_socket c.heap

    counted-grown :
        (u : Text)
        → idle_socket_num u (add_websocket own_url farm)
          ≡ count_below (idle_at u) (c.next + 1) new_heap
    counted-grown u =
        let grows = count-grown (idle_at u) p f c.next (fresh p consuming) new_socket c.heap lt in
        let gone : idle_at u (f (c.heap p)) ≡ 0 = ground (arith, added) in
        elim (Bool-cases (text_eq own_url u)) [
          | inl e ↦
              let same : idle_socket_num own_url farm ≡ idle_socket_num u farm =
                ap (λ (t : Text). idle_socket_num t farm) ((text_eq_iff own_url u).0 e) in
              let one : idle_at u new_socket ≡ 1 = ground (arith, e) in
              num-add own_url u farm
              ∙ rw e (omega (arith, grows, gone, one, same, counts u, own_room, same_max, w.small))
          | inr e ↦
              let none_new : idle_at u new_socket ≡ 0 = ground (arith, e) in
              num-add own_url u farm ∙ rw e (omega (arith, grows, gone, none_new, counts u))
        ]

    full-grown :
        (u : Text)
        → count_below (unadded_at u) (c.next + 1) new_heap
          ≡ count_below (unadded_at u) c.next c.heap
    full-grown u =
        let grows =
          count-grown (unadded_at u) p f c.next (fresh p consuming) new_socket c.heap lt in
        let gone : unadded_at u (f (c.heap p)) ≡ 0 = ground (arith, added) in
        let same : unadded_at u new_socket ≡ unadded_at u (c.heap p) = ground (arith, before) in
        omega (arith, grows, gone, same)

    available-grown :
        (on_connection_available (on_connection_consumed c.conn_monitor)).available_conns
        ≡ count_below unadded (c.next + 1) new_heap % u32_mod
    available-grown =
        let m = c.conn_monitor in
        let grows = count-grown unadded p f c.next (fresh p consuming) new_socket c.heap lt in
        let gone : unadded (f (c.heap p)) ≡ 0 = ground (arith, added) in
        let was : unadded (c.heap p) ≡ 1 = ground (arith, before) in
        omega (
          arith,
          grows,
          gone,
          was,
          w.available,
          available-available (on_connection_consumed m),
          available-consumed m,
        )

    pub replaced-Windowed : Windowed window (change p f (when_consumed p consuming))
    replaced-Windowed = rw (when_consumed-grown p consuming w.opened own_safe) (record {
      opened = w.opened;
      listening = w.listening;
      room = λ url. omega (arith, max-add own_url farm, same_max, w.room url);
      small = omega (arith, max-add own_url farm, same_max, w.small);
      sound =
          IsSound-grown p f c.next (fresh p consuming) new_socket c.heap lt sound
            (IsSound-fresh url info undialed own_path) (IsSound-fresh url info dialing own_path)
            w.sound;
      counted = λ u. counted-grown u;
      full = λ u. omega (arith, w.full u, full-grown u);
      available = available-grown;
    })
