-- ===== src/Connector/Ending/Keeps.antt =====
-- The end of a websocket, a failed dial and a retry keep the window of the connector full.
use crank4go.Base.{
  ℕ, ◌+◌, ◌<◌, ◌≤◌, ◌≡◌, refl, ap, ◌∙◌, Bool, true, false, arith, Text, if◌then◌else◌,
}
use crank4go.Connector.Farm.{url_string, remove_websocket, retry_after_millis}
use crank4go.Connector.Client.{ConnectorSocket, dialing, ended, Client, change}
use crank4go.Connector.Socket.{socket, mark_added, session_opened, on_websocket_connect}
use crank4go.Connector.Ending.{
  end_session, replace_socket, unless_added, give_up, on_websocket_close, end_ping, set_timer,
  retry_later, retried, on_websocket_error, timer_fires, Ended, closed, broken, on_end,
}
use crank4go.Connector.Window.{idle_at}
use crank4go.Connector.Window.Farm.{assign_self, when_consumed-next, when_consumed-grown}
use crank4go.Connector.Window.Full.{has, is_live, Windowed}
use crank4go.Connector.Window.Replacing.{own_safe, replaced-Windowed}
use crank4go.Connector.Window.Keeps.{change-Windowed, removed_counts, erring-Windowed, max-remove}
use crank4go.Connector.Ending.Sound.{
  IsSound-session_opened, IsSound-retried, IsSound-added, IsSound-end_session, IsSound-give_up,
  give_up-Same, IsSound-end_ping, IsSound-set_timer,
}

module _ (window : Text → ℕ) (c : Client) (w : Windowed window c) (p : ℕ) (lt : p < c.next) where
  Windowed-if :
      (test : Bool) {u v : Client}
      → (test ≡ true → Windowed window u)
      → (test ≡ false → Windowed window v)
      → Windowed window (if test then u else v)
  Windowed-if true h k = h refl
  Windowed-if false h k = k refl

  pub connect-Windowed : (socket p c).phase ≡ dialing → Windowed window (on_websocket_connect p c)
  unfolding on_websocket_connect
  connect-Windowed phase =
      change-Windowed window c w p lt session_opened
        (IsSound-session_opened (c.heap p) (w.sound p lt) phase) (refl, refl, λ e. refl)

  retry_later-Windowed :
      (c.heap p).new_socket_added ≡ false
      → (c.heap p).had_error ≡ false
      → Windowed window (retry_later p c)
  unfolding retry_later set_timer end_ping
  retry_later-Windowed before fine =
      let delay = retry_after_millis (c.infos (c.heap p).conn_info) in
      erring-Windowed window c w p lt (set_timer c.parent_done delay (end_ping (c.heap p)))
        (IsSound-set_timer (c.heap p) c.parent_done delay (w.sound p lt) w.listening before) refl
        before refl before fine

  -- The second error of a socket is no case of a live one.
  pub error-Windowed : is_live (socket p c).phase ≡ true → Windowed window (on_websocket_error p c)
  unfolding on_websocket_error
  error-Windowed live =
      let h = w.sound p lt in
      let fine = h.lively live in
      Windowed-if (c.heap p).had_error (λ e. cc)
        λ e.
          Windowed-if (c.heap p).new_socket_added
            (λ added.
              change-Windowed window c w p lt end_ping (IsSound-end_ping (c.heap p) h live added)
                (refl, refl, λ e. cc))
            (λ before. retry_later-Windowed before fine)

  pub timer-Windowed : has (socket p c).retry ≡ true → Windowed window (timer_fires p c)
  unfolding timer_fires retried
  timer-Windowed armed =
      let h = w.sound p lt in
      let (err, before) = h.armed armed in
      replaced-Windowed window c w p lt retried (IsSound-retried (c.heap p) h err) refl before
        c.infos c.websocket_client_farm refl
        (λ u.
          let zero_here : idle_at u (c.heap p) ≡ 0 = ground (arith, err) in
          omega (arith, zero_here, w.counted u))

  -- The timer's function puts a new socket behind the others, which dials the same URL.
  pub timer_adds :
      has (socket p c).retry ≡ true
      → ((timer_fires p c).next ≡ c.next + 1)
        × ((socket c.next (timer_fires p c)).phase ≡ dialing)
        × ((socket c.next (timer_fires p c)).register_url ≡ (socket p c).register_url)
  unfolding timer_fires retried
  timer_adds armed =
      let h = w.sound p lt in
      let (err, before) = h.armed armed in
      let safe =
        own_safe window c w p lt retried (IsSound-retried (c.heap p) h err) refl before c.infos
          c.websocket_client_farm refl
          (λ u.
            let zero_here : idle_at u (c.heap p) ≡ 0 = ground (arith, err) in
            omega (arith, zero_here, w.counted u)) in
      rw (when_consumed-grown p c w.opened safe) (refl, ground arith, ground arith)

  unless_added-Windowed :
      (c.heap p).phase ≡ ended → (c.heap p).had_error ≡ false → Windowed window (unless_added p c)
  unfolding unless_added replace_socket
  unless_added-Windowed phase fine =
      Windowed-if (c.heap p).new_socket_added (λ e. w)
        λ before.
          replaced-Windowed window c w p lt mark_added
            (IsSound-added (c.heap p) (w.sound p lt) phase fine) refl before c.infos
            (remove_websocket (url_string (c.heap p).register_url) c.websocket_client_farm)
            (max-remove (url_string (c.heap p).register_url) c.websocket_client_farm)
            (removed_counts window c w p lt before fine)

  unless_added-next : c.next ≤ (unless_added p c).next
  unfolding unless_added replace_socket
  unless_added-next = ground (
    arith,
    when_consumed-next p (record c {
      websocket_client_farm =
          remove_websocket (url_string (c.heap p).register_url) c.websocket_client_farm;
    }),
  )

module _ (window : Text → ℕ) (c : Client) (w : Windowed window c) (p : ℕ) (lt : p < c.next) where
  pub close-Windowed :
      (code : ℕ) → is_live (socket p c).phase ≡ true → Windowed window (on_websocket_close code p c)
  unfolding on_websocket_close
  close-Windowed code live =
      let h = w.sound p lt in
      let c₁ = change p end_session c in
      let here : c₁.heap p ≡ end_session (c.heap p) =
        assign_self p (end_session (c.heap p)) c.heap in
      let w₁ =
        change-Windowed window c w p lt end_session (IsSound-end_session (c.heap p) h)
          (refl, refl, λ e. refl) in
      let w₂ : Windowed window (unless_added p c₁) =
        unless_added-Windowed window c₁ w₁ p lt (ap (λ (s : ConnectorSocket). s.phase) here)
          (ap (λ (s : ConnectorSocket). s.had_error) here ∙ h.lively live) in
      let c₂ = unless_added p c₁ in
      let lt₂ : p < c₂.next = omega (arith, lt, unless_added-next window c₁ w₁ p lt) in
      change-Windowed window c₂ w₂ p lt₂ (give_up code)
        (IsSound-give_up code (c₂.heap p) (w₂.sound p lt₂)) (give_up-Same code (c₂.heap p))

  pub end-Windowed :
      (end : Ended) → is_live (socket p c).phase ≡ true → Windowed window (on_end p end c)
  unfolding on_end
  end-Windowed (closed code) live = close-Windowed code live
  end-Windowed broken live = error-Windowed window c w p lt live
