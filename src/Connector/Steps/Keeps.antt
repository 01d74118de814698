-- ===== src/Connector/Steps/Keeps.antt =====
-- The window of a connector stays full, whatever the routers, the targets and the network do.
use crank4go.Base.{ℕ, ◌+◌, ◌*◌, ◌%◌, ◌<◌, ◌≤◌, ◌≡◌, ap, true, false, u32_mod, Option, List, Text}
use crank4go.Connector.Plugins.{ConnectorPlugin}
use crank4go.Monitor.{ConnectionMonitor}
use crank4go.Connector.Farm.{Url, ConnectionInfo, idle_socket_num}
use crank4go.Connector.Client.{Client, ConnectorSocket, dialing, reading, new_connector, start}
use crank4go.Connector.Client.Starting.{window_of, PathsFine, start-Windowed}
use crank4go.Connector.Window.{count_below, unadded, unadded_at, idle_at}
use crank4go.Connector.Socket.{socket}
use crank4go.Connector.Socket.Keeps.{text-Stays, binary-Stays}
use crank4go.Connector.Events.Keeps.{answer-Stays}
use crank4go.Connector.Ending.{Frame, text_frame, binary_frame, other_frame, on_frame, timer_fires}
use crank4go.Connector.Ending.Keeps.{
  connect-Windowed, error-Windowed, timer-Windowed, timer_adds, end-Windowed,
}
use crank4go.Connector.Steps.{
  Step, dials, fails_to_dial, reads, ends, retries, answers, Reach, here, next_step,
}
use crank4go.Connector.Window.Full.{has, is_live, Windowed}
use crank4go.Connector.Window.Keeps.{Stays}

module _ (resolve : Text → Option Text) (plugins : List ConnectorPlugin) (window : Text → ℕ) where
  frame-Stays :
      (c : Client) (w : Windowed window c) (p : ℕ) (frame : Frame)
      → p < c.next
      → (socket p c).phase ≡ reading
      → Stays window (on_frame resolve plugins p frame c)
  unfolding on_frame
  frame-Stays c w p (text_frame msg) lt phase = text-Stays window c w p lt resolve plugins msg phase
  frame-Stays c w p (binary_frame failed payload) lt phase =
      binary-Stays window c w p lt failed payload
  frame-Stays c w p other_frame lt phase = w

  Step-Windowed :
      {c c' : Client} → Step resolve plugins c c' → Windowed window c → Windowed window c'
  Step-Windowed (dials p c lt phase) w = connect-Windowed window c w p lt phase
  Step-Windowed (fails_to_dial p c lt phase) w = error-Windowed window c w p lt (ap is_live phase)
  Step-Windowed (reads p frame c c' lt phase e) w = rw e at (frame-Stays c w p frame lt phase)
  Step-Windowed (ends p end c lt phase) w = end-Windowed window c w p lt end (ap is_live phase)
  Step-Windowed (retries p c lt armed) w = timer-Windowed window c w p lt armed
  Step-Windowed (answers p env answer c c' lt firing e) w =
      rw e at (answer-Stays window c w p lt env answer)

  pub Reach-Windowed :
      {c c' : Client} → Windowed window c → Reach resolve plugins c c' → Windowed window c'
  Reach-Windowed w here = w
  Reach-Windowed w (next_step r s) = Step-Windowed s (Reach-Windowed w r)

-- The assumptions: the size of the window is in its range, nothing was counted as available yet, no
-- URL is registered at more than twice, and none lies under "/deregister".
module _ (resolve : Text → Option Text) (plugins : List ConnectorPlugin) (uris : List Url)
    (size : ℕ) (m : ConnectionMonitor) (id component : Text) (no_socket : ConnectorSocket)
    (no_info : ConnectionInfo) (bound : size ≤ 1000) (none_yet : m.available_conns ≡ 0)
    (twice : (u : Text)
      → window_of (record { id = id; component = component; size = size }) uris u ≤ size * 2)
    (paths : PathsFine (record { id = id; component = component; size = size }) uris) where
  abbrev made : Client
  made = new_connector uris size m id component no_socket no_info

  abbrev window : Text → ℕ
  window = window_of (record { id = id; component = component; size = size }) uris

  reached : {c : Client} → Reach resolve plugins (start made) c → Windowed window c
  reached r =
      Reach-Windowed resolve plugins window
        (start-Windowed uris size m id component no_socket no_info bound none_yet twice paths) r

  -- If no URL is registered at by more than two routers and none has a path under "/deregister",
  -- then in each state that a started connector reaches until it is shut down, whatever its routers,
  -- targets and dials do: each register URL has exactly as many sockets that are not replaced as its
  -- routers have window slots; the farm counts those of them that had no error; and the monitor
  -- counts all of them as available, as an int32.
  pub full_window :
      {c : Client} (reach : Reach resolve plugins (start made) c) (url : Text)
      → (count_below (unadded_at url) c.next c.heap ≡ window url)
        × (idle_socket_num url c.websocket_client_farm ≡ count_below (idle_at url) c.next c.heap)
        × (c.conn_monitor.available_conns ≡ count_below unadded c.next c.heap % u32_mod)
  full_window reach url = let w = reached reach in (w.full url, w.counted url, w.available)

  -- In each such state, a socket that failed before it was replaced has its timer set, and when the
  -- timer fires, exactly one new socket dials the same URL.
  pub retries_in_time :
      {c : Client} (reach : Reach resolve plugins (start made) c) (p : ℕ)
      → p < c.next
      → (socket p c).had_error ≡ true
      → (socket p c).new_socket_added ≡ false
      → (has (socket p c).retry ≡ true)
        × ((timer_fires p c).next ≡ c.next + 1)
        × ((socket c.next (timer_fires p c)).phase ≡ dialing)
        × ((socket c.next (timer_fires p c)).register_url ≡ (socket p c).register_url)
  retries_in_time {c} reach p lt err waits =
      let w = reached reach in
      let armed = (w.sound p lt).retrying err waits in
      let (next, dials_too, same_url) = timer_adds window c w p lt armed in
      (armed, next, dials_too, same_url)
