-- ===== src/Connector/Steps.antt =====
-- connector/: the steps that a connector takes once it is started and until
-- it is shut down, as a relation.
pub mod Keeps
use crank4go.Base.{◌≡◌, true, Option, some, List, Text, ℕ, ◌<◌}
use crank4go.Connector.Window.Full.{has}
use crank4go.Connector.Plugins.{ConnectorPlugin}
use crank4go.Connector.Target.{Answer}
use crank4go.Connector.Client.{Client, dialing, reading}
use crank4go.Connector.Socket.{socket, on_websocket_connect}
use crank4go.Connector.Events.{Surroundings, target_answers}
use crank4go.Connector.Ending.{Frame, Ended, on_websocket_error, timer_fires, on_frame, on_end}

-- The goroutines of the sockets are interleaved in any way, between the handlers that they call.
pub data Step (resolve : Text → Option Text) (plugins : List ConnectorPlugin)
    : Client → Client → Type 0 where
  dials :
      (p : ℕ) (c : Client)
      → p < c.next
      → (socket p c).phase ≡ dialing
      → Step resolve plugins c (on_websocket_connect p c)
  fails_to_dial :
      (p : ℕ) (c : Client)
      → p < c.next
      → (socket p c).phase ≡ dialing
      → Step resolve plugins c (on_websocket_error p c)
  reads :
      (p : ℕ) (frame : Frame) (c c' : Client)
      → p < c.next
      → (socket p c).phase ≡ reading
      → on_frame resolve plugins p frame c ≡ some c'
      → Step resolve plugins c c'
  ends :
      (p : ℕ) (end : Ended) (c : Client)
      → p < c.next
      → (socket p c).phase ≡ reading
      → Step resolve plugins c (on_end p end c)
  retries :
      (p : ℕ) (c : Client)
      → p < c.next
      → has (socket p c).retry ≡ true
      → Step resolve plugins c (timer_fires p c)
  answers :
      (p : ℕ) (env : Surroundings) (answer : Answer) (c c' : Client)
      → p < c.next
      → (socket p c).firing ≡ true
      → target_answers env answer p c ≡ some c'
      → Step resolve plugins c c'

pub data Reach (resolve : Text → Option Text) (plugins : List ConnectorPlugin) (c : Client)
    : Client → Type 0 where
  here : Reach resolve plugins c c
  next_step :
      {d e : Client}
      → Reach resolve plugins c d
      → Step resolve plugins d e
      → Reach resolve plugins c e
