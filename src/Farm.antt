-- ===== src/Farm.antt =====
-- router/router_socket/websocket_farm.go: the queues of idle sockets, one for each route and two for
-- sockets without a route, in a normal and a dark copy.
pub mod Operations
pub mod Listener
pub mod Overview
pub mod Routes
pub mod Deregistration
pub mod Pools
pub mod Addresses
pub mod Revoking
mod Tests
use crank4go.Base.{
  ℕ, zero, suc, ◌≡◌, Bool, true, false, Option, none, some, List, [], ◌∷◌, ◌++◌, Text, codes, Map,
  get, put, text_eq, if◌then◌else◌, ◌==◌,
}
use crank4go.SocketQueue.{IterableChan, make_chan, push, default_chan_capacity}
use crank4go.Monitor.{ConnectionMonitor}
use crank4go.Socket.{RouterSocket}

-- A pointer to one of the farm's queues.
pub data QueueRef : Type 0 where
  sockets_at : Text → QueueRef
  dark_sockets_at : Text → QueueRef
  the_catchall : QueueRef
  the_dark_catchall : QueueRef

-- `pending` are the goroutines that `Offer` started and that have not sent their socket yet.
pub record Farm : Type 0 where
  pub sockets : Map IterableChan
  pub dark_sockets : Map IterableChan
  pub catchall : IterableChan
  pub dark_catchall : IterableChan
  pub pending : List (QueueRef × ℕ)

-- What the farm's methods reach: the sockets by their pointers, the gray-testing toggle and the
-- connection monitor.
pub record Net : Type 0 where
  pub farm : Farm
  pub heap : ℕ → RouterSocket
  pub toggle : ℕ
  pub conn_monitor : ConnectionMonitor

-- NewIterableChan with capacity 0 takes the default.
abbrev pub new_queue : IterableChan
new_queue = make_chan default_chan_capacity

-- NewWebsocketFarm
unfoldable pub new_websocket_farm : Farm
new_websocket_farm = record {
  sockets = [];
  dark_sockets = [];
  catchall = new_queue;
  dark_catchall = new_queue;
  pending = [];
}

abbrev pub update : (ℕ → RouterSocket) → ℕ → (RouterSocket → RouterSocket) → ℕ → RouterSocket
update heap p change q = if p == q then change (heap q) else heap q

abbrev pub load : QueueRef → Farm → Option IterableChan
load (sockets_at route) f = get route f.sockets
load (dark_sockets_at route) f = get route f.dark_sockets
load the_catchall f = some f.catchall
load the_dark_catchall f = some f.dark_catchall

abbrev pub save : QueueRef → IterableChan → Farm → Farm
save (sockets_at route) q f = record f { sockets = put route q f.sockets }
save (dark_sockets_at route) q f = record f { dark_sockets = put route q f.dark_sockets }
save the_catchall q f = record f { catchall = q }
save the_dark_catchall q f = record f { dark_catchall = q }

-- `Offer` starts a goroutine.
abbrev pub spawn : QueueRef → ℕ → Farm → Farm
spawn r p f = record f { pending = f.pending ++ (r, p) ∷ [] }

-- One goroutine sends, stores and counts its socket, or waits on while the channel is full.
run_offer : QueueRef → ℕ → Farm → Farm
run_offer r p f = elim (load r f) [
  | none ↦ spawn r p f
  | some q ↦ (elim (push p q) [ none ↦ spawn r p f | some q' ↦ save r q' f ])
]

run_offers : List (QueueRef × ℕ) → Farm → Farm
unfolding run_offer
run_offers [] f = f
run_offers ((r, p) ∷ offers) f = run_offers offers (run_offer r p f)

-- The goroutines run, in the order in which they were started.
unfoldable pub settle : Farm → Farm
unfolding run_offers
settle f = run_offers f.pending (record f { pending = [] })

-- The queue of a route, made when it is not there.
unfoldable pub ensure_sockets : Text → Farm → Farm
ensure_sockets route f = elim (get route f.sockets) [
  | none ↦ record f { sockets = put route new_queue f.sockets }
  | some q ↦ f
]

unfoldable pub ensure_dark_sockets : Text → Farm → Farm
ensure_dark_sockets route f = elim (get route f.dark_sockets) [
  | none ↦ record f { dark_sockets = put route new_queue f.dark_sockets }
  | some q ↦ f
]
