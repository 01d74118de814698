-- ===== src/Farm/Listener.antt =====
-- router/router_socket/websocket_farm.go: `darkListener`, which moves sockets between the normal and
-- the dark queues when an address or a service is marked as dark or revoked.
use crank4go.Base.{
  ℕ, Bool, Option, none, some, List, [], ◌∷◌, Text, Map, get, put, map, text_eq, if◌then◌else◌,
}
use crank4go.SocketQueue.{IterableChan, remove}
use crank4go.DarkLaunch.{Listener, turn_gray_testing_off}
use crank4go.Socket.{RouterSocket}
use crank4go.Farm.{
  Farm, Net, QueueRef, sockets_at, dark_sockets_at, the_catchall, the_dark_catchall, load, save,
  spawn, new_queue, ensure_dark_sockets,
}

abbrev pub keep_if {ℓ} : {A : Type ℓ} → (A → Bool) → List A → List A
keep_if test [] = []
keep_if test (x ∷ xs) = if test x then x ∷ keep_if test xs else keep_if test xs

-- The loop `for _, socket := range toBeRemoved`.
unfoldable pub remove_each : List ℕ → IterableChan → IterableChan
remove_each [] q = q
remove_each (p ∷ ps) q = remove_each ps (remove q (some p)).0

unfoldable pub offer_each : (ℕ → Farm → Farm) → List ℕ → Farm → Farm
offer_each offer_to [] f = f
offer_each offer_to (p ∷ ps) f = offer_each offer_to ps (offer_to p f)

unfoldable pub remove_loaded : QueueRef → List ℕ → Option IterableChan → Farm → Farm
unfolding remove_each
remove_loaded src ps none f = f
remove_loaded src ps (some q) f = save src (remove_each ps q) f

-- One queue: each alive socket that fits is offered to its new queue, and then all of these are
-- removed from this one.
unfoldable pub move_loaded :
    (ℕ → Bool) → (ℕ → Farm → Farm) → QueueRef → Option IterableChan → Farm → Farm
unfolding remove_loaded offer_each
move_loaded fits offer_to src none f = f
move_loaded fits offer_to src (some q) f =
    let ps = keep_if fits q.alive_socket_set in
    let f' = offer_each offer_to ps f in remove_loaded src ps (load src f') f'

unfoldable pub move_sockets : (ℕ → Bool) → (ℕ → Farm → Farm) → QueueRef → Farm → Farm
unfolding move_loaded
move_sockets fits offer_to src f = move_loaded fits offer_to src (load src f) f

-- `Range` over the queues that the map holds.
unfoldable pub move_all : (ℕ → Bool) → (ℕ → Farm → Farm) → List QueueRef → Farm → Farm
move_all fits offer_to [] f = f
move_all fits offer_to (src ∷ srcs) f =
    move_all fits offer_to srcs (move_sockets fits offer_to src f)

-- The dark queue of the socket's route, made when it is not there.
unfoldable pub offer_dark : (ℕ → RouterSocket) → ℕ → Farm → Farm
offer_dark heap p f =
    spawn (dark_sockets_at (heap p).route) p (ensure_dark_sockets (heap p).route f)

unfoldable pub back_to : Option IterableChan → Text → ℕ → Farm → Farm
back_to none route p f =
    spawn (sockets_at route) p (record f { sockets = put route new_queue f.sockets })
back_to (some q) route p f = spawn (dark_sockets_at route) p f

-- What the revoking methods do: they look the queue up in the map of the dark queues.
unfoldable pub offer_back : (ℕ → RouterSocket) → ℕ → Farm → Farm
unfolding back_to
offer_back heap p f = back_to (get (heap p).route f.dark_sockets) (heap p).route p f

abbrev pub route_refs : Map IterableChan → List QueueRef
route_refs m = map (λ e. sockets_at e.0) m

abbrev pub dark_refs : Map IterableChan → List QueueRef
dark_refs m = map (λ e. dark_sockets_at e.0) m

abbrev pub has_ip : (ℕ → RouterSocket) → Text → ℕ → Bool
has_ip heap ip p = text_eq (heap p).ip ip

abbrev pub has_route : (ℕ → RouterSocket) → Text → ℕ → Bool
has_route heap route p = text_eq (heap p).route route

-- The sockets of the routed queues are compared by their address.
unfoldable pub after_dark_service_added : Text → Net → Net
after_dark_service_added service n = record n {
  farm =
      move_sockets (has_route n.heap service) (spawn the_dark_catchall) the_catchall
        (move_all (has_ip n.heap service) (offer_dark n.heap) (route_refs n.farm.sockets) n.farm);
}

unfoldable pub after_dark_service_revoked : Text → Net → Net
after_dark_service_revoked service n = record n {
  toggle = turn_gray_testing_off n.toggle;
  farm = move_sockets (has_route n.heap service) (spawn the_catchall) the_dark_catchall (
      move_all (has_route n.heap service) (offer_back n.heap) (dark_refs n.farm.dark_sockets)
        n.farm);
}

unfoldable pub after_dark_ip_added : Text → Net → Net
after_dark_ip_added ip n = record n {
  farm =
      move_sockets (has_ip n.heap ip) (spawn the_dark_catchall) the_catchall
        (move_all (has_ip n.heap ip) (offer_dark n.heap) (route_refs n.farm.sockets) n.farm);
}

unfoldable pub after_dark_ip_revoked : Text → Net → Net
after_dark_ip_revoked ip n = record n {
  toggle = turn_gray_testing_off n.toggle;
  farm =
      move_sockets (has_ip n.heap ip) (spawn the_catchall) the_dark_catchall
        (move_all (has_ip n.heap ip) (offer_back n.heap) (dark_refs n.farm.dark_sockets) n.farm);
}

-- The two values that NewWebsocketFarm registers with the manager.
abbrev pub ip_listener : Listener Net
ip_listener = record { after_added = after_dark_ip_added; after_revoked = after_dark_ip_revoked }

abbrev pub service_listener : Listener Net
service_listener = record {
  after_added = after_dark_service_added;
  after_revoked = after_dark_service_revoked;
}
