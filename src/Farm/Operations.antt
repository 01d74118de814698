-- ===== src/Farm/Operations.antt =====
-- router/router_socket/websocket_farm.go: adding, removing, acquiring and deregistering sockets.
use crank4go.Base.{
  ℕ, zero, suc, ◌+◌, Bool, true, false, ◌&&◌, ◌||◌, Option, none, some, List, [], ◌∷◌, ◌++◌, Text,
  codes, Map, get, split, text_eq, if◌then◌else◌, ◌⊎◌, inl, inr, length,
}
use crank4go.SocketQueue.{
  IterableChan, remove, poll, poll_timeout, is_empty, is_alive_socket_set_empty, len_alive,
}
use crank4go.Monitor.{report_websocket_pool_size}
use crank4go.DarkLaunch.{
  DarkLaunchManager, is_dark_mode_on, contains_ip, contains_service, is_gray_testing_on,
}
use crank4go.Socket.{RouterSocket, is_catch_all, set_req_component_name, close_socket_session}
use crank4go.Farm.{
  Farm, Net, QueueRef, sockets_at, dark_sockets_at, the_catchall, the_dark_catchall, load, save,
  spawn, update, ensure_sockets, ensure_dark_sockets,
}

abbrev pub slash : ℕ
slash = b'/'

-- The test of `AddWebsocket` and `RemoveWebsocket`.
unfoldable pub is_dark : DarkLaunchManager Net → RouterSocket → Bool
is_dark m s = is_dark_mode_on m && (contains_ip s.ip m || contains_service s.route m)

unfoldable pub drop_from : QueueRef → ℕ → Farm → Farm
drop_from r p f = elim (load r f) [ none ↦ f | some q ↦ save r (remove q (some p)).0 f ]

unfoldable pub remove_at : Bool → Text → RouterSocket → ℕ → Farm → Farm
unfolding drop_from
remove_at true route s p f =
    if is_catch_all s
    then drop_from the_dark_catchall p f
    else drop_from (dark_sockets_at route) p f
remove_at false route s p f =
    if is_catch_all s then drop_from the_catchall p f else drop_from (sockets_at route) p f

unfoldable pub remove_websocket : DarkLaunchManager Net → Text → ℕ → Net → Net
unfolding remove_at
remove_websocket m route p n = record n {
  farm = remove_at (is_dark m (n.heap p)) route (n.heap p) p n.farm;
}

abbrev pub star : Text
star = codes "*"

add_at : Bool → Text → ℕ → Farm → Farm
add_at true route p f =
    if text_eq route star
    then spawn the_dark_catchall p f
    else spawn (dark_sockets_at route) p (ensure_dark_sockets route f)
add_at false route p f =
    if text_eq route star
    then spawn the_catchall p f
    else spawn (sockets_at route) p (ensure_sockets route f)

unfoldable pub add_websocket : DarkLaunchManager Net → Text → ℕ → Net → Net
unfolding add_at
add_websocket m route p n = record n {
  farm = add_at (is_dark m (n.heap p)) (if text_eq route [] then star else route) p n.farm;
}

second_part : List Text → Text
second_part [] = []
second_part (route ∷ more) = route

unfoldable pub resolve_route : Text → Text
unfolding second_part
resolve_route target = second_part (split slash target).others

-- The queue of a route, or the queue of the sockets without one.
abbrev pub or_catchall : Option IterableChan → QueueRef → QueueRef → QueueRef
or_catchall none routed others = others
or_catchall (some q) routed others = routed

choose : Bool → Text → Farm → QueueRef
choose true route f =
    or_catchall (get route f.dark_sockets) (dark_sockets_at route) the_dark_catchall
choose false route f = or_catchall (get route f.sockets) (sockets_at route) the_catchall

-- The queue that `getRouterSocket` polls for a target.
unfoldable pub target_queue : DarkLaunchManager Net → Text → Net → QueueRef
unfolding choose
target_queue m target n =
    choose (is_dark_mode_on m && is_gray_testing_on n.toggle) (resolve_route target) n.farm

poll_queue : (ℕ → Bool) → List (ℕ × Bool) → QueueRef → Option IterableChan → Net → Net × Option ℕ
poll_queue late arrivals r none n = (n, none)
poll_queue late arrivals r (some q) n =
    let (q', found) = poll_timeout late arrivals q in
    (
      record n {
        farm = save r q' n.farm;
        conn_monitor = report_websocket_pool_size (len_alive q) n.conn_monitor;
      },
      found,
    )

unfoldable pub get_router_socket :
    DarkLaunchManager Net → (ℕ → Bool) → List (ℕ × Bool) → Text → Net → Net × Option ℕ
unfolding poll_queue
get_router_socket m late arrivals target n =
    let r = target_queue m target n in poll_queue late arrivals r (load r n.farm) n

-- The error of `AcquireSocket` is a `TimeoutErr`.
acquired : Text → Text → Net × Option ℕ → Net × (Text ⊎ ℕ)
acquired target component (n, none) = (
  n,
  inl (codes "failed to proxy " ++ (target ++ (codes ", requestComponentName: " ++ component))),
)
acquired target component (n, some p) =
    (record n { heap = update n.heap p (set_req_component_name component) }, inr p)

unfoldable pub acquire_socket :
    DarkLaunchManager Net → (ℕ → Bool) → List (ℕ × Bool) → Text → Text → Net → Net × (Text ⊎ ℕ)
unfolding acquired
acquire_socket m late arrivals target component n =
    acquired target component (get_router_socket m late arrivals target n)

-- How `DeregisterSocket` ends; `spinning` means that the given number of rounds was not enough.
pub data Ending : Type 0 where
  finished : Net → Ending
  panicked : Net → Ending
  spinning : Net → Ending

-- removeWebsockets; `strings.Split(addr, "/")[1]` panics on an address without a slash.
unfoldable pub remove_with : DarkLaunchManager Net → Text → ℕ → List Text → Net → Ending
remove_with m id p [] n = panicked n
remove_with m id p (host ∷ more) n =
    if text_eq id (n.heap p).connector_instance_id
    then finished (remove_websocket m (n.heap p).route p n)
    else finished n

unfoldable pub remove_websockets : DarkLaunchManager Net → Text → ℕ → Net → Ending
unfolding remove_with
remove_websockets m id p n = remove_with m id p (split slash (n.heap p).remote_addr).others n

-- The queue of a round, after its poll.
unfoldable pub deregister_loop : DarkLaunchManager Net → Text → QueueRef → ℕ → Net → Ending
deregister_loop m id r zero n = spinning n
deregister_loop m id r (suc fuel) n = elim (load r n.farm) [
  | none ↦ finished n
  | some q ↦ (elim (is_alive_socket_set_empty q) [
    | true ↦ finished n
    | false ↦ (elim (poll q).1 [
      | none ↦ deregister_loop m id r fuel (record n { farm = save r (poll q).0 n.farm })
      | some p ↦ (elim (remove_websockets m id p (record n { farm = save r (poll q).0 n.farm })) [
        | finished n' ↦ deregister_loop m id r fuel n'
        | panicked n' ↦ panicked n'
        | spinning n' ↦ spinning n'
      ])
    ])
  ])
]

unfoldable pub deregister_queue : Text → Net → QueueRef
deregister_queue target n = or_catchall (get target n.farm.sockets) (sockets_at target) the_catchall

unfoldable pub deregister_socket : DarkLaunchManager Net → ℕ → Text → Text → Net → Ending
deregister_socket m fuel target id n = deregister_loop m id (deregister_queue target n) fuel n

-- The loop of `Stop` over one queue: at most one round for each socket in the channel.
stop_queue : ℕ → QueueRef → Net → Net
stop_queue zero r n = n
stop_queue (suc fuel) r n = elim (load r n.farm) [
  | none ↦ n
  | some q ↦ (elim (is_empty q) [
    | true ↦ n
    | false ↦ (elim (poll q).1 [
      | none ↦ record n { farm = save r (poll q).0 n.farm }
      | some p ↦ stop_queue fuel r (record n {
        farm = save r (poll q).0 n.farm;
        heap = update n.heap p close_socket_session;
      })
    ])
  ])
]

queued : Option IterableChan → ℕ
queued none = 0
queued (some q) = length q.ch

stop_routes : Map IterableChan → Net → Net
unfolding stop_queue queued
stop_routes [] n = n
stop_routes ((route, q) ∷ more) n =
    stop_routes more (stop_queue (length q.ch + 1) (sockets_at route) n)

-- `Stop` leaves the dark queues alone.
unfoldable pub stop : Net → Net
unfolding stop_routes
stop n =
    let n' = stop_queue (length n.farm.catchall.ch + 1) the_catchall n in
    stop_routes n'.farm.sockets n'
