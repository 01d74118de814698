-- ===== src/Farm/Tests.antt =====
-- The theorems about the farm at concrete queues.
use crank4go.Base.{
  ℕ, ◌≡◌, ◌⊎◌, ◌&&◌, refl, inr, true, false, some, [], ◌∷◌, ◌++◌, arith, Text, codes, get, text_eq,
  text_eq_iff, atoi, split, elem, count,
}
use crank4go.SocketQueue.{IterableChan, poll, poll_timeout, is_alive_socket_set_empty}
use crank4go.SocketQueue.AtRest.{AtRest}
use crank4go.Farm.Deregistration.{deregister_socket-panicked}
use crank4go.SocketQueue.Polling.{Arrives}
use crank4go.Monitor.{new_connection_monitor}
use crank4go.DarkLaunch.{
  DarkLaunchManager, is_dark_mode_on, is_gray_testing_on, contains_ip, contains_service,
  is_valid_ip,
}
use crank4go.Socket.{RouterSocket, new_router_socket, set_req_component_name}
use crank4go.Farm.{Farm, Net, load, save, new_queue}
use crank4go.Farm.Operations.{
  slash, is_dark, add_websocket, resolve_route, target_queue, get_router_socket, acquire_socket,
  deregister_queue, deregister_socket, panicked,
}
use crank4go.Farm.Listener.{ip_listener, service_listener}
use crank4go.Farm.Routes.{resolve_route_lem, acquire_socket-add_websocket, settled}
use crank4go.DarkLaunch.Invariant.{AllValid}
use crank4go.Farm.Listener.{has_route, after_dark_service_revoked}
use crank4go.Farm.Revoking.{Placed, Kept, after_dark_service_revoked-Kept}
use crank4go.Farm.Addresses.{is_dark-host_port}
use crank4go.Farm.Pools.{dark_ref, acquire_socket-alive, acquire_socket-normal}

abbrev shop : Text
shop = codes "shop"

abbrev queue_of : ℕ → IterableChan
queue_of p = record new_queue { ch = p ∷ []; alive_socket_set = p ∷ []; length = 1 }

-- Socket 3 is a normal one of the shop, and socket 5 a dark one.
abbrev shop_farm : Farm
shop_farm = record {
  sockets = (shop, queue_of 3) ∷ [];
  dark_sockets = (shop, queue_of 5) ∷ [];
  catchall = new_queue;
  dark_catchall = new_queue;
  pending = [];
}

abbrev shop_socket : ℕ → RouterSocket
shop_socket p = new_router_socket shop (codes "id") (codes "c1") true (codes "10.0.0.7")

-- Gray testing is off here, and on in `gray_net`.
abbrev shop_net : Net
shop_net = record {
  farm = shop_farm;
  heap = shop_socket;
  toggle = 0;
  conn_monitor = new_connection_monitor [];
}

abbrev gray_net : Net
gray_net = record shop_net { toggle = 1 }

abbrev manager : DarkLaunchManager Net
manager = record {
  current_ips = (codes "10.0.0.8", tt) ∷ [];
  current_services = [];
  ip_listener = some ip_listener;
  service_listener = some service_listener;
  path = [];
}

resolve_route_lem_example :
    (resolve_route (slash ∷ shop ++ slash ∷ codes "cart") ≡ shop)
    × (resolve_route (slash ∷ shop) ≡ shop)
    × (resolve_route shop ≡ [])
resolve_route_lem_example = resolve_route_lem shop (codes "cart") (omega arith)

light :
    is_dark manager (new_router_socket shop (codes "id") (codes "c1") true (codes "10.0.0.7"))
    ≡ false
unfolding is_dark is_dark_mode_on contains_ip contains_service get text_eq new_router_socket
light = refl

gray_off : (is_dark_mode_on manager && is_gray_testing_on 0) ≡ false
unfolding is_dark_mode_on
gray_off = refl

gray_on : (is_dark_mode_on manager && is_gray_testing_on 1) ≡ true
unfolding is_dark_mode_on
gray_on = refl

-- Socket 9 registers at a farm without a queue for its route.
abbrev empty_net : Net
empty_net = record shop_net { farm = record shop_farm { sockets = []; dark_sockets = [] } }

acquire_socket-add_websocket_example :
    let r =
      acquire_socket manager
        (λ i. false)
        []
        (slash ∷ shop ++ slash ∷ codes "cart")
        (codes "web")
        (settled (add_websocket manager shop 9 empty_net)) in
    (r.1 ≡ inr 9) × (r.0.heap 9 ≡ set_req_component_name (codes "web") (shop_socket 9))
unfolding get
acquire_socket-add_websocket_example =
    acquire_socket-add_websocket manager shop 9 empty_net (λ i. false) [] (codes "web")
      (codes "cart") light gray_off (λ e. cc) (λ e. ground arith) (omega arith) refl refl
      (omega arith)

acquired_dark : (acquire_socket manager (λ i. false) [] (codes "/shop/cart") [] gray_net).1 ≡ inr 5
unfolding acquire_socket get text_eq split resolve_route get_router_socket target_queue
    is_dark_mode_on poll_timeout count
acquired_dark = refl

acquire_socket-alive_example :
    ((q : IterableChan) × (load (target_queue manager (codes "/shop/cart") gray_net) gray_net.farm
        ≡ some q)
      × ((elem 5 q.alive_socket_set ≡ true) ⊎ Arrives 5 []))
    × (dark_ref (target_queue manager (codes "/shop/cart") gray_net)
        ≡ (is_dark_mode_on manager && is_gray_testing_on 1))
acquire_socket-alive_example =
    acquire_socket-alive manager (λ i. false) [] (codes "/shop/cart") [] gray_net 5 acquired_dark

acquire_socket-normal_example :
    ((acquire_socket manager (λ i. false) [] (codes "/shop/cart") [] shop_net).0.farm.dark_sockets
      ≡ shop_farm.dark_sockets)
    × ((acquire_socket manager
          (λ i. false)
          []
          (codes "/shop/cart")
          []
          shop_net).0.farm.dark_catchall
        ≡ shop_farm.dark_catchall)
acquire_socket-normal_example =
    acquire_socket-normal manager (λ i. false) [] (codes "/shop/cart") [] shop_net gray_off

-- The loop polls socket 3, of connector `c1`, although connector `c2` deregisters.
abbrev host_port_net : Net
host_port_net = record shop_net {
  heap = λ p. record (shop_socket p) { remote_addr = codes "10.0.0.7:8080" };
}

shop_queue-AtRest : AtRest (queue_of 3)
unfolding count
shop_queue-AtRest = record {
  counted = refl;
  word = omega arith;
  once = λ p. ground arith;
  in_channel = λ p. omega arith;
}

shop_queue-held : load (deregister_queue shop host_port_net) shop_farm ≡ some (queue_of 3)
unfolding deregister_queue get text_eq
shop_queue-held = refl

deregister_socket-panicked_example :
    deregister_socket manager 5 shop (codes "c2") host_port_net
    ≡ panicked (record host_port_net {
      farm = save (deregister_queue shop host_port_net) (poll (queue_of 3)).0 shop_farm;
    })
unfolding is_alive_socket_set_empty
deregister_socket-panicked_example =
    deregister_socket-panicked manager 4 shop (codes "c2") (queue_of 3) host_port_net
      shop_queue-held (λ p. omega arith) shop_queue-AtRest

dark_ip-valid : is_valid_ip (codes "10.0.0.8") ≡ true
unfolding is_valid_ip text_eq split atoi
dark_ip-valid = refl

manager-AllValid : AllValid manager
unfolding contains_ip contains_service get
manager-AllValid = record {
  ips = λ j h. ground (arith, text_eq_iff (codes "10.0.0.8") j, dark_ip-valid);
  services = λ j h. cc;
}

is_dark-host_port_example :
    is_dark manager (record (shop_socket 3) { ip = codes "10.0.0.8:5000" })
    ≡ contains_service shop manager
unfolding new_router_socket
is_dark-host_port_example =
    is_dark-host_port manager (record (shop_socket 3) { ip = codes "10.0.0.8:5000" })
      (codes "10.0.0.8") (codes "5000") manager-AllValid refl

shop_net-Placed : Placed shop_socket (has_route shop_socket shop) shop_farm
unfolding get text_eq new_router_socket
shop_net-Placed p e k = cc

after_dark_service_revoked-Kept_example :
    Kept shop_farm (after_dark_service_revoked shop shop_net).farm
after_dark_service_revoked-Kept_example =
    after_dark_service_revoked-Kept shop shop_net shop_net-Placed
