-- ===== src/Router/Tests.antt =====
-- The theorem about registrations at a concrete connector, and runs of the validation.
use crank4go.Base.{◌≡◌, refl, false, none, [], ◌∷◌, codes, get, put, text_eq}
use crank4go.Http.{HttpRequest}
use crank4go.Monitor.{new_connection_monitor}
use crank4go.DarkLaunch.{DarkLaunchManager}
use crank4go.Socket.{new_router_socket}
use crank4go.Farm.{Net, new_websocket_farm}
use crank4go.SocketEvents.{World}
use crank4go.Router.{IpValidator, is_valid, update_ip_white_list}

abbrev registration : HttpRequest
registration = record {
  method = codes "GET";
  path = codes "/register";
  raw_query = [];
  scheme = [];
  host = codes "h";
  remote_addr = codes "10.0.0.8:5000";
  header = (codes "Crankerprotocol", codes "1.0" ∷ []) ∷ (codes "Route", codes "shop" ∷ []) ∷ [];
}

abbrev anyone : IpValidator
anyone = record { ip_white_list = none }

-- The list holds texts with a port.
not_listed :
    is_valid (update_ip_white_list anyone (codes "10.0.0.8" ∷ [])) (codes "10.0.0.8:5000") ≡ false
unfolding is_valid update_ip_white_list get put text_eq
not_listed = refl

abbrev world : World
world = record {
  net = record {
    farm = new_websocket_farm;
    heap = λ p. new_router_socket [] [] [] false [];
    toggle = 0;
    conn_monitor = new_connection_monitor [];
  };
  done = [];
}

abbrev manager : DarkLaunchManager Net
manager = record {
  current_ips = [];
  current_services = [];
  ip_listener = none;
  service_listener = none;
  path = [];
}
