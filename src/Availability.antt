-- ===== src/Availability.antt =====
-- router/router_availability.go and `GetRegisterInfo` of router/api/registrations_resource.go: what
-- the status pages say of the farm, in front of its JSON. The ping task is never scheduled.
mod Tests
pub mod Counting
pub mod Entries
use crank4go.Base.{
  ℕ, ◌+◌, Bool, true, Option, none, some, List, [], ◌∷◌, ◌++◌, Text, codes, split, Map, get, put, ℤ,
}
use crank4go.Protocol.Headers.{colon, cranker_protocol_version10}
use crank4go.Monitor.{connection_count}
use crank4go.DarkLaunch.{DarkLaunchManager}
use crank4go.Socket.{RouterSocket}
use crank4go.Farm.{Net}
use crank4go.Farm.Overview.{
  all_sockets, all_catchall, categorized_all_sockets, categorized_all_catchall,
}

-- The address of a socket's peer in front of the first colon.
unfoldable pub cur_remote_addr : RouterSocket → Text
cur_remote_addr s = (split colon s.remote_addr).first

count_on : Option ℕ → ℕ
count_on none = 1
count_on (some n) = n + 1

unfoldable pub get_remote_addr_mapping : RouterSocket → Map ℕ → Map ℕ
unfolding count_on
get_remote_addr_mapping s m = let addr = cur_remote_addr s in put addr (count_on (get addr m)) m

unfoldable pub remote_addrs : (ℕ → RouterSocket) → List ℕ → Map ℕ → Map ℕ
remote_addrs heap [] m = m
remote_addrs heap (p ∷ ps) m = remote_addrs heap ps (get_remote_addr_mapping (heap p) m)

-- A map with the same keys.
unfoldable pub on_each {ℓ κ} : {A : Type ℓ} {B : Type κ} → (Text → A → B) → Map A → Map B
on_each f [] = []
on_each f ((name, a) ∷ m) = (name, f name a) ∷ on_each f m

pub record RouterStatus : Type 0 where
  pub cranker_protocol : Text
  pub active_connections : ℤ
  pub open_files : ℤ
  pub services_register_map : Map (Map ℕ)
  pub services : Text
  pub dark_mode : DarkLaunchManager Net
  pub is_available : Bool

unfoldable pub service_register_mapping : Net → Map (Map ℕ)
unfolding on_each remote_addrs
service_register_mapping n =
    put (codes "default") (remote_addrs n.heap (all_catchall n.farm) [])
      (on_each (λ name ps. remote_addrs n.heap ps []) (all_sockets n.farm))

unfoldable pub status : DarkLaunchManager Net → Net → RouterStatus
unfolding service_register_mapping
status m n = record {
  cranker_protocol = cranker_protocol_version10;
  active_connections = connection_count n.conn_monitor;
  open_files = n.conn_monitor.open_files;
  services_register_map = service_register_mapping n;
  services = codes "/health/connectors";
  dark_mode = m;
  is_available = true;
}

-- `socket_id` and the time of the last ping, as it is printed.
pub record SocketEntry : Type 0 where
  pub socket_id : Text
  pub last_ping_time : Text

pub record ConnectorEntry : Type 0 where
  pub connector_instance_id : Text
  pub ip : Text
  pub route : Text
  pub component : Text
  pub connections : List SocketEntry

pub record ServiceEntry : Type 0 where
  pub name : Text
  pub connectors : List ConnectorEntry

unfoldable pub add_router_socket_id_by_connector : RouterSocket → Text → SocketEntry
add_router_socket_id_by_connector s time = record {
  socket_id = s.router_socket_id;
  last_ping_time = time;
}

unfoldable pub add_connector_by_ip : RouterSocket → Text → List SocketEntry → ConnectorEntry
add_connector_by_ip s addr conns = record {
  connector_instance_id = s.connector_instance_id;
  ip = addr;
  route = s.route;
  component = s.req_component_name;
  connections = conns;
}

-- For an address that is there already, the longer slice is assigned to a local variable only.
add_entry : RouterSocket → Text → List ConnectorEntry → Option (Unit {0}) → List ConnectorEntry
unfolding add_router_socket_id_by_connector add_connector_by_ip
add_entry s time cs (some there) = cs
add_entry s time cs none =
    cs
    ++ add_connector_by_ip s (cur_remote_addr s) (add_router_socket_id_by_connector s time ∷ [])
      ∷ []

-- `remote_addr` is read, and nothing is ever put into it.
unfoldable pub get_services_map :
    Map (Unit {0}) → RouterSocket → Text → List ConnectorEntry → List ConnectorEntry
unfolding add_entry
get_services_map remote_addr s time cs = add_entry s time cs (get (cur_remote_addr s) remote_addr)

-- `pinged` is the time of a socket's last ping.
module _ (pinged : ℕ → Text) (n : Net) where
  unfoldable pub service_connectors :
      Map (Unit {0}) → List ℕ → List ConnectorEntry → List ConnectorEntry
  service_connectors remote_addr [] cs = cs
  service_connectors remote_addr (p ∷ ps) cs =
      service_connectors remote_addr ps (get_services_map remote_addr (n.heap p) (pinged p) cs)

  abbrev pub collected : List ℕ → List ConnectorEntry
  collected ps = service_connectors [] ps []

  unfoldable pub services : Map ServiceEntry
  unfolding on_each service_connectors
  services =
      put (codes "default")
        (record { name = codes "default"; connectors = collected (all_catchall n.farm) })
        (on_each (λ name ps. record { name = name; connectors = collected ps })
          (all_sockets n.farm))

  -- The slice of a service is stored before anything is appended to it. The second part is the
  -- entry "default".
  unfoldable pub services_categorized_detail : Map (Map ServiceEntry) × Map (List ConnectorEntry)
  unfolding on_each service_connectors
  services_categorized_detail = (
    on_each (λ category m. on_each (λ name ps. record { name = name; connectors = [] }) m)
        (categorized_all_sockets n.farm),
    on_each (λ category ps. collected ps) (categorized_all_catchall n.farm),
  )

register_hosts : (ℕ → RouterSocket) → List ℕ → Map (Unit {0}) → Map (Unit {0})
register_hosts heap [] m = m
register_hosts heap (p ∷ ps) m = register_hosts heap ps (put (cur_remote_addr (heap p)) tt m)

-- A service without sockets has no entry.
register_each : (ℕ → RouterSocket) → Map (List ℕ) → Map (Map (Unit {0}))
unfolding register_hosts
register_each heap [] = []
register_each heap ((name, []) ∷ m) = register_each heap m
register_each heap ((name, p ∷ ps) ∷ m) =
    (name, register_hosts heap (p ∷ ps) []) ∷ register_each heap m

-- What GetRegisterInfo responds with.
unfoldable pub get_register_info : Net → Map (Map (Unit {0}))
unfolding register_each register_hosts
get_register_info n =
    put (codes "default") (register_hosts n.heap (all_catchall n.farm) [])
      (register_each n.heap (all_sockets n.farm))
