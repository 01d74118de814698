-- ===== src/Api/Tests.antt =====
-- The theorem about the dark launch resources at a concrete run of requests.
use crank4go.Base.{◌≡◌, refl, false, some, List, [], ◌∷◌, Text, codes}
use crank4go.Monitor.{new_connection_monitor}
use crank4go.Socket.{new_router_socket}
use crank4go.Farm.{new_websocket_farm}
use crank4go.Farm.Listener.{ip_listener, service_listener}
use crank4go.Api.{
  DarkState, ApiCall, serve_calls, show_list, put_on, put_enable_dark_mode_by_ip,
  put_enable_dark_mode_by_service, delete_dark_mode_by_service,
}
use crank4go.Api.Safety.{SafeState, Serves, serve_calls-Serves}

abbrev quiet : DarkState
quiet = record {
  manager = record {
    current_ips = [];
    current_services = [];
    ip_listener = some ip_listener;
    service_listener = some service_listener;
    path = [];
  };
  net = record {
    farm = new_websocket_farm;
    heap = λ p. new_router_socket [] [] [] false [];
    toggle = 0;
    conn_monitor = new_connection_monitor [];
  };
}

quiet-SafeState : SafeState quiet
quiet-SafeState = record { ips = refl; services = refl; gray = λ h. cc }

abbrev calls : List (Text × ApiCall)
calls =
    (codes "1", put_on)
    ∷ (codes "2", put_enable_dark_mode_by_service (codes "shop"))
    ∷ (codes "3", put_on)
    ∷ (codes "4", put_enable_dark_mode_by_ip (codes "x"))
    ∷ (codes "5", delete_dark_mode_by_service (codes "shop"))
    ∷ []

serve_calls-Serves_example : Serves (serve_calls calls quiet [])
serve_calls-Serves_example = serve_calls-Serves calls quiet [] quiet-SafeState

shown : show_list (codes "a" ∷ codes "bc" ∷ []) ≡ codes "[a bc]"
unfolding show_list
shown = refl
