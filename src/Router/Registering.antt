-- ===== src/Router/Registering.antt =====
-- From a registration to the request that gets its socket.
use crank4go.Base.{true, Text}
use crank4go.Http.{HttpRequest}
use crank4go.Socket.{RouterSocket, new_router_socket}
use crank4go.Router.{get_route, instance_id}

-- The socket of a registration, connected from an address.
abbrev pub registered : Text → Text → HttpRequest → Text → RouterSocket
registered id uuid r addr =
    record (new_router_socket (get_route r) uuid (instance_id r id) true r.remote_addr) {
      session = true;
      remote_addr = addr;
    }
