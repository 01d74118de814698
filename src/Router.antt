-- ===== src/Router.antt =====
-- router/router.go and router/validator.go: how a connector registers at the router and deregisters.
pub mod Registering
mod Tests
use crank4go.Base.{
  ℕ, Bool, true, false, not, Option, none, some, List, [], ◌∷◌, ◌++◌, ℤ, pos, Text, codes, Map, get,
  put, text_eq, if◌then◌else◌,
}
use crank4go.Protocol.Headers.{validate_cranker_protocol_version}
use crank4go.Http.{HttpRequest, header_get, ResponseWriter, resp_text_plain_with_status}
use crank4go.DarkLaunch.{DarkLaunchManager, present}
use crank4go.Socket.{RouterSocket, new_router_socket}
use crank4go.Farm.{Net}
use crank4go.Farm.Operations.{
  add_websocket, deregister_socket, Ending, finished, panicked, spinning,
}
use crank4go.SocketEvents.{World, the, change, connected}

-- A nil list is `none`.
pub record IpValidator : Type 0 where
  pub ip_white_list : Option (Map (Unit {0}))

listed : Text → Option (Map (Unit {0})) → Bool
listed ip none = true
listed ip (some m) = present (get ip m)

unfoldable pub is_valid : IpValidator → Text → Bool
unfolding listed
is_valid v ip = listed ip v.ip_white_list

all_of : List Text → Map (Unit {0}) → Map (Unit {0})
all_of [] m = m
all_of (ip ∷ ips) m = all_of ips (put ip tt m)

unfoldable pub update_ip_white_list : IpValidator → List Text → IpValidator
unfolding all_of
update_ip_white_list v new_ips = record v { ip_white_list = some (all_of new_ips []) }

-- A `CrankerErr`: its message and its code.
abbrev pub CrankerErr : Type 0
CrankerErr = Text × ℤ

unfoldable pub get_route : HttpRequest → Text
get_route r = header_get (codes "Route") r.header

-- The message names the router's own address, `own`.
validate_ip_addr : Text → IpValidator → HttpRequest → Option CrankerErr
validate_ip_addr own v r =
    if not (is_valid v r.remote_addr)
    then some (
      codes "failed to establish websocket connection to cranker connector for invalid ip: "
          ++ (own ++ (codes ", routerName is: " ++ get_route r)),
      pos 403,
    )
    else none

validate_version : HttpRequest → Option CrankerErr
validate_version r =
    if not (validate_cranker_protocol_version (header_get (codes "Crankerprotocol") r.header))
    then some (
      codes
            "failed to establish websocket connection to cranker connector for nonsupport cranker version: "
          ++ (header_get (codes "Crankerprotocol") r.header
              ++ (codes ", routerName is: " ++ get_route r)),
      pos 500,
    )
    else none

or_else : Option CrankerErr → Option CrankerErr → Option CrankerErr
or_else (some e) other = some e
or_else none other = other

unfoldable pub validate_req : Text → IpValidator → HttpRequest → Option CrankerErr
unfolding validate_ip_addr validate_version or_else
validate_req own v r = or_else (validate_ip_addr own v r) (validate_version r)

-- What a factory returns: a refusal with the answer to the connector, nil, or the new socket, which
-- then runs `OnWebsocketConnect` with its action.
pub data Answer : Type 0 where
  rejected : ResponseWriter → Answer
  no_socket : Answer
  socket : (World → World) → Answer

-- `id` is the value of the query's `connectorInstanceID`.
abbrev pub instance_id : HttpRequest → Text → Text
instance_id r id = if text_eq id [] then codes "unknown-" ++ r.remote_addr else id

-- The action that `SetOnReadyToAct` gets.
abbrev pub ready_to_act : DarkLaunchManager Net → Text → ℕ → World → World
ready_to_act m route p w = record w { net = add_websocket m route p w.net }

-- `p` is the pointer of the new socket, `uuid` its id, `upgraded` whether the upgrade gave a
-- connection.
unfoldable pub connector_register_to_router :
    DarkLaunchManager Net → Text → Text → Bool → ℕ → HttpRequest → World → World × Answer
connector_register_to_router m id uuid upgraded p r w =
    let s = new_router_socket (get_route r) uuid (instance_id r id) true r.remote_addr in
    (change p (λ old. s) w, if upgraded then socket (ready_to_act m (get_route r) p) else no_socket)

refuse : CrankerErr → ResponseWriter → Answer
refuse (msg, code) calls = rejected (resp_text_plain_with_status calls msg code)

unfoldable pub register_websocket_factory :
    DarkLaunchManager Net
    → Text
    → IpValidator
    → Text
    → Text
    → Bool
    → ℕ
    → HttpRequest
    → ResponseWriter
    → World
    → World × Answer
unfolding refuse
register_websocket_factory m own v id uuid upgraded p r calls w = elim (validate_req own v r) [
  | some e ↦ (w, refuse e calls)
  | none ↦ connector_register_to_router m id uuid upgraded p r w
]

-- How a deregistration ends: with an answer, in a panic, or after more rounds than were given.
pub data Departure : Type 0 where
  left : World → Answer → Departure
  panics : World → Departure
  spins : World → Departure

abbrev pub no_id : Text
no_id = codes "no connector instance id exist"

unfoldable pub connector_deregister_from_router :
    DarkLaunchManager Net → ℕ → Text → Text → Bool → ℕ → HttpRequest → World → Departure
connector_deregister_from_router m fuel id uuid upgraded p r w =
    let instance_id = if text_eq id [] then no_id else id in
    let ended =
      if text_eq instance_id no_id
      then finished w.net
      else deregister_socket m fuel (get_route r) instance_id w.net in
    let s = new_router_socket (get_route r) uuid instance_id false r.remote_addr in
    (elim ended [
      | finished n ↦
          left (change p (λ old. s) (record w { net = n }))
            (if upgraded then socket (λ world. world) else no_socket)
      | panicked n ↦ panics (record w { net = n })
      | spinning n ↦ spins (record w { net = n })
    ])

unfoldable pub deregister_websocket_factory :
    DarkLaunchManager Net
    → ℕ
    → Text
    → IpValidator
    → Text
    → Text
    → Bool
    → ℕ
    → HttpRequest
    → ResponseWriter
    → World
    → Departure
unfolding refuse
deregister_websocket_factory m fuel own v id uuid upgraded p r calls w =
    elim (validate_req own v r) [
      | some e ↦ left w (refuse e calls)
      | none ↦ connector_deregister_from_router m fuel id uuid upgraded p r w
    ]
