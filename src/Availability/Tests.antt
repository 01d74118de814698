-- ===== src/Availability/Tests.antt =====
-- Tests of the status pages, and the theorems about them at a concrete farm.
use crank4go.Base.{
  map, ℕ, ◌+◌, ◌≡◌, refl, true, none, some, List, [], ◌∷◌, Text, codes, split, get, put, text_eq,
  ltb,
}
use crank4go.Monitor.{new_connection_monitor}
use crank4go.DarkLaunch.{DarkLaunchManager, new_dark_launch_manager}
use crank4go.Socket.{RouterSocket, new_router_socket}
use crank4go.Farm.{Net, new_queue}
use crank4go.Farm.Overview.{all_sockets, slice_or}
use crank4go.Availability.{cur_remote_addr, ServiceEntry, services}
use crank4go.Availability.Counting.{
  count_addr, status_count, in_register_info, status-counts, register_info-status,
}
use crank4go.Availability.Entries.{entries_at, entry_of, services-status_count}

abbrev shop : Text
shop = codes "shop"

abbrev addr : Text
addr = codes "10.0.0.7"

abbrev from_addr : ℕ → RouterSocket
from_addr p = record (new_router_socket shop (codes "id") (codes "c1") true addr) {
  remote_addr = codes "10.0.0.7:8080";
}

abbrev shop_net : Net
shop_net = record {
  farm = record {
    sockets =
        (shop, record new_queue { ch = 4 ∷ 3 ∷ []; alive_socket_set = 3 ∷ 4 ∷ []; length = 2 })
        ∷ [];
    dark_sockets = [];
    catchall = new_queue;
    dark_catchall = new_queue;
    pending = [];
  };
  heap = from_addr;
  toggle = 0;
  conn_monitor = new_connection_monitor [];
}

abbrev manager : DarkLaunchManager Net
manager = new_dark_launch_manager

abbrev sockets : List ℕ
sockets = 3 ∷ 4 ∷ []

two : count_addr shop_net.heap addr sockets ≡ 2
unfolding count_addr cur_remote_addr split text_eq
two = refl

shop_sockets : get shop (all_sockets shop_net.farm) ≡ some sockets
unfolding all_sockets get put text_eq
shop_sockets = refl

shop_slice :
    slice_or (get shop shop_net.farm.dark_sockets) (slice_or (get shop shop_net.farm.sockets) none)
    ≡ some sockets
unfolding get text_eq
shop_slice = refl

status-counts_example :
    (status_count shop_net addr manager shop ≡ count_addr shop_net.heap addr sockets)
    × (status_count shop_net addr manager (codes "default")
        ≡ count_addr shop_net.heap addr [] + count_addr shop_net.heap addr [])
unfolding get
status-counts_example = status-counts shop_net addr manager shop (refl, tt) tt (λ e. cc) shop_slice

register_info-status_example :
    (in_register_info shop_net addr shop ≡ ltb 0 (status_count shop_net addr manager shop))
    × (in_register_info shop_net addr (codes "default")
        ≡ ltb 0 (status_count shop_net addr manager (codes "default")))
register_info-status_example =
    register_info-status shop_net addr manager shop (λ e. cc) shop_sockets

services-status_count_example :
    (e : ServiceEntry) × (get shop (services (λ p. []) shop_net) ≡ some e)
    × (e.name ≡ shop)
    × (e.connectors ≡ map (entry_of (λ p. []) shop_net) sockets)
    × (entries_at addr e.connectors ≡ status_count shop_net addr manager shop)
services-status_count_example =
    services-status_count (λ p. []) shop_net manager addr shop (λ e. cc) shop_sockets
