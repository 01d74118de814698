-- ===== src/Connector/Farm.antt =====
-- connector/ws_cli_farm_conn_info.go: `WebsocketClientFarm`, the idle sockets of each register URL,
-- and `ConnectionInfo` with its delay before a retry. The URLs are those of net/url.
pub mod Retry
use crank4go.Base.{
  ℕ, suc, ◌+◌, ◌*◌, ◌/◌, ◌%◌, ◌^◌, Bool, not, ◌&&◌, Option, none, some, List, [], ◌∷◌, ◌++◌, Text,
  codes, text_eq, has_prefix, split, parts, join, ℤ, pos, negsuc, ltb_ℤ, ltb, inc32, dec32,
  to_int32, u64_mod, to_int64, Map, get, put, map, if◌then◌else◌,
}

-- What the source uses of a `url.URL`.
pub record Url : Type 0 where
  pub scheme : Text
  pub host : Text
  pub path : Text
  pub raw_query : Text

-- `URL.String`, on a path that needs no escaping.
unfoldable pub url_string : Url → Text
url_string u =
    u.scheme
    ++ (codes "://"
        ++ (u.host
            ++ (u.path ++ (if text_eq u.raw_query [] then [] else codes "?" ++ u.raw_query))))

-- One counter, a bit pattern of int32, for each register URL.
pub record WebsocketClientFarm : Type 0 where
  pub max_sliding_window_size : ℕ
  pub connector_sockets : Map ℕ

unfoldable pub new_websocket_client_farm : ℕ → WebsocketClientFarm
new_websocket_client_farm window = record {
  max_sliding_window_size = window * 2;
  connector_sockets = [];
}

or_zero : Option ℕ → ℕ
or_zero none = 0
or_zero (some n) = n

-- The counter of a URL; one that is not there reads as 0.
unfoldable pub idle_socket_num : Text → WebsocketClientFarm → ℕ
unfolding or_zero
idle_socket_num url f = or_zero (get url f.connector_sockets)

unfoldable pub add_websocket : Text → WebsocketClientFarm → WebsocketClientFarm
unfolding idle_socket_num
add_websocket url f = record f {
  connector_sockets = put url (inc32 (idle_socket_num url f)) f.connector_sockets;
}

count_down : Text → Option ℕ → WebsocketClientFarm → WebsocketClientFarm
count_down url none f = f
count_down url (some n) f = record f { connector_sockets = put url (dec32 n) f.connector_sockets }

unfoldable pub remove_websocket : Text → WebsocketClientFarm → WebsocketClientFarm
unfolding count_down
remove_websocket url f = count_down url (get url f.connector_sockets) f

unfoldable pub is_safe_to_add_websocket : Url → WebsocketClientFarm → Bool
is_safe_to_add_websocket url f =
    not (has_prefix url.path (codes "/deregister"))
    && ltb_ℤ (to_int32 (idle_socket_num (url_string url) f)) (pos f.max_sliding_window_size)

-- ToMap, on the counters' integers.
unfoldable pub to_map : WebsocketClientFarm → Map ℤ
to_map f = map (λ (e : Text × ℕ). (e.0, to_int32 e.1)) f.connector_sockets

-- `cur_conn_attempts` is a bit pattern of int64.
pub record ConnectionInfo : Type 0 where
  pub router_uri : Url
  pub conn_index : ℕ
  pub cur_conn_attempts : ℕ

abbrev pub new_connection_info : Url → ℕ → ConnectionInfo
new_connection_info uri i = record { router_uri = uri; conn_index = i; cur_conn_attempts = 0 }

abbrev pub on_connected_successfully : ConnectionInfo → ConnectionInfo
on_connected_successfully ci = record ci { cur_conn_attempts = 0 }

abbrev pub on_connection_starting : ConnectionInfo → ConnectionInfo
on_connection_starting ci = record ci { cur_conn_attempts = (ci.cur_conn_attempts + 1) % u64_mod }

-- `int64(500 * math.Min(10000, math.Pow(2, n)))`; for a negative n the power is a fraction.
delay_of : ℤ → ℕ
delay_of (pos n) = if ltb (2 ^ n) 10000 then 500 * 2 ^ n else 5000000
delay_of (negsuc n) = 500 / 2 ^ suc n

unfoldable pub retry_after_millis : ConnectionInfo → ℕ
unfolding delay_of
retry_after_millis ci = delay_of (to_int64 ci.cur_conn_attempts)
