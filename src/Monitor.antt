-- ===== src/Monitor.antt =====
-- util/connection_monitor.go: `ConnectionMonitor`, its counters and what it tells its handlers.
pub mod Laws
mod Tests
use crank4go.Base.{
  ℕ, ◌++◌, Text, List, [], ◌∷◌, codes, ℤ, pos, inc32, dec32, to_int32, text_eq, if◌then◌else◌,
  length,
}

-- A call of `PublishData`. A handler is its pointer, a number.
pub record Event : Type 0 where
  pub handler : ℕ
  pub key : Text
  pub value : ℤ

-- The counters are bit patterns of int32; `published` is the history of the handlers' calls.
pub record ConnectionMonitor : Type 0 where
  pub request_num : ℕ
  pub available_conns : ℕ
  pub open_files : ℤ
  pub data_publish_handlers : List ℕ
  pub published : List Event

unfoldable pub new_connection_monitor : List ℕ → ConnectionMonitor
new_connection_monitor handlers = record {
  request_num = 0;
  available_conns = 0;
  open_files = pos 0;
  data_publish_handlers = handlers;
  published = [];
}

unfoldable pub publish_data : ℕ → Text → ℤ → ConnectionMonitor → ConnectionMonitor
publish_data h key value m = record m {
  published = m.published ++ record { handler = h; key = key; value = value } ∷ [];
}

unfoldable pub report_conn_count2 : ℕ → ℤ → ConnectionMonitor → ConnectionMonitor
unfolding publish_data
report_conn_count2 h n m = publish_data h (codes "connections") n m

-- The body returns at once.
unfoldable pub report_open_files_count2 : ℕ → ConnectionMonitor → ConnectionMonitor
report_open_files_count2 h m = m

report_each : List ℕ → ℤ → ConnectionMonitor → ConnectionMonitor
unfolding report_conn_count2 report_open_files_count2
report_each [] n m = m
report_each (h ∷ hs) n m = report_each hs n (report_open_files_count2 h (report_conn_count2 h n m))

unfoldable pub report_conn_count : ℕ → ConnectionMonitor → ConnectionMonitor
unfolding report_each
report_conn_count n m = report_each m.data_publish_handlers (to_int32 n) m

open_files_each : List ℕ → ConnectionMonitor → ConnectionMonitor
unfolding report_open_files_count2
open_files_each [] m = m
open_files_each (h ∷ hs) m = open_files_each hs (report_open_files_count2 h m)

unfoldable pub report_open_files_count : ConnectionMonitor → ConnectionMonitor
unfolding open_files_each
report_open_files_count m = open_files_each m.data_publish_handlers m

active_each : List ℕ → ℤ → ConnectionMonitor → ConnectionMonitor
unfolding publish_data
active_each [] n m = m
active_each (h ∷ hs) n m = active_each hs n (publish_data h (codes "availableConnections") n m)

unfoldable pub report_active_conn_count : ℕ → ConnectionMonitor → ConnectionMonitor
unfolding active_each
report_active_conn_count n m = active_each m.data_publish_handlers (to_int32 n) m

-- OnConnectionStarted; OnConnectionStarted2 does the same and logs more.
unfoldable pub on_connection_started : ConnectionMonitor → ConnectionMonitor
unfolding report_conn_count report_open_files_count
on_connection_started m =
    let n = inc32 m.request_num in
    report_open_files_count (report_conn_count n (record m { request_num = n }))

-- OnConnectionEnded and OnConnectionEnded2
unfoldable pub on_connection_ended : ConnectionMonitor → ConnectionMonitor
unfolding report_conn_count report_open_files_count
on_connection_ended m =
    let n = dec32 m.request_num in
    report_open_files_count (report_conn_count n (record m { request_num = n }))

pub record RequestStats : Type 0 where
  pub resp_status : ℤ
  pub req_duration : ℤ
  pub req_bytes : ℤ
  pub resp_bytes : ℤ

stats_each : List ℕ → Text → ℤ → RequestStats → ConnectionMonitor → ConnectionMonitor
unfolding report_conn_count2 report_open_files_count2 publish_data
stats_each [] path n s m = m
stats_each (h ∷ hs) path n s m = stats_each hs path n s (
    publish_data h (codes "request.responseBytes,path=" ++ path) s.resp_bytes (
      publish_data h (codes "request.responseStatus,path=" ++ path) s.resp_status (
        publish_data h (codes "request.duration,path=" ++ path) s.req_duration (
          publish_data h (codes "request.requestBytes,path=" ++ path) s.req_bytes
            (report_open_files_count2 h (report_conn_count2 h n m))))))

-- OnConnectionEnded3
unfoldable pub on_connection_ended3 : Text → RequestStats → ConnectionMonitor → ConnectionMonitor
unfolding stats_each
on_connection_ended3 path s m =
    let n = dec32 m.request_num in
    stats_each m.data_publish_handlers (if text_eq path [] then codes "default" else path)
      (to_int32 n) s (record m { request_num = n })

unfoldable pub on_connection_available : ConnectionMonitor → ConnectionMonitor
unfolding report_active_conn_count
on_connection_available m =
    let n = inc32 m.available_conns in report_active_conn_count n (record m { available_conns = n })

unfoldable pub on_connection_consumed : ConnectionMonitor → ConnectionMonitor
unfolding report_active_conn_count
on_connection_consumed m =
    let n = dec32 m.available_conns in report_active_conn_count n (record m { available_conns = n })

pool_each : List ℕ → ℤ → ConnectionMonitor → ConnectionMonitor
unfolding publish_data
pool_each [] n m = m
pool_each (h ∷ hs) n m = pool_each hs n (publish_data h (codes "websocket.pool.size") n m)

unfoldable pub report_websocket_pool_size : ℤ → ConnectionMonitor → ConnectionMonitor
unfolding pool_each
report_websocket_pool_size size m = pool_each m.data_publish_handlers size m

unfoldable pub connection_count : ConnectionMonitor → ℤ
connection_count m = to_int32 m.request_num

unfoldable pub available_conns_count : ConnectionMonitor → ℤ
available_conns_count m = to_int32 m.available_conns
