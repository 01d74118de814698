-- ===== src/Monitor/Laws.antt =====
-- The monitor's counters after a sequence of calls, and what its handlers are told.
use crank4go.Base.{
  ℕ, suc, ◌+◌, ◌-◌, ◌%◌, ◌<◌, ◌≤◌, ◌^◌, ◌++◌, ◌≡◌, refl, sym, ap, ◌∙◌, List, [], ◌∷◌, append_assoc,
  append-nil, arith, Text, codes, map, ℤ, pos, inc32, dec32, to_int32, u32_mod,
}
use crank4go.Monitor.{
  Event, ConnectionMonitor, RequestStats, new_connection_monitor, report_each, open_files_each,
  active_each, stats_each, on_connection_started, on_connection_ended, on_connection_ended3,
  on_connection_available, on_connection_consumed, pool_each, report_websocket_pool_size,
  connection_count,
}

-- What a handler's report leaves alone.
pub record SameCounts (m n : ConnectionMonitor) : Type 0 where
  pub requests : n.request_num ≡ m.request_num
  pub available : n.available_conns ≡ m.available_conns
  pub handlers : n.data_publish_handlers ≡ m.data_publish_handlers

abbrev pub event : Text → ℤ → ℕ → Event
event key value h = record { handler = h; key = key; value = value }

report_each-eq :
    (hs : List ℕ) (n : ℤ) (m : ConnectionMonitor)
    → report_each hs n m
      ≡ record m { published = m.published ++ map (event (codes "connections") n) hs }
unfolding report_each
report_each-eq [] n m = λ i. record m { published = sym (append-nil m.published) i }
report_each-eq (h ∷ hs) n m = report_each-eq hs n _ ∙ simp append_assoc

open_files_each-eq : (hs : List ℕ) (m : ConnectionMonitor) → open_files_each hs m ≡ m
unfolding open_files_each
open_files_each-eq [] m = refl
open_files_each-eq (h ∷ hs) m = open_files_each-eq hs m

active_each-eq :
    (hs : List ℕ) (n : ℤ) (m : ConnectionMonitor)
    → active_each hs n m
      ≡ record m { published = m.published ++ map (event (codes "availableConnections") n) hs }
unfolding active_each
active_each-eq [] n m = λ i. record m { published = sym (append-nil m.published) i }
active_each-eq (h ∷ hs) n m = active_each-eq hs n _ ∙ simp append_assoc

stats_each-SameCounts :
    (hs : List ℕ) (path : Text) (n : ℤ) (s : RequestStats) (m : ConnectionMonitor)
    → SameCounts m (stats_each hs path n s m)
unfolding stats_each
stats_each-SameCounts [] path n s m = record { requests = refl; available = refl; handlers = refl }
stats_each-SameCounts (h ∷ hs) path n s m =
    let r = stats_each-SameCounts hs path n s _ in
    record { requests = r.requests; available = r.available; handlers = r.handlers }

-- A started request adds one to the counter, and tells each handler, in order, the new count.
pub on_connection_started_lem :
    (m : ConnectionMonitor)
    → on_connection_started m ≡ record m {
      request_num = inc32 m.request_num;
      published =
          m.published
          ++ map
              (event (codes "connections") (to_int32 (inc32 m.request_num)))
              m.data_publish_handlers;
    }
unfolding on_connection_started
on_connection_started_lem m = rw open_files_each-eq (report_each-eq m.data_publish_handlers _ _)

pub on_connection_ended_lem :
    (m : ConnectionMonitor)
    → on_connection_ended m ≡ record m {
      request_num = dec32 m.request_num;
      published =
          m.published
          ++ map
              (event (codes "connections") (to_int32 (dec32 m.request_num)))
              m.data_publish_handlers;
    }
unfolding on_connection_ended
on_connection_ended_lem m = rw open_files_each-eq (report_each-eq m.data_publish_handlers _ _)

-- The calls that change a counter.
pub data Call : Type 0 where
  started ended available consumed : Call
  ended3 : Text → RequestStats → Call
  pool_size : ℤ → Call

unfoldable pub perform : Call → ConnectionMonitor → ConnectionMonitor
perform started m = on_connection_started m
perform ended m = on_connection_ended m
perform available m = on_connection_available m
perform consumed m = on_connection_consumed m
perform (ended3 path s) m = on_connection_ended3 path s m
perform (pool_size n) m = report_websocket_pool_size n m

unfoldable pub run : List Call → ConnectionMonitor → ConnectionMonitor
unfolding perform
run [] m = m
run (c ∷ cs) m = run cs (perform c m)

abbrev pub starts : List Call → ℕ
starts [] = 0
starts (started ∷ cs) = suc (starts cs)
starts (_ ∷ cs) = starts cs

abbrev pub ends : List Call → ℕ
ends [] = 0
ends (ended ∷ cs) = suc (ends cs)
ends (ended3 path s ∷ cs) = suc (ends cs)
ends (_ ∷ cs) = ends cs

pool_each-SameCounts :
    (hs : List ℕ) (n : ℤ) (m : ConnectionMonitor) → SameCounts m (pool_each hs n m)
unfolding pool_each
pool_each-SameCounts [] n m = record { requests = refl; available = refl; handlers = refl }
pool_each-SameCounts (h ∷ hs) n m =
    let r = pool_each-SameCounts hs n _ in
    record { requests = r.requests; available = r.available; handlers = r.handlers }

request_num-available :
    (m : ConnectionMonitor) → (on_connection_available m).request_num ≡ m.request_num
unfolding on_connection_available
request_num-available m =
    ap (λ (x : ConnectionMonitor). x.request_num) (active_each-eq m.data_publish_handlers _ _)

request_num-consumed :
    (m : ConnectionMonitor) → (on_connection_consumed m).request_num ≡ m.request_num
unfolding on_connection_consumed
request_num-consumed m =
    ap (λ (x : ConnectionMonitor). x.request_num) (active_each-eq m.data_publish_handlers _ _)

pub request_num-started :
    (m : ConnectionMonitor) → (on_connection_started m).request_num ≡ inc32 m.request_num
request_num-started m = ap (λ (x : ConnectionMonitor). x.request_num) (on_connection_started_lem m)

pub request_num-ended :
    (m : ConnectionMonitor) → (on_connection_ended m).request_num ≡ dec32 m.request_num
request_num-ended m = ap (λ (x : ConnectionMonitor). x.request_num) (on_connection_ended_lem m)

pub request_num-ended3 :
    (path : Text) (s : RequestStats) (m : ConnectionMonitor)
    → (on_connection_ended3 path s m).request_num ≡ dec32 m.request_num
unfolding on_connection_ended3
request_num-ended3 path s m = (stats_each-SameCounts m.data_publish_handlers _ _ s _).requests

module _ (m : ConnectionMonitor) where
  pub available-available : (on_connection_available m).available_conns ≡ inc32 m.available_conns
  unfolding on_connection_available
  available-available =
      ap (λ (x : ConnectionMonitor). x.available_conns) (active_each-eq m.data_publish_handlers _ _)

  pub available-consumed : (on_connection_consumed m).available_conns ≡ dec32 m.available_conns
  unfolding on_connection_consumed
  available-consumed =
      ap (λ (x : ConnectionMonitor). x.available_conns) (active_each-eq m.data_publish_handlers _ _)

  pub available-started : (on_connection_started m).available_conns ≡ m.available_conns
  available-started =
      ap (λ (x : ConnectionMonitor). x.available_conns) (on_connection_started_lem m)

  pub available-ended : (on_connection_ended m).available_conns ≡ m.available_conns
  available-ended = ap (λ (x : ConnectionMonitor). x.available_conns) (on_connection_ended_lem m)

request_num-pool :
    (n : ℤ) (m : ConnectionMonitor) → (report_websocket_pool_size n m).request_num ≡ m.request_num
unfolding report_websocket_pool_size
request_num-pool n m = (pool_each-SameCounts m.data_publish_handlers n m).requests

run-request_num :
    (cs : List Call) (m : ConnectionMonitor)
    → m.request_num < u32_mod
    → ((run cs m).request_num + ends cs) % u32_mod ≡ (m.request_num + starts cs) % u32_mod
unfolding run
run-request_num [] m h = omega arith
run-request_num (started ∷ cs) m h =
    let e = request_num-started m in
    omega (arith, e, run-request_num cs (on_connection_started m) (omega (arith, e)))
run-request_num (ended ∷ cs) m h =
    let e = request_num-ended m in
    omega (arith, e, run-request_num cs (on_connection_ended m) (omega (arith, e)))
run-request_num (available ∷ cs) m h =
    let e = request_num-available m in
    omega (arith, e, run-request_num cs (on_connection_available m) (omega (arith, e)))
run-request_num (consumed ∷ cs) m h =
    let e = request_num-consumed m in
    omega (arith, e, run-request_num cs (on_connection_consumed m) (omega (arith, e)))
run-request_num (ended3 path s ∷ cs) m h =
    let e = request_num-ended3 path s m in
    omega (arith, e, run-request_num cs (on_connection_ended3 path s m) (omega (arith, e)))
run-request_num (pool_size n ∷ cs) m h =
    let e = request_num-pool n m in
    omega (arith, e, run-request_num cs (report_websocket_pool_size n m) (omega (arith, e)))

run-word :
    (cs : List Call) (m : ConnectionMonitor)
    → m.request_num < u32_mod
    → (run cs m).request_num < u32_mod
unfolding run
run-word [] m h = h
run-word (started ∷ cs) m h = run-word cs _ (omega (arith, request_num-started m))
run-word (ended ∷ cs) m h = run-word cs _ (omega (arith, request_num-ended m))
run-word (available ∷ cs) m h = run-word cs _ (omega (arith, request_num-available m))
run-word (consumed ∷ cs) m h = run-word cs _ (omega (arith, request_num-consumed m))
run-word (ended3 path s ∷ cs) m h = run-word cs _ (omega (arith, request_num-ended3 path s m))
run-word (pool_size n ∷ cs) m h = run-word cs _ (omega (arith, request_num-pool n m))

-- After any sequence of calls on a new monitor in which no more requests ended than started and
-- fewer than 2^31 are open, `ConnectionCount` is the number of open requests.
pub connection_count-run :
    (handlers : List ℕ) (cs : List Call)
    → ends cs ≤ starts cs
    → starts cs - ends cs < 2 ^ 31
    → connection_count (run cs (new_connection_monitor handlers)) ≡ pos (starts cs - ends cs)
unfolding connection_count new_connection_monitor
connection_count-run handlers cs h k =
    let m = new_connection_monitor handlers in
    let open_requests : (run cs m).request_num ≡ starts cs - ends cs =
      omega (arith, run-request_num cs m (omega arith), run-word cs m (omega arith)) in
    rw open_requests (ground arith)
