-- ===== src/Monitor/Tests.antt =====
-- The theorems about the monitor at concrete calls.
use crank4go.Base.{◌++◌, ◌≡◌, refl, [], ◌∷◌, arith, map, codes, pos, negsuc, inc32, to_int32}
use crank4go.Monitor.{
  ConnectionMonitor, RequestStats, new_connection_monitor, on_connection_started,
  on_connection_ended, connection_count,
}
use crank4go.Monitor.Laws.{
  started, ended, available, consumed, ended3, run, on_connection_started_lem, connection_count-run,
  event,
}

abbrev busy : ConnectionMonitor
busy = record (new_connection_monitor (3 ∷ 4 ∷ [])) { request_num = 9 }

on_connection_started_lem_example : on_connection_started busy ≡ record busy {
  request_num = inc32 9;
  published = busy.published ++ map (event (codes "connections") (to_int32 (inc32 9))) (3 ∷ 4 ∷ []);
}
unfolding new_connection_monitor
on_connection_started_lem_example = on_connection_started_lem busy

abbrev stats : RequestStats
stats = record {
  resp_status = pos 200;
  req_duration = pos 5;
  req_bytes = pos 0;
  resp_bytes = pos 12;
}

connection_count-run_example :
    connection_count (
      run
        (started ∷ started ∷ available ∷ ended3 (codes "a") stats ∷ consumed ∷ started ∷ [])
        (new_connection_monitor (3 ∷ [])))
    ≡ pos 2
connection_count-run_example =
    connection_count-run (3 ∷ [])
      (started ∷ started ∷ available ∷ ended3 (codes "a") stats ∷ consumed ∷ started ∷ [])
      (omega arith) (omega arith)

-- An end without a start makes the count negative.
negative_count : connection_count (run (ended ∷ []) (new_connection_monitor [])) ≡ negsuc 0
unfolding connection_count run new_connection_monitor on_connection_ended
negative_count = refl
