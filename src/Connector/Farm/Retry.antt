-- ===== src/Connector/Farm/Retry.antt =====
-- The delay before a connector dials again.
use native.Mathlib.Nat.{pow-succ', one-le-pow}
use crank4go.Base.{ℕ, suc, ◌+◌, ◌*◌, ◌^◌, ◌≤◌, ◌<◌, ◌≡◌, arith, ltb, if◌then◌else◌}
use crank4go.Connector.Farm.{
  ConnectionInfo, on_connected_successfully, on_connection_starting, retry_after_millis,
}

pow-suc : (n : ℕ) → 2 ^ (n + 1) ≡ 2 * 2 ^ n
pow-suc n = let e : n + 1 ≡ suc n = omega arith in rw e (pow-succ' 2 n)

pow-pos : (n : ℕ) → 1 ≤ 2 ^ n
pow-pos n = one-le-pow n 2 (omega arith)

retry-pow :
    (ci : ConnectionInfo)
    → ci.cur_conn_attempts < 2 ^ 63
    → retry_after_millis ci
      ≡ (if ltb (2 ^ ci.cur_conn_attempts) 10000 then 500 * 2 ^ ci.cur_conn_attempts else 5000000)
unfolding retry_after_millis
retry-pow ci h = ground arith

-- While the attempts have not passed an int64, the delay lies between half a second and 5000
-- seconds; a further attempt doubles it, up to that bound, and a request that arrives on a
-- connection sets it back to half a second.
pub retry_after_millis_bounds :
    (ci : ConnectionInfo)
    → ci.cur_conn_attempts + 1 < 2 ^ 63
    → (500 ≤ retry_after_millis ci)
      × (retry_after_millis ci ≤ 5000000)
      × (retry_after_millis (on_connection_starting ci) ≡ (
          if ltb (2 * retry_after_millis ci) 5000000 then 2 * retry_after_millis ci else 5000000))
      × (retry_after_millis (on_connected_successfully ci) ≡ 500)
retry_after_millis_bounds ci h = ground (
  arith,
  retry-pow ci (omega arith),
  retry-pow (on_connection_starting ci) (omega arith),
  retry-pow (on_connected_successfully ci) (omega arith),
  pow-suc ci.cur_conn_attempts,
  pow-pos ci.cur_conn_attempts,
)
