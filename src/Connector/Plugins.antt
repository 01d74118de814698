-- ===== src/Connector/Plugins.antt =====
-- connector/plugin/plugin.go, and how connector/connector_socket.go runs the plugins: before a
-- request is sent to the target, and when its response has come. A plugin is its functions.
pub mod Closing
use crank4go.Base.{
  ℕ, Bool, true, false, Option, none, some, List, [], ◌∷◌, ◌++◌, if◌then◌else◌, ◌==◌,
}
use crank4go.Protocol.Request.{Request}
use crank4go.Protocol.Response.{Response}

-- A carrier is its pointer; the nil carrier is `none`.
abbrev pub Carrier : Type 0
Carrier = Option ℕ

-- Each handler may change the message, and returns an error (`none`) or a carrier.
pub record ConnectorPlugin : Type 0 where
  pub plugin_id : ℕ
  pub handle_before_request_sent : Request → Request × Option Carrier
  pub handle_after_response_received : Response → Carrier → Response × Option Carrier

-- The map of the carriers, and the history of the calls of `Close`.
pub record StatCarriers : Type 0 where
  pub stat_carrier_map : List (ℕ × ℕ)
  pub closed : List ℕ

abbrev pub new_connector_plugin_stat_carriers : StatCarriers
new_connector_plugin_stat_carriers = record { stat_carrier_map = []; closed = [] }

lookup : ℕ → List (ℕ × ℕ) → Carrier
lookup p [] = none
lookup p ((q, c) ∷ m) = if q == p then some c else lookup p m

insert : ℕ → ℕ → List (ℕ × ℕ) → List (ℕ × ℕ)
insert p c [] = (p, c) ∷ []
insert p c ((q, d) ∷ m) = if q == p then (p, c) ∷ m else (q, d) ∷ insert p c m

remove : ℕ → List (ℕ × ℕ) → List (ℕ × ℕ)
remove p [] = []
remove p ((q, d) ∷ m) = if q == p then m else (q, d) ∷ remove p m

unfoldable pub put_carrier : ℕ → Carrier → StatCarriers → StatCarriers
unfolding insert
put_carrier p none cs = cs
put_carrier p (some c) cs = record cs { stat_carrier_map = insert p c cs.stat_carrier_map }

unfoldable pub get_carrier : ℕ → StatCarriers → Carrier
unfolding lookup
get_carrier p cs = lookup p cs.stat_carrier_map

close_carrier : ℕ → StatCarriers → StatCarriers
close_carrier c cs = record cs { closed = c ∷ cs.closed }

clean_found : ℕ → Carrier → StatCarriers → StatCarriers
unfolding remove
clean_found p none cs = cs
clean_found p (some c) cs = record {
  stat_carrier_map = remove p cs.stat_carrier_map;
  closed = c ∷ cs.closed;
}

unfoldable pub clean_carrier : ℕ → StatCarriers → StatCarriers
unfolding clean_found
clean_carrier p cs = clean_found p (get_carrier p cs) cs

unfoldable pub values : List (ℕ × ℕ) → List ℕ
values [] = []
values ((p, c) ∷ m) = c ∷ values m

-- `ConnectorPluginStatCarriers.Close`
unfoldable pub close_carriers : StatCarriers → StatCarriers
unfolding values
close_carriers cs = record cs { closed = values cs.stat_carrier_map ++ cs.closed }

-- handlePluginsBeforeRequestSent: the first error ends the loop.
unfoldable pub handle_plugins_before_request_sent :
    List ConnectorPlugin → Request → StatCarriers → Request × StatCarriers
handle_plugins_before_request_sent [] r cs = (r, cs)
handle_plugins_before_request_sent (p ∷ ps) r cs =
    let out = p.handle_before_request_sent r in
    elim out.1 [
      | none ↦ (out.0, cs)
      | some c ↦ handle_plugins_before_request_sent ps out.0 (put_carrier p.plugin_id c cs)
    ]

-- `fails c` is whether closing `c` returns an error. A nil carrier has no `Close`: a panic, `none`.
module _ (fails : ℕ → Bool) where
  after_each : List ConnectorPlugin → Response → StatCarriers → Option (Response × StatCarriers)
  unfolding close_carrier
  after_each [] r cs = some (r, cs)
  after_each (p ∷ ps) r cs =
      let out = p.handle_after_response_received r (get_carrier p.plugin_id cs) in
      elim out.1 [
        | none ↦ some (out.0, clean_carrier p.plugin_id cs)
        | some none ↦ none
        | some (some c) ↦ (elim (fails c) [
          | true ↦ some (out.0, clean_carrier p.plugin_id (close_carrier c cs))
          | false ↦ after_each ps out.0 (close_carrier c cs)
        ])
      ]

  close_behind : Option (Response × StatCarriers) → Option (Response × StatCarriers)
  unfolding close_carriers
  close_behind none = none
  close_behind (some (r, cs)) = some (r, close_carriers cs)

  -- handlePluginsAfterResponseReceived, with its deferred `Close`.
  unfoldable pub handle_plugins_after_response_received :
      List ConnectorPlugin → Response → StatCarriers → Option (Response × StatCarriers)
  unfolding after_each close_behind
  handle_plugins_after_response_received ps r cs = close_behind (after_each ps r cs)
