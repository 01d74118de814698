-- ===== src/Connector/Plugins/Closing.antt =====
-- The carriers of a request's plugins are closed.
use crank4go.Base.{
  ℕ, ◌+◌, ◌≤◌, ◌≡◌, inl, inr, Bool, true, false, Option, none, some, List, [], ◌∷◌, arith, count,
  count-append, count-cons, is_same, Bool-cases, Option-cases,
}
use crank4go.Protocol.Response.{Response}
use crank4go.Connector.Plugins.{
  Carrier, ConnectorPlugin, StatCarriers, lookup, remove, get_carrier, close_carrier, clean_found,
  clean_carrier, values, close_carriers, after_each, close_behind,
  handle_plugins_after_response_received,
}

-- How often a carrier is in the map or was closed.
abbrev pub holdings : ℕ → StatCarriers → ℕ
holdings c cs = count c (values cs.stat_carrier_map) + count c cs.closed

count-remove :
    (p c d : ℕ) (m : List (ℕ × ℕ))
    → lookup p m ≡ some d
    → count c (values (remove p m)) + is_same c d ≡ count c (values m)
unfolding lookup remove values count
count-remove p c d [] h = ground arith
count-remove p c d ((q, e) ∷ m) h = ground (arith, count-remove p c d m)

holdings-clean : (p c : ℕ) (cs : StatCarriers) → holdings c (clean_carrier p cs) ≡ holdings c cs
unfolding clean_carrier get_carrier clean_found
holdings-clean p c cs = elim (Option-cases (lookup p cs.stat_carrier_map)) [
  | inl e ↦ rw e
  | inr (d, e) ↦
      rw e (omega (arith, count-remove p c d cs.stat_carrier_map e, count-cons c d cs.closed))
]

holdings-close : (c d : ℕ) (cs : StatCarriers) → holdings c cs ≤ holdings c (close_carrier d cs)
unfolding close_carrier
holdings-close c d cs = omega (arith, count-cons c d cs.closed)

module _ (fails : ℕ → Bool) (c : ℕ) where
  abbrev Keeps : StatCarriers → Option (Response × StatCarriers) → Type 0
  Keeps cs none = Unit
  Keeps cs (some (r, cs')) = holdings c cs ≤ holdings c cs'

  Keeps-after :
      (cs cs' : StatCarriers) (o : Option (Response × StatCarriers))
      → holdings c cs ≤ holdings c cs'
      → Keeps cs' o
      → Keeps cs o
  Keeps-after cs cs' none h k = tt
  Keeps-after cs cs' (some (r, cs'')) h k = omega arith

  after_each-Keeps :
      (ps : List ConnectorPlugin) (r : Response) (cs : StatCarriers)
      → Keeps cs (after_each fails ps r cs)
  unfolding after_each
  after_each-Keeps [] r cs = omega arith
  after_each-Keeps (p ∷ ps) r cs =
      let out = p.handle_after_response_received r (get_carrier p.plugin_id cs) in
      elim out.1
        as (λ (o : Option Carrier). Keeps cs (elim o [
          | none ↦ some (out.0, clean_carrier p.plugin_id cs)
          | some none ↦ none
          | some (some c) ↦ (elim (fails c) [
            | true ↦ some (out.0, clean_carrier p.plugin_id (close_carrier c cs))
            | false ↦ after_each fails ps out.0 (close_carrier c cs)
          ])
        ])) [
          | none ↦ omega (arith, holdings-clean p.plugin_id c cs)
          | some none ↦ tt
          | some (some d) ↦ (elim (Bool-cases (fails d)) [
            | inl e ↦ rw e (
                omega
                  (arith, holdings-close c d cs, holdings-clean p.plugin_id c (close_carrier d cs)))
            | inr e ↦ rw e (
                Keeps-after cs (close_carrier d cs) _ (holdings-close c d cs)
                  (after_each-Keeps ps out.0 (close_carrier d cs)))
          ])
        ]

  close_behind-Keeps :
      (cs : StatCarriers) (o : Option (Response × StatCarriers)) {r' : Response}
      {cs' : StatCarriers}
      → Keeps cs o
      → close_behind fails o ≡ some (r', cs')
      → holdings c cs ≤ count c cs'.closed
  unfolding close_behind close_carriers
  close_behind-Keeps cs none k h = ground arith
  close_behind-Keeps cs (some (r, cs₁)) k h =
      ground (arith, count-append c (values cs₁.stat_carrier_map) cs₁.closed)

  -- However the plugins answer a response, and whichever of them or of their carriers fails: unless
  -- a plugin returned a nil carrier, each carrier in the map is closed when the plugins are done,
  -- at least as often as it was in the map.
  pub handle_plugins_after-closes :
      (ps : List ConnectorPlugin) (r : Response) (cs : StatCarriers) {r' : Response}
      {cs' : StatCarriers}
      → handle_plugins_after_response_received fails ps r cs ≡ some (r', cs')
      → holdings c cs ≤ count c cs'.closed
  unfolding handle_plugins_after_response_received
  handle_plugins_after-closes ps r cs h =
      close_behind-Keeps cs (after_each fails ps r cs) (after_each-Keeps ps r cs) h
