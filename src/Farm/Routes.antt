-- ===== src/Farm/Routes.antt =====
-- From a target to its route, and from a registered socket to the request that gets it.
use crank4go.Base.{
  ℕ, ◌<◌, ◌≡◌, ◌≢◌, ap, ◌∙◌, inl, inr, Bool, true, false, ◌&&◌, Option, none, some, List, [], ◌∷◌,
  ◌++◌, arith, Text, get, get-put, text_eq_iff, text_eq_refl, split-append, split-Lacks, Lacks,
  length, Option-cases, inc32, elem, count, store,
}
use crank4go.SocketQueue.{IterableChan, push, poll_timeout}
use crank4go.DarkLaunch.{DarkLaunchManager, is_dark_mode_on, is_gray_testing_on}
use crank4go.Socket.{set_req_component_name}
use crank4go.Farm.{Farm, Net, sockets_at, save, settle, ensure_sockets, new_queue}
use crank4go.Farm.Operations.{
  slash, star, is_dark, add_websocket, resolve_route, target_queue, get_router_socket,
  acquire_socket,
}

-- The route of `/route/rest` and of `/route` is `route`, if it holds no slash; a target without a
-- slash has the empty route.
pub resolve_route_lem :
    (route rest : Text)
    → Lacks slash route
    → (resolve_route (slash ∷ route ++ slash ∷ rest) ≡ route)
      × (resolve_route (slash ∷ route) ≡ route)
      × (resolve_route route ≡ [])
unfolding resolve_route
resolve_route_lem route rest h = (
  rw (split-append slash [] (route ++ slash ∷ rest) tt, split-append slash route rest h),
  rw (split-append slash [] route tt, split-Lacks slash route h),
  rw (split-Lacks slash route h),
)

abbrev pub or_new : Option IterableChan → IterableChan
or_new none = new_queue
or_new (some q) = q

-- The goroutines of the farm's offers have run.
abbrev pub settled : Net → Net
settled n = record n { farm = settle n.farm }

get-ensure_sockets :
    (route : Text) (f : Farm)
    → get route (ensure_sockets route f).sockets ≡ some (or_new (get route f.sockets))
unfolding ensure_sockets
get-ensure_sockets route f = elim (Option-cases (get route f.sockets)) [
  | inl e ↦ ground (arith, e, get-put route route new_queue f.sockets, text_eq_refl route)
  | inr (q, e) ↦ ground (arith, e)
]

pending-ensure_sockets : (route : Text) (f : Farm) → (ensure_sockets route f).pending ≡ f.pending
unfolding ensure_sockets
pending-ensure_sockets route f = ground arith

-- The queue when the goroutine of an offer has run.
abbrev pub offered : ℕ → IterableChan → IterableChan
offered p q = record q {
  ch = q.ch ++ p ∷ [];
  alive_socket_set = store p q.alive_socket_set;
  length = inc32 q.length;
}

push-room : (p : ℕ) (q : IterableChan) → length q.ch < q.capacity → push p q ≡ some (offered p q)
unfolding push
push-room p q room = ground arith

elem-store : (p : ℕ) (ps : List ℕ) → elem p (store p ps) ≡ true
unfolding store count
elem-store p ps = ground arith

poll_timeout-offered :
    (late : ℕ → Bool) (arrivals : List (ℕ × Bool)) (p : ℕ) (q : IterableChan)
    → q.ch ≡ []
    → (poll_timeout late arrivals (offered p q)).1 ≡ some p
unfolding poll_timeout
poll_timeout-offered late arrivals p q e = ground (arith, elem-store p q.alive_socket_set)

module _ (m : DarkLaunchManager Net) (late : ℕ → Bool) (arrivals : List (ℕ × Bool))
    (component route rest : Text) where
  acquire_from_route :
      (p : ℕ) (q : IterableChan) (k : Net)
      → Lacks slash route
      → (is_dark_mode_on m && is_gray_testing_on k.toggle) ≡ false
      → get route k.farm.sockets ≡ some q
      → (poll_timeout late arrivals q).1 ≡ some p
      → let r = acquire_socket m late arrivals (slash ∷ route ++ slash ∷ rest) component k in
        (r.1 ≡ inr p) × (r.0.heap p ≡ set_req_component_name component (k.heap p))
  unfolding acquire_socket get_router_socket target_queue
  acquire_from_route p q k h normal e found =
      let route_of = (resolve_route_lem route rest h).0 in ground (arith, route_of)

module _ (m : DarkLaunchManager Net) (route : Text) (p : ℕ) (n : Net) where
  -- A registered socket that is not dark, on a route with a name, once its offer has run.
  settled-add_websocket :
      is_dark m (n.heap p) ≡ false
      → route ≢ []
      → route ≢ star
      → n.farm.pending ≡ []
      → length (or_new (get route n.farm.sockets)).ch < (or_new (get route n.farm.sockets)).capacity
      → (settled (add_websocket m route p n)).farm
        ≡ save
            (sockets_at route)
            (offered p (or_new (get route n.farm.sockets)))
            (record (ensure_sockets route n.farm) { pending = [] })
  unfolding add_websocket settle
  settled-add_websocket light named not_star quiet room = ground (
    arith,
    text_eq_iff route [],
    text_eq_iff route star,
    get-ensure_sockets route n.farm,
    pending-ensure_sockets route n.farm,
    push-room p (or_new (get route n.farm.sockets)) room,
  )

  -- A socket that is not dark registers on a route with a name other than `*` that holds no slash, in
  -- the normal mode, while no other offer is pending and the route's queue has room and an empty
  -- channel, or is not there. When the goroutine of its offer has run, it is what the next request
  -- for a path below that route gets, with the request's component name set on it.
  pub acquire_socket-add_websocket :
      (late : ℕ → Bool) (arrivals : List (ℕ × Bool)) (component rest : Text)
      → is_dark m (n.heap p) ≡ false
      → (is_dark_mode_on m && is_gray_testing_on n.toggle) ≡ false
      → route ≢ []
      → route ≢ star
      → Lacks slash route
      → n.farm.pending ≡ []
      → (or_new (get route n.farm.sockets)).ch ≡ []
      → 0 < (or_new (get route n.farm.sockets)).capacity
      → let r =
          acquire_socket m late arrivals
            (slash ∷ route ++ slash ∷ rest)
            component
            (settled (add_websocket m route p n)) in
        (r.1 ≡ inr p) × (r.0.heap p ≡ set_req_component_name component (n.heap p))
  unfolding add_websocket
  acquire_socket-add_websocket late arrivals component rest light normal named not_star no_slash
        quiet idle room =
      let q = or_new (get route n.farm.sockets) in
      let k = settled (add_websocket m route p n) in
      let e = settled-add_websocket light named not_star quiet (omega (arith, ap length idle)) in
      let found : get route k.farm.sockets ≡ some (offered p q) =
        ap (λ (f : Farm). get route f.sockets) e ∙ rw (get-put, text_eq_refl route) in
      acquire_from_route m late arrivals component route rest p (offered p q) k no_slash normal
        found (poll_timeout-offered late arrivals p q idle)
