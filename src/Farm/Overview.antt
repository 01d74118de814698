-- ===== src/Farm/Overview.antt =====
-- router/router_socket/websocket_farm.go: the lists of all sockets that the status pages are made of.
use crank4go.Base.{
  ℕ, ◌≡◌, refl, not, Option, none, some, List, [], ◌∷◌, ◌++◌, arith, Text, codes, Map, get, put,
  get-put, text_eq_iff, if◌then◌else◌,
}
use crank4go.SocketQueue.{IterableChan, alive_socket_slice, is_alive_socket_set_empty}
use crank4go.Farm.{Farm}

unfoldable pub combine_catchall : IterableChan → IterableChan → List ℕ
combine_catchall catchall dark_catchall =
    alive_socket_slice catchall ++ alive_socket_slice dark_catchall

unfoldable pub all_catchall : Farm → List ℕ
unfolding combine_catchall
all_catchall f = combine_catchall f.catchall f.dark_catchall

put_unless_empty : Text → IterableChan → Map (List ℕ) → Map (List ℕ)
put_unless_empty key q m =
    if not (is_alive_socket_set_empty q) then put key (alive_socket_slice q) m else m

unfoldable pub categorized_all_catchall : Farm → Map (List ℕ)
unfolding put_unless_empty
categorized_all_catchall f =
    put_unless_empty (codes "normal") f.catchall
      (put_unless_empty (codes "dark") f.dark_catchall [])

detail : Map IterableChan → Map (List ℕ) → Map (List ℕ)
detail [] d = d
detail ((route, q) ∷ m) d = detail m (put route (alive_socket_slice q) d)

put_detail : Text → Map (List ℕ) → Map (Map (List ℕ)) → Map (Map (List ℕ))
put_detail key [] m = m
put_detail key (e ∷ d) m = put key (e ∷ d) m

unfoldable pub categorized_all_sockets : Farm → Map (Map (List ℕ))
unfolding detail put_detail
categorized_all_sockets f =
    put_detail (codes "normal") (detail f.sockets [])
      (put_detail (codes "dark") (detail f.dark_sockets []) [])

-- For a route that is there already, the longer slice is assigned to a local variable only.
add_route : Text → IterableChan → Option (List ℕ) → Map (List ℕ) → Map (List ℕ)
add_route route q (some slice) m = m
add_route route q none m = put route (alive_socket_slice q) m

add_routes : Map IterableChan → Map (List ℕ) → Map (List ℕ)
unfolding add_route
add_routes [] m = m
add_routes ((route, q) ∷ sockets) m = add_routes sockets (add_route route q (get route m) m)

unfoldable pub combine_sync_map : Map IterableChan → Map IterableChan → Map (List ℕ)
unfolding add_routes detail
combine_sync_map sockets dark_sockets = add_routes sockets (detail dark_sockets [])

unfoldable pub all_sockets : Farm → Map (List ℕ)
unfolding combine_sync_map
all_sockets f = combine_sync_map f.sockets f.dark_sockets

get_nil : (r : Text) → get {V = List ℕ} r [] ≡ none
unfolding get
get_nil r = refl

-- A map as Go has it: one entry for a key.
abbrev pub Unique : Map IterableChan → Type 0
Unique [] = Unit
Unique ((k, q) ∷ m) = (get k m ≡ none) × Unique m

-- The alive sockets of a queue that may be there, or else what there was.
abbrev pub slice_or : Option IterableChan → Option (List ℕ) → Option (List ℕ)
slice_or none other = other
slice_or (some q) other = some (alive_socket_slice q)

get-detail :
    (r : Text) (m : Map IterableChan) (d : Map (List ℕ))
    → Unique m
    → get r (detail m d) ≡ slice_or (get r m) (get r d)
unfolding get detail
get-detail r [] d u = refl
get-detail r ((k, q) ∷ m) d (new, u) = ground (
  arith,
  get-detail r m (put k q.alive_socket_set d) u,
  get-put k r q.alive_socket_set d,
  text_eq_iff k r,
)

prefer : Option (List ℕ) → Option (List ℕ) → Option (List ℕ)
prefer none other = other
prefer (some slice) other = some slice

get-add_routes :
    (r : Text) (m : Map IterableChan) (d : Map (List ℕ))
    → Unique m
    → get r (add_routes m d) ≡ prefer (get r d) (slice_or (get r m) none)
unfolding get add_routes add_route prefer
get-add_routes r [] d u = ground arith
get-add_routes r ((k, q) ∷ m) d (new, u) = ground (
  arith,
  get-add_routes r m (add_route k q (get k d) d) u,
  get-put k r q.alive_socket_set d,
  text_eq_iff k r,
)

-- The overview of all sockets has at each route the alive sockets of its dark queue, if there is
-- one, and only otherwise those of its normal queue: the normal ones of a route with a dark queue
-- are missing.
pub all_sockets_lem :
    (f : Farm) (r : Text)
    → Unique f.sockets
    → Unique f.dark_sockets
    → get r (all_sockets f) ≡ slice_or (get r f.dark_sockets) (slice_or (get r f.sockets) none)
unfolding all_sockets prefer
all_sockets_lem f r u v = ground (
  arith,
  get-add_routes r f.sockets (detail f.dark_sockets []) u,
  get-detail r f.dark_sockets [] v,
  get_nil r,
)
