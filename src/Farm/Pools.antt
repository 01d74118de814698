-- ===== src/Farm/Pools.antt =====
-- The pools that requests of the gray test and normal requests take their sockets from.
use crank4go.Base.{
  ℕ, ◌≡◌, refl, inl, inr, ◌⊎◌, Bool, true, false, ◌&&◌, Option, none, some, List, arith, Text, get,
  elem, Bool-cases, Option-cases,
}
use crank4go.SocketQueue.{IterableChan, poll_timeout}
use crank4go.SocketQueue.Polling.{poll_timeout-alive, Arrives}
use crank4go.DarkLaunch.{DarkLaunchManager, is_dark_mode_on, is_gray_testing_on}
use crank4go.Farm.{
  Farm, Net, QueueRef, sockets_at, dark_sockets_at, the_catchall, the_dark_catchall, load, save,
}
use crank4go.Farm.Operations.{
  target_queue, get_router_socket, acquire_socket, resolve_route, or_catchall,
}

-- Where the alive sockets of the two pools are.
abbrev pub dark_ref : QueueRef → Bool
dark_ref (sockets_at route) = false
dark_ref (dark_sockets_at route) = true
dark_ref the_catchall = false
dark_ref the_dark_catchall = true

module _ (m : DarkLaunchManager Net) (late : ℕ → Bool) (arrivals : List (ℕ × Bool))
    (target component : Text) (n : Net) where
  target_queue-pool :
      dark_ref (target_queue m target n) ≡ (is_dark_mode_on m && is_gray_testing_on n.toggle)
  unfolding target_queue
  target_queue-pool = elim (Bool-cases (is_dark_mode_on m && is_gray_testing_on n.toggle)) [
    | inl e ↦ rw e (by_route (get (resolve_route target) n.farm.dark_sockets))
    | inr e ↦ rw e (by_route' (get (resolve_route target) n.farm.sockets))
  ]
    where
      by_route :
          (o : Option IterableChan)
          → dark_ref (or_catchall o (dark_sockets_at (resolve_route target)) the_dark_catchall)
            ≡ true
      by_route none = refl
      by_route (some q) = refl

      by_route' :
          (o : Option IterableChan)
          → dark_ref (or_catchall o (sockets_at (resolve_route target)) the_catchall) ≡ false
      by_route' none = refl
      by_route' (some q) = refl

  -- A socket that `AcquireSocket` returns was alive in the queue that the target and the mode
  -- select, or arrived alive there while the request waited; that queue is a dark one exactly when
  -- the dark mode and gray testing are on.
  pub acquire_socket-alive :
      (p : ℕ)
      → (acquire_socket m late arrivals target component n).1 ≡ inr p
      → ((q : IterableChan) × (load (target_queue m target n) n.farm ≡ some q)
          × ((elem p q.alive_socket_set ≡ true) ⊎ Arrives p arrivals))
        × (dark_ref (target_queue m target n) ≡ (is_dark_mode_on m && is_gray_testing_on n.toggle))
  unfolding acquire_socket get_router_socket
  acquire_socket-alive p h = elim (Option-cases (load (target_queue m target n) n.farm)) [
    | inl e ↦ absurd (ground arith)
    | inr (q, e) ↦ ((q, e, poll_timeout-alive late arrivals q (ground arith)), target_queue-pool)
  ]

  save-normal :
      (r : QueueRef) (q : IterableChan) (f : Farm)
      → dark_ref r ≡ true
      → ((save r q f).sockets ≡ f.sockets) × ((save r q f).catchall ≡ f.catchall)
  save-normal (sockets_at route) q f h = cc
  save-normal (dark_sockets_at route) q f h = (refl, refl)
  save-normal the_catchall q f h = cc
  save-normal the_dark_catchall q f h = (refl, refl)

  save-dark :
      (r : QueueRef) (q : IterableChan) (f : Farm)
      → dark_ref r ≡ false
      → ((save r q f).dark_sockets ≡ f.dark_sockets)
        × ((save r q f).dark_catchall ≡ f.dark_catchall)
  save-dark (sockets_at route) q f h = (refl, refl)
  save-dark (dark_sockets_at route) q f h = cc
  save-dark the_catchall q f h = (refl, refl)
  save-dark the_dark_catchall q f h = cc

  -- A gray-test request leaves every normal queue as it was.
  pub acquire_socket-gray :
      (is_dark_mode_on m && is_gray_testing_on n.toggle) ≡ true
      → ((acquire_socket m late arrivals target component n).0.farm.sockets ≡ n.farm.sockets)
        × ((acquire_socket m late arrivals target component n).0.farm.catchall ≡ n.farm.catchall)
  unfolding acquire_socket get_router_socket
  acquire_socket-gray gray = elim (Option-cases (load (target_queue m target n) n.farm)) [
    | inl e ↦ ground arith
    | inr (q, e) ↦ ground (
      arith,
      save-normal (target_queue m target n) (poll_timeout late arrivals q).0 n.farm,
      target_queue-pool,
    )
  ]

  -- A normal request leaves every dark queue as it was.
  pub acquire_socket-normal :
      (is_dark_mode_on m && is_gray_testing_on n.toggle) ≡ false
      → ((acquire_socket m late arrivals target component n).0.farm.dark_sockets
          ≡ n.farm.dark_sockets)
        × ((acquire_socket m late arrivals target component n).0.farm.dark_catchall
            ≡ n.farm.dark_catchall)
  unfolding acquire_socket get_router_socket
  acquire_socket-normal normal = elim (Option-cases (load (target_queue m target n) n.farm)) [
    | inl e ↦ ground arith
    | inr (q, e) ↦ ground (
      arith,
      save-dark (target_queue m target n) (poll_timeout late arrivals q).0 n.farm,
      target_queue-pool,
    )
  ]
