-- ===== src/Farm/Revoking.antt =====
-- Where the sockets of a revoked address or service go: `darkListener` looks their normal queue up
-- in the map of the dark queues.
use crank4go.Base.{
  ℕ, ◌≡◌, ◌≢◌, refl, ◌∙◌, inl, inr, Bool, true, Option, none, some, List, [], ◌∷◌, arith, All,
  All-append, Text, Map, get, get-put, Bool-cases,
}
use crank4go.SocketQueue.{IterableChan}
use crank4go.Socket.{RouterSocket}
use crank4go.Farm.{
  Farm, Net, QueueRef, sockets_at, dark_sockets_at, the_catchall, the_dark_catchall, load, save,
  spawn,
}
use crank4go.Farm.Pools.{dark_ref}
use crank4go.Farm.Listener.{
  keep_if, remove_each, offer_each, remove_loaded, move_loaded, move_sockets, move_all, back_to,
  offer_back, dark_refs, has_ip, has_route, after_dark_service_revoked, after_dark_ip_revoked,
}

-- An offer to anything but the normal queue of a route.
abbrev pub Elsewhere : QueueRef × ℕ → Type 0
Elsewhere (sockets_at route, p) = ⊥
Elsewhere (dark_sockets_at route, p) = Unit
Elsewhere (the_catchall, p) = Unit
Elsewhere (the_dark_catchall, p) = Unit

-- The normal queues stay, no offer to one is started, and no dark queue is dropped.
pub record Kept (f g : Farm) : Type 0 where
  pub sockets : g.sockets ≡ f.sockets
  pub offers : All Elsewhere f.pending → All Elsewhere g.pending
  pub dark : (route : Text) → get route f.dark_sockets ≢ none → get route g.dark_sockets ≢ none

Kept-refl : (f : Farm) → Kept f f
Kept-refl f = record { sockets = refl; offers = λ h. h; dark = λ route h. h }

Kept-trans : {f g h : Farm} → Kept f g → Kept g h → Kept f h
Kept-trans a b = record {
  sockets = b.sockets ∙ a.sockets;
  offers = λ h. b.offers (a.offers h);
  dark = λ route h. b.dark route (a.dark route h);
}

spawn-Kept : (r : QueueRef) (p : ℕ) (f : Farm) → Elsewhere (r, p) → Kept f (spawn r p f)
spawn-Kept r p f e = record {
  sockets = refl;
  offers = λ h. All-append _ f.pending _ h (e, tt);
  dark = λ route h. h;
}

save-Kept : (r : QueueRef) (q : IterableChan) (f : Farm) → dark_ref r ≡ true → Kept f (save r q f)
save-Kept (sockets_at route) q f h = cc
save-Kept (dark_sockets_at route) q f h = record {
  sockets = refl;
  offers = λ h. h;
  dark = λ other k e. ground (arith, get-put route other q f.dark_sockets, k);
}
save-Kept the_catchall q f h = cc
save-Kept the_dark_catchall q f h = record { sockets = refl; offers = λ h. h; dark = λ route h. h }

-- Every socket that fits has a dark queue for its route.
abbrev pub Placed : (ℕ → RouterSocket) → (ℕ → Bool) → Farm → Type 0
Placed heap fits f = (p : ℕ) → fits p ≡ true → get (heap p).route f.dark_sockets ≢ none

back_to-Kept :
    (o : Option IterableChan) (route : Text) (p : ℕ) (f : Farm)
    → o ≢ none
    → Kept f (back_to o route p f)
unfolding back_to
back_to-Kept none route p f h = absurd (h refl)
back_to-Kept (some q) route p f h = spawn-Kept (dark_sockets_at route) p f tt

module _ (fits : ℕ → Bool) (offer_to : ℕ → Farm → Farm) (Ready : Farm → Type 0)
    (keeps : (p : ℕ) (f : Farm) → fits p ≡ true → Ready f → Kept f (offer_to p f))
    (ready : (f g : Farm) → Kept f g → Ready f → Ready g) where
  offer_each-Kept :
      (ps : List ℕ) (f : Farm) → Ready f → Kept f (offer_each offer_to (keep_if fits ps) f)
  unfolding offer_each
  offer_each-Kept [] f r = Kept-refl f
  offer_each-Kept (p ∷ ps) f r = elim (Bool-cases (fits p)) [
    | inr e ↦ rw e (offer_each-Kept ps f r)
    | inl e ↦
        let k = keeps p f e r in
        rw e (Kept-trans k (offer_each-Kept ps (offer_to p f) (ready f (offer_to p f) k r)))
  ]

  remove_loaded-Kept :
      (src : QueueRef) (ps : List ℕ) (o : Option IterableChan) (f : Farm)
      → dark_ref src ≡ true
      → Kept f (remove_loaded src ps o f)
  unfolding remove_loaded
  remove_loaded-Kept src ps none f d = Kept-refl f
  remove_loaded-Kept src ps (some q) f d = save-Kept src (remove_each ps q) f d

  move_loaded-Kept :
      (src : QueueRef) (o : Option IterableChan) (f : Farm)
      → dark_ref src ≡ true
      → Ready f
      → Kept f (move_loaded fits offer_to src o f)
  unfolding move_loaded
  move_loaded-Kept src none f d r = Kept-refl f
  move_loaded-Kept src (some q) f d r =
      let ps = keep_if fits q.alive_socket_set in
      let g = offer_each offer_to ps f in
      Kept-trans (offer_each-Kept q.alive_socket_set f r)
        (remove_loaded-Kept src ps (load src g) g d)

  move_sockets-Kept :
      (src : QueueRef) (f : Farm)
      → dark_ref src ≡ true
      → Ready f
      → Kept f (move_sockets fits offer_to src f)
  unfolding move_sockets
  move_sockets-Kept src f d r = move_loaded-Kept src (load src f) f d r

  move_all-Kept :
      (m : Map IterableChan) (f : Farm) → Ready f → Kept f (move_all fits offer_to (dark_refs m) f)
  unfolding move_all
  move_all-Kept [] f r = Kept-refl f
  move_all-Kept ((route, q) ∷ m) f r =
      let k = move_sockets-Kept (dark_sockets_at route) f refl r in
      Kept-trans k (
        move_all-Kept m (move_sockets fits offer_to (dark_sockets_at route) f)
          (ready f (move_sockets fits offer_to (dark_sockets_at route) f) k r))

module _ (heap : ℕ → RouterSocket) (fits : ℕ → Bool) (f : Farm) (placed : Placed heap fits f) where
  revoked-Kept : Kept f (
      move_sockets fits
        (spawn the_catchall)
        the_dark_catchall
        (move_all fits (offer_back heap) (dark_refs f.dark_sockets) f))
  unfolding offer_back
  revoked-Kept =
      let g = move_all fits (offer_back heap) (dark_refs f.dark_sockets) f in
      Kept-trans
        (move_all-Kept fits (offer_back heap) (Placed heap fits)
          (λ p f e r. back_to-Kept (get (heap p).route f.dark_sockets) (heap p).route p f (r p e))
          (λ f g k r p e. k.dark (heap p).route (r p e)) f.dark_sockets f placed)
        (move_sockets-Kept fits (spawn the_catchall) (λ f. Unit {0})
          (λ p f e r. spawn-Kept the_catchall p f tt) (λ f g k r. tt) the_dark_catchall g refl tt)

-- When an address is revoked and each socket with it has a dark queue for its route, then none of
-- these sockets goes back to the normal queue of its route: the normal queues stay as they are, and
-- no offer to one is started.
pub after_dark_ip_revoked-Kept :
    (ip : Text) (n : Net)
    → Placed n.heap (has_ip n.heap ip) n.farm
    → Kept n.farm (after_dark_ip_revoked ip n).farm
unfolding after_dark_ip_revoked
after_dark_ip_revoked-Kept ip n placed = revoked-Kept n.heap (has_ip n.heap ip) n.farm placed

-- When a service is revoked and each of its sockets has a dark queue for its route, then none of
-- these sockets goes back to the normal queue of its route: the normal queues stay as they are, and
-- no offer to one is started.
pub after_dark_service_revoked-Kept :
    (service : Text) (n : Net)
    → Placed n.heap (has_route n.heap service) n.farm
    → Kept n.farm (after_dark_service_revoked service n).farm
unfolding after_dark_service_revoked
after_dark_service_revoked-Kept service n placed =
    revoked-Kept n.heap (has_route n.heap service) n.farm placed
