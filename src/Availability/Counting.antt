-- ===== src/Availability/Counting.antt =====
-- The addresses that the status page and the register info show.
use crank4go.Base.{
  ℕ, ◌+◌, ◌≡◌, ◌≢◌, sym, ap, ◌∙◌, Bool, true, false, ◌||◌, Option, none, some, List, [], ◌∷◌, ◌++◌,
  arith, Text, codes, Map, get, put, get-put, text_eq, text_eq_iff, ltb, if◌then◌else◌,
}
use crank4go.DarkLaunch.{DarkLaunchManager}
use crank4go.Socket.{RouterSocket}
use crank4go.Farm.{Net}
use crank4go.Farm.Overview.{all_sockets, all_catchall, Unique, slice_or, all_sockets_lem}
use crank4go.Availability.{
  cur_remote_addr, count_on, get_remote_addr_mapping, remote_addrs, on_each,
  service_register_mapping, status, register_hosts, register_each, get_register_info,
}

-- How many of the sockets have the address.
unfoldable pub count_addr : (ℕ → RouterSocket) → Text → List ℕ → ℕ
count_addr heap addr [] = 0
count_addr heap addr (p ∷ ps) =
    (if text_eq (cur_remote_addr (heap p)) addr then 1 else 0) + count_addr heap addr ps

count_addr-append :
    (heap : ℕ → RouterSocket) (addr : Text) (ps qs : List ℕ)
    → count_addr heap addr (ps ++ qs) ≡ count_addr heap addr ps + count_addr heap addr qs
unfolding count_addr
count_addr-append heap addr [] qs = omega arith
count_addr-append heap addr (p ∷ ps) qs = omega (arith, count_addr-append heap addr ps qs)

abbrev pub shown : Option ℕ → ℕ
shown none = 0
shown (some n) = n

abbrev pub is_there {ℓ} : {A : Type ℓ} → Option A → Bool
is_there none = false
is_there (some a) = true

pub get-on_each {ℓ κ} :
    {A : Type ℓ} {B : Type κ} (f : Text → A → B) (r : Text) (m : Map A) {a : A}
    → get r m ≡ some a
    → get r (on_each f m) ≡ some (f r a)
unfolding get on_each
get-on_each f r [] h = cc
get-on_each f r ((name, b) ∷ m) {a} h =
    ground (arith, text_eq_iff name r, get-on_each f r m {a = a})

-- An entry under another name than "default".
pub get-default {ℓ} :
    {A : Type ℓ} (r : Text) (a : A) (m : Map A)
    → r ≢ codes "default"
    → get r (put (codes "default") a m) ≡ get r m
get-default r a m h =
    ground (arith, get-put (codes "default") r a m, text_eq_iff (codes "default") r)

pub get-default_same {ℓ} :
    {A : Type ℓ} (a : A) (m : Map A) → get (codes "default") (put (codes "default") a m) ≡ some a
get-default_same a m = ground (
  arith,
  get-put (codes "default") (codes "default") a m,
  text_eq_iff (codes "default") (codes "default"),
)

remote_addrs-count :
    (heap : ℕ → RouterSocket) (addr : Text) (ps : List ℕ) (m : Map ℕ)
    → shown (get addr (remote_addrs heap ps m)) ≡ shown (get addr m) + count_addr heap addr ps
unfolding remote_addrs count_addr get_remote_addr_mapping count_on
remote_addrs-count heap addr [] m = omega arith
remote_addrs-count heap addr (p ∷ ps) m =
    let a = cur_remote_addr (heap p) in
    remote_addrs-count heap addr ps (get_remote_addr_mapping (heap p) m)
    ∙ ground (arith, get-put a addr (count_on (get a m)) m, text_eq_iff a addr)

register_hosts-count :
    (heap : ℕ → RouterSocket) (addr : Text) (ps : List ℕ) (m : Map (Unit {0}))
    → is_there (get addr (register_hosts heap ps m))
      ≡ (is_there (get addr m) || ltb 0 (count_addr heap addr ps))
unfolding register_hosts count_addr
register_hosts-count heap addr [] m = ground arith
register_hosts-count heap addr (p ∷ ps) m =
    let a = cur_remote_addr (heap p) in
    register_hosts-count heap addr ps (put a tt m)
    ∙ ground (arith, get-put a addr (tt {0}) m, text_eq_iff a addr)

get-register_each :
    (heap : ℕ → RouterSocket) (r : Text) (m : Map (List ℕ)) {p : ℕ} {ps : List ℕ}
    → get r m ≡ some (p ∷ ps)
    → get r (register_each heap m) ≡ some (register_hosts heap (p ∷ ps) [])
unfolding get register_each
get-register_each heap r [] h = cc
get-register_each heap r ((name, []) ∷ m) {p} {ps} h =
    ground (arith, text_eq_iff name r, get-register_each heap r m {p = p} {ps = ps})
get-register_each heap r ((name, q ∷ qs) ∷ m) {p} {ps} h =
    ground (arith, text_eq_iff name r, get-register_each heap r m {p = p} {ps = ps})

module _ (n : Net) (addr : Text) where
  abbrev count_at : List ℕ → ℕ
  count_at ps = count_addr n.heap addr ps

  abbrev count_in : Option (Map ℕ) → ℕ
  count_in none = 0
  count_in (some row) = shown (get addr row)

  abbrev is_in : Option (Map (Unit {0})) → Bool
  is_in none = false
  is_in (some row) = is_there (get addr row)

  -- What the status page shows for the address under a name.
  abbrev pub status_count : DarkLaunchManager Net → Text → ℕ
  status_count m r = count_in (get r (status m n).services_register_map)

  abbrev pub in_register_info : Text → Bool
  in_register_info r = is_in (get r (get_register_info n))

  row-count : (ps : List ℕ) → shown (get addr (remote_addrs n.heap ps [])) ≡ count_at ps
  unfolding get
  row-count ps = omega (arith, remote_addrs-count n.heap addr ps [])

  row-there :
      (ps : List ℕ) → is_there (get addr (register_hosts n.heap ps [])) ≡ ltb 0 (count_at ps)
  unfolding get
  row-there ps = register_hosts-count n.heap addr ps []

  pub status_count-service :
      (m : DarkLaunchManager Net) (r : Text) {ps : List ℕ}
      → r ≢ codes "default"
      → get r (all_sockets n.farm) ≡ some ps
      → status_count m r ≡ count_at ps
  unfolding status service_register_mapping
  status_count-service m r {ps} other there =
      ap count_in (
        get-default r (remote_addrs n.heap (all_catchall n.farm) [])
          (on_each (λ name ps. remote_addrs n.heap ps []) (all_sockets n.farm)) other
        ∙ get-on_each (λ name ps. remote_addrs n.heap ps []) r (all_sockets n.farm) there)
      ∙ row-count ps

  status_count-default :
      (m : DarkLaunchManager Net)
      → status_count m (codes "default") ≡ count_at (all_catchall n.farm)
  unfolding status service_register_mapping
  status_count-default m =
      ap count_in (
        get-default_same (remote_addrs n.heap (all_catchall n.farm) [])
          (on_each (λ name ps. remote_addrs n.heap ps []) (all_sockets n.farm)))
      ∙ row-count (all_catchall n.farm)

  -- The status page counts for each address the catch-all sockets from it under "default", normal
  -- and dark ones. For any other service, it counts those of its alive sockets from the address that
  -- are in its dark queue, if it has one, and those in its normal queue only otherwise. The farm has
  -- at most one queue of either kind for a route.
  pub status-counts :
      (m : DarkLaunchManager Net) (r : Text) {ps : List ℕ}
      → Unique n.farm.sockets
      → Unique n.farm.dark_sockets
      → r ≢ codes "default"
      → slice_or (get r n.farm.dark_sockets) (slice_or (get r n.farm.sockets) none) ≡ some ps
      → (status_count m r ≡ count_addr n.heap addr ps)
        × (status_count m (codes "default")
            ≡ count_addr n.heap addr n.farm.catchall.alive_socket_set
              + count_addr n.heap addr n.farm.dark_catchall.alive_socket_set)
  unfolding all_catchall
  status-counts m r {ps} one one_dark other there = (
    status_count-service m r other (all_sockets_lem n.farm r one one_dark ∙ there),
    status_count-default m
        ∙ count_addr-append n.heap addr n.farm.catchall.alive_socket_set
            n.farm.dark_catchall.alive_socket_set,
  )

  register_info-service :
      (r : Text) {p : ℕ} {ps : List ℕ}
      → r ≢ codes "default"
      → get r (all_sockets n.farm) ≡ some (p ∷ ps)
      → in_register_info r ≡ ltb 0 (count_at (p ∷ ps))
  unfolding get_register_info
  register_info-service r {p} {ps} other there =
      ap is_in (
        get-default r (register_hosts n.heap (all_catchall n.farm) [])
          (register_each n.heap (all_sockets n.farm)) other
        ∙ get-register_each n.heap r (all_sockets n.farm) there)
      ∙ row-there (p ∷ ps)

  register_info-default :
      in_register_info (codes "default") ≡ ltb 0 (count_at (all_catchall n.farm))
  unfolding get_register_info
  register_info-default =
      ap is_in (
        get-default_same (register_hosts n.heap (all_catchall n.farm) [])
          (register_each n.heap (all_sockets n.farm)))
      ∙ row-there (all_catchall n.farm)

  -- For "default" and for each service with a socket, the register info names exactly the addresses
  -- of which the status page counts at least one socket.
  pub register_info-status :
      (m : DarkLaunchManager Net) (r : Text) {p : ℕ} {ps : List ℕ}
      → r ≢ codes "default"
      → get r (all_sockets n.farm) ≡ some (p ∷ ps)
      → (in_register_info r ≡ ltb 0 (status_count m r))
        × (in_register_info (codes "default") ≡ ltb 0 (status_count m (codes "default")))
  register_info-status m r {p} {ps} other there = (
    register_info-service r other there ∙ ap (ltb 0) (sym (status_count-service m r other there)),
    register_info-default ∙ ap (ltb 0) (sym (status_count-default m)),
  )
