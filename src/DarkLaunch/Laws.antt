-- ===== src/DarkLaunch/Laws.antt =====
-- What the manager's operations do to its two sets and to the listeners' state.
use crank4go.Base.{
  ◌≡◌, refl, ◌↔◌, ◌⊎◌, inl, inr, true, false, not, none, some, [], ◌∷◌, ◌++◌, arith, Text, codes,
  Map, get, put, delete, get-put, get-delete, text_eq, text_eq_refl, ◌==◌, if◌then◌else◌,
  Bool-cases, length,
}
use crank4go.DarkLaunch.{
  Listener, DarkLaunchManager, is_valid_ip, is_valid_service, add_ip, add_service, remove_ip,
  remove_service, is_dark_mode_on, contains_ip, contains_service, present,
}

pub length-put : (k : Text) (m : Map (Unit {0})) → not (length (put k tt m) == 0) ≡ true
unfolding put
length-put k [] = refl
length-put k ((j, v) ∷ m) = ground arith

module _ {S : Type 0} (m : DarkLaunchManager S) (s : S) (l : Listener S) where
  -- Adding a valid address calls the listener with it, puts the address into the set and nothing
  -- else, leaves the services alone and turns the dark mode on.
  pub add_ip_valid :
      (ip : Text)
      → m.ip_listener ≡ some l
      → is_valid_ip ip ≡ true
      → (m' : DarkLaunchManager S) × (add_ip ip m s ≡ some (m', l.after_added ip s, none))
        × ((j : Text) → contains_ip j m' ≡ (if text_eq ip j then true else contains_ip j m))
        × ((j : Text) → contains_service j m' ≡ contains_service j m)
        × (is_dark_mode_on m' ≡ true)
  unfolding add_ip contains_ip contains_service is_dark_mode_on
  add_ip_valid ip e valid = (
    record m { current_ips = put ip tt m.current_ips },
    ground arith,
    λ j. ground (arith, get-put ip j tt m.current_ips),
    λ j. refl,
    ground (arith, length-put ip m.current_ips),
  )

  -- Removing an address of the set calls the listener with it, and takes that address and no other
  -- out of the set.
  pub remove_ip_present :
      (ip : Text)
      → m.ip_listener ≡ some l
      → contains_ip ip m ≡ true
      → (m' : DarkLaunchManager S) × (remove_ip ip m s ≡ some (m', l.after_revoked ip s, none))
        × ((j : Text) → contains_ip j m' ≡ (if text_eq ip j then false else contains_ip j m))
        × ((j : Text) → contains_service j m' ≡ contains_service j m)
  unfolding remove_ip contains_ip contains_service
  remove_ip_present ip e there = (
    record m { current_ips = delete ip m.current_ips },
    ground arith,
    λ j. ground (arith, get-delete ip j m.current_ips),
    λ j. refl,
  )

  -- Adding a valid service name calls the listener with it, puts the name into the set and nothing
  -- else, leaves the addresses alone and turns the dark mode on.
  pub add_service_valid :
      (service : Text)
      → m.service_listener ≡ some l
      → is_valid_service service ≡ true
      → (m' : DarkLaunchManager S) × (add_service service m s
          ≡ some (m', l.after_added service s, none))
        × ((j : Text)
            → contains_service j m' ≡ (if text_eq service j then true else contains_service j m))
        × ((j : Text) → contains_ip j m' ≡ contains_ip j m)
        × (is_dark_mode_on m' ≡ true)
  unfolding add_service contains_ip contains_service is_dark_mode_on
  add_service_valid service e valid = (
    record m { current_services = put service tt m.current_services },
    ground arith,
    λ j. ground (arith, get-put service j tt m.current_services),
    λ j. refl,
    ground (arith, length-put service m.current_services),
  )

  -- Removing a service of the set calls the listener with it, and takes that service and no other
  -- out of the set.
  pub remove_service_present :
      (service : Text)
      → m.service_listener ≡ some l
      → contains_service service m ≡ true
      → (m' : DarkLaunchManager S) × (remove_service service m s
          ≡ some (m', l.after_revoked service s, none))
        × ((j : Text)
            → contains_service j m' ≡ (if text_eq service j then false else contains_service j m))
        × ((j : Text) → contains_ip j m' ≡ contains_ip j m)
  unfolding remove_service contains_ip contains_service
  remove_service_present service e there = (
    record m { current_services = delete service m.current_services },
    ground arith,
    λ j. ground (arith, get-delete service j m.current_services),
    λ j. refl,
  )

-- For a name that is no valid address or service and is in neither set, all four calls change
-- neither the manager nor the listeners' state and return an error, whatever the listeners are.
pub refused :
    {S : Type 0} (m : DarkLaunchManager S) (s : S) (name : Text)
    → is_valid_ip name ≡ false
    → is_valid_service name ≡ false
    → contains_ip name m ≡ false
    → contains_service name m ≡ false
    → (add_ip name m s ≡ some (m, s, some (codes "invalid ip address: " ++ name)))
      × (add_service name m s ≡ some (m, s, some (codes "invalid service: " ++ name)))
      × (remove_ip name m s
          ≡ some (m, s, some (codes "ip: " ++ (name ++ codes " is not in current list"))))
      × (remove_service name m s
          ≡ some (m, s, some (codes "service: " ++ (name ++ codes " is not in current list"))))
unfolding add_ip add_service remove_ip remove_service contains_ip contains_service
refused m s name no_ip no_service no_current_ip no_current_service =
    (rw no_ip, rw no_service, rw no_current_ip, rw no_current_service)

get_some_key :
    (m : Map (Unit {0})) → not (length m == 0) ≡ true → (j : Text) × (present (get j m) ≡ true)
unfolding get
get_some_key [] h = cc
get_some_key ((j, u) ∷ m) h = (j, rw (text_eq_refl j))

key_not_empty :
    (m : Map (Unit {0})) (j : Text) → present (get j m) ≡ true → not (length m == 0) ≡ true
unfolding get
key_not_empty [] j h = cc
key_not_empty (e ∷ m) j h = ground arith

-- The dark mode is on exactly when some address or some service is contained.
pub is_dark_mode_on-contains :
    {S : Type 0} (m : DarkLaunchManager S)
    → (is_dark_mode_on m ≡ true)
      ↔ (((j : Text) × (contains_ip j m ≡ true)) ⊎ ((j : Text) × (contains_service j m ≡ true)))
unfolding is_dark_mode_on contains_ip contains_service
is_dark_mode_on-contains m = (
  λ h. elim (Bool-cases (not (length m.current_services == 0))) [
    | inl e ↦ inr (get_some_key m.current_services e)
    | inr e ↦ inl (get_some_key m.current_ips (ground arith))
  ],
  λ h. elim h [
    | inl (j, e) ↦ ground (arith, key_not_empty m.current_ips j e)
    | inr (j, e) ↦ ground (arith, key_not_empty m.current_services j e)
  ],
)
