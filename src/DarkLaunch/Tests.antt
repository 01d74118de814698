-- ===== src/DarkLaunch/Tests.antt =====
-- The theorems about the dark launch manager at concrete addresses, names and managers.
use crank4go.Base.{
  ◌≡◌, ◌↔◌, ◌⊎◌, refl, true, false, none, some, List, [], ◌∷◌, ◌++◌, arith, Text, codes, text_eq,
  split, pos, atoi, itoa, get, if◌then◌else◌, text_eq_iff,
}
use crank4go.DarkLaunch.{
  Listener, DarkLaunchManager, is_valid_ip, is_valid_service, new_dark_launch_manager, add_ip,
  add_service, remove_service, is_dark_mode_on, contains_ip, contains_service,
}
use crank4go.DarkLaunch.Address.{Dotted, dotted, is_valid_ip-Dotted, is_valid_ip-itoa}
use crank4go.DarkLaunch.Service.{Matches, service_pattern, is_valid_service-Matches}
use crank4go.DarkLaunch.Invariant.{AllValid, operate, adds_ip, operate-AllValid}
use crank4go.DarkLaunch.Laws.{add_service_valid, remove_service_present, is_dark_mode_on-contains}

-- The listener keeps the last calls, the newest first.
abbrev journal : Listener (List Text)
journal = record {
  after_added = λ name s. (codes "+" ++ name) ∷ s;
  after_revoked = λ name s. (codes "-" ++ name) ∷ s;
}

abbrev local_ip : Text
local_ip = codes "10.0.0.7"

abbrev manager : DarkLaunchManager (List Text)
manager = record {
  current_ips = (local_ip, tt) ∷ [];
  current_services = (codes "shop", tt) ∷ [];
  ip_listener = some journal;
  service_listener = some journal;
  path = [];
}

is_valid_ip-Dotted_example : (is_valid_ip local_ip ≡ true) ↔ Dotted local_ip
is_valid_ip-Dotted_example = is_valid_ip-Dotted local_ip

is_valid_ip-itoa_example :
    is_valid_ip (dotted (itoa (pos 10)) (itoa (pos 0)) (itoa (pos 0)) (itoa (pos 255))) ≡ true
is_valid_ip-itoa_example =
    is_valid_ip-itoa 10 0 0 255 (omega arith) (omega arith) (omega arith) (omega arith)

-- `Atoi` takes signs and leading zeros.
signed_ip : is_valid_ip (codes "+1.-0.007.8") ≡ true
unfolding is_valid_ip split atoi text_eq
signed_ip = refl

is_valid_service-Matches_example :
    (is_valid_service (codes "my-shop_2") ≡ true) ↔ Matches service_pattern (codes "my-shop_2")
is_valid_service-Matches_example = is_valid_service-Matches (codes "my-shop_2")

other_ip-valid : is_valid_ip (codes "10.0.0.8") ≡ true
unfolding is_valid_ip split atoi text_eq
other_ip-valid = refl

local_ip-contained : contains_ip local_ip manager ≡ true
unfolding contains_ip get text_eq
local_ip-contained = refl

pay-valid : is_valid_service (codes "pay") ≡ true
unfolding is_valid_service
pay-valid = refl

add_service_valid_example :
    (m' : DarkLaunchManager (List Text)) × (add_service (codes "pay") manager []
      ≡ some (m', codes "+pay" ∷ [], none))
    × ((j : Text)
        → contains_service j m'
          ≡ (if text_eq (codes "pay") j then true else contains_service j manager))
    × ((j : Text) → contains_ip j m' ≡ contains_ip j manager)
    × (is_dark_mode_on m' ≡ true)
add_service_valid_example = add_service_valid manager [] journal (codes "pay") refl pay-valid

shop-contained : contains_service (codes "shop") manager ≡ true
unfolding contains_service get text_eq
shop-contained = refl

remove_service_present_example :
    (m' : DarkLaunchManager (List Text)) × (remove_service (codes "shop") manager []
      ≡ some (m', codes "-shop" ∷ [], none))
    × ((j : Text)
        → contains_service j m'
          ≡ (if text_eq (codes "shop") j then false else contains_service j manager))
    × ((j : Text) → contains_ip j m' ≡ contains_ip j manager)
remove_service_present_example =
    remove_service_present manager [] journal (codes "shop") refl shop-contained

abbrev bad_name : Text
bad_name = codes "9 lives"

not_ip : is_valid_ip bad_name ≡ false
unfolding is_valid_ip split text_eq
not_ip = refl

not_service : is_valid_service bad_name ≡ false
unfolding is_valid_service
not_service = refl

no_current_ip : contains_ip bad_name manager ≡ false
unfolding contains_ip get text_eq
no_current_ip = refl

no_current_service : contains_service bad_name manager ≡ false
unfolding contains_service get text_eq
no_current_service = refl

is_dark_mode_on-contains_example : (is_dark_mode_on manager ≡ true) ↔ (
    ((j : Text) × (contains_ip j manager ≡ true))
    ⊎ ((j : Text) × (contains_service j manager ≡ true)))
is_dark_mode_on-contains_example = is_dark_mode_on-contains manager

-- A manager without listeners panics on a valid address.
no_listener : add_ip local_ip (new_dark_launch_manager {S = Unit {0}}) tt ≡ none
unfolding add_ip is_valid_ip split atoi text_eq new_dark_launch_manager
no_listener = refl

local_ip-valid : is_valid_ip local_ip ≡ true
unfolding is_valid_ip split atoi text_eq
local_ip-valid = refl

shop-valid : is_valid_service (codes "shop") ≡ true
unfolding is_valid_service
shop-valid = refl

manager-AllValid : AllValid manager
unfolding contains_ip contains_service get
manager-AllValid = record {
  ips = λ j h. ground (arith, text_eq_iff local_ip j, local_ip-valid);
  services = λ j h. ground (arith, text_eq_iff (codes "shop") j, shop-valid);
}

refused_again :
    operate (adds_ip bad_name) manager []
    ≡ some (manager, [], some (codes "invalid ip address: " ++ bad_name))
unfolding operate add_ip
refused_again = rw not_ip

operate-AllValid_example : AllValid manager
operate-AllValid_example =
    operate-AllValid (adds_ip bad_name) manager [] manager-AllValid refused_again
