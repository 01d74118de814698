-- ===== src/DarkLaunch.antt =====
-- router/darklaunch_manager: `DarkLaunchManager`, its checks of addresses and service names, its
-- listeners, and the gray-testing toggle.
pub mod Address
pub mod Service
pub mod Laws
pub mod Invariant
mod Tests
use crank4go.Base.{
  ℕ, ◌≡◌, Bool, true, false, not, ◌||◌, ◌&&◌, Option, none, some, List, [], ◌∷◌, ◌++◌, map, Text,
  codes, Map, get, put, delete, ◌==◌, if◌then◌else◌, leb, length, split, parts, atoi, ℤ, pos,
  negsuc, ltb_ℤ, text_eq,
}

-- A value of type `IpListener` or `ServiceListener` over the state that it works on.
pub record Listener (S : Type 0) : Type 0 where
  pub after_added : Text → S → S
  pub after_revoked : Text → S → S

-- A Go set of strings is a map to the unit value.
pub record DarkLaunchManager (S : Type 0) : Type 0 where
  pub current_ips : Map (Unit {0})
  pub current_services : Map (Unit {0})
  pub ip_listener : Option (Listener S)
  pub service_listener : Option (Listener S)
  pub path : Text

unfoldable pub is_letter : ℕ → Bool
is_letter c = (leb b'a' c && leb c b'z') || (leb b'A' c && leb c b'Z')

-- `\w`
unfoldable pub is_word : ℕ → Bool
unfolding is_letter
is_word c = is_letter c || (leb b'0' c && leb c b'9') || c == b'_'

all_name_bytes : Text → Bool
unfolding is_word
all_name_bytes [] = true
all_name_bytes (c ∷ s) = (is_word c || c == b'-') && all_name_bytes s

-- The match of `^[a-zA-Z]+((-|_)?\w*)*$`, as a decision; Service.antt has the language itself.
unfoldable pub is_valid_service : Text → Bool
unfolding is_letter all_name_bytes
is_valid_service [] = false
is_valid_service (c ∷ s) = is_letter c && all_name_bytes s

-- One group of an address: `Atoi` reads it, and it lies between 0 and 255.
in_byte : ℤ × Bool → Bool
in_byte (i, failed) = if failed || ltb_ℤ i (pos 0) || ltb_ℤ (pos 255) i then false else true

is_group : Text → Bool
unfolding in_byte
is_group s = if length s == 0 then false else in_byte (atoi s)

all_groups : List Text → Bool
unfolding is_group
all_groups [] = true
all_groups (s ∷ groups) = if is_group s then all_groups groups else false

unfoldable pub is_valid_ip : Text → Bool
unfolding all_groups
is_valid_ip ip =
    if text_eq ip []
    then false
    else if not (length (parts (split b'.' ip)) == 4)
    then false
    else all_groups (parts (split b'.' ip))

abbrev pub present : Option (Unit {0}) → Bool
present none = false
present (some u) = true

-- An error value, or nil.
abbrev pub Error : Type 0
Error = Option Text

abbrev pub Outcome : Type 0 → Type 0
Outcome S = DarkLaunchManager S × S × Error

module _ {S : Type 0} where
  unfoldable pub new_dark_launch_manager2 : Text → DarkLaunchManager S
  new_dark_launch_manager2 path = record {
    current_ips = [];
    current_services = [];
    ip_listener = none;
    service_listener = none;
    path = path;
  }

  unfoldable pub new_dark_launch_manager : DarkLaunchManager S
  unfolding new_dark_launch_manager2
  new_dark_launch_manager = new_dark_launch_manager2 []

  -- In the order of the list; Go promises none.
  unfoldable pub ip_list : DarkLaunchManager S → List Text
  ip_list m = map (λ e. e.0) m.current_ips

  unfoldable pub service_list : DarkLaunchManager S → List Text
  service_list m = map (λ e. e.0) m.current_services

  -- A call of a nil listener panics: `none`.
  unfoldable pub add_ip : Text → DarkLaunchManager S → S → Option (Outcome S)
  add_ip ip m s =
      if is_valid_ip ip
      then (elim m.ip_listener [
        | none ↦ none
        | some l ↦
            some (record m { current_ips = put ip tt m.current_ips }, l.after_added ip s, none)
      ])
      else some (m, s, some (codes "invalid ip address: " ++ ip))

  unfoldable pub add_service : Text → DarkLaunchManager S → S → Option (Outcome S)
  add_service service m s =
      if is_valid_service service
      then (elim m.service_listener [
        | none ↦ none
        | some l ↦ some (
          record m { current_services = put service tt m.current_services },
          l.after_added service s,
          none,
        )
      ])
      else some (m, s, some (codes "invalid service: " ++ service))

  unfoldable pub remove_ip : Text → DarkLaunchManager S → S → Option (Outcome S)
  remove_ip ip m s =
      if present (get ip m.current_ips)
      then (elim m.ip_listener [
        | none ↦ none
        | some l ↦
            some (record m { current_ips = delete ip m.current_ips }, l.after_revoked ip s, none)
      ])
      else some (m, s, some (codes "ip: " ++ (ip ++ codes " is not in current list")))

  unfoldable pub remove_service : Text → DarkLaunchManager S → S → Option (Outcome S)
  remove_service service m s =
      if present (get service m.current_services)
      then (elim m.service_listener [
        | none ↦ none
        | some l ↦ some (
          record m { current_services = delete service m.current_services },
          l.after_revoked service s,
          none,
        )
      ])
      else some (m, s, some (codes "service: " ++ (service ++ codes " is not in current list")))

  unfoldable pub is_dark_mode_on : DarkLaunchManager S → Bool
  is_dark_mode_on m = not (length m.current_services == 0) || not (length m.current_ips == 0)

  unfoldable pub contains_ip : Text → DarkLaunchManager S → Bool
  contains_ip ip m = present (get ip m.current_ips)

  unfoldable pub contains_service : Text → DarkLaunchManager S → Bool
  contains_service service m = present (get service m.current_services)

  unfoldable pub set_service_listener : Listener S → DarkLaunchManager S → DarkLaunchManager S
  set_service_listener l m = record m { service_listener = some l }

  unfoldable pub set_ip_listener : Listener S → DarkLaunchManager S → DarkLaunchManager S
  set_ip_listener l m = record m { ip_listener = some l }

-- darklaunch_toggle.go: the package variable `toggle`, an int32.
abbrev pub turn_gray_testing_on : ℕ → ℕ
turn_gray_testing_on toggle = 1

abbrev pub turn_gray_testing_off : ℕ → ℕ
turn_gray_testing_off toggle = 0

abbrev pub is_gray_testing_on : ℕ → Bool
is_gray_testing_on toggle = toggle == 1
