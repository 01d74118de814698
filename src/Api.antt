-- ===== src/Api.antt =====
-- router/api: the dark launch resources, over the manager, its farm and the gray-testing toggle.
pub mod Safety
mod Tests
use crank4go.Base.{
  ℕ, Bool, true, false, not, Option, none, some, ◌>>=◌, List, [], ◌∷◌, ◌++◌, ℤ, pos, Text, codes,
  if◌then◌else◌,
}
use crank4go.Protocol.Headers.{space}
use crank4go.Http.{
  ResponseWriter, add_header, write_header, write, text_plain, resp_text_plain_with_status,
  resp_text_plain_ok,
}
use crank4go.DarkLaunch.{
  DarkLaunchManager, Outcome, ip_list, service_list, add_ip, add_service, remove_ip, remove_service,
  is_dark_mode_on, contains_ip, contains_service, turn_gray_testing_on, turn_gray_testing_off,
  is_gray_testing_on,
}
use crank4go.Farm.{Net}

pub record DarkState : Type 0 where
  pub manager : DarkLaunchManager Net
  pub net : Net

-- `%v` of a Boolean and of a slice of strings.
abbrev pub show_bool : Bool → Text
show_bool true = codes "true"
show_bool false = codes "false"

show_more : List Text → Text
show_more [] = []
show_more (t ∷ ts) = space ∷ t ++ show_more ts

unfoldable pub show_list : List Text → Text
unfolding show_more
show_list [] = codes "[]"
show_list (t ∷ ts) = b'[' ∷ t ++ (show_more ts ++ b']' ∷ [])

abbrev pub Served : Type 0
Served = DarkState × ResponseWriter

toggle_text : DarkState → Text
toggle_text s =
    codes "DarkMode="
    ++ (show_bool (is_dark_mode_on s.manager)
        ++ (codes ", darkModeGrayTestToggle=" ++ show_bool (is_gray_testing_on s.net.toggle)))

-- Sets the toggle if the dark mode is on; `uuid` is the id of the error.
set_toggle : Text → (ℕ → ℕ) → DarkState → ResponseWriter → Served
unfolding toggle_text
set_toggle uuid turn s w =
    let s' = record s { net = record s.net { toggle = turn s.net.toggle } } in
    if not (is_dark_mode_on s.manager)
    then (s, resp_text_plain_with_status w (codes "Forbidden request, ErrorID=" ++ uuid) (pos 403))
    else (s', resp_text_plain_ok w (toggle_text s'))

-- The answer to an update by what the manager returned, after the text of the error.
answer : Text → Text → ResponseWriter → Outcome Net → Served
answer good bad w (m, n, none) = (record { manager = m; net = n }, resp_text_plain_ok w good)
answer good bad w (m, n, some e) = (
  record { manager = m; net = n },
  w ++ add_header (codes "Content-Type") text_plain ∷ write_header (pos 400) ∷ write bad ∷ [],
)

invalid : Text → Text → Text → Text → Text
invalid kind name action uuid =
    codes "Invalid request, invalid "
    ++ (kind
        ++ (codes ": "
            ++ (name ++ (codes ", action: " ++ (action ++ (codes ", ErrorID: " ++ uuid))))))

deleted : Text → Text → Text
deleted kind name =
    kind ++ (codes ": " ++ (name ++ codes " was deleted successfully from dark launch manager"))

-- The requests that the three resources register.
pub data ApiCall : Type 0 where
  get_detail put_on put_off get_dark_ips get_dark_services : ApiCall
  get_dark_mode_by_ip get_dark_mode_by_service : Text → ApiCall
  put_enable_dark_mode_by_ip put_enable_dark_mode_by_service : Text → ApiCall
  delete_dark_mode_by_ip delete_dark_mode_by_service : Text → ApiCall

dark_mode_of : Bool → Text → Text → Text
dark_mode_of on kind name =
    codes "DarkMode = " ++ (show_bool on ++ (codes " for " ++ (kind ++ (codes " = " ++ name))))

abbrev pub updated : Text
updated = codes "update dark launch manager successfully"

-- `none` is the panic of a manager without a listener.
unfoldable pub serve_api : Text → ApiCall → DarkState → ResponseWriter → Option Served
unfolding set_toggle toggle_text answer invalid deleted dark_mode_of
serve_api uuid get_detail s w = some (s, resp_text_plain_ok w (toggle_text s))
serve_api uuid put_on s w = some (set_toggle uuid turn_gray_testing_on s w)
serve_api uuid put_off s w = some (set_toggle uuid turn_gray_testing_off s w)
serve_api uuid get_dark_ips s w =
    some (s, resp_text_plain_ok w (codes "DarkMode IPs = " ++ show_list (ip_list s.manager)))
serve_api uuid get_dark_services s w =
    some
      (s, resp_text_plain_ok w (codes "DarkMode Services = " ++ show_list (service_list s.manager)))
serve_api uuid (get_dark_mode_by_ip name) s w =
    some (s, resp_text_plain_ok w (dark_mode_of (contains_ip name s.manager) (codes "ip") name))
serve_api uuid (get_dark_mode_by_service name) s w = some (
  s,
  resp_text_plain_ok w (dark_mode_of (contains_service name s.manager) (codes "service") name),
)
serve_api uuid (put_enable_dark_mode_by_ip name) s w = add_ip name s.manager s.net >>= λ o.
    some (answer updated (invalid (codes "ip") name (codes "Add IP") uuid) w o)
serve_api uuid (put_enable_dark_mode_by_service name) s w =
    add_service name s.manager s.net >>= λ o.
    some (answer updated (invalid (codes "service") name (codes "Add service") uuid) w o)
serve_api uuid (delete_dark_mode_by_ip name) s w = remove_ip name s.manager s.net >>= λ o.
    some
      (answer (deleted (codes "ip") name) (invalid (codes "ip") name (codes "Remove IP") uuid) w o)
serve_api uuid (delete_dark_mode_by_service name) s w = remove_service name s.manager s.net >>= λ o.
    some (
      answer (deleted (codes "service") name)
        (invalid (codes "service") name (codes "Remove service") uuid) w o)

-- Requests one after the other, each with the id that its error would get.
unfoldable pub serve_calls : List (Text × ApiCall) → DarkState → ResponseWriter → Option Served
unfolding serve_api
serve_calls [] s w = some (s, w)
serve_calls ((uuid, call) ∷ calls) s w =
    serve_api uuid call s w >>= λ served. serve_calls calls served.0 served.1
