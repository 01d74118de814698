-- ===== src/Api/Safety.antt =====
-- The gray-testing toggle and the dark mode under the requests of the dark launch resources.
use crank4go.Base.{
  ℕ, ◌≡◌, refl, inl, inr, true, Option, none, some, ◌>>=◌, List, [], ◌∷◌, ◌++◌, arith, Text, codes,
  put, delete, get, Bool-cases,
}
use crank4go.Http.{ResponseWriter}
use crank4go.DarkLaunch.{
  DarkLaunchManager, Outcome, add_ip, add_service, remove_ip, remove_service, is_dark_mode_on,
  is_valid_ip, is_valid_service, present, is_gray_testing_on, turn_gray_testing_on,
  turn_gray_testing_off,
}
use crank4go.DarkLaunch.Laws.{length-put}
use crank4go.Farm.{Net}
use crank4go.Farm.Listener.{
  ip_listener, service_listener, after_dark_ip_added, after_dark_service_added,
  after_dark_ip_revoked, after_dark_service_revoked,
}
use crank4go.Api.{
  DarkState, Served, ApiCall, set_toggle, answer, serve_api, serve_calls, get_detail, put_on,
  put_off, get_dark_ips, get_dark_services, get_dark_mode_by_ip, get_dark_mode_by_service,
  put_enable_dark_mode_by_ip, put_enable_dark_mode_by_service, delete_dark_mode_by_ip,
  delete_dark_mode_by_service,
}

-- The farm's listeners are set, and gray testing is on in the dark mode only.
pub record Safe (m : DarkLaunchManager Net) (n : Net) : Type 0 where
  pub ips : m.ip_listener ≡ some ip_listener
  pub services : m.service_listener ≡ some service_listener
  pub gray : is_gray_testing_on n.toggle ≡ true → is_dark_mode_on m ≡ true

-- An update of the manager returns, and keeps all safe.
abbrev pub Updates : Option (Outcome Net) → Type 0
Updates r = (o : Outcome Net) × (r ≡ some o) × Safe o.0 o.1

module _ (name : Text) (m : DarkLaunchManager Net) (n : Net) (v : Safe m n) where
  add_ip-Updates : Updates (add_ip name m n)
  unfolding add_ip is_dark_mode_on after_dark_ip_added
  add_ip-Updates = elim (Bool-cases (is_valid_ip name)) [
    | inr e ↦ ((m, n, some (codes "invalid ip address: " ++ name)), rw e, v)
    | inl e ↦ (
      (record m { current_ips = put name tt m.current_ips }, after_dark_ip_added name n, none),
      simp (e, v.ips),
      record {
        ips = v.ips;
        services = v.services;
        gray = λ h. ground (arith, length-put name m.current_ips);
      },
    )
  ]

  add_service-Updates : Updates (add_service name m n)
  unfolding add_service is_dark_mode_on after_dark_service_added
  add_service-Updates = elim (Bool-cases (is_valid_service name)) [
    | inr e ↦ ((m, n, some (codes "invalid service: " ++ name)), rw e, v)
    | inl e ↦ (
      (
        record m { current_services = put name tt m.current_services },
        after_dark_service_added name n,
        none,
      ),
      simp (e, v.services),
      record {
        ips = v.ips;
        services = v.services;
        gray = λ h. ground (arith, length-put name m.current_services);
      },
    )
  ]

  remove_ip-Updates : Updates (remove_ip name m n)
  unfolding remove_ip after_dark_ip_revoked
  remove_ip-Updates = elim (Bool-cases (present (get name m.current_ips))) [
    | inr e ↦ ((m, n, some (codes "ip: " ++ (name ++ codes " is not in current list"))), simp e, v)
    | inl e ↦ (
      (record m { current_ips = delete name m.current_ips }, after_dark_ip_revoked name n, none),
      simp (e, v.ips),
      record { ips = v.ips; services = v.services; gray = λ h. cc },
    )
  ]

  remove_service-Updates : Updates (remove_service name m n)
  unfolding remove_service after_dark_service_revoked
  remove_service-Updates = elim (Bool-cases (present (get name m.current_services))) [
    | inr e ↦
        ((m, n, some (codes "service: " ++ (name ++ codes " is not in current list"))), simp e, v)
    | inl e ↦ (
      (
        record m { current_services = delete name m.current_services },
        after_dark_service_revoked name n,
        none,
      ),
      simp (e, v.services),
      record { ips = v.ips; services = v.services; gray = λ h. cc },
    )
  ]

abbrev pub SafeState : DarkState → Type 0
SafeState s = Safe s.manager s.net

abbrev pub Serves : Option Served → Type 0
Serves r = (o : Served) × (r ≡ some o) × SafeState o.0

answer-Serves :
    (good bad : Text) (w : ResponseWriter) (r : Option (Outcome Net))
    → Updates r
    → Serves (r >>= λ o. some (answer good bad w o))
unfolding answer
answer-Serves good bad w r ((m, n, none), e, v) = (answer good bad w (m, n, none), rw e, v)
answer-Serves good bad w r ((m, n, some err), e, v) = (answer good bad w (m, n, some err), rw e, v)

set_toggle-Serves :
    (uuid : Text) (turn : ℕ → ℕ) (s : DarkState) (w : ResponseWriter)
    → SafeState s
    → SafeState (set_toggle uuid turn s w).0
unfolding set_toggle
set_toggle-Serves uuid turn s w v = elim (Bool-cases (is_dark_mode_on s.manager)) [
  | inl e ↦ rw (set_toggle, e) (record { ips = v.ips; services = v.services; gray = λ h. e })
  | inr e ↦ rw (set_toggle, e) v
]

serve_api-Serves :
    (uuid : Text) (call : ApiCall) (s : DarkState) (w : ResponseWriter)
    → SafeState s
    → Serves (serve_api uuid call s w)
unfolding serve_api
serve_api-Serves uuid get_detail s w v = (_, refl, v)
serve_api-Serves uuid put_on s w v = (_, refl, set_toggle-Serves uuid turn_gray_testing_on s w v)
serve_api-Serves uuid put_off s w v = (_, refl, set_toggle-Serves uuid turn_gray_testing_off s w v)
serve_api-Serves uuid get_dark_ips s w v = (_, refl, v)
serve_api-Serves uuid get_dark_services s w v = (_, refl, v)
serve_api-Serves uuid (get_dark_mode_by_ip name) s w v = (_, refl, v)
serve_api-Serves uuid (get_dark_mode_by_service name) s w v = (_, refl, v)
serve_api-Serves uuid (put_enable_dark_mode_by_ip name) s w v =
    answer-Serves _ _ w (add_ip name s.manager s.net) (add_ip-Updates name s.manager s.net v)
serve_api-Serves uuid (put_enable_dark_mode_by_service name) s w v =
    answer-Serves _ _ w (add_service name s.manager s.net)
      (add_service-Updates name s.manager s.net v)
serve_api-Serves uuid (delete_dark_mode_by_ip name) s w v =
    answer-Serves _ _ w (remove_ip name s.manager s.net) (remove_ip-Updates name s.manager s.net v)
serve_api-Serves uuid (delete_dark_mode_by_service name) s w v =
    answer-Serves _ _ w (remove_service name s.manager s.net)
      (remove_service-Updates name s.manager s.net v)

-- Whatever requests the dark launch resources get, one after the other, from a state with the
-- farm's listeners in which gray testing is on in the dark mode only: all of them are answered
-- without a panic, and gray testing is on in the dark mode only at the end.
pub serve_calls-Serves :
    (calls : List (Text × ApiCall)) (s : DarkState) (w : ResponseWriter)
    → SafeState s
    → Serves (serve_calls calls s w)
unfolding serve_calls
serve_calls-Serves [] s w v = ((s, w), refl, v)
serve_calls-Serves ((uuid, call) ∷ calls) s w v =
    let (served, e, safe) = serve_api-Serves uuid call s w v in
    let (ended, k, safe') = serve_calls-Serves calls served.0 served.1 safe in
    (ended, rw (serve_calls, e) k, safe')
