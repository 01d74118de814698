-- ===== src/Farm/Addresses.antt =====
-- What the dark addresses mean for the sockets that the router registers. It takes the request's
-- remote address, a host with a port, as the address of a socket (router/router.go).
use crank4go.Base.{◌≡◌, ap, ◌∙◌, inl, inr, false, ◌∷◌, ◌++◌, Text, Bool-cases}
use crank4go.DarkLaunch.{DarkLaunchManager, is_dark_mode_on, contains_ip, contains_service}
use crank4go.DarkLaunch.Laws.{is_dark_mode_on-contains}
use crank4go.DarkLaunch.Invariant.{AllValid, colon, host_port_absent}
use crank4go.Socket.{RouterSocket}
use crank4go.Farm.{Net}
use crank4go.Farm.Operations.{is_dark}

-- If the manager contains valid addresses only, then a socket whose address is a host with a port
-- is dark exactly when its route is a dark service: no dark address ever applies to it.
pub is_dark-host_port :
    (m : DarkLaunchManager Net) (s : RouterSocket) (host port : Text)
    → AllValid m
    → s.ip ≡ host ++ colon ∷ port
    → is_dark m s ≡ contains_service s.route m
unfolding is_dark
is_dark-host_port m s host port v e =
    let absent : contains_ip s.ip m ≡ false =
      ap (λ t. contains_ip t m) e ∙ host_port_absent m host port v in
    elim (Bool-cases (contains_service s.route m)) [
      | inl k ↦ rw (absent, k, (is_dark_mode_on-contains m).1 (inr (s.route, k)))
      | inr k ↦ (elim (Bool-cases (is_dark_mode_on m)) [
        | inl on ↦ rw (absent, k, on)
        | inr off ↦ rw (absent, k, off)
      ])
    ]
