-- ===== src/DarkLaunch/Invariant.antt =====
-- What the manager's sets hold after any of its operations, and what that means for sockets whose
-- address is a host with a port.
use crank4go.Base.{
  ℕ, ◌≡◌, refl, sym, ◌∙◌, inl, inr, true, false, Option, none, some, [], ◌∷◌, ◌++◌, arith, Text,
  codes, Lacks, All-append, get, put, delete, get-put, get-delete, text_eq_iff, atoi-Lacks,
  Bool-cases, Option-cases, some_eq,
}
use mathlib.Core.Path.{subst}
use crank4go.DarkLaunch.{
  DarkLaunchManager, Outcome, is_valid_ip, is_valid_service, add_ip, add_service, remove_ip,
  remove_service, contains_ip, contains_service, present,
}
use crank4go.DarkLaunch.Address.{Dotted, Group, is_valid_ip-Dotted}

pub data Operation : Type 0 where
  adds_ip adds_service removes_ip removes_service : Text → Operation

module _ {S : Type 0} where
  unfoldable pub operate : Operation → DarkLaunchManager S → S → Option (Outcome S)
  operate (adds_ip name) m s = add_ip name m s
  operate (adds_service name) m s = add_service name m s
  operate (removes_ip name) m s = remove_ip name m s
  operate (removes_service name) m s = remove_service name m s

  -- All addresses and services that the manager contains are valid ones.
  pub record AllValid (m : DarkLaunchManager S) : Type 0 where
    pub ips : (j : Text) → contains_ip j m ≡ true → is_valid_ip j ≡ true
    pub services : (j : Text) → contains_service j m ≡ true → is_valid_service j ≡ true

  ip_added :
      (ip : Text) (m : DarkLaunchManager S)
      → AllValid m
      → is_valid_ip ip ≡ true
      → AllValid (record m { current_ips = put ip tt m.current_ips })
  unfolding contains_ip contains_service
  ip_added ip m v valid = record {
    ips = λ j h. ground (arith, get-put ip j tt m.current_ips, text_eq_iff ip j, v.ips j, valid);
    services = v.services;
  }

  ip_removed :
      (ip : Text) (m : DarkLaunchManager S)
      → AllValid m
      → AllValid (record m { current_ips = delete ip m.current_ips })
  unfolding contains_ip contains_service
  ip_removed ip m v = record {
    ips = λ j h. ground (arith, get-delete ip j m.current_ips, v.ips j);
    services = v.services;
  }

  service_added :
      (s : Text) (m : DarkLaunchManager S)
      → AllValid m
      → is_valid_service s ≡ true
      → AllValid (record m { current_services = put s tt m.current_services })
  unfolding contains_ip contains_service
  service_added s m v valid = record {
    ips = v.ips;
    services = λ j h.
        ground (arith, get-put s j tt m.current_services, text_eq_iff s j, v.services j, valid);
  }

  service_removed :
      (s : Text) (m : DarkLaunchManager S)
      → AllValid m
      → AllValid (record m { current_services = delete s m.current_services })
  unfolding contains_ip contains_service
  service_removed s m v = record {
    ips = v.ips;
    services = λ j h. ground (arith, get-delete s j m.current_services, v.services j);
  }

  -- The manager of an outcome.
  after :
      {o : Outcome S} {r : Option (Outcome S)} (m : DarkLaunchManager S) (s : S) (e : Option Text)
      → r ≡ some (m, s, e)
      → r ≡ some o
      → AllValid m
      → AllValid o.0
  after m s e made got v = subst (λ (x : Outcome S). AllValid x.0) (some_eq (sym made ∙ got)) v

  -- Each of the four operations keeps the manager's addresses and services valid, whether it
  -- succeeds or returns an error, and whatever its listeners do.
  pub operate-AllValid :
      (op : Operation) (m : DarkLaunchManager S) (s : S) {o : Outcome S}
      → AllValid m
      → operate op m s ≡ some o
      → AllValid o.0
  unfolding operate add_ip add_service remove_ip remove_service
  operate-AllValid (adds_ip ip) m s v h = elim (Bool-cases (is_valid_ip ip)) [
    | inr e ↦ after m s (some (codes "invalid ip address: " ++ ip)) (rw e) h v
    | inl e ↦ (elim (Option-cases m.ip_listener) [
      | inl k ↦ cc (rw (e, k) at h)
      | inr (l, k) ↦
          after (record m { current_ips = put ip tt m.current_ips }) (l.after_added ip s) none
            (simp (e, k)) h (ip_added ip m v e)
    ])
  ]
  operate-AllValid (adds_service name) m s v h = elim (Bool-cases (is_valid_service name)) [
    | inr e ↦ after m s (some (codes "invalid service: " ++ name)) (rw e) h v
    | inl e ↦ (elim (Option-cases m.service_listener) [
      | inl k ↦ cc (rw (e, k) at h)
      | inr (l, k) ↦
          after (record m { current_services = put name tt m.current_services })
            (l.after_added name s) none (simp (e, k)) h (service_added name m v e)
    ])
  ]
  operate-AllValid (removes_ip ip) m s v h = elim (Bool-cases (present (get ip m.current_ips))) [
    | inr e ↦
        after m s (some (codes "ip: " ++ (ip ++ codes " is not in current list"))) (simp e) h v
    | inl e ↦ (elim (Option-cases m.ip_listener) [
      | inl k ↦ cc (rw (e, k) at h)
      | inr (l, k) ↦
          after (record m { current_ips = delete ip m.current_ips }) (l.after_revoked ip s) none
            (simp (e, k)) h (ip_removed ip m v)
    ])
  ]
  operate-AllValid (removes_service name) m s v h =
      elim (Bool-cases (present (get name m.current_services))) [
        | inr e ↦
            after m s (some (codes "service: " ++ (name ++ codes " is not in current list")))
              (simp e) h v
        | inl e ↦ (elim (Option-cases m.service_listener) [
          | inl k ↦ cc (rw (e, k) at h)
          | inr (l, k) ↦
              after (record m { current_services = delete name m.current_services })
                (l.after_revoked name s) none (simp (e, k)) h (service_removed name m v)
        ])
      ]

abbrev pub colon : ℕ
colon = b':'

Group-Lacks : (s : Text) → Group s → Lacks colon s
Group-Lacks s g = atoi-Lacks s g.reads

Dotted-Lacks : (ip : Text) → Dotted ip → Lacks colon ip
Dotted-Lacks ip d = subst (Lacks colon) (sym d.shape) (
    All-append _ d.a _ (Group-Lacks d.a d.group_a) (
      (λ q. omega arith),
      All-append _ d.b _ (Group-Lacks d.b d.group_b) (
        (λ q. omega arith),
        All-append _ d.c _ (Group-Lacks d.c d.group_c)
            ((λ q. omega arith), Group-Lacks d.d d.group_d),
      ),
    ))

Lacks-not_host_port : (host port : Text) → Lacks colon (host ++ colon ∷ port) → ¬ Unit {0}
Lacks-not_host_port [] port (ne, l) u = ne refl
Lacks-not_host_port (c ∷ host) port (ne, l) u = Lacks-not_host_port host port l u

-- No text of the form `host:port` is an address that the manager contains.
pub host_port_absent :
    {S : Type 0} (m : DarkLaunchManager S) (host port : Text)
    → AllValid m
    → contains_ip (host ++ colon ∷ port) m ≡ false
host_port_absent m host port v = elim (Bool-cases (contains_ip (host ++ colon ∷ port) m)) [
  | inr e ↦ e
  | inl e ↦ absurd (
      Lacks-not_host_port host port
        (Dotted-Lacks (host ++ colon ∷ port)
          ((is_valid_ip-Dotted (host ++ colon ∷ port)).0 (v.ips (host ++ colon ∷ port) e)))
        tt)
]
