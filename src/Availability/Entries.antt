-- ===== src/Availability/Entries.antt =====
-- The entries of the services page.
use crank4go.Base.{
  ℕ, ◌+◌, ◌≡◌, ◌≢◌, refl, sym, ap, ◌∙◌, some, List, [], ◌∷◌, ◌++◌, append_assoc, append-nil, map,
  Text, codes, get, text_eq, if◌then◌else◌,
}
use crank4go.DarkLaunch.{DarkLaunchManager}
use crank4go.Farm.{Net}
use crank4go.Farm.Overview.{all_sockets, all_catchall}
use crank4go.Availability.{
  cur_remote_addr, on_each, ConnectorEntry, ServiceEntry, add_router_socket_id_by_connector,
  add_connector_by_ip, add_entry, get_services_map, service_connectors, collected, services,
}
use crank4go.Availability.Counting.{
  count_addr, get-on_each, get-default, status_count, status_count-service,
}

-- How many entries there are for the address.
unfoldable pub entries_at : Text → List ConnectorEntry → ℕ
entries_at addr [] = 0
entries_at addr (c ∷ cs) = (if text_eq c.ip addr then 1 else 0) + entries_at addr cs

-- The entry of a socket.
abbrev pub entry_of : (ℕ → Text) → Net → ℕ → ConnectorEntry
entry_of pinged n p = record {
  connector_instance_id = (n.heap p).connector_instance_id;
  ip = cur_remote_addr (n.heap p);
  route = (n.heap p).route;
  component = (n.heap p).req_component_name;
  connections = record { socket_id = (n.heap p).router_socket_id; last_ping_time = pinged p } ∷ [];
}

module _ (pinged : ℕ → Text) (n : Net) where
  service_connectors-map :
      (ps : List ℕ) (cs : List ConnectorEntry)
      → service_connectors pinged n [] ps cs ≡ cs ++ map (entry_of pinged n) ps
  unfolding service_connectors get_services_map add_entry add_connector_by_ip
      add_router_socket_id_by_connector get
  service_connectors-map [] cs = sym (append-nil cs)
  service_connectors-map (p ∷ ps) cs =
      service_connectors-map ps (cs ++ entry_of pinged n p ∷ [])
      ∙ append_assoc cs (entry_of pinged n p ∷ []) (map (entry_of pinged n) ps)

  entries_at-count :
      (addr : Text) (ps : List ℕ)
      → entries_at addr (map (entry_of pinged n) ps) ≡ count_addr n.heap addr ps
  unfolding entries_at count_addr
  entries_at-count addr [] = refl
  entries_at-count addr (p ∷ ps) =
      ap (λ k. (if text_eq (cur_remote_addr (n.heap p)) addr then 1 else 0) + k)
        (entries_at-count addr ps)

  -- The services page has for each service, other than one called "default", an entry with its
  -- name, in which every socket of the service has a connector entry of its own, in order, with this
  -- one connection: an address stands there as often as the status page counts it.
  pub services-status_count :
      (m : DarkLaunchManager Net) (addr r : Text) {ps : List ℕ}
      → r ≢ codes "default"
      → get r (all_sockets n.farm) ≡ some ps
      → (e : ServiceEntry) × (get r (services pinged n) ≡ some e)
        × (e.name ≡ r)
        × (e.connectors ≡ map (entry_of pinged n) ps)
        × (entries_at addr e.connectors ≡ status_count n addr m r)
  unfolding services
  services-status_count m addr r {ps} other there =
      let all = service_connectors-map ps [] in
      (
        record { name = r; connectors = collected pinged n ps },
        get-default r
              (record {
                name = codes "default";
                connectors = collected pinged n (all_catchall n.farm);
              })
              (on_each (λ name ps. record { name = name; connectors = collected pinged n ps })
                (all_sockets n.farm))
              other
            ∙ get-on_each (λ name ps. record { name = name; connectors = collected pinged n ps }) r
                (all_sockets n.farm) there,
        refl,
        all,
        ap (entries_at addr) all
            ∙ entries_at-count addr ps
            ∙ sym (status_count-service n addr m r other there),
      )
