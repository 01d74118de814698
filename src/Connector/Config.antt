-- ===== src/Connector/Config.antt =====
-- connector/connector_config.go: `ConnectorConfig`. A new instance id is an argument.
use crank4go.Base.{
  ℕ, ◌≤◌, Bool, false, ◌&&◌, Option, none, some, List, [], ◌∷◌, arith, Text, ℤ, pos, pos_part,
  negsuc, ltb_ℤ, if◌then◌else◌,
}
use crank4go.Connector.Farm.{Url}
use crank4go.Connector.Plugins.{ConnectorPlugin}

-- A handler of published data is its pointer, a number.
pub record ConnectorConfig : Type 0 where
  pub sliding_window_size : ℤ
  pub is_shut_down_hook_added : Bool
  pub target_service_name : Text
  pub instance_id : Text
  pub component_name : Text
  pub plugins : List ConnectorPlugin
  pub router_uris : List Url
  pub data_publish_handlers : List ℕ
  pub target_uri : Url

unfoldable pub new_connector_config2 :
    Text → Url → Text → List Url → Text → List ConnectorPlugin → ConnectorConfig
new_connector_config2 id target name uris component plugins = record {
  sliding_window_size = pos 2;
  is_shut_down_hook_added = false;
  target_service_name = name;
  instance_id = id;
  component_name = component;
  plugins = plugins;
  router_uris = uris;
  data_publish_handlers = [];
  target_uri = target;
}

unfoldable pub new_connector_config : Text → Url → Text → List Url → Text → ConnectorConfig
unfolding new_connector_config2
new_connector_config id target name uris component =
    new_connector_config2 id target name uris component []

unfoldable pub set_is_shut_down_hook_added : ConnectorConfig → Bool → ConnectorConfig
set_is_shut_down_hook_added c added = record c { is_shut_down_hook_added = added }

-- A nil slice of handlers changes nothing.
unfoldable pub set_data_publish_handlers : ConnectorConfig → Option (List ℕ) → ConnectorConfig
set_data_publish_handlers c none = c
set_data_publish_handlers c (some handlers) = record c { data_publish_handlers = handlers }

unfoldable pub set_sliding_window_size : ConnectorConfig → ℤ → ConnectorConfig
set_sliding_window_size c size = record c {
  sliding_window_size = if ltb_ℤ (pos 0) size && ltb_ℤ size (pos 1001) then size else pos 2;
}

-- The calls that a service makes on its configuration.
pub data Setting : Type 0 where
  window : ℤ → Setting
  shut_down_hook : Bool → Setting
  handlers : Option (List ℕ) → Setting

unfoldable pub set_all : List Setting → ConnectorConfig → ConnectorConfig
unfolding set_sliding_window_size set_is_shut_down_hook_added set_data_publish_handlers
set_all [] c = c
set_all (window n ∷ more) c = set_all more (set_sliding_window_size c n)
set_all (shut_down_hook added ∷ more) c = set_all more (set_is_shut_down_hook_added c added)
set_all (handlers hs ∷ more) c = set_all more (set_data_publish_handlers c hs)

abbrev InRange : ℤ → Type 0
InRange size = (1 ≤ pos_part size) × (pos_part size ≤ 1000)

set_window-InRange :
    (c : ConnectorConfig) (n : ℤ) → InRange (set_sliding_window_size c n).sliding_window_size
unfolding set_sliding_window_size
set_window-InRange c (pos n) = ground arith
set_window-InRange c (negsuc n) = ground arith

set_all-InRange :
    (calls : List Setting) (c : ConnectorConfig)
    → InRange c.sliding_window_size
    → InRange (set_all calls c).sliding_window_size
unfolding set_all set_is_shut_down_hook_added set_data_publish_handlers
set_all-InRange [] c h = h
set_all-InRange (window n ∷ more) c h = set_all-InRange more _ (set_window-InRange c n)
set_all-InRange (shut_down_hook added ∷ more) c h = set_all-InRange more _ h
set_all-InRange (handlers none ∷ more) c h = set_all-InRange more _ h
set_all-InRange (handlers (some hs) ∷ more) c h = set_all-InRange more _ h

-- Whatever settings are made on a new configuration, and with whatever numbers, the size of its
-- sliding window lies between 1 and 1000.
pub sliding_window_size_bounds :
    (id name component : Text) (target : Url) (uris : List Url) (calls : List Setting)
    → let size =
        (set_all calls (new_connector_config id target name uris component)).sliding_window_size in
      (1 ≤ pos_part size) × (pos_part size ≤ 1000)
unfolding new_connector_config new_connector_config2
sliding_window_size_bounds id name component target uris calls =
    set_all-InRange calls (new_connector_config id target name uris component) (omega arith)
