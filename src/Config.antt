-- ===== src/Config.antt =====
-- config.go: container configuration. A nil map is `none`; reading it finds no key.
use mathlib.Core.List.{lookup}
use mathlib.Core.Option
use sharp_store.Prelude.{Option, none, some, [], Text, Map, text_discrete}
use sharp_store.Prelude.Maps.{copy_map}

pub data TenantMode : Type 0 where
  tenant_scoped tenant_shared : TenantMode

abbrev pub Values : Type 0
Values = Map Text Text

pub record ContainerConfig : Type 0 where
  pub backend : Text
  pub tenant_mode : TenantMode
  pub values : Option Values

-- ContainerConfig{}
abbrev pub zero_config : ContainerConfig
zero_config = record { backend = []; tenant_mode = tenant_scoped; values = none }

-- values[key], which is "" for a missing key
abbrev pub value_or_zero : Option Text → Text
value_or_zero none = []
value_or_zero (some v) = v

unfoldable pub get_value : Values → Text → Text
get_value m k = value_or_zero (lookup text_discrete k m)

abbrev pub map_or_empty : Option Values → Values
map_or_empty none = []
map_or_empty (some m) = m

-- config.Values[key]
abbrev pub config_value : ContainerConfig → Text → Text
config_value c k = get_value (map_or_empty c.values) k

-- BackendConfig
pub record BackendConfig : Type 0 where
  pub backend_name : Text
  pub values : Values

-- a nil config gives the zero configuration
unfoldable pub new_container_config : Option BackendConfig → ContainerConfig
unfolding copy_map
new_container_config none = zero_config
new_container_config (some c) = record {
  backend = c.backend_name;
  tenant_mode = tenant_scoped;
  values = some (copy_map text_discrete (λ v. v) c.values);
}

unfoldable pub with_tenant_mode : ContainerConfig → TenantMode → ContainerConfig
with_tenant_mode c mode = record c { tenant_mode = mode }

unfoldable pub clone : ContainerConfig → ContainerConfig
unfolding copy_map
clone c = record c { values = Option.map (copy_map text_discrete (λ v. v)) c.values }
