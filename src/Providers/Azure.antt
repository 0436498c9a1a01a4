-- ===== src/Providers/Azure.antt =====
-- backend/azure/config.go: the typed configuration of the azure backend, as the values of a
-- container and back.
use mathlib.Core.List.{lookup}
use sharp_store.Prelude.{◌≡◌, refl, [], ◌∷◌, some, Text, text, text_discrete, Bool, false}
use sharp_store.Prelude.Maps.{put, copy_map}
use sharp_store.Errors.{Result, ok, check, ◌>>=◌, ◌>>◌}
use sharp_store.Config.{
  Values, ContainerConfig, BackendConfig, get_value, map_or_empty, new_container_config,
}
use sharp_store.Providers.{format_bool, parse_flag, expect_backend}
use sharp_store.Providers.Flags.{parse_flag_of}

-- Name
abbrev pub name : Text
name = text "azure"

pub record Config : Type 0 where
  pub connection_string : Text
  pub container : Text
  pub create_container_if_not_exists : Bool

abbrev pub new_config : Config
new_config = record {
  connection_string = [];
  container = [];
  create_container_if_not_exists = false;
}

abbrev pub with_connection_string : Config → Text → Config
with_connection_string c v = record c { connection_string = v }

abbrev pub with_container : Config → Text → Config
with_container c v = record c { container = v }

abbrev pub with_create_container_if_not_exists : Config → Bool → Config
with_create_container_if_not_exists c v = record c { create_container_if_not_exists = v }

-- Values
abbrev pub values_of : Config → Values
values_of c =
    (text "connection_string", c.connection_string)
    ∷ (text "container", c.container)
    ∷ (text "create_container_if_not_exists", format_bool c.create_container_if_not_exists)
    ∷ []

-- BackendName and Values
abbrev pub backend_config : Config → BackendConfig
backend_config c = record { backend_name = name; values = values_of c }

-- ParseConfig
unfoldable pub parse_config : ContainerConfig → Result Config
unfolding get_value
parse_config config = do
  check (expect_backend name config.backend)
  create_container_if_not_exists ←
      parse_flag (map_or_empty config.values) (text "create_container_if_not_exists")
  ok (record {
    connection_string = get_value (map_or_empty config.values) (text "connection_string");
    container = get_value (map_or_empty config.values) (text "container");
    create_container_if_not_exists = create_container_if_not_exists;
  })

-- The configuration of a container made from a configuration for azure parses to that configuration.
pub azure_parse_config-new_container_config :
    (c : Config) → parse_config (new_container_config (some (backend_config c))) ≡ ok c
unfolding parse_config new_container_config copy_map put lookup get_value text_discrete
    expect_backend
azure_parse_config-new_container_config c =
    rw
      (parse_flag_of (copy_map text_discrete (λ v. v) (values_of c))
        (text "create_container_if_not_exists") c.create_container_if_not_exists refl)
      refl
