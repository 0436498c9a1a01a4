-- ===== src/Providers/Files.antt =====
-- backend/filesystem/config.go: the typed configuration of the filesystem backend, as the values of a
-- container and back.
use mathlib.Core.List.{lookup}
use sharp_store.Prelude.{◌≡◌, refl, [], ◌∷◌, some, Text, text, text_discrete}
use sharp_store.Prelude.Maps.{put, copy_map}
use sharp_store.Errors.{Result, ok, check, ◌>>◌}
use sharp_store.Config.{
  Values, ContainerConfig, BackendConfig, get_value, map_or_empty, new_container_config,
}
use sharp_store.Providers.{expect_backend}

-- Name
abbrev pub name : Text
name = text "filesystem"

pub record Config : Type 0 where
  pub root : Text
  pub base_url : Text

abbrev pub new_config : Config
new_config = record { root = []; base_url = [] }

abbrev pub with_root : Config → Text → Config
with_root c v = record c { root = v }

abbrev pub with_base_url : Config → Text → Config
with_base_url c v = record c { base_url = v }

-- Values
abbrev pub values_of : Config → Values
values_of c = (text "root", c.root) ∷ (text "base_url", c.base_url) ∷ []

-- BackendName and Values
abbrev pub backend_config : Config → BackendConfig
backend_config c = record { backend_name = name; values = values_of c }

-- ParseConfig
unfoldable pub parse_config : ContainerConfig → Result Config
unfolding get_value
parse_config config = do
  check (expect_backend name config.backend)
  ok (record {
    root = get_value (map_or_empty config.values) (text "root");
    base_url = get_value (map_or_empty config.values) (text "base_url");
  })

-- The configuration of a container made from a configuration for filesystem parses to that configuration.
pub filesystem_parse_config-new_container_config :
    (c : Config) → parse_config (new_container_config (some (backend_config c))) ≡ ok c
unfolding parse_config new_container_config copy_map put lookup get_value text_discrete
    expect_backend
filesystem_parse_config-new_container_config c = refl
