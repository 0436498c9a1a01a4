-- ===== src/Providers/Obs.antt =====
-- backend/obs/config.go: the typed configuration of the obs backend, as the values of a
-- container and back.
use mathlib.Core.List.{lookup}
use sharp_store.Prelude.{◌≡◌, refl, [], ◌∷◌, some, Text, text, text_discrete, Bool, false}
use sharp_store.Prelude.Maps.{put, copy_map}
use sharp_store.Errors.{Result, ok, check, ◌>>=◌, ◌>>◌}
use sharp_store.Config.{
  Values, ContainerConfig, BackendConfig, get_value, map_or_empty, new_container_config,
}
use sharp_store.Providers.{format_bool, parse_flag, expect_backend}
use sharp_store.Providers.Flags.{parse_flag_of}

-- Name
abbrev pub name : Text
name = text "obs"

pub record Config : Type 0 where
  pub endpoint : Text
  pub bucket : Text
  pub access_key_id : Text
  pub secret_access_key : Text
  pub create_bucket_if_not_exists : Bool

abbrev pub new_config : Config
new_config = record {
  endpoint = [];
  bucket = [];
  access_key_id = [];
  secret_access_key = [];
  create_bucket_if_not_exists = false;
}

abbrev pub with_endpoint : Config → Text → Config
with_endpoint c v = record c { endpoint = v }

abbrev pub with_bucket : Config → Text → Config
with_bucket c v = record c { bucket = v }

abbrev pub with_credentials : Config → Text → Text → Config
with_credentials c id secret = record c { access_key_id = id; secret_access_key = secret }

abbrev pub with_create_bucket_if_not_exists : Config → Bool → Config
with_create_bucket_if_not_exists c v = record c { create_bucket_if_not_exists = v }

-- Values
abbrev pub values_of : Config → Values
values_of c =
    (text "endpoint", c.endpoint)
    ∷ (text "bucket", c.bucket)
    ∷ (text "access_key_id", c.access_key_id)
    ∷ (text "secret_access_key", c.secret_access_key)
    ∷ (text "create_bucket_if_not_exists", format_bool c.create_bucket_if_not_exists)
    ∷ []

-- BackendName and Values
abbrev pub backend_config : Config → BackendConfig
backend_config c = record { backend_name = name; values = values_of c }

-- ParseConfig
unfoldable pub parse_config : ContainerConfig → Result Config
unfolding get_value
parse_config config = do
  check (expect_backend name config.backend)
  create_bucket_if_not_exists ←
      parse_flag (map_or_empty config.values) (text "create_bucket_if_not_exists")
  ok (record {
    endpoint = get_value (map_or_empty config.values) (text "endpoint");
    bucket = get_value (map_or_empty config.values) (text "bucket");
    access_key_id = get_value (map_or_empty config.values) (text "access_key_id");
    secret_access_key = get_value (map_or_empty config.values) (text "secret_access_key");
    create_bucket_if_not_exists = create_bucket_if_not_exists;
  })

-- The configuration of a container made from a configuration for obs parses to that configuration.
pub obs_parse_config-new_container_config :
    (c : Config) → parse_config (new_container_config (some (backend_config c))) ≡ ok c
unfolding parse_config new_container_config copy_map put lookup get_value text_discrete
    expect_backend
obs_parse_config-new_container_config c =
    rw
      (parse_flag_of (copy_map text_discrete (λ v. v) (values_of c))
        (text "create_bucket_if_not_exists") c.create_bucket_if_not_exists refl)
      refl
