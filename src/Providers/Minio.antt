-- ===== src/Providers/Minio.antt =====
-- backend/minio/config.go: the typed configuration of the minio backend, as the values of a
-- container and back.
use mathlib.Core.List.{lookup}
use sharp_store.Prelude.{◌≡◌, refl, [], ◌∷◌, some, Text, text, text_discrete, Bool, false}
use sharp_store.Prelude.Maps.{put, copy_map}
use sharp_store.Errors.{Result, ok, check, ◌>>=◌, ◌>>◌}
use sharp_store.Config.{
  Values, ContainerConfig, BackendConfig, get_value, map_or_empty, new_container_config,
}
use sharp_store.Providers.{format_bool, parse_flag, expect_backend}
use sharp_store.Providers.Flags.{parse_flag_of}

-- Name
abbrev pub name : Text
name = text "minio"

pub record Config : Type 0 where
  pub bucket : Text
  pub endpoint : Text
  pub access_key : Text
  pub secret_key : Text
  pub region : Text
  pub secure : Bool
  pub create_bucket_if_not_exists : Bool

abbrev pub new_config : Config
new_config = record {
  bucket = [];
  endpoint = [];
  access_key = [];
  secret_key = [];
  region = [];
  secure = false;
  create_bucket_if_not_exists = false;
}

abbrev pub with_bucket : Config → Text → Config
with_bucket c v = record c { bucket = v }

abbrev pub with_endpoint : Config → Text → Config
with_endpoint c v = record c { endpoint = v }

abbrev pub with_credentials : Config → Text → Text → Config
with_credentials c id secret = record c { access_key = id; secret_key = secret }

abbrev pub with_region : Config → Text → Config
with_region c v = record c { region = v }

abbrev pub with_secure : Config → Bool → Config
with_secure c v = record c { secure = v }

abbrev pub with_create_bucket_if_not_exists : Config → Bool → Config
with_create_bucket_if_not_exists c v = record c { create_bucket_if_not_exists = v }

-- Values
abbrev pub values_of : Config → Values
values_of c =
    (text "bucket", c.bucket)
    ∷ (text "endpoint", c.endpoint)
    ∷ (text "access_key", c.access_key)
    ∷ (text "secret_key", c.secret_key)
    ∷ (text "region", c.region)
    ∷ (text "secure", format_bool c.secure)
    ∷ (text "create_bucket_if_not_exists", format_bool c.create_bucket_if_not_exists)
    ∷ []

-- BackendName and Values
abbrev pub backend_config : Config → BackendConfig
backend_config c = record { backend_name = name; values = values_of c }

-- ParseConfig
unfoldable pub parse_config : ContainerConfig → Result Config
unfolding get_value
parse_config config = do
  check (expect_backend name config.backend)
  secure ← parse_flag (map_or_empty config.values) (text "secure")
  create_bucket_if_not_exists ←
      parse_flag (map_or_empty config.values) (text "create_bucket_if_not_exists")
  ok (record {
    bucket = get_value (map_or_empty config.values) (text "bucket");
    endpoint = get_value (map_or_empty config.values) (text "endpoint");
    access_key = get_value (map_or_empty config.values) (text "access_key");
    secret_key = get_value (map_or_empty config.values) (text "secret_key");
    region = get_value (map_or_empty config.values) (text "region");
    secure = secure;
    create_bucket_if_not_exists = create_bucket_if_not_exists;
  })

-- The configuration of a container made from a configuration for minio parses to that configuration.
pub minio_parse_config-new_container_config :
    (c : Config) → parse_config (new_container_config (some (backend_config c))) ≡ ok c
unfolding parse_config new_container_config copy_map put lookup get_value text_discrete
    expect_backend
minio_parse_config-new_container_config c =
    rw
      (
        parse_flag_of (copy_map text_discrete (λ v. v) (values_of c)) (text "secure") c.secure refl,
        parse_flag_of (copy_map text_discrete (λ v. v) (values_of c))
            (text "create_bucket_if_not_exists") c.create_bucket_if_not_exists refl,
      )
      refl
