-- ===== src/Providers/S3.antt =====
-- backend/s3/config.go: the typed configuration of the s3 backend, as the values of a
-- container and back.
use mathlib.Core.List.{lookup}
use sharp_store.Prelude.{◌≡◌, refl, [], ◌∷◌, some, Text, text, text_discrete, Bool, false}
use sharp_store.Prelude.Maps.{put, copy_map}
use sharp_store.Errors.{Result, ok, check, ◌>>=◌, ◌>>◌}
use sharp_store.Config.{
  Values, ContainerConfig, BackendConfig, get_value, map_or_empty, new_container_config,
}
use sharp_store.Providers.{format_bool, parse_flag, expect_backend}
use sharp_store.Providers.Flags.{parse_flag_of}

-- Name
abbrev pub name : Text
name = text "s3"

pub record Config : Type 0 where
  pub bucket : Text
  pub base_endpoint : Text
  pub access_key_id : Text
  pub secret_access_key : Text
  pub force_path_style : Bool
  pub use_chunk_encoding : Bool
  pub protocol : Text
  pub create_bucket_if_not_exists : Bool

abbrev pub new_config : Config
new_config = record {
  bucket = [];
  base_endpoint = [];
  access_key_id = [];
  secret_access_key = [];
  force_path_style = false;
  use_chunk_encoding = false;
  protocol = [];
  create_bucket_if_not_exists = false;
}

abbrev pub with_bucket : Config → Text → Config
with_bucket c v = record c { bucket = v }

abbrev pub with_base_endpoint : Config → Text → Config
with_base_endpoint c v = record c { base_endpoint = v }

abbrev pub with_credentials : Config → Text → Text → Config
with_credentials c id secret = record c { access_key_id = id; secret_access_key = secret }

abbrev pub with_force_path_style : Config → Bool → Config
with_force_path_style c v = record c { force_path_style = v }

abbrev pub with_use_chunk_encoding : Config → Bool → Config
with_use_chunk_encoding c v = record c { use_chunk_encoding = v }

abbrev pub with_protocol : Config → Text → Config
with_protocol c v = record c { protocol = v }

abbrev pub with_create_bucket_if_not_exists : Config → Bool → Config
with_create_bucket_if_not_exists c v = record c { create_bucket_if_not_exists = v }

-- Values
abbrev pub values_of : Config → Values
values_of c =
    (text "bucket", c.bucket)
    ∷ (text "base_endpoint", c.base_endpoint)
    ∷ (text "access_key_id", c.access_key_id)
    ∷ (text "secret_access_key", c.secret_access_key)
    ∷ (text "force_path_style", format_bool c.force_path_style)
    ∷ (text "use_chunk_encoding", format_bool c.use_chunk_encoding)
    ∷ (text "protocol", c.protocol)
    ∷ (text "create_bucket_if_not_exists", format_bool c.create_bucket_if_not_exists)
    ∷ []

-- BackendName and Values
abbrev pub backend_config : Config → BackendConfig
backend_config c = record { backend_name = name; values = values_of c }

-- ParseConfig
unfoldable pub parse_config : ContainerConfig → Result Config
unfolding get_value
parse_config config = do
  check (expect_backend name config.backend)
  force_path_style ← parse_flag (map_or_empty config.values) (text "force_path_style")
  use_chunk_encoding ← parse_flag (map_or_empty config.values) (text "use_chunk_encoding")
  create_bucket_if_not_exists ←
      parse_flag (map_or_empty config.values) (text "create_bucket_if_not_exists")
  ok (record {
    bucket = get_value (map_or_empty config.values) (text "bucket");
    base_endpoint = get_value (map_or_empty config.values) (text "base_endpoint");
    access_key_id = get_value (map_or_empty config.values) (text "access_key_id");
    secret_access_key = get_value (map_or_empty config.values) (text "secret_access_key");
    force_path_style = force_path_style;
    use_chunk_encoding = use_chunk_encoding;
    protocol = get_value (map_or_empty config.values) (text "protocol");
    create_bucket_if_not_exists = create_bucket_if_not_exists;
  })

-- The configuration of a container made from a configuration for s3 parses to that configuration.
pub s3_parse_config-new_container_config :
    (c : Config) → parse_config (new_container_config (some (backend_config c))) ≡ ok c
unfolding parse_config new_container_config copy_map put lookup get_value text_discrete
    expect_backend
s3_parse_config-new_container_config c =
    rw
      (
        parse_flag_of (copy_map text_discrete (λ v. v) (values_of c)) (text "force_path_style")
            c.force_path_style refl,
        parse_flag_of (copy_map text_discrete (λ v. v) (values_of c)) (text "use_chunk_encoding")
            c.use_chunk_encoding refl,
        parse_flag_of (copy_map text_discrete (λ v. v) (values_of c))
            (text "create_bucket_if_not_exists") c.create_bucket_if_not_exists refl,
      )
      refl
