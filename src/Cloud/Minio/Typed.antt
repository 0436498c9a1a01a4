-- ===== src/Cloud/Minio/Typed.antt =====
-- backend/minio: what readConfig reads of the values that a typed configuration (config.go) writes.
use mathlib.Core.List.{lookup}
use sharp_store.Prelude.{◌≡◌, refl, false, none, some, text, text_discrete, is_empty}
use sharp_store.Prelude.Maps.{put, copy_map}
use sharp_store.Errors.{ok}
use sharp_store.Config.{get_value, map_or_empty, new_container_config}
use sharp_store.Providers.Minio
use sharp_store.Cloud.Settings.{missing_value}
use sharp_store.Cloud.Steps.{or_default}
use sharp_store.Cloud.Flags.{read_flag_of}
use sharp_store.Cloud.Urls.{Urls, validate_endpoint}
use sharp_store.Cloud.Minio.Settings.{BackendConfig, read_config, required_keys}

-- What readConfig asks: a bucket, an endpoint that validateEndpoint accepts, and both keys.
pub record IsUsable {U : Type 0} (urls : Urls U) (c : Minio.Config) : Type 0 where
  pub has_bucket : is_empty c.bucket ≡ false
  pub has_endpoint : is_empty c.endpoint ≡ false
  pub has_access_key : is_empty c.access_key ≡ false
  pub has_secret_key : is_empty c.secret_key ≡ false
  pub good_endpoint : validate_endpoint urls c.endpoint ≡ none

-- the configuration of a client, with the default region
abbrev pub settings_of : Minio.Config → BackendConfig
settings_of c = record {
  bucket = c.bucket;
  endpoint = c.endpoint;
  access_key = c.access_key;
  secret_key = c.secret_key;
  region = or_default (text "us-east-1") c.region;
  secure = c.secure;
  create_bucket_if_not_exists = c.create_bucket_if_not_exists;
}

-- From the container configuration made of a typed configuration that has a bucket, both keys and an
-- endpoint that validateEndpoint accepts, readConfig of backend/minio reads the settings of the typed
-- configuration, with us-east-1 in place of an empty region.
pub minio_read_config-new_container_config :
    {U : Type 0} (urls : Urls U) (c : Minio.Config)
    → IsUsable urls c
    → read_config urls required_keys
        (map_or_empty (new_container_config (some (Minio.backend_config c))).values)
      ≡ ok (settings_of c)
unfolding read_config missing_value new_container_config copy_map put lookup get_value text_discrete
minio_read_config-new_container_config urls c u =
    rw
      (
        u.has_bucket,
        u.has_endpoint,
        u.has_access_key,
        u.has_secret_key,
        u.good_endpoint,
        read_flag_of (copy_map text_discrete (λ v. v) (Minio.values_of c)) (text "secure") c.secure
            refl,
        read_flag_of (copy_map text_discrete (λ v. v) (Minio.values_of c))
            (text "create_bucket_if_not_exists") c.create_bucket_if_not_exists refl,
      )
      refl
