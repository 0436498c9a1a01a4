-- ===== src/Cloud/Aws/Typed.antt =====
-- backend/aws: what readConfig reads of the values that a typed configuration (config.go) writes.
use mathlib.Core.List.{lookup}
use sharp_store.Prelude.{◌≡◌, refl, false, not, ◌&&◌, some, text, text_discrete, is_empty}
use sharp_store.Prelude.Maps.{put, copy_map}
use sharp_store.Errors.{ok}
use sharp_store.Config.{get_value, map_or_empty, new_container_config}
use sharp_store.Providers.Aws
use sharp_store.Cloud.Settings.{missing_value}
use sharp_store.Cloud.Steps.{differ, or_default}
use sharp_store.Cloud.Flags.{read_flag_of}
use sharp_store.Cloud.Aws.Settings.{BackendConfig, read_config}

-- What readConfig asks: a bucket, and credentials that are given together or not at all, with no
-- session token alone.
pub record IsUsable (c : Aws.Config) : Type 0 where
  pub has_bucket : is_empty c.bucket ≡ false
  pub has_credentials : differ (is_empty c.access_key_id) (is_empty c.secret_access_key) ≡ false
  pub has_token : (not (is_empty c.session_token) && is_empty c.access_key_id) ≡ false

-- the configuration of a client, with the default region
abbrev pub settings_of : Aws.Config → BackendConfig
settings_of c = record {
  bucket = c.bucket;
  region = or_default (text "us-east-1") c.region;
  access_key_id = c.access_key_id;
  secret_access_key = c.secret_access_key;
  session_token = c.session_token;
  create_bucket_if_not_exists = c.create_bucket_if_not_exists;
}

-- From the container configuration made of a typed configuration that has a bucket, both credentials
-- or none, and no session token alone, readConfig of backend/aws reads the settings of the typed
-- configuration, with us-east-1 in place of an empty region.
pub aws_read_config-new_container_config :
    (c : Aws.Config)
    → IsUsable c
    → read_config (map_or_empty (new_container_config (some (Aws.backend_config c))).values)
      ≡ ok (settings_of c)
unfolding read_config missing_value new_container_config copy_map put lookup get_value text_discrete
aws_read_config-new_container_config c u =
    rw
      (
        u.has_bucket,
        u.has_credentials,
        u.has_token,
        read_flag_of (copy_map text_discrete (λ v. v) (Aws.values_of c))
            (text "create_bucket_if_not_exists") c.create_bucket_if_not_exists refl,
      )
      refl
