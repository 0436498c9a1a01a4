-- ===== src/Cloud/S3/Typed.antt =====
-- backend/s3: what readConfig reads of the values that a typed configuration (config.go) writes.
use mathlib.Core.List.{lookup}
use sharp_store.Prelude.{◌≡◌, refl, true, false, some, Text, text, text_discrete, is_empty}
use sharp_store.Prelude.Maps.{put, copy_map}
use sharp_store.Errors.{ok}
use sharp_store.Config.{get_value, map_or_empty, new_container_config}
use sharp_store.Providers.S3
use sharp_store.Cloud.Settings.{missing_value}
use sharp_store.Cloud.Steps.{or_default}
use sharp_store.Cloud.Flags.{read_flag_of}
use sharp_store.Cloud.Urls.{Urls, is_http_scheme}
use sharp_store.Cloud.S3.Settings.{BackendConfig, read_config, required_keys, base_scheme}

-- What readConfig asks: a bucket, both keys, a base endpoint that is a URL with a host and the scheme
-- http or https, and such a protocol, which is that scheme if none is given.
pub record IsUsable {U : Type 0} (urls : Urls U) (c : S3.Config) (scheme : Text) : Type 0 where
  pub has_bucket : is_empty c.bucket ≡ false
  pub has_base_endpoint : is_empty c.base_endpoint ≡ false
  pub has_access_key_id : is_empty c.access_key_id ≡ false
  pub has_secret_access_key : is_empty c.secret_access_key ≡ false
  pub good_base_endpoint : base_scheme urls (urls.parse_request_uri c.base_endpoint) ≡ ok scheme
  pub good_protocol : is_http_scheme (or_default scheme c.protocol) ≡ true

-- the configuration of a client, with the default protocol
abbrev pub settings_of : Text → S3.Config → BackendConfig
settings_of scheme c = record {
  bucket = c.bucket;
  base_endpoint = c.base_endpoint;
  access_key_id = c.access_key_id;
  secret_access_key = c.secret_access_key;
  force_path_style = c.force_path_style;
  use_chunk_encoding = c.use_chunk_encoding;
  protocol = or_default scheme c.protocol;
  create_bucket_if_not_exists = c.create_bucket_if_not_exists;
}

-- From the container configuration made of a typed configuration that has a bucket, both keys, a base
-- endpoint with a host and the scheme http or https, and such a protocol or none, readConfig of
-- backend/s3 reads the settings of the typed configuration, with that scheme for an empty protocol.
pub s3_read_config-new_container_config :
    {U : Type 0} (urls : Urls U) (c : S3.Config) (scheme : Text)
    → IsUsable urls c scheme
    → read_config urls required_keys
        (map_or_empty (new_container_config (some (S3.backend_config c))).values)
      ≡ ok (settings_of scheme c)
unfolding read_config missing_value new_container_config copy_map put lookup get_value text_discrete
s3_read_config-new_container_config urls c scheme u =
    rw
      (
        u.has_bucket,
        u.has_base_endpoint,
        u.has_access_key_id,
        u.has_secret_access_key,
        u.good_base_endpoint,
        u.good_protocol,
        read_flag_of (copy_map text_discrete (λ v. v) (S3.values_of c)) (text "force_path_style")
            c.force_path_style refl,
        read_flag_of (copy_map text_discrete (λ v. v) (S3.values_of c)) (text "use_chunk_encoding")
            c.use_chunk_encoding refl,
        read_flag_of (copy_map text_discrete (λ v. v) (S3.values_of c))
            (text "create_bucket_if_not_exists") c.create_bucket_if_not_exists refl,
      )
      refl
