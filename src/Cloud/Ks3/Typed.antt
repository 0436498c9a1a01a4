-- ===== src/Cloud/Ks3/Typed.antt =====
-- backend/ks3: what readConfig reads of the values that a typed configuration (config.go) writes.
use mathlib.Core.List.{lookup}
use sharp_store.Prelude.{
  ℕ, ◌<◌, ◌^◌, ◌≡◌, refl, ap, true, false, none, some, Text, text, text_discrete, is_empty,
}
use sharp_store.Prelude.Integers.{pos}
use sharp_store.Prelude.Maps.{put, copy_map}
use sharp_store.Errors.{ok}
use sharp_store.Config.{Values, get_value, map_or_empty, new_container_config}
use sharp_store.Providers.Integers.{itoa, atoi-itoa, itoa-nonempty}
use sharp_store.Providers.Ks3
use sharp_store.Cloud.Settings.{missing_value}
use sharp_store.Cloud.Steps.{or_default}
use sharp_store.Cloud.Flags.{read_flag_of}
use sharp_store.Cloud.Urls.{Urls, validate_endpoint, is_http_scheme}
use sharp_store.Cloud.Ks3.Settings.{BackendConfig, read_config, read_number, required_keys}

-- What readConfig asks: a bucket, an endpoint that validateEndpoint accepts, both keys, a protocol
-- that is empty, http or https, and numbers that are not negative.
pub record IsUsable {U : Type 0} (urls : Urls U) (c : Ks3.Config) (connections timeout : ℕ)
    : Type 0 where
  pub has_bucket : is_empty c.bucket ≡ false
  pub has_endpoint : is_empty c.endpoint ≡ false
  pub has_access_key : is_empty c.access_key ≡ false
  pub has_secret_key : is_empty c.secret_key ≡ false
  pub good_endpoint : validate_endpoint urls c.endpoint ≡ none
  pub good_protocol : is_http_scheme (or_default (text "https") c.protocol) ≡ true
  pub good_connections : c.max_connections ≡ pos connections
  pub good_timeout : c.timeout ≡ pos timeout
  pub connections-lt : connections < 2 ^ 63
  pub timeout-lt : timeout < 2 ^ 63

-- the configuration of a client, with the default protocol
abbrev pub settings_of : Ks3.Config → ℕ → ℕ → BackendConfig
settings_of c connections timeout = record {
  bucket = c.bucket;
  endpoint = c.endpoint;
  access_key = c.access_key;
  secret_key = c.secret_key;
  protocol = or_default (text "https") c.protocol;
  user_agent = c.user_agent;
  max_connections = connections;
  timeout = timeout;
  create_bucket_if_not_exists = c.create_bucket_if_not_exists;
}

read_number_of :
    (v : Values) (key : Text) (n : ℕ)
    → n < 2 ^ 63
    → get_value v key ≡ itoa (pos n)
    → read_number v key ≡ ok n
unfolding read_number
read_number_of v key n p h = rw (h, itoa-nonempty (pos n) p, atoi-itoa (pos n) p) refl

-- From the container configuration made of a typed configuration that has a bucket, both keys, an
-- endpoint that validateEndpoint accepts, the protocol http, https or none, and numbers that are ints
-- and not negative, readConfig of backend/ks3 reads the settings of the typed configuration, with
-- https for an empty protocol.
pub ks3_read_config-new_container_config :
    {U : Type 0} (urls : Urls U) (c : Ks3.Config) (connections timeout : ℕ)
    → IsUsable urls c connections timeout
    → read_config urls required_keys
        (map_or_empty (new_container_config (some (Ks3.backend_config c))).values)
      ≡ ok (settings_of c connections timeout)
unfolding read_config missing_value new_container_config copy_map put lookup get_value text_discrete
ks3_read_config-new_container_config urls c connections timeout u =
    rw
      (
        u.has_bucket,
        u.has_endpoint,
        u.has_access_key,
        u.has_secret_key,
        u.good_endpoint,
        u.good_protocol,
        read_number_of (copy_map text_discrete (λ v. v) (Ks3.values_of c)) (text "max_connections")
            connections u.connections-lt (ap itoa u.good_connections),
        read_number_of (copy_map text_discrete (λ v. v) (Ks3.values_of c)) (text "timeout") timeout
            u.timeout-lt (ap itoa u.good_timeout),
        read_flag_of (copy_map text_discrete (λ v. v) (Ks3.values_of c))
            (text "create_bucket_if_not_exists") c.create_bucket_if_not_exists refl,
      )
      refl
