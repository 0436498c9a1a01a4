-- ===== src/Providers/Ks3.antt =====
-- backend/ks3/config.go: the typed configuration of the ks3 backend, as the values of a
-- container and back.
use mathlib.Core.List.{lookup}
use sharp_store.Prelude.{
  [], ◌≡◌, refl, ◌∷◌, some, Text, text, text_discrete, Bool, false, is_empty, if◌then◌else◌,
}
use sharp_store.Prelude.Integers.{ℤ, pos}
use sharp_store.Prelude.Maps.{put, copy_map}
use sharp_store.Errors.{Result, ok, err, check, ◌>>=◌, ◌>>◌}
use sharp_store.Config.{
  Values, ContainerConfig, BackendConfig, get_value, map_or_empty, new_container_config,
}
use sharp_store.Providers.{format_bool, parse_flag, expect_backend, bad_value}
use sharp_store.Providers.Flags.{parse_flag_of}
use sharp_store.Providers.Integers.{IsInt, itoa, atoi, atoi-itoa, itoa-nonempty}

-- Name
abbrev pub name : Text
name = text "ks3"

pub record Config : Type 0 where
  pub bucket : Text
  pub endpoint : Text
  pub access_key : Text
  pub secret_key : Text
  pub protocol : Text
  pub user_agent : Text
  pub max_connections : ℤ
  pub timeout : ℤ
  pub create_bucket_if_not_exists : Bool

abbrev pub new_config : Config
new_config = record {
  bucket = [];
  endpoint = [];
  access_key = [];
  secret_key = [];
  protocol = [];
  user_agent = [];
  max_connections = pos 0;
  timeout = pos 0;
  create_bucket_if_not_exists = false;
}

abbrev pub with_bucket : Config → Text → Config
with_bucket c v = record c { bucket = v }

abbrev pub with_endpoint : Config → Text → Config
with_endpoint c v = record c { endpoint = v }

abbrev pub with_credentials : Config → Text → Text → Config
with_credentials c key secret = record c { access_key = key; secret_key = secret }

abbrev pub with_protocol : Config → Text → Config
with_protocol c v = record c { protocol = v }

abbrev pub with_user_agent : Config → Text → Config
with_user_agent c v = record c { user_agent = v }

abbrev pub with_max_connections : Config → ℤ → Config
with_max_connections c v = record c { max_connections = v }

abbrev pub with_timeout : Config → ℤ → Config
with_timeout c v = record c { timeout = v }

abbrev pub with_create_bucket_if_not_exists : Config → Bool → Config
with_create_bucket_if_not_exists c v = record c { create_bucket_if_not_exists = v }

-- Values
abbrev pub values_of : Config → Values
values_of c =
    (text "bucket", c.bucket)
    ∷ (text "endpoint", c.endpoint)
    ∷ (text "access_key", c.access_key)
    ∷ (text "secret_key", c.secret_key)
    ∷ (text "protocol", c.protocol)
    ∷ (text "user_agent", c.user_agent)
    ∷ (text "max_connections", itoa c.max_connections)
    ∷ (text "timeout", itoa c.timeout)
    ∷ (text "create_bucket_if_not_exists", format_bool c.create_bucket_if_not_exists)
    ∷ []

-- BackendName and Values
abbrev pub backend_config : Config → BackendConfig
backend_config c = record { backend_name = name; values = values_of c }

abbrev pub explained_int : Text → Result ℤ → Result ℤ
explained_int key (ok i) = ok i
explained_int key (err e) = err (bad_value key e)

-- parseConfigInt
unfoldable pub parse_config_int : Values → Text → Result ℤ
unfolding get_value atoi
parse_config_int values key =
    if is_empty (get_value values key)
    then ok (pos 0)
    else explained_int key (atoi (get_value values key))

-- ParseConfig
unfoldable pub parse_config : ContainerConfig → Result Config
unfolding get_value parse_config_int
parse_config config = do
  check (expect_backend name config.backend)
  create_bucket_if_not_exists ←
      parse_flag (map_or_empty config.values) (text "create_bucket_if_not_exists")
  max_connections ← parse_config_int (map_or_empty config.values) (text "max_connections")
  timeout ← parse_config_int (map_or_empty config.values) (text "timeout")
  ok (record {
    bucket = get_value (map_or_empty config.values) (text "bucket");
    endpoint = get_value (map_or_empty config.values) (text "endpoint");
    access_key = get_value (map_or_empty config.values) (text "access_key");
    secret_key = get_value (map_or_empty config.values) (text "secret_key");
    protocol = get_value (map_or_empty config.values) (text "protocol");
    user_agent = get_value (map_or_empty config.values) (text "user_agent");
    max_connections = max_connections;
    timeout = timeout;
    create_bucket_if_not_exists = create_bucket_if_not_exists;
  })

parse_config_int_of :
    (values : Values) (key : Text) (i : ℤ)
    → IsInt i
    → get_value values key ≡ itoa i
    → parse_config_int values key ≡ ok i
unfolding parse_config_int
parse_config_int_of values key i p h = rw (h, itoa-nonempty i p, atoi-itoa i p) refl

-- The configuration of a container made from a configuration for ks3, whose numbers are ints,
-- parses to that configuration.
pub ks3_parse_config-new_container_config :
    (c : Config)
    → IsInt c.max_connections
    → IsInt c.timeout
    → parse_config (new_container_config (some (backend_config c))) ≡ ok c
unfolding parse_config new_container_config copy_map put lookup get_value text_discrete
    expect_backend
ks3_parse_config-new_container_config c p q =
    rw
      (
        parse_flag_of (copy_map text_discrete (λ v. v) (values_of c))
            (text "create_bucket_if_not_exists") c.create_bucket_if_not_exists refl,
        parse_config_int_of (copy_map text_discrete (λ v. v) (values_of c)) (text "max_connections")
            c.max_connections p refl,
        parse_config_int_of (copy_map text_discrete (λ v. v) (values_of c)) (text "timeout")
            c.timeout q refl,
      )
      refl
