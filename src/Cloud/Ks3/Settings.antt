-- ===== src/Cloud/Ks3/Settings.antt =====
-- backend/ks3/ks3.go: backendConfig, readConfig and ConfigOptions. strconv.Atoi is Providers.atoi.
use native.Mathlib.Decide.{ℕ_discrete}
use sharp_store.Prelude.{
  [], ℕ, Bool, true, false, not, List, ◌∷◌, Text, text, text_discrete, is_empty, if◌then◌else◌,
}
use sharp_store.Prelude.Integers.{ℤ, pos, negsuc}
use sharp_store.Errors.{Error, Result, ok, err, check, message, ◌>>=◌, ◌>>◌}
use sharp_store.Config.{Values, get_value}
use sharp_store.Backend.{ConfigOption}
use sharp_store.Providers.Integers.{atoi}
use sharp_store.Cloud.Settings.{config_option, missing_value, read_flag}
use sharp_store.Cloud.Steps.{error_if, or_default}
use sharp_store.Cloud.Urls.{Urls, validate_endpoint, is_http_scheme}

-- maxConnections and timeout are of type int, and never negative.
pub record BackendConfig : Type 0 where
  pub bucket : Text
  pub endpoint : Text
  pub access_key : Text
  pub secret_key : Text
  pub protocol : Text
  pub user_agent : Text
  pub max_connections : ℕ
  pub timeout : ℕ
  pub create_bucket_if_not_exists : Bool

unfoldable pub BackendConfig-discrete : Discrete BackendConfig
BackendConfig-discrete = hlevel (ℕ_discrete, text_discrete)

abbrev pub create_key : Text
create_key = text "create_bucket_if_not_exists"

-- The keys of the map of required values, over which readConfig ranges in any order.
abbrev pub required_keys : List Text
required_keys = text "bucket" ∷ text "endpoint" ∷ text "access_key" ∷ text "secret_key" ∷ []

abbrev pub config_options : List ConfigOption
config_options =
    config_option (text "bucket") (text "string") true false (text "dicom-archive")
      (text "KS3 bucket name.")
    ∷ config_option (text "endpoint") (text "string") true false (text "ks3-cn-beijing.ksyuncs.com")
        (text "KS3 host or IP with an optional port, without a URL scheme.")
    ∷ config_option (text "access_key") (text "string") true true [] (text "KS3 access key.")
    ∷ config_option (text "secret_key") (text "string") true true [] (text "KS3 secret key.")
    ∷ config_option (text "protocol") (text "string") false false (text "https")
        (text "Protocol for the configured endpoint: http or https. Defaults to https.")
    ∷ config_option (text "user_agent") (text "string") false false (text "sharp-store")
        (text "Optional User-Agent sent by the KS3 SDK.")
    ∷ config_option (text "max_connections") (text "int") false false (text "30")
        (text "Optional maximum connections per KS3 endpoint.")
    ∷ config_option (text "timeout") (text "int") false false (text "100000")
        (text "Optional whole-request timeout in milliseconds.")
    ∷ config_option create_key (text "bool") false false (text "false")
        (text "Create the KS3 bucket before saving when it does not exist.")
    ∷ []

abbrev pub bad_number : Text → Error
bad_number key = message "%s must be a non-negative integer" (key ∷ [])

abbrev pub non_negative : Text → Result ℤ → Result ℕ
non_negative key (ok (pos n)) = ok n
non_negative key (ok (negsuc n)) = err (bad_number key)
non_negative key (err e) = err (bad_number key)

-- `if value != "" { ... strconv.Atoi(value) ... }`
unfoldable pub read_number : Values → Text → Result ℕ
unfolding get_value atoi
read_number v key =
    if is_empty (get_value v key) then ok 0 else non_negative key (atoi (get_value v key))

-- readConfig, which finds the required values in the order of the keys
unfoldable pub read_config : {U : Type 0} → Urls U → List Text → Values → Result BackendConfig
unfolding get_value missing_value read_flag read_number
read_config urls keys v = do
  check (missing_value keys v)
  check (validate_endpoint urls (get_value v (text "endpoint")))
  check (
      error_if (not (is_http_scheme (or_default (text "https") (get_value v (text "protocol")))))
        (message "protocol must be http or https" []))
  max_connections ← read_number v (text "max_connections")
  timeout ← read_number v (text "timeout")
  create ← read_flag v create_key
  ok (record {
    bucket = get_value v (text "bucket");
    endpoint = get_value v (text "endpoint");
    access_key = get_value v (text "access_key");
    secret_key = get_value v (text "secret_key");
    protocol = or_default (text "https") (get_value v (text "protocol"));
    user_agent = get_value v (text "user_agent");
    max_connections = max_connections;
    timeout = timeout;
    create_bucket_if_not_exists = create;
  })
