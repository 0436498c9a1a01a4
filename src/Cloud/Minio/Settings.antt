-- ===== src/Cloud/Minio/Settings.antt =====
-- backend/minio/minio.go: backendConfig, readConfig and ConfigOptions.
use sharp_store.Prelude.{[], Bool, true, false, List, ◌∷◌, Text, text, text_discrete}
use sharp_store.Errors.{Result, ok, check, ◌>>=◌, ◌>>◌}
use sharp_store.Config.{Values, get_value}
use sharp_store.Backend.{ConfigOption}
use sharp_store.Cloud.Settings.{config_option, missing_value, read_flag}
use sharp_store.Cloud.Steps.{or_default}
use sharp_store.Cloud.Urls.{Urls, validate_endpoint}

pub record BackendConfig : Type 0 where
  pub bucket : Text
  pub endpoint : Text
  pub access_key : Text
  pub secret_key : Text
  pub region : Text
  pub secure : Bool
  pub create_bucket_if_not_exists : Bool

unfoldable pub BackendConfig-discrete : Discrete BackendConfig
BackendConfig-discrete = hlevel text_discrete

abbrev pub create_key : Text
create_key = text "create_bucket_if_not_exists"

-- The keys of the map of required values, over which readConfig ranges in any order.
abbrev pub required_keys : List Text
required_keys = text "bucket" ∷ text "endpoint" ∷ text "access_key" ∷ text "secret_key" ∷ []

abbrev pub config_options : List ConfigOption
config_options =
    config_option (text "bucket") (text "string") true false (text "dicom-archive")
      (text "MinIO bucket name.")
    ∷ config_option (text "endpoint") (text "string") true false (text "minio.example.test:9000")
        (text "MinIO host or IP with an optional port, without a URL scheme.")
    ∷ config_option (text "access_key") (text "string") true true [] (text "MinIO access key.")
    ∷ config_option (text "secret_key") (text "string") true true [] (text "MinIO secret key.")
    ∷ config_option (text "region") (text "string") false false (text "us-east-1")
        (text "MinIO region used for request signing. Defaults to us-east-1.")
    ∷ config_option (text "secure") (text "bool") false false (text "true")
        (text "Use HTTPS for the configured endpoint.")
    ∷ config_option create_key (text "bool") false false (text "false")
        (text "Create the bucket before saving when it does not exist.")
    ∷ []

-- readConfig, which finds the required values in the order of the keys
unfoldable pub read_config : {U : Type 0} → Urls U → List Text → Values → Result BackendConfig
unfolding get_value missing_value read_flag
read_config urls keys v = do
  check (missing_value keys v)
  check (validate_endpoint urls (get_value v (text "endpoint")))
  secure ← read_flag v (text "secure")
  create ← read_flag v create_key
  ok (record {
    bucket = get_value v (text "bucket");
    endpoint = get_value v (text "endpoint");
    access_key = get_value v (text "access_key");
    secret_key = get_value v (text "secret_key");
    region = or_default (text "us-east-1") (get_value v (text "region"));
    secure = secure;
    create_bucket_if_not_exists = create;
  })
