-- ===== src/Cloud/S3/Settings.antt =====
-- backend/s3/s3.go: backendConfig, readConfig and ConfigOptions.
use sharp_store.Prelude.{
  [], Bool, true, false, not, ◌||◌, List, ◌∷◌, Text, text, text_discrete, is_empty, if◌then◌else◌,
}
use sharp_store.Errors.{Error, Result, ok, err, check, message, ◌>>=◌, ◌>>◌}
use sharp_store.Config.{Values, get_value}
use sharp_store.Backend.{ConfigOption}
use sharp_store.Cloud.Settings.{config_option, missing_value, read_flag}
use sharp_store.Cloud.Steps.{error_if, or_default}
use sharp_store.Cloud.Urls.{Urls, is_http_scheme}

pub record BackendConfig : Type 0 where
  pub bucket : Text
  pub base_endpoint : Text
  pub access_key_id : Text
  pub secret_access_key : Text
  pub force_path_style : Bool
  pub use_chunk_encoding : Bool
  pub protocol : Text
  pub create_bucket_if_not_exists : Bool

unfoldable pub BackendConfig-discrete : Discrete BackendConfig
BackendConfig-discrete = hlevel text_discrete

abbrev pub create_key : Text
create_key = text "create_bucket_if_not_exists"

-- The keys of the map of required values, over which readConfig ranges in any order.
abbrev pub required_keys : List Text
required_keys =
    text "bucket" ∷ text "base_endpoint" ∷ text "access_key_id" ∷ text "secret_access_key" ∷ []

abbrev pub config_options : List ConfigOption
config_options =
    config_option (text "bucket") (text "string") true false (text "dicom-archive")
      (text "S3 bucket name.")
    ∷ config_option (text "base_endpoint") (text "string") true false
        (text "https://s3.example.test")
        (text "Absolute HTTP(S) base endpoint passed to the S3 SDK.")
    ∷ config_option (text "access_key_id") (text "string") true true []
        (text "Static access key ID.")
    ∷ config_option (text "secret_access_key") (text "string") true true []
        (text "Static secret access key.")
    ∷ config_option (text "force_path_style") (text "bool") false false (text "true")
        (text "Use path-style bucket addressing.")
    ∷ config_option (text "use_chunk_encoding") (text "bool") false false (text "false")
        (text "Stream unknown-length uploads with HTTP chunked transfer encoding.")
    ∷ config_option (text "protocol") (text "string") false false (text "https")
        (text "Protocol used in generated access URLs: http or https. Defaults to base_endpoint.")
    ∷ config_option create_key (text "bool") false false (text "false")
        (text "Create the bucket before saving when it does not exist.")
    ∷ []

module _ {U : Type 0} (urls : Urls U) where
  abbrev pub bad_base_endpoint : Error
  bad_base_endpoint = message "base_endpoint must be an absolute HTTP(S) URL" []

  -- the scheme of the base endpoint
  abbrev pub base_scheme : Result U → Result Text
  base_scheme (err e) = err bad_base_endpoint
  base_scheme (ok u) =
      if not (is_http_scheme (urls.scheme u)) || is_empty (urls.host u)
      then err bad_base_endpoint
      else ok (urls.scheme u)

  -- readConfig, which finds the required values in the order of the keys
  unfoldable pub read_config : List Text → Values → Result BackendConfig
  unfolding get_value missing_value read_flag
  read_config keys v = do
    check (missing_value keys v)
    scheme ← base_scheme (urls.parse_request_uri (get_value v (text "base_endpoint")))
    check (
        error_if (not (is_http_scheme (or_default scheme (get_value v (text "protocol")))))
          (message "protocol must be http or https" []))
    force_path_style ← read_flag v (text "force_path_style")
    use_chunk_encoding ← read_flag v (text "use_chunk_encoding")
    create ← read_flag v create_key
    ok (record {
      bucket = get_value v (text "bucket");
      base_endpoint = get_value v (text "base_endpoint");
      access_key_id = get_value v (text "access_key_id");
      secret_access_key = get_value v (text "secret_access_key");
      force_path_style = force_path_style;
      use_chunk_encoding = use_chunk_encoding;
      protocol = or_default scheme (get_value v (text "protocol"));
      create_bucket_if_not_exists = create;
    })
