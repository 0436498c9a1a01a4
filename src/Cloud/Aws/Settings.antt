-- ===== src/Cloud/Aws/Settings.antt =====
-- backend/aws/aws.go: backendConfig, readConfig and ConfigOptions.
use sharp_store.Prelude.{
  [], Bool, true, false, not, ◌&&◌, List, ◌∷◌, Text, text, text_discrete, is_empty,
}
use sharp_store.Errors.{Result, ok, check, message, ◌>>=◌, ◌>>◌}
use sharp_store.Config.{Values, get_value}
use sharp_store.Backend.{ConfigOption}
use sharp_store.Cloud.Settings.{config_option, missing_value, read_flag}
use sharp_store.Cloud.Steps.{error_if, or_default, differ}

pub record BackendConfig : Type 0 where
  pub bucket : Text
  pub region : Text
  pub access_key_id : Text
  pub secret_access_key : Text
  pub session_token : Text
  pub create_bucket_if_not_exists : Bool

unfoldable pub BackendConfig-discrete : Discrete BackendConfig
BackendConfig-discrete = hlevel text_discrete

abbrev pub create_key : Text
create_key = text "create_bucket_if_not_exists"

abbrev pub config_options : List ConfigOption
config_options =
    config_option (text "bucket") (text "string") true false (text "dicom-archive")
      (text "AWS S3 bucket name.")
    ∷ config_option (text "region") (text "string") false false (text "us-east-1")
        (text "AWS region. Defaults to us-east-1.")
    ∷ config_option (text "access_key_id") (text "string") false true []
        (text "Optional static access key ID; omit it to use the AWS default credential chain.")
    ∷ config_option (text "secret_access_key") (text "string") false true []
        (text "Optional static secret access key.")
    ∷ config_option (text "session_token") (text "string") false true []
        (text "Optional session token for static temporary credentials.")
    ∷ config_option create_key (text "bool") false false (text "false")
        (text "Create the S3 bucket before saving when it does not exist.")
    ∷ []

-- readConfig
unfoldable pub read_config : Values → Result BackendConfig
read_config v = do
  check (missing_value (text "bucket" ∷ []) v)
  check (
      error_if
        (differ (is_empty (get_value v (text "access_key_id")))
          (is_empty (get_value v (text "secret_access_key"))))
        (message "access_key_id and secret_access_key must be configured together" []))
  check (
      error_if
        (not (is_empty (get_value v (text "session_token")))
          && is_empty (get_value v (text "access_key_id")))
        (message "session_token requires static access_key_id and secret_access_key" []))
  create ← read_flag v create_key
  ok (record {
    bucket = get_value v (text "bucket");
    region = or_default (text "us-east-1") (get_value v (text "region"));
    access_key_id = get_value v (text "access_key_id");
    secret_access_key = get_value v (text "secret_access_key");
    session_token = get_value v (text "session_token");
    create_bucket_if_not_exists = create;
  })
