-- ===== src/Cloud/Aws.antt =====
-- backend/aws/aws.go: Amazon S3. `AwsSdk` is what the code uses of aws-sdk-go-v2 and smithy-go, and of
-- time.Now. `base_endpoint` and `force_path_style` are the fields of Backend that only tests set.
pub mod Settings
pub mod Typed
pub mod Store
pub mod Contract
pub mod RoundTrip
pub mod Frame
use sharp_store.Prelude.{
  [], Bool, false, not, ◌&&◌, ℕ, Option, none, some, List, ◌∷◌, Text, text, same, is_empty,
  if◌then◌else◌,
}
use sharp_store.Errors.{Error, Outcome, Result}
use sharp_store.Scope.{Context}
use sharp_store.Config.{Values}
use sharp_store.Backend.{
  Backend, Reader, FileRequest, SaveRequest, DownloadRequest, AccessUrlRequest,
}
use sharp_store.FileUtil.{write_file}
use sharp_store.Cloud.{
  Cloud, Act, ◌>>=◌, ◌>>◌, lift, pure, asks, returned, alive, required_body, remotely, as_result,
  write_found, if_present, require_present, outcome,
}
use sharp_store.Cloud.Settings.{values_in, past_config_error, time_left_or}
use sharp_store.Cloud.Steps.{
  create_if_missing, upload_with, success_of, found, found_body, configured, code_in,
}
use sharp_store.Cloud.Urls.{Urls, uses_http}
use sharp_store.Providers.Aws.{name}
use sharp_store.Cloud.Aws.Settings.{
  BackendConfig, BackendConfig-discrete, config_options, read_config,
}

-- The options of awss3.NewFromConfig: the static credentials with their session token, the base
-- endpoint and path style, and whether payloads are left unsigned.
pub record ClientOptions : Type 0 where
  pub credentials : Option (Text × Text × Text)
  pub base_endpoint : Option (Text × Bool)
  pub unsigned_payload : Bool

pub record AwsSdk (D C R : Type 0) : Type 0 where
  pub load_default_config : Text → Context R → R → Result D × R
  pub new_from_config : D → ClientOptions → C
  pub head_bucket : C → Text → Context R → R → Result (Unit {0}) × R
  pub head_object : C → Text → Text → Context R → R → Result (Unit {0}) × R
  pub delete_object : C → Text → Text → Context R → R → Result (Unit {0}) × R
  -- with the location constraint, if there is one
  pub create_bucket : C → Text → Option Text → Context R → R → Result (Unit {0}) × R
  -- the last argument but two says that the upload has the condition `If-None-Match: *`
  pub put_object : C → Text → Text → Reader → Bool → Context R → R → Result (Unit {0}) × R
  pub get_object : C → Text → Text → Context R → R → Result Reader × R
  -- with the nanoseconds after which it expires, if they are given
  pub presign_get_object : C → Text → Text → Option ℕ → Context R → R → Result Text × R
  -- the code of a smithy.APIError
  pub api_error : Error → Option Text
  pub now : R → ℕ

abbrev pub not_found_codes : List Text
not_found_codes =
    text "NoSuchBucket" ∷ text "NoSuchKey" ∷ text "NoSuchObject" ∷ text "NotFound" ∷ text "404" ∷ []

abbrev pub conflict_codes : List Text
conflict_codes =
    text "PreconditionFailed" ∷ text "ConditionalRequestConflict" ∷ text "412" ∷ text "409" ∷ []

abbrev pub bucket_conflict_codes : List Text
bucket_conflict_codes = text "BucketAlreadyOwnedByYou" ∷ text "BucketAlreadyExists" ∷ []

-- the constraint of a bucket that is not in us-east-1
abbrev pub location_constraint : Text → Option Text
location_constraint region = if same region (text "us-east-1") then none else some region

-- what is left until the expiry, or the default of the SDK
abbrev pub url_expiry : Option ℕ → ℕ → Result (Option ℕ)
url_expiry = time_left_or past_config_error some none

module _ {D C R U : Type 0} (sdk : AwsSdk D C R) (urls : Urls U) (base_endpoint : Text)
    (force_path_style : Bool) where
  abbrev pub State : Type 0
  State = Cloud BackendConfig C R

  -- isNotFound
  abbrev pub is_not_found : Error → Bool
  is_not_found e = code_in not_found_codes (sdk.api_error e)

  -- isConflict
  abbrev pub is_conflict : Error → Bool
  is_conflict e = code_in conflict_codes (sdk.api_error e)

  -- isBucketCreateConflict
  abbrev pub is_bucket_create_conflict : Error → Bool
  is_bucket_create_conflict e = code_in bucket_conflict_codes (sdk.api_error e)

  abbrev pub client_options : BackendConfig → ClientOptions
  client_options cfg = record {
    credentials =
        if is_empty cfg.access_key_id
        then none
        else some (cfg.access_key_id, cfg.secret_access_key, cfg.session_token);
    base_endpoint = if is_empty base_endpoint then none else some (base_endpoint, force_path_style);
    unsigned_payload = not (is_empty base_endpoint) && uses_http urls base_endpoint;
  }

  abbrev pub make_client : Context State → BackendConfig → Act State C
  make_client ctx cfg = remotely ctx (sdk.load_default_config cfg.region) >>= λ d.
      pure (sdk.new_from_config d (client_options cfg))

  -- client
  unfoldable pub client : Context State → Values → Act State (C × BackendConfig)
  unfolding read_config configured BackendConfig-discrete uses_http
  client ctx v = configured BackendConfig-discrete (read_config v) (make_client ctx)

  -- ensureBucket
  unfoldable pub ensure_bucket : Context State → C × BackendConfig → Act State (Unit {0})
  unfolding create_if_missing
  ensure_bucket ctx b =
      create_if_missing is_not_found is_bucket_create_conflict
        (remotely ctx (sdk.head_bucket b.0 b.1.bucket))
        (remotely ctx (sdk.create_bucket b.0 b.1.bucket (location_constraint b.1.region)))
        b.1.create_bucket_if_not_exists

  abbrev pub upload :
      Context State → C × BackendConfig → SaveRequest State → Reader → Act State Text
  upload ctx b r body =
      upload_with is_conflict r.overwrite r.file_id
        (remotely ctx (sdk.put_object b.0 b.1.bucket r.key body (not r.overwrite)))

  unfoldable pub save_object : Context State → SaveRequest State → Act State Text
  unfolding client ensure_bucket
  save_object ctx r = do
    body ← lift (required_body r.body)
    b ← client ctx (values_in r.config)
    ensure_bucket ctx b
    upload ctx b r body

  -- Save
  unfoldable pub save : Context State → SaveRequest State → State → (Text × Outcome) × State
  unfolding save_object
  save ctx r s = returned [] (save_object ctx r s)

  abbrev pub head_at : Context State → C × BackendConfig → Text → Act State Bool
  head_at ctx b key = found is_not_found (remotely ctx (sdk.head_object b.0 b.1.bucket key))

  -- Exists
  unfoldable pub exists : Context State → FileRequest State → State → (Bool × Outcome) × State
  unfolding client
  exists ctx r s = returned false ((client ctx (values_in r.config) >>= λ b. head_at ctx b r.key) s)

  abbrev pub delete_at : Context State → FileRequest State → Act State Bool
  delete_at ctx r = client ctx (values_in r.config) >>= λ b.
      success_of (remotely ctx (sdk.delete_object b.0 b.1.bucket r.key))

  -- Delete
  unfoldable pub delete : Context State → FileRequest State → State → (Bool × Outcome) × State
  unfolding exists client
  delete ctx r s =
      returned false
        (((λ s₁. as_result (exists ctx r s₁)) >>= λ there. if_present there (delete_at ctx r)) s)

  abbrev pub get_at : Context State → C × BackendConfig → Text → Act State (Option Reader)
  get_at ctx b key = found_body is_not_found (remotely ctx (sdk.get_object b.0 b.1.bucket key))

  -- GetOrNil
  unfoldable pub get_or_nil :
      Context State → FileRequest State → State → (Option Reader × Outcome) × State
  unfolding client
  get_or_nil ctx r s =
      returned none ((client ctx (values_in r.config) >>= λ b. get_at ctx b r.key) s)

  -- Download
  unfoldable pub download : Context State → DownloadRequest State → State → (Bool × Outcome) × State
  unfolding get_or_nil write_file
  download ctx r s = write_found r.destination (get_or_nil ctx r.file s)

  unfoldable pub sign_url : Context State → AccessUrlRequest State → Act State Text
  unfolding client exists
  sign_url ctx r = do
    require_present r.check_exists (λ s. as_result (exists ctx r.file s))
    b ← client ctx (values_in r.config)
    expires ← asks (λ s. url_expiry r.expires_at (sdk.now s.remote))
    remotely ctx (sdk.presign_get_object b.0 b.1.bucket r.key expires)

  -- AccessURL
  unfoldable pub access_url :
      Context State → AccessUrlRequest State → State → (Text × Outcome) × State
  unfolding sign_url
  access_url ctx r s = returned [] (sign_url ctx r s)

  -- ValidateConfig
  unfoldable pub validate_config : Context State → Values → State → Outcome × State
  unfolding read_config
  validate_config ctx v s = (outcome (((alive ctx >> asks (λ s₁. read_config v)) s).0), s)

  -- New
  abbrev pub new_backend : Backend State
  new_backend = record {
    name = name;
    save = save;
    delete = delete;
    exists = exists;
    download = download;
    get_or_nil = get_or_nil;
    access_url = access_url;
    config_options = some config_options;
    validate_config = some validate_config;
  }
