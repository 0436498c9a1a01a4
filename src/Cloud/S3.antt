-- ===== src/Cloud/S3.antt =====
-- backend/s3/s3.go: services that speak the S3 protocol. `S3Sdk` is what the code uses of
-- aws-sdk-go-v2 and smithy-go, of time.Now, of os.CreateTemp, and of the order in which Go ranges over
-- a map.
pub mod Settings
pub mod Typed
pub mod Spool
use mathlib.Core.List.{Perm}
use sharp_store.Prelude.{
  [], Bool, false, not, ◌||◌, ℕ, Option, none, some, List, ◌∷◌, Text, text, if◌then◌else◌,
}
use sharp_store.Errors.{Error, Outcome, Result, ok, err}
use sharp_store.Scope.{Context}
use sharp_store.Config.{Values}
use sharp_store.Backend.{
  Backend, Reader, FileRequest, SaveRequest, DownloadRequest, AccessUrlRequest,
}
use sharp_store.FileUtil.{write_file}
use sharp_store.Cloud.{
  Cloud, Act, ◌>>=◌, ◌>>◌, lift, pure, asks, returned, alive, required_body, remotely, locally,
  as_result, write_found, if_present, require_present, outcome,
}
use sharp_store.Cloud.Settings.{values_in, past_config_error, time_left_or}
use sharp_store.Cloud.Steps.{
  create_if_missing, upload_with, success_of, found, found_body, configured, code_in,
}
use sharp_store.Os.{Io, file}
use sharp_store.Prelude.Integers.{ℤ}
use sharp_store.Cloud.Urls.{Urls, uses_http}
use sharp_store.Cloud.Bodies.{Kind}
use sharp_store.Providers.S3.{name}
use sharp_store.Cloud.S3.Settings.{
  BackendConfig, BackendConfig-discrete, config_options, read_config, required_keys,
}
use sharp_store.Cloud.S3.Spool.{Upload, in_place, cleanup, fixed_length_body}

-- The options of awss3.NewFromConfig, with the region and the static credentials.
pub record ClientOptions : Type 0 where
  pub region : Text
  pub credentials : Text × Text
  pub base_endpoint : Text
  pub use_path_style : Bool
  pub unsigned_payload : Bool

pub record S3Sdk (C R : Type 0) : Type 0 where
  pub new_from_config : ClientOptions → C
  pub head_bucket : C → Text → Context R → R → Result (Unit {0}) × R
  pub head_object : C → Text → Text → Context R → R → Result (Unit {0}) × R
  pub delete_object : C → Text → Text → Context R → R → Result (Unit {0}) × R
  pub create_bucket : C → Text → Context R → R → Result (Unit {0}) × R
  -- with the content's length, if it is known, and whether the upload has the condition
  -- `If-None-Match: *`; the body may be a file of the machine
  pub put_object :
      C → Text → Text → Reader → Option ℤ → Bool → Context R → R → Result (Unit {0}) × R
  pub get_object : C → Text → Text → Context R → R → Result Reader × R
  -- with the nanoseconds after which it expires, if they are given
  pub presign_get_object : C → Text → Text → Option ℕ → Context R → R → Result Text × R
  -- the code of a smithy.APIError
  pub api_error : Error → Option Text
  pub kind_of : Reader → R → Kind
  -- os.CreateTemp with the pattern sharp-store-s3-upload-*: the path of a new, empty file
  pub create_temp : Io Text
  -- the order in which Go ranges over the map of required values
  pub range_order : R → List Text
  pub range_order-perm : (r : R) → Perm (range_order r) required_keys
  pub now : R → ℕ

abbrev pub not_found_codes : List Text
not_found_codes =
    text "NoSuchBucket" ∷ text "NoSuchKey" ∷ text "NoSuchObject" ∷ text "NotFound" ∷ text "404" ∷ []

abbrev pub conflict_codes : List Text
conflict_codes =
    text "PreconditionFailed" ∷ text "ConditionalRequestConflict" ∷ text "412" ∷ text "409" ∷ []

abbrev pub bucket_conflict_codes : List Text
bucket_conflict_codes = text "BucketAlreadyOwnedByYou" ∷ text "BucketAlreadyExists" ∷ []

-- what is left until the expiry, or the default of the SDK
abbrev pub url_expiry : Option ℕ → ℕ → Result (Option ℕ)
url_expiry = time_left_or past_config_error some none

module _ {C R U : Type 0} (sdk : S3Sdk C R) (urls : Urls U) where
  abbrev pub State : Type 0
  State = Cloud BackendConfig C R

  -- isNotFound
  abbrev pub is_not_found : Error → Bool
  is_not_found e = code_in not_found_codes (sdk.api_error e)

  -- isConflict
  abbrev pub is_conflict : Error → Bool
  is_conflict e = code_in conflict_codes (sdk.api_error e)

  -- isBucketCreateConflict
  abbrev pub is_bucket_create_conflict : Error → Bool
  is_bucket_create_conflict e = code_in bucket_conflict_codes (sdk.api_error e)

  abbrev pub client_options : BackendConfig → ClientOptions
  client_options cfg = record {
    region = text "us-east-1";
    credentials = (cfg.access_key_id, cfg.secret_access_key);
    base_endpoint = cfg.base_endpoint;
    use_path_style = cfg.force_path_style;
    unsigned_payload = cfg.use_chunk_encoding || uses_http urls cfg.base_endpoint;
  }

  -- client
  unfoldable pub client : Context State → Values → Act State (C × BackendConfig)
  unfolding read_config configured BackendConfig-discrete uses_http
  client ctx v s =
      (alive ctx
          >> configured BackendConfig-discrete (read_config urls (sdk.range_order s.remote) v)
              (λ cfg. pure (sdk.new_from_config (client_options cfg))))
        s

  -- ensureBucket
  unfoldable pub ensure_bucket : Context State → C × BackendConfig → Act State (Unit {0})
  unfolding create_if_missing
  ensure_bucket ctx b =
      create_if_missing is_not_found is_bucket_create_conflict
        (remotely ctx (sdk.head_bucket b.0 b.1.bucket))
        (remotely ctx (sdk.create_bucket b.0 b.1.bucket)) b.1.create_bucket_if_not_exists

  -- the body that is sent
  abbrev pub prepare_body : Context State → BackendConfig → Reader → Act State Upload
  prepare_body ctx cfg body s =
      if cfg.use_chunk_encoding
      then (ok (in_place body none), s)
      else locally (fixed_length_body (sdk.kind_of body s.remote) sdk.create_temp (ctx s) body) s

  -- `defer cleanup()`
  abbrev pub with_cleanup : {A : Type 0} → Option Text → Act State A → Act State A
  with_cleanup temporary m s = let (r, s') = m s in (r, record s' { os = cleanup temporary s'.os })

  abbrev pub upload :
      Context State → C × BackendConfig → SaveRequest State → Upload → Act State Text
  upload ctx b r u = with_cleanup u.temporary (
      upload_with is_conflict r.overwrite r.file_id (
        remotely ctx
          (sdk.put_object b.0 b.1.bucket r.key u.body u.content_length (not r.overwrite))))

  unfoldable pub save_object : Context State → SaveRequest State → Act State Text
  unfolding client ensure_bucket fixed_length_body cleanup
  save_object ctx r = do
    body ← lift (required_body r.body)
    b ← client ctx (values_in r.config)
    ensure_bucket ctx b
    u ← prepare_body ctx b.1 body
    upload ctx b r u

  -- Save
  unfoldable pub save : Context State → SaveRequest State → State → (Text × Outcome) × State
  unfolding save_object
  save ctx r s = returned [] (save_object ctx r s)

  abbrev pub head_at : Context State → C × BackendConfig → Text → Act State Bool
  head_at ctx b key = found is_not_found (remotely ctx (sdk.head_object b.0 b.1.bucket key))

  -- Exists
  unfoldable pub exists : Context State → FileRequest State → State → (Bool × Outcome) × State
  unfolding client
  exists ctx r s = returned false ((client ctx (values_in r.config) >>= λ b. head_at ctx b r.key) s)

  abbrev pub delete_at : Context State → FileRequest State → Act State Bool
  delete_at ctx r = client ctx (values_in r.config) >>= λ b.
      success_of (remotely ctx (sdk.delete_object b.0 b.1.bucket r.key))

  -- Delete
  unfoldable pub delete : Context State → FileRequest State → State → (Bool × Outcome) × State
  unfolding exists client
  delete ctx r s =
      returned false
        (((λ s₁. as_result (exists ctx r s₁)) >>= λ there. if_present there (delete_at ctx r)) s)

  abbrev pub get_at : Context State → C × BackendConfig → Text → Act State (Option Reader)
  get_at ctx b key = found_body is_not_found (remotely ctx (sdk.get_object b.0 b.1.bucket key))

  -- GetOrNil
  unfoldable pub get_or_nil :
      Context State → FileRequest State → State → (Option Reader × Outcome) × State
  unfolding client
  get_or_nil ctx r s =
      returned none ((client ctx (values_in r.config) >>= λ b. get_at ctx b r.key) s)

  -- Download
  unfoldable pub download : Context State → DownloadRequest State → State → (Bool × Outcome) × State
  unfolding get_or_nil write_file
  download ctx r s = write_found r.destination (get_or_nil ctx r.file s)

  -- the URL with the protocol of the configuration
  abbrev pub with_protocol : Text → Text → Result Text
  with_protocol protocol url = elim (urls.parse url) [
    | ok u ↦ ok (urls.string_with_scheme protocol u)
    | err e ↦ err e
  ]

  unfoldable pub sign_url : Context State → AccessUrlRequest State → Act State Text
  unfolding client exists
  sign_url ctx r = do
    require_present r.check_exists (λ s. as_result (exists ctx r.file s))
    b ← client ctx (values_in r.config)
    expires ← asks (λ s. url_expiry r.expires_at (sdk.now s.remote))
    url ← remotely ctx (sdk.presign_get_object b.0 b.1.bucket r.key expires)
    lift (with_protocol b.1.protocol url)

  -- AccessURL
  unfoldable pub access_url :
      Context State → AccessUrlRequest State → State → (Text × Outcome) × State
  unfolding sign_url
  access_url ctx r s = returned [] (sign_url ctx r s)

  -- ValidateConfig
  unfoldable pub validate_config : Context State → Values → State → Outcome × State
  unfolding read_config
  validate_config ctx v s = (
    outcome (((alive ctx >> asks (λ s₁. read_config urls (sdk.range_order s₁.remote) v)) s).0),
    s,
  )

  -- New
  abbrev pub new_backend : Backend State
  new_backend = record {
    name = name;
    save = save;
    delete = delete;
    exists = exists;
    download = download;
    get_or_nil = get_or_nil;
    access_url = access_url;
    config_options = some config_options;
    validate_config = some validate_config;
  }
