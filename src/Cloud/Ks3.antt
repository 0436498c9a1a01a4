-- ===== src/Cloud/Ks3.antt =====
-- backend/ks3/ks3.go: Kingsoft KS3. `Ks3Sdk` is what the code uses of the KS3 SDK and of net/http, of
-- time.Now, and of the order in which Go ranges over a map.
pub mod Settings
pub mod Typed
use mathlib.Core.List.{Perm}
use sharp_store.Prelude.{
  [], Bool, false, not, ◌||◌, ◌+◌, ◌*◌, ◌-◌, ◌/◌, ◌%◌, ◌^◌, ◌==◌, ℕ, Option, none, some, List, ◌∷◌,
  Text, text, same, is_empty, ltb, if◌then◌else◌,
}
use sharp_store.Errors.{Error, Outcome, Result}
use sharp_store.Scope.{Context}
use sharp_store.Config.{Values}
use sharp_store.Backend.{
  Backend, Reader, FileRequest, SaveRequest, DownloadRequest, AccessUrlRequest,
}
use sharp_store.FileUtil.{write_file}
use sharp_store.Cloud.{
  Cloud, Act, ◌>>=◌, ◌>>◌, lift, pure, asks, returned, alive, required_body, remotely, as_result,
  write_found, if_present, require_present, outcome,
}
use sharp_store.Cloud.Settings.{values_in, second, past_config_error, time_left_or}
use sharp_store.Cloud.Steps.{
  create_if_missing, upload_with, success_of, found, found_body, configured, code_in,
}
use sharp_store.Cloud.Urls.{Urls}
use sharp_store.Prelude.Integers.{ℤ, pos, negsuc}
use sharp_store.Providers.Ks3.{name}
use sharp_store.Cloud.Ks3.Settings.{
  BackendConfig, BackendConfig-discrete, config_options, read_config, required_keys,
}

-- The transport's limits, the client's timeout in nanoseconds, and the options of the SDK.
pub record ClientOptions : Type 0 where
  pub max_conns_per_host : Option ℕ
  pub timeout : Option ℤ
  pub credentials : Text × Text
  pub endpoint : Text
  pub region : Text
  pub disable_ssl : Bool
  pub user_agent : Option Text

pub record Ks3Sdk (C R : Type 0) : Type 0 where
  pub new_client : ClientOptions → C
  pub head_bucket : C → Text → Context R → R → Result (Unit {0}) × R
  pub head_object : C → Text → Text → Context R → R → Result (Unit {0}) × R
  pub delete_object : C → Text → Text → Context R → R → Result (Unit {0}) × R
  pub create_bucket : C → Text → Context R → R → Result (Unit {0}) × R
  -- the last argument but two is ForbidOverwrite
  pub upload_reader : C → Text → Text → Reader → Bool → Context R → R → Result (Unit {0}) × R
  pub get_object : C → Text → Text → Context R → R → Result Reader × R
  pub generate_presigned_url : C → Text → Text → ℕ → R → Result Text × R
  -- the status of an awserr.RequestFailure
  pub request_failure : Error → Option ℕ
  -- the code of an awserr.Error
  pub service_error : Error → Option Text
  pub no_such_key : Text
  -- the order in which Go ranges over the map of required values
  pub range_order : R → List Text
  pub range_order-perm : (r : R) → Perm (range_order r) required_keys
  pub now : R → ℕ

-- defaultAccessURLExpiry, in nanoseconds
abbrev pub default_access_url_expiry : ℕ
default_access_url_expiry = 3600 * second

-- a product of two int64, which wraps
abbrev pub wrap_int64 : ℕ → ℤ
wrap_int64 n = let m = n % 2 ^ 64 in if ltb m (2 ^ 63) then pos m else negsuc (2 ^ 64 - 1 - m)

-- time.Duration(timeout) * time.Millisecond
unfoldable pub timeout_of : ℕ → Option ℤ
timeout_of timeout = if ltb 0 timeout then some (wrap_int64 (timeout * 1000000)) else none

-- int64(math.Ceil(d.Seconds())). The float64 that Seconds returns is rounded to the right second
-- below 2 ^ 24 seconds.
abbrev pub ceil_seconds : ℕ → ℕ
ceil_seconds d = (d + (second - 1)) / second

abbrev pub is_status : ℕ → Option ℕ → Bool
is_status n none = false
is_status n (some m) = m == n

-- the seconds that are left until the expiry, or the default
abbrev pub url_seconds : Option ℕ → ℕ → Result ℕ
url_seconds = time_left_or past_config_error ceil_seconds (ceil_seconds default_access_url_expiry)

module _ {C R U : Type 0} (sdk : Ks3Sdk C R) (urls : Urls U) where
  abbrev pub State : Type 0
  State = Cloud BackendConfig C R

  -- isNotFound
  abbrev pub is_not_found : Error → Bool
  is_not_found e =
      is_status 404 (sdk.request_failure e)
      || code_in (sdk.no_such_key ∷ text "NoSuchObject" ∷ text "NotFound" ∷ [])
          (sdk.service_error e)

  -- isConflict
  abbrev pub is_conflict : Error → Bool
  is_conflict e =
      code_in
        (text "FileAlreadyExists"
          ∷ text "ObjectAlreadyExists"
          ∷ text "PreconditionFailed"
          ∷ text "ConditionalRequestConflict"
          ∷ [])
        (sdk.service_error e)

  -- isBucketCreateConflict
  abbrev pub is_bucket_create_conflict : Error → Bool
  is_bucket_create_conflict e =
      code_in (text "BucketAlreadyOwnedByYou" ∷ text "BucketAlreadyExists" ∷ [])
        (sdk.service_error e)

  abbrev pub client_options : BackendConfig → ClientOptions
  client_options cfg = record {
    max_conns_per_host = if ltb 0 cfg.max_connections then some cfg.max_connections else none;
    timeout = timeout_of cfg.timeout;
    credentials = (cfg.access_key, cfg.secret_key);
    endpoint = cfg.endpoint;
    region = text "BEIJING";
    disable_ssl = same cfg.protocol (text "http");
    user_agent = if is_empty cfg.user_agent then none else some cfg.user_agent;
  }

  -- client
  unfoldable pub client : Context State → Values → Act State (C × BackendConfig)
  unfolding read_config configured BackendConfig-discrete timeout_of
  client ctx v s =
      (alive ctx
          >> configured BackendConfig-discrete (read_config urls (sdk.range_order s.remote) v)
              (λ cfg. pure (sdk.new_client (client_options cfg))))
        s

  -- ensureBucket
  unfoldable pub ensure_bucket : Context State → C × BackendConfig → Act State (Unit {0})
  unfolding create_if_missing
  ensure_bucket ctx b =
      create_if_missing is_not_found is_bucket_create_conflict
        (remotely ctx (sdk.head_bucket b.0 b.1.bucket))
        (remotely ctx (sdk.create_bucket b.0 b.1.bucket)) b.1.create_bucket_if_not_exists

  abbrev pub upload :
      Context State → C × BackendConfig → SaveRequest State → Reader → Act State Text
  upload ctx b r body =
      upload_with is_conflict r.overwrite r.file_id
        (remotely ctx (sdk.upload_reader b.0 b.1.bucket r.key body (not r.overwrite)))

  unfoldable pub save_object : Context State → SaveRequest State → Act State Text
  unfolding client ensure_bucket
  save_object ctx r = do
    body ← lift (required_body r.body)
    b ← client ctx (values_in r.config)
    ensure_bucket ctx b
    upload ctx b r body

  -- Save
  unfoldable pub save : Context State → SaveRequest State → State → (Text × Outcome) × State
  unfolding save_object
  save ctx r s = returned [] (save_object ctx r s)

  abbrev pub head_at : Context State → C × BackendConfig → Text → Act State Bool
  head_at ctx b key = found is_not_found (remotely ctx (sdk.head_object b.0 b.1.bucket key))

  -- Exists
  unfoldable pub exists : Context State → FileRequest State → State → (Bool × Outcome) × State
  unfolding client
  exists ctx r s = returned false ((client ctx (values_in r.config) >>= λ b. head_at ctx b r.key) s)

  abbrev pub delete_at : Context State → FileRequest State → Act State Bool
  delete_at ctx r = client ctx (values_in r.config) >>= λ b.
      success_of (remotely ctx (sdk.delete_object b.0 b.1.bucket r.key))

  -- Delete
  unfoldable pub delete : Context State → FileRequest State → State → (Bool × Outcome) × State
  unfolding exists client
  delete ctx r s =
      returned false
        (((λ s₁. as_result (exists ctx r s₁)) >>= λ there. if_present there (delete_at ctx r)) s)

  abbrev pub get_at : Context State → C × BackendConfig → Text → Act State (Option Reader)
  get_at ctx b key = found_body is_not_found (remotely ctx (sdk.get_object b.0 b.1.bucket key))

  -- GetOrNil
  unfoldable pub get_or_nil :
      Context State → FileRequest State → State → (Option Reader × Outcome) × State
  unfolding client
  get_or_nil ctx r s =
      returned none ((client ctx (values_in r.config) >>= λ b. get_at ctx b r.key) s)

  -- Download
  unfoldable pub download : Context State → DownloadRequest State → State → (Bool × Outcome) × State
  unfolding get_or_nil write_file
  download ctx r s = write_found r.destination (get_or_nil ctx r.file s)

  unfoldable pub sign_url : Context State → AccessUrlRequest State → Act State Text
  unfolding client exists
  sign_url ctx r = do
    require_present r.check_exists (λ s. as_result (exists ctx r.file s))
    b ← client ctx (values_in r.config)
    expires ← asks (λ s. url_seconds r.expires_at (sdk.now s.remote))
    remotely ctx (λ c. sdk.generate_presigned_url b.0 b.1.bucket r.key expires)

  -- AccessURL
  unfoldable pub access_url :
      Context State → AccessUrlRequest State → State → (Text × Outcome) × State
  unfolding sign_url
  access_url ctx r s = returned [] (sign_url ctx r s)

  -- ValidateConfig
  unfoldable pub validate_config : Context State → Values → State → Outcome × State
  unfolding read_config
  validate_config ctx v s = (
    outcome (((alive ctx >> asks (λ s₁. read_config urls (sdk.range_order s₁.remote) v)) s).0),
    s,
  )

  -- New
  abbrev pub new_backend : Backend State
  new_backend = record {
    name = name;
    save = save;
    delete = delete;
    exists = exists;
    download = download;
    get_or_nil = get_or_nil;
    access_url = access_url;
    config_options = some config_options;
    validate_config = some validate_config;
  }
