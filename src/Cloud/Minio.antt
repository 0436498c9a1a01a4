-- ===== src/Cloud/Minio.antt =====
-- backend/minio/minio.go: MinIO. `MinioSdk` is what the code uses of minio-go, of time.Now, and of the
-- order in which Go ranges over a map.
pub mod Settings
pub mod Typed
use mathlib.Core.List.{Perm}
use sharp_store.Prelude.{
  [], Bool, true, false, not, ◌||◌, ◌*◌, ◌==◌, ℕ, Option, none, some, List, ◌∷◌, Text, text,
  if◌then◌else◌,
}
use sharp_store.Errors.{Error, Outcome, Result, ok, err}
use sharp_store.Scope.{Context}
use sharp_store.Config.{Values}
use sharp_store.Backend.{
  Backend, Reader, FileRequest, SaveRequest, DownloadRequest, AccessUrlRequest,
}
use sharp_store.FileUtil.{write_file}
use sharp_store.Cloud.{
  Cloud, Act, ◌>>=◌, ◌>>◌, lift, pure, asks, returned, alive, required_body, remotely, put_remote,
  as_result, write_found, if_present, require_present, outcome,
}
use sharp_store.Cloud.Settings.{
  ServiceError, has_code, values_in, second, past_config_error, time_left_or,
}
use sharp_store.Cloud.Steps.{caught, upload_with, success_of, found, found_body, configured}
use sharp_store.Prelude.Integers.{ℤ, pos, negsuc}
use sharp_store.Cloud.Urls.{Urls}
use sharp_store.Cloud.Bodies.{Kind, sized, seeker, stream, distance, restore_error}
use sharp_store.Providers.Minio.{name}
use sharp_store.Cloud.Minio.Settings.{
  BackendConfig, BackendConfig-discrete, config_options, read_config, required_keys,
}

pub record MinioSdk (C R : Type 0) : Type 0 where
  -- the endpoint, the keys, whether it is secure, and the region
  pub new_client : Text → Text → Text → Bool → Text → R → Result C × R
  pub bucket_exists : C → Text → Context R → R → Result Bool × R
  pub make_bucket : C → Text → Context R → R → Result (Unit {0}) × R
  -- with the size, -1 if it is unknown, and whether the upload has the condition that no object
  -- is there
  pub put_object : C → Text → Text → Reader → ℤ → Bool → Context R → R → Result (Unit {0}) × R
  pub stat_object : C → Text → Text → Context R → R → Result (Unit {0}) × R
  pub remove_object : C → Text → Text → Context R → R → Result (Unit {0}) × R
  pub get_object : C → Text → Text → Context R → R → Result Reader × R
  -- (*Object).Stat
  pub stat_reader : Reader → R → Result (Unit {0}) × R
  pub presigned_get_object : C → Text → Text → ℕ → Context R → R → Result Text × R
  pub to_error_response : Error → ServiceError
  pub kind_of : Reader → R → Kind
  -- the order in which Go ranges over the map of required values
  pub range_order : R → List Text
  pub range_order-perm : (r : R) → Perm (range_order r) required_keys
  pub now : R → ℕ

-- defaultAccessURLExpiry, in nanoseconds
abbrev pub default_access_url_expiry : ℕ
default_access_url_expiry = 15 * 60 * second

abbrev pub after_seek : Result ℕ → ℕ → Outcome → Result ℤ
after_seek end current (some e) = err (restore_error e)
after_seek (ok end) current none = ok (distance end current)
after_seek (err e) current none = ok (negsuc 0)

-- uploadSize
unfoldable pub upload_size : Kind → Result ℤ
unfolding distance
upload_size (sized n) = ok (pos n)
upload_size (seeker (ok current) end reset) = after_seek end current reset
upload_size (seeker (err e) end reset) = ok (negsuc 0)
upload_size stream = ok (negsuc 0)

-- what is left until the expiry, or the default
abbrev pub url_expiry : Option ℕ → ℕ → Result ℕ
url_expiry = time_left_or past_config_error (λ d. d) default_access_url_expiry

module _ {C R U : Type 0} (sdk : MinioSdk C R) (urls : Urls U) where
  abbrev pub State : Type 0
  State = Cloud BackendConfig C R

  -- isNotFound
  abbrev pub is_not_found : Error → Bool
  is_not_found e =
      let response = sdk.to_error_response e in
      response.status_code == 404
      || has_code (text "NoSuchKey" ∷ text "NoSuchObject" ∷ text "NotFound" ∷ []) response

  -- isConflict
  abbrev pub is_conflict : Error → Bool
  is_conflict e =
      has_code
        (text "PreconditionFailed"
          ∷ text "ConditionalRequestConflict"
          ∷ text "FileAlreadyExists"
          ∷ text "ObjectAlreadyExists"
          ∷ [])
        (sdk.to_error_response e)

  -- isBucketCreateConflict
  abbrev pub is_bucket_create_conflict : Error → Bool
  is_bucket_create_conflict e =
      has_code (text "BucketAlreadyOwnedByYou" ∷ text "BucketAlreadyExists" ∷ [])
        (sdk.to_error_response e)

  abbrev pub make_client : Context State → BackendConfig → Act State C
  make_client ctx cfg =
      remotely ctx
        λ c. sdk.new_client cfg.endpoint cfg.access_key cfg.secret_key cfg.secure cfg.region

  -- client
  unfoldable pub client : Context State → Values → Act State (C × BackendConfig)
  unfolding read_config configured BackendConfig-discrete
  client ctx v s =
      configured BackendConfig-discrete (read_config urls (sdk.range_order s.remote) v)
        (make_client ctx) s

  abbrev pub bucket_there : Context State → C × BackendConfig → Act State Bool
  bucket_there ctx b = remotely ctx (sdk.bucket_exists b.0 b.1.bucket)

  -- after the second look: the error of the creation, if the bucket is not there
  abbrev pub or_else_error : Error → Bool → Act State (Unit {0})
  or_else_error e true = lift (ok tt)
  or_else_error e false = lift (err e)

  -- after its creation; ToErrorResponse of a nil error has no code
  abbrev pub after_create :
      Context State → C × BackendConfig → Result (Unit {0}) → Act State (Unit {0})
  after_create ctx b (ok u) = lift (ok tt)
  after_create ctx b (err e) =
      if is_bucket_create_conflict e then bucket_there ctx b >>= or_else_error e else lift (err e)

  abbrev pub make_unless : Context State → C × BackendConfig → Bool → Act State (Unit {0})
  make_unless ctx b true = lift (ok tt)
  make_unless ctx b false =
      caught (remotely ctx (sdk.make_bucket b.0 b.1.bucket)) (after_create ctx b)

  -- ensureBucket
  unfoldable pub ensure_bucket : Context State → C × BackendConfig → Act State (Unit {0})
  ensure_bucket ctx b =
      if b.1.create_bucket_if_not_exists
      then bucket_there ctx b >>= make_unless ctx b
      else lift (ok tt)

  abbrev pub upload :
      Context State → C × BackendConfig → SaveRequest State → Reader → ℤ → Act State Text
  upload ctx b r body size =
      upload_with is_conflict r.overwrite r.file_id
        (remotely ctx (sdk.put_object b.0 b.1.bucket r.key body size (not r.overwrite)))

  unfoldable pub save_object : Context State → SaveRequest State → Act State Text
  unfolding client ensure_bucket upload_size
  save_object ctx r = do
    body ← lift (required_body r.body)
    b ← client ctx (values_in r.config)
    ensure_bucket ctx b
    size ← asks (λ s. upload_size (sdk.kind_of body s.remote))
    upload ctx b r body size

  -- Save
  unfoldable pub save : Context State → SaveRequest State → State → (Text × Outcome) × State
  unfolding save_object
  save ctx r s = returned [] (save_object ctx r s)

  abbrev pub head_at : Context State → C × BackendConfig → Text → Act State Bool
  head_at ctx b key = found is_not_found (remotely ctx (sdk.stat_object b.0 b.1.bucket key))

  -- Exists
  unfoldable pub exists : Context State → FileRequest State → State → (Bool × Outcome) × State
  unfolding client
  exists ctx r s = returned false ((client ctx (values_in r.config) >>= λ b. head_at ctx b r.key) s)

  abbrev pub delete_at : Context State → FileRequest State → Act State Bool
  delete_at ctx r = client ctx (values_in r.config) >>= λ b.
      success_of (remotely ctx (sdk.remove_object b.0 b.1.bucket r.key))

  -- Delete
  unfoldable pub delete : Context State → FileRequest State → State → (Bool × Outcome) × State
  unfolding exists client
  delete ctx r s =
      returned false
        (((λ s₁. as_result (exists ctx r s₁)) >>= λ there. if_present there (delete_at ctx r)) s)

  -- the object, and the error of Stat if there is one
  abbrev pub stat_found : Reader → Act State Reader
  stat_found reader = (λ s. put_remote s (sdk.stat_reader reader s.remote)) >>= λ u. pure reader

  abbrev pub get_at : Context State → C × BackendConfig → Text → Act State (Option Reader)
  get_at ctx b key =
      found_body is_not_found (remotely ctx (sdk.get_object b.0 b.1.bucket key) >>= stat_found)

  -- GetOrNil
  unfoldable pub get_or_nil :
      Context State → FileRequest State → State → (Option Reader × Outcome) × State
  unfolding client
  get_or_nil ctx r s =
      returned none ((client ctx (values_in r.config) >>= λ b. get_at ctx b r.key) s)

  -- Download
  unfoldable pub download : Context State → DownloadRequest State → State → (Bool × Outcome) × State
  unfolding get_or_nil write_file
  download ctx r s = write_found r.destination (get_or_nil ctx r.file s)

  unfoldable pub sign_url : Context State → AccessUrlRequest State → Act State Text
  unfolding client exists
  sign_url ctx r = do
    require_present r.check_exists (λ s. as_result (exists ctx r.file s))
    b ← client ctx (values_in r.config)
    expires ← asks (λ s. url_expiry r.expires_at (sdk.now s.remote))
    remotely ctx (sdk.presigned_get_object b.0 b.1.bucket r.key expires)

  -- AccessURL
  unfoldable pub access_url :
      Context State → AccessUrlRequest State → State → (Text × Outcome) × State
  unfolding sign_url
  access_url ctx r s = returned [] (sign_url ctx r s)

  -- ValidateConfig
  unfoldable pub validate_config : Context State → Values → State → Outcome × State
  unfolding read_config
  validate_config ctx v s = (
    outcome (((alive ctx >> asks (λ s₁. read_config urls (sdk.range_order s₁.remote) v)) s).0),
    s,
  )

  -- New
  abbrev pub new_backend : Backend State
  new_backend = record {
    name = name;
    save = save;
    delete = delete;
    exists = exists;
    download = download;
    get_or_nil = get_or_nil;
    access_url = access_url;
    config_options = some config_options;
    validate_config = some validate_config;
  }
