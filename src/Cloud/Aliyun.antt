-- ===== src/Cloud/Aliyun.antt =====
-- backend/aliyun/aliyun.go: Alibaba OSS. `Oss` is what the code uses of aliyun-oss-go-sdk, and of
-- time.Now.
use sharp_store.Prelude.{
  [], ℕ, ◌/◌, Bool, true, false, ◌||◌, not, Option, none, some, List, ◌∷◌, Text, text,
  text_discrete, if◌then◌else◌, ◌==◌,
}
use sharp_store.Errors.{Error, Outcome, Result, ok, err, check}
use sharp_store.Scope.{Context}
use sharp_store.Config.{Values, get_value}
use sharp_store.Backend.{
  Backend, Reader, ConfigOption, FileRequest, SaveRequest, DownloadRequest, AccessUrlRequest,
}
use sharp_store.Os.{Os, mkdir_all}
use sharp_store.FilePaths.{dir}
use sharp_store.Providers.{parse_bool}
use sharp_store.Providers.Aliyun.{name}
use sharp_store.Cloud.{
  Cloud, Act, ◌>>=◌, ◌>>◌, lift, pure, asks, returned, pass_on, alive, required_body, remotely,
  remote_context, locally, client_for, outcome, found_reader, as_result, if_present,
  require_present,
}
use sharp_store.Cloud.Settings.{
  ServiceError, is_service, has_code, flag_or_false, read_flag, values_in, missing_value, second,
  past_error, time_left_or, config_option,
}
use sharp_store.Cloud.Steps.{caught, tolerating, upload_with, success_of}

pub record Oss (C R : Type 0) : Type 0 where
  pub new_client : Text → Text → Text → R → Result C × R
  pub open_bucket : C → Text → R → Result (Unit {0}) × R
  pub is_bucket_exist : C → Text → R → Result Bool × R
  pub create_bucket : C → Text → R → Result (Unit {0}) × R
  -- the last argument but one is oss.ForbidOverWrite
  pub put_object : C → Text → Text → Reader → Bool → Context R → R → Result (Unit {0}) × R
  pub is_object_exist : C → Text → Text → Context R → R → (Bool × Outcome) × R
  pub delete_object : C → Text → Text → Context R → R → Result (Unit {0}) × R
  pub get_object_to_file :
      C → Text → Text → Text → Context R → Os × R → Result (Unit {0}) × (Os × R)
  pub get_object : C → Text → Text → Context R → R → (Option Reader × Outcome) × R
  pub sign_url : C → Text → Text → ℕ → R → (Text × Outcome) × R
  pub service_error : Error → Option ServiceError
  pub now : R → ℕ

pub record ClientKey : Type 0 where
  pub endpoint : Text
  pub access_key_id : Text
  pub access_key_secret : Text

unfoldable pub ClientKey-discrete : Discrete ClientKey
ClientKey-discrete = hlevel text_discrete

abbrev pub create_key : Text
create_key = text "create_bucket_if_not_exists"

abbrev pub required_keys : List Text
required_keys =
    text "endpoint" ∷ text "bucket" ∷ text "access_key_id" ∷ text "access_key_secret" ∷ []

abbrev pub config_options : List ConfigOption
config_options =
    config_option (text "endpoint") (text "string") true false
      (text "https://oss-cn-hangzhou.aliyuncs.com") (text "Alibaba OSS endpoint passed to the SDK.")
    ∷ config_option (text "bucket") (text "string") true false [] []
    ∷ config_option (text "access_key_id") (text "string") true true [] []
    ∷ config_option (text "access_key_secret") (text "string") true true [] []
    ∷ config_option create_key (text "bool") false false (text "false")
        (text "Create the OSS bucket before saving when it does not exist.")
    ∷ []

abbrev pub or_flag : Outcome → Values → Outcome
or_flag (some e) values = some e
or_flag none values = outcome (read_flag values create_key)

-- ValidateConfig
unfoldable pub validate_config : Outcome → Values → Outcome
unfolding missing_value read_flag
validate_config (some e) values = some e
validate_config none values = or_flag (missing_value required_keys values) values

-- the key of the client of a configuration
abbrev pub client_key : Values → ClientKey
client_key v = record {
  endpoint = get_value v (text "endpoint");
  access_key_id = get_value v (text "access_key_id");
  access_key_secret = get_value v (text "access_key_secret");
}

-- int64(d.Seconds()) of what is left, and an hour by default. The float64 that Seconds returns is
-- rounded to the right second below 2 ^ 24 seconds.
abbrev pub url_seconds : Option ℕ → ℕ → Result ℕ
url_seconds = time_left_or past_error (λ d. d / second) 3600

module _ {C R : Type 0} (sdk : Oss C R) where
  abbrev pub State : Type 0
  State = Cloud ClientKey C R

  -- isNotFound
  abbrev pub is_not_found : Error → Bool
  is_not_found e =
      is_service
        (λ d. has_code (text "NoSuchKey" ∷ text "NoSuchObject" ∷ []) d || d.status_code == 404)
        (sdk.service_error e)

  -- isBucketExists
  abbrev pub is_bucket_exists : Error → Bool
  is_bucket_exists e =
      is_service (has_code (text "BucketAlreadyExists" ∷ text "BucketAlreadyOwnedByYou" ∷ []))
        (sdk.service_error e)

  abbrev pub is_exists_already : Error → Bool
  is_exists_already e = is_service (has_code (text "FileAlreadyExists" ∷ [])) (sdk.service_error e)

  abbrev pub make_client : Context State → Values → Act State C
  make_client ctx v = remotely ctx λ c.
      sdk.new_client (get_value v (text "endpoint")) (get_value v (text "access_key_id"))
        (get_value v (text "access_key_secret"))

  -- bucket: the client and the bucket's name
  unfoldable pub bucket : Context State → Values → Act State (C × Text)
  unfolding validate_config client_for ClientKey-discrete
  bucket ctx v = do
    asks (λ s. check (validate_config (ctx s) v))
    client ← client_for ClientKey-discrete (client_key v) (make_client ctx v)
    remotely ctx (λ c. sdk.open_bucket client (get_value v (text "bucket")))
    pure (client, get_value v (text "bucket"))

  abbrev pub create_unless : Context State → C × Text → Bool → Act State (Unit {0})
  create_unless ctx b true s = (ok tt, s)
  create_unless ctx b false s =
      caught (remotely ctx (λ c. sdk.create_bucket b.0 b.1)) (tolerating is_bucket_exists) s

  -- `if create`
  unfoldable pub ensure_bucket : Context State → C × Text → Bool → Act State (Unit {0})
  ensure_bucket ctx b false = pure tt
  ensure_bucket ctx b true = remotely ctx (λ c. sdk.is_bucket_exist b.0 b.1) >>= create_unless ctx b

  abbrev pub upload : Context State → C × Text → SaveRequest State → Reader → Act State Text
  upload ctx b r body =
      upload_with is_exists_already r.overwrite r.file_id
        (remotely ctx (sdk.put_object b.0 b.1 r.key body (not r.overwrite)))

  unfoldable pub save_object : Context State → SaveRequest State → Act State Text
  unfolding bucket ensure_bucket parse_bool get_value
  save_object ctx r = do
    alive ctx
    body ← lift (required_body r.body)
    b ← bucket ctx (values_in r.config)
    ensure_bucket ctx b (flag_or_false (parse_bool (get_value (values_in r.config) create_key)))
    upload ctx b r body

  -- Save
  unfoldable pub save : Context State → SaveRequest State → State → (Text × Outcome) × State
  unfolding save_object
  save ctx r s = returned [] (save_object ctx r s)

  abbrev pub object_exists : Context State → C × Text → Text → State → (Bool × Outcome) × State
  object_exists ctx b key = remotely ctx (sdk.is_object_exist b.0 b.1 key)

  abbrev pub delete_existing : Context State → C × Text → Text → Act State Bool
  delete_existing ctx b key = success_of (remotely ctx (sdk.delete_object b.0 b.1 key))

  unfoldable pub delete_object : Context State → FileRequest State → Act State Bool
  unfolding bucket
  delete_object ctx r = do
    alive ctx
    b ← bucket ctx (values_in r.config)
    there ← λ s. as_result (object_exists ctx b r.key s)
    if_present there (delete_existing ctx b r.key)

  -- Delete
  unfoldable pub delete : Context State → FileRequest State → State → (Bool × Outcome) × State
  unfolding delete_object
  delete ctx r s = returned false (delete_object ctx r s)

  -- the bucket of a method that asks the context first
  abbrev pub open_alive : Context State → FileRequest State → Act State (C × Text)
  open_alive ctx r = alive ctx >> bucket ctx (values_in r.config)

  -- Exists
  unfoldable pub exists : Context State → FileRequest State → State → (Bool × Outcome) × State
  unfolding bucket
  exists ctx r s = pass_on false (open_alive ctx r s) λ b. object_exists ctx b r.key

  abbrev pub put_both : State → Result (Unit {0}) × (Os × R) → Result (Unit {0}) × State
  put_both s (r, (os, w)) = (r, record s { os = os; remote = w })

  abbrev pub download_found : Result (Unit {0}) → Result Bool
  download_found (ok u) = ok true
  download_found (err e) = if is_not_found e then ok false else err e

  abbrev pub to_file : Context State → C × Text → DownloadRequest State → Act State Bool
  to_file ctx b r s =
      let (m, s') = put_both s (
        sdk.get_object_to_file b.0 b.1 r.key r.destination (remote_context ctx s)
          (s.os, s.remote)) in
      (download_found m, s')

  unfoldable pub download_object : Context State → DownloadRequest State → Act State Bool
  unfolding bucket mkdir_all dir
  download_object ctx r = do
    b ← bucket ctx (values_in r.config)
    locally (mkdir_all (dir r.destination))
    to_file ctx b r

  -- Download
  unfoldable pub download : Context State → DownloadRequest State → State → (Bool × Outcome) × State
  unfolding download_object
  download ctx r s = returned false (download_object ctx r s)

  -- GetOrNil
  unfoldable pub get_or_nil :
      Context State → FileRequest State → State → (Option Reader × Outcome) × State
  unfolding bucket
  get_or_nil ctx r s =
      pass_on none (open_alive ctx r s)
        λ b s₁. found_reader is_not_found (remotely ctx (sdk.get_object b.0 b.1 r.key) s₁)

  unfoldable pub prepare_url : Context State → AccessUrlRequest State → Act State ((C × Text) × ℕ)
  unfolding bucket exists
  prepare_url ctx r = do
    require_present r.check_exists (λ s. as_result (exists ctx r.file s))
    b ← bucket ctx (values_in r.config)
    seconds ← asks (λ s. url_seconds r.expires_at (sdk.now s.remote))
    pure (b, seconds)

  -- AccessURL
  unfoldable pub access_url :
      Context State → AccessUrlRequest State → State → (Text × Outcome) × State
  unfolding prepare_url
  access_url ctx r s =
      pass_on [] (prepare_url ctx r s) λ p. remotely ctx (λ c. sdk.sign_url p.0.0 p.0.1 r.key p.1)

  -- New
  abbrev pub new_backend : Backend State
  new_backend = record {
    name = name;
    save = save;
    delete = delete;
    exists = exists;
    download = download;
    get_or_nil = get_or_nil;
    access_url = access_url;
    config_options = some config_options;
    validate_config = some (λ ctx values s. (validate_config (ctx s) values, s));
  }
