-- ===== src/Cloud/Obs.antt =====
-- backend/obs/obs.go: Huawei OBS. `Obs` is what the code uses of huaweicloud-sdk-go-obs, and of
-- time.Now. The SDK's calls take no context.
use sharp_store.Prelude.{
  [], ℕ, ◌/◌, Bool, true, false, ◌||◌, not, Option, none, some, List, ◌∷◌, Text, text,
  text_discrete,
}
use sharp_store.Errors.{Error, Outcome, Result, ok, check}
use sharp_store.Scope.{Context}
use sharp_store.Config.{Values, get_value}
use sharp_store.Backend.{
  Backend, Reader, ConfigOption, FileRequest, SaveRequest, DownloadRequest, AccessUrlRequest,
}
use sharp_store.FileUtil.{write_file}
use sharp_store.Providers.{parse_bool}
use sharp_store.Providers.Obs.{name}
use sharp_store.Cloud.{
  Cloud, Act, ◌>>=◌, ◌>>◌, lift, pure, asks, returned, alive, required_body, remotely, client_for,
  write_found, outcome, as_result, require_present,
}
use sharp_store.Cloud.Settings.{
  ServiceError, is_service, has_code, flag_or_false, read_flag, values_in, missing_value, second,
  past_error, time_left_or, config_option,
}
use sharp_store.Cloud.Urls.{starts_with}
use sharp_store.Cloud.Steps.{caught, or_create, tolerating, upload_with, found, found_body}

pub record Obs (C R : Type 0) : Type 0 where
  pub new_client : Text → Text → Text → R → Result C × R
  pub head_bucket : C → Text → R → Result (Unit {0}) × R
  pub create_bucket : C → Text → R → Result (Unit {0}) × R
  -- the last argument but one is the header x-obs-forbid-overwrite
  pub put_object : C → Text → Text → Reader → Bool → R → Result (Unit {0}) × R
  pub head_object : C → Text → Text → R → Result (Unit {0}) × R
  pub delete_object : C → Text → Text → R → Result (Unit {0}) × R
  pub get_object : C → Text → Text → R → Result Reader × R
  pub create_signed_url : C → Text → Text → ℕ → R → Result Text × R
  pub service_error : Error → Option ServiceError
  pub now : R → ℕ

pub record ClientKey : Type 0 where
  pub endpoint : Text
  pub access_key_id : Text
  pub secret_access_key : Text

unfoldable pub ClientKey-discrete : Discrete ClientKey
ClientKey-discrete = hlevel text_discrete

abbrev pub create_key : Text
create_key = text "create_bucket_if_not_exists"

abbrev pub required_keys : List Text
required_keys =
    text "endpoint" ∷ text "bucket" ∷ text "access_key_id" ∷ text "secret_access_key" ∷ []

abbrev pub config_options : List ConfigOption
config_options =
    config_option (text "endpoint") (text "string") true false
      (text "https://obs.cn-north-4.myhuaweicloud.com")
      (text "Huawei OBS endpoint passed to the SDK.")
    ∷ config_option (text "bucket") (text "string") true false [] []
    ∷ config_option (text "access_key_id") (text "string") true true [] []
    ∷ config_option (text "secret_access_key") (text "string") true true [] []
    ∷ config_option create_key (text "bool") false false (text "false")
        (text "Create the OBS bucket before saving when it does not exist.")
    ∷ []

abbrev pub or_flag : Outcome → Values → Outcome
or_flag (some e) values = some e
or_flag none values = outcome (read_flag values create_key)

-- ValidateConfig
unfoldable pub validate_config : Outcome → Values → Outcome
unfolding missing_value read_flag
validate_config (some e) values = some e
validate_config none values = or_flag (missing_value required_keys values) values

-- the key of the client of a configuration
abbrev pub client_key : Values → ClientKey
client_key v = record {
  endpoint = get_value v (text "endpoint");
  access_key_id = get_value v (text "access_key_id");
  secret_access_key = get_value v (text "secret_access_key");
}

-- int(d.Seconds()) of what is left, and an hour by default. The float64 that Seconds returns is
-- rounded to the right second below 2 ^ 24 seconds.
abbrev pub url_seconds : Option ℕ → ℕ → Result ℕ
url_seconds = time_left_or past_error (λ d. d / second) 3600

module _ {C R : Type 0} (sdk : Obs C R) where
  abbrev pub State : Type 0
  State = Cloud ClientKey C R

  -- strings.HasPrefix(e.Status, "404")
  abbrev pub is_404 : ServiceError → Bool
  is_404 e = starts_with (text "404") e.status

  -- isNotFound
  abbrev pub is_not_found : Error → Bool
  is_not_found e =
      is_service (λ d. has_code (text "NoSuchKey" ∷ text "NoSuchObject" ∷ []) d || is_404 d)
        (sdk.service_error e)

  -- isBucketNotFound
  abbrev pub is_bucket_not_found : Error → Bool
  is_bucket_not_found e =
      is_service (λ d. has_code (text "NoSuchBucket" ∷ []) d || is_404 d) (sdk.service_error e)

  -- isBucketExists
  abbrev pub is_bucket_exists : Error → Bool
  is_bucket_exists e =
      is_service (has_code (text "BucketAlreadyExists" ∷ text "BucketAlreadyOwnedByYou" ∷ []))
        (sdk.service_error e)

  abbrev pub is_exists_already : Error → Bool
  is_exists_already e =
      is_service (has_code (text "ObjectAlreadyExists" ∷ [])) (sdk.service_error e)

  abbrev pub make_client : Context State → Values → Act State C
  make_client ctx v = remotely ctx λ c.
      sdk.new_client (get_value v (text "access_key_id")) (get_value v (text "secret_access_key"))
        (get_value v (text "endpoint"))

  -- client: the client and the bucket's name
  unfoldable pub client : Context State → Values → Act State (C × Text)
  unfolding validate_config client_for ClientKey-discrete
  client ctx v = do
    asks (λ s. check (validate_config (ctx s) v))
    c ← client_for ClientKey-discrete (client_key v) (make_client ctx v)
    pure (c, get_value v (text "bucket"))

  -- `if create`
  unfoldable pub ensure_bucket : Context State → C × Text → Bool → Act State (Unit {0})
  ensure_bucket ctx b false s = (ok tt, s)
  ensure_bucket ctx b true s =
      caught (remotely ctx (λ c. sdk.head_bucket b.0 b.1))
        (or_create is_bucket_not_found
          (caught (remotely ctx (λ c. sdk.create_bucket b.0 b.1)) (tolerating is_bucket_exists)))
        s

  abbrev pub upload : Context State → C × Text → SaveRequest State → Reader → Act State Text
  upload ctx b r body =
      upload_with is_exists_already r.overwrite r.file_id
        (remotely ctx (λ c. sdk.put_object b.0 b.1 r.key body (not r.overwrite)))

  unfoldable pub save_object : Context State → SaveRequest State → Act State Text
  unfolding client ensure_bucket parse_bool get_value
  save_object ctx r = do
    alive ctx
    body ← lift (required_body r.body)
    b ← client ctx (values_in r.config)
    ensure_bucket ctx b (flag_or_false (parse_bool (get_value (values_in r.config) create_key)))
    upload ctx b r body

  -- Save
  unfoldable pub save : Context State → SaveRequest State → State → (Text × Outcome) × State
  unfolding save_object
  save ctx r s = returned [] (save_object ctx r s)

  -- the client of a method that asks the context first
  abbrev pub open_alive : Context State → FileRequest State → Act State (C × Text)
  open_alive ctx r = alive ctx >> client ctx (values_in r.config)

  abbrev pub delete_at : Context State → C × Text → Text → Act State Bool
  delete_at ctx b key = found is_not_found (remotely ctx (λ c. sdk.delete_object b.0 b.1 key))

  -- Delete
  unfoldable pub delete : Context State → FileRequest State → State → (Bool × Outcome) × State
  unfolding client
  delete ctx r s = returned false ((open_alive ctx r >>= λ b. delete_at ctx b r.key) s)

  abbrev pub head_at : Context State → C × Text → Text → Act State Bool
  head_at ctx b key = found is_not_found (remotely ctx (λ c. sdk.head_object b.0 b.1 key))

  -- Exists
  unfoldable pub exists : Context State → FileRequest State → State → (Bool × Outcome) × State
  unfolding client
  exists ctx r s = returned false ((open_alive ctx r >>= λ b. head_at ctx b r.key) s)

  abbrev pub get_at : Context State → C × Text → Text → Act State (Option Reader)
  get_at ctx b key = found_body is_not_found (remotely ctx (λ c. sdk.get_object b.0 b.1 key))

  -- GetOrNil
  unfoldable pub get_or_nil :
      Context State → FileRequest State → State → (Option Reader × Outcome) × State
  unfolding client
  get_or_nil ctx r s = returned none ((open_alive ctx r >>= λ b. get_at ctx b r.key) s)

  -- Download
  unfoldable pub download : Context State → DownloadRequest State → State → (Bool × Outcome) × State
  unfolding get_or_nil write_file
  download ctx r s = write_found r.destination (get_or_nil ctx r.file s)

  unfoldable pub sign_url : Context State → AccessUrlRequest State → Act State Text
  unfolding client exists
  sign_url ctx r = do
    require_present r.check_exists (λ s. as_result (exists ctx r.file s))
    b ← client ctx (values_in r.config)
    seconds ← asks (λ s. url_seconds r.expires_at (sdk.now s.remote))
    remotely ctx (λ c. sdk.create_signed_url b.0 b.1 r.key seconds)

  -- AccessURL
  unfoldable pub access_url :
      Context State → AccessUrlRequest State → State → (Text × Outcome) × State
  unfolding sign_url
  access_url ctx r s = returned [] (sign_url ctx r s)

  -- New
  abbrev pub new_backend : Backend State
  new_backend = record {
    name = name;
    save = save;
    delete = delete;
    exists = exists;
    download = download;
    get_or_nil = get_or_nil;
    access_url = access_url;
    config_options = some config_options;
    validate_config = some (λ ctx values s. (validate_config (ctx s) values, s));
  }
