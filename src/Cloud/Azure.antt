-- ===== src/Cloud/Azure.antt =====
-- backend/azure/azure.go: Azure Blob Storage. `AzBlob` is what the code uses of azure-sdk-for-go.
use sharp_store.Prelude.{
  [], Bool, true, false, not, Option, none, some, List, ◌∷◌, Text, text, text_discrete, ◌==◌,
}
use sharp_store.Errors.{Error, Outcome, Result, ok, check, sentinel, unsupported}
use sharp_store.Scope.{Context}
use sharp_store.Config.{Values, get_value}
use sharp_store.Backend.{
  Backend, Reader, ConfigOption, FileRequest, SaveRequest, DownloadRequest, AccessUrlRequest,
}
use sharp_store.FileUtil.{write_file}
use sharp_store.Providers.{parse_bool}
use sharp_store.Providers.Azure.{name}
use sharp_store.Cloud.{
  Cloud, Act, ◌>>=◌, ◌>>◌, lift, pure, asks, returned, required_body, remotely, client_for,
  write_found, outcome,
}
use sharp_store.Cloud.Settings.{
  ServiceError, is_service, has_code, flag_or_false, read_flag, values_in, missing_value,
  config_option,
}
use sharp_store.Cloud.Steps.{caught, or_create, tolerating, upload_with, found, found_body}

pub record AzBlob (C R : Type 0) : Type 0 where
  pub new_client : Text → R → Result C × R
  pub get_container : C → Text → Context R → R → Result (Unit {0}) × R
  pub create_container : C → Text → Context R → R → Result (Unit {0}) × R
  -- the last argument but two says that the upload has the condition `If-None-Match: *`
  pub upload_stream : C → Text → Text → Reader → Bool → Context R → R → Result (Unit {0}) × R
  pub get_properties : C → Text → Text → Context R → R → Result (Unit {0}) × R
  pub delete_blob : C → Text → Text → Context R → R → Result (Unit {0}) × R
  pub download_stream : C → Text → Text → Context R → R → Result Reader × R
  pub response_error : Error → Option ServiceError

abbrev pub create_key : Text
create_key = text "create_container_if_not_exists"

abbrev pub required_keys : List Text
required_keys = text "connection_string" ∷ text "container" ∷ []

abbrev pub config_options : List ConfigOption
config_options =
    config_option (text "connection_string") (text "string") true true []
      (text "Azure Storage connection string.")
    ∷ config_option (text "container") (text "string") true false []
        (text "Azure Blob container name.")
    ∷ config_option create_key (text "bool") false false (text "false")
        (text "Create the blob container before saving when it does not exist.")
    ∷ []

abbrev pub or_flag : Outcome → Values → Outcome
or_flag (some e) values = some e
or_flag none values = outcome (read_flag values create_key)

-- ValidateConfig
unfoldable pub validate_config : Outcome → Values → Outcome
unfolding missing_value read_flag
validate_config (some e) values = some e
validate_config none values = or_flag (missing_value required_keys values) values

module _ {C R : Type 0} (sdk : AzBlob C R) where
  -- the key of a client is its connection string
  abbrev pub State : Type 0
  State = Cloud Text C R

  -- isNotFound
  abbrev pub is_not_found : Error → Bool
  is_not_found e = is_service (λ d. d.status_code == 404) (sdk.response_error e)

  abbrev pub is_conflict : Error → Bool
  is_conflict e =
      is_service (has_code (text "ConditionNotMet" ∷ text "BlobAlreadyExists" ∷ []))
        (sdk.response_error e)

  abbrev pub is_container_exists : Error → Bool
  is_container_exists e =
      is_service (has_code (text "ContainerAlreadyExists" ∷ [])) (sdk.response_error e)

  -- client: the client and the container's name
  unfoldable pub client : Context State → Values → Act State (C × Text)
  unfolding validate_config client_for text_discrete
  client ctx v = do
    asks (λ s. check (validate_config (ctx s) v))
    c ←
        client_for text_discrete (get_value v (text "connection_string"))
          (remotely ctx (λ c. sdk.new_client (get_value v (text "connection_string"))))
    pure (c, get_value v (text "container"))

  -- ensureContainer
  unfoldable pub ensure_container : Context State → C × Text → Bool → Act State (Unit {0})
  ensure_container ctx b false s = (ok tt, s)
  ensure_container ctx b true s =
      caught (remotely ctx (sdk.get_container b.0 b.1))
        (or_create is_not_found
          (caught (remotely ctx (sdk.create_container b.0 b.1)) (tolerating is_container_exists)))
        s

  abbrev pub upload : Context State → C × Text → SaveRequest State → Reader → Act State Text
  upload ctx b r body =
      upload_with is_conflict r.overwrite r.file_id
        (remotely ctx (sdk.upload_stream b.0 b.1 r.key body (not r.overwrite)))

  unfoldable pub save_object : Context State → SaveRequest State → Act State Text
  unfolding client ensure_container parse_bool get_value
  save_object ctx r = do
    body ← lift (required_body r.body)
    b ← client ctx (values_in r.config)
    ensure_container ctx b (flag_or_false (parse_bool (get_value (values_in r.config) create_key)))
    upload ctx b r body

  -- Save
  unfoldable pub save : Context State → SaveRequest State → State → (Text × Outcome) × State
  unfolding save_object
  save ctx r s = returned [] (save_object ctx r s)

  abbrev pub delete_at : Context State → C × Text → Text → Act State Bool
  delete_at ctx b key = found is_not_found (remotely ctx (sdk.delete_blob b.0 b.1 key))

  -- Delete
  unfoldable pub delete : Context State → FileRequest State → State → (Bool × Outcome) × State
  unfolding client
  delete ctx r s =
      returned false ((client ctx (values_in r.config) >>= λ b. delete_at ctx b r.key) s)

  abbrev pub head_at : Context State → C × Text → Text → Act State Bool
  head_at ctx b key = found is_not_found (remotely ctx (sdk.get_properties b.0 b.1 key))

  -- Exists
  unfoldable pub exists : Context State → FileRequest State → State → (Bool × Outcome) × State
  unfolding client
  exists ctx r s = returned false ((client ctx (values_in r.config) >>= λ b. head_at ctx b r.key) s)

  abbrev pub get_at : Context State → C × Text → Text → Act State (Option Reader)
  get_at ctx b key = found_body is_not_found (remotely ctx (sdk.download_stream b.0 b.1 key))

  -- GetOrNil
  unfoldable pub get_or_nil :
      Context State → FileRequest State → State → (Option Reader × Outcome) × State
  unfolding client
  get_or_nil ctx r s =
      returned none ((client ctx (values_in r.config) >>= λ b. get_at ctx b r.key) s)

  -- Download
  unfoldable pub download : Context State → DownloadRequest State → State → (Bool × Outcome) × State
  unfolding get_or_nil write_file
  download ctx r s = write_found r.destination (get_or_nil ctx r.file s)

  -- AccessURL
  unfoldable pub access_url :
      Context State → AccessUrlRequest State → State → (Text × Outcome) × State
  access_url ctx r s = (([], some (sentinel unsupported)), s)

  -- New
  abbrev pub new_backend : Backend State
  new_backend = record {
    name = name;
    save = save;
    delete = delete;
    exists = exists;
    download = download;
    get_or_nil = get_or_nil;
    access_url = access_url;
    config_options = some config_options;
    validate_config = some (λ ctx values s. (validate_config (ctx s) values, s));
  }
