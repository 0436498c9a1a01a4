-- ===== src/Backend.antt =====
-- backend.go: requests, the Backend interface and the registry. A method of an interface acts on
-- the outside state `W`.
pub mod Registry
use sharp_store.Prelude.{ℕ, Bool, Option, List, Text}
use sharp_store.Errors.{Error, Outcome, Result}
use sharp_store.Scope.{Context, TenantContext}
use sharp_store.Config.{ContainerConfig, Values}

-- io.Reader and io.ReadCloser: the bytes that it gives before it ends, and the error that it ends
-- with, if not by io.EOF
pub record Reader : Type 0 where
  pub content : List ℕ
  pub failure : Outcome

pub record FileRequest (W : Type 0) : Type 0 where
  pub container : Text
  pub config : ContainerConfig
  pub tenant : Option (TenantContext W)
  pub file_id : Text
  pub key : Text

pub record SaveRequest (W : Type 0) : Type 0 where
  pub file : FileRequest W
  pub open file use *
  pub body : Option Reader
  pub overwrite : Bool

pub record DownloadRequest (W : Type 0) : Type 0 where
  pub file : FileRequest W
  pub open file use *
  pub destination : Text

-- A time is its number of nanoseconds since some day before all others.
pub record AccessUrlRequest (W : Type 0) : Type 0 where
  pub file : FileRequest W
  pub open file use *
  pub expires_at : Option ℕ
  pub check_exists : Bool

pub record ConfigOption : Type 0 where
  pub name : Text
  pub kind : Text
  pub required : Bool
  pub example : Text
  pub description : Text
  pub sensitive : Bool

pub record BackendInfo : Type 0 where
  pub name : Text
  pub options : List ConfigOption

-- The interface, with the two optional ones: `config_options` is there if the backend is a
-- BackendDescriptor, and `validate_config` if it is a BackendConfigValidator.
pub record Backend (W : Type 0) : Type 0 where
  pub name : Text
  pub save : Context W → SaveRequest W → W → (Text × Outcome) × W
  pub delete : Context W → FileRequest W → W → (Bool × Outcome) × W
  pub exists : Context W → FileRequest W → W → (Bool × Outcome) × W
  pub download : Context W → DownloadRequest W → W → (Bool × Outcome) × W
  pub get_or_nil : Context W → FileRequest W → W → (Option Reader × Outcome) × W
  pub access_url : Context W → AccessUrlRequest W → W → (Text × Outcome) × W
  pub config_options : Option (List ConfigOption)
  pub validate_config : Option (Context W → Values → W → Outcome × W)

-- BackendResolver: `Resolve` hands out a backend or an error.
abbrev pub BackendResolver : Type 0 → Type 0
BackendResolver W = Text → Result (Backend W)
