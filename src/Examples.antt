-- ===== src/Examples.antt =====
-- The theorems at concrete inputs, and what the examples share.
pub mod Keys
pub mod Backends
pub mod Caches
pub mod Loads
pub mod Containers
pub mod Files
pub mod Stores
pub mod Clouds
pub mod Objects
use sharp_store.Prelude.{ℕ, Bool, true, false, Option, none, some, List, [], ◌∷◌, Text, text}
use sharp_store.Errors.{Result, ok, err, message}
use sharp_store.Scope.{Context, TenantContext, default_tenant}
use sharp_store.Config.{ContainerConfig, tenant_scoped}
use sharp_store.Backend.{Backend, BackendInfo, ConfigOption, FileRequest, AccessUrlRequest}

-- an outside state that nothing reads
abbrev pub World : Type 0
World = Unit

abbrev pub alive : {W : Type 0} → Context W
alive w = none

abbrev pub acme : {W : Type 0} → TenantContext W
acme = default_tenant (text "17") (text "acme") (text "Acme Ltd")

-- a tenant without a code
abbrev pub zeta : {W : Type 0} → TenantContext W
zeta = default_tenant (text "23") [] (text "Zeta")

abbrev pub scoped_config : ContainerConfig
scoped_config = record {
  backend = text "files";
  tenant_mode = tenant_scoped;
  values = some ((text "root", text "/data") ∷ []);
}

abbrev pub request_of : {W : Type 0} → TenantContext W → Text → FileRequest W
request_of t file_id = record {
  container = text "docs";
  config = scoped_config;
  tenant = some t;
  file_id = file_id;
  key = [];
}

-- a backend that finds nothing
abbrev pub idle_backend : Text → Backend World
idle_backend name = record {
  name = name;
  save = λ ctx r w. ((r.file_id, none), w);
  delete = λ ctx r w. ((false, none), w);
  exists = λ ctx r w. ((false, none), w);
  download = λ ctx r w. ((false, none), w);
  get_or_nil = λ ctx r w. ((none, none), w);
  access_url = λ ctx r w. (([], none), w);
  config_options = none;
  validate_config = some (λ ctx values w. (some (message "root is required" []), w));
}
