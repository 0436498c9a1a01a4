-- ===== src/Examples/Containers.antt =====
-- Containers of container.go and factory.go with the default services.
use mathlib.Core.List.{lookup}
use mathlib.Core.Logic.{◌≢◌}
use sharp_store.Prelude.{[], ◌≡◌, refl, true, false, none, some, ◌∷◌, Text, text, text_discrete}
use sharp_store.Prelude.Texts.{fields}
use sharp_store.Errors.{Error, Result, ok, err, message}
use sharp_store.Scope.{TenantContext, snapshot_tenant}
use sharp_store.Config.{clone}
use sharp_store.Backend.{Backend, FileRequest}
use sharp_store.Backend.Registry.{new_backend_registry, resolve}
use sharp_store.Naming.{identity_naming_service}
use sharp_store.Key.{build_key, default_key_builder, tenant_identifier}
use sharp_store.Key.Safety.{HasNoDots}
use sharp_store.Container.{
  Container, AccessUrlOptions, make_request, save, delete, exists, download, get_or_nil, get,
  access_url,
}
use sharp_store.Container.Requests.{dots_are_refused, make_request-default}
use sharp_store.Loader.{ConfigOptions}
use sharp_store.Factory.{ContainerOptions, Factory, new_factory, open_container}
use sharp_store.Factory.Open.{
  IsOpened, OpenCases, open_load, open_container-cases, open_container-isolated,
}
use sharp_store.Examples.{World, alive, acme, zeta, scoped_config, idle_backend}
use sharp_store.Examples.Loads.{docs_source, cache_of, without_cache}

abbrev files_only : Text → Result (Backend World)
files_only = resolve (new_backend_registry (some (idle_backend (text "files")) ∷ []))

abbrev container_of : TenantContext World → Container World
container_of t = record {
  key = text "docs";
  config = clone scoped_config;
  tenant = some t;
  backend = idle_backend (text "files");
  names = identity_naming_service;
  keys = default_key_builder;
}

abbrev built : TenantContext World → Text → Text → FileRequest World
built t file_id key = record {
  container = text "docs";
  config = clone (clone scoped_config);
  tenant = some t;
  file_id = file_id;
  key = key;
}

abbrev refusal : Error
refusal = message "invalid file ID %q" (text "../x" ∷ [])

abbrev no_options : AccessUrlOptions
no_options = record { expires_at = none; check_exists = true }

goes_up : ¬ HasNoDots (text "../x")
unfolding fields
goes_up h = h.0.1 refl

dots_are_refused_example :
    (save (container_of acme) alive (text "../x") none true tt ≡ (([], some refusal), tt))
    × (delete (container_of acme) alive (text "../x") tt ≡ ((false, some refusal), tt))
    × (exists (container_of acme) alive (text "../x") tt ≡ ((false, some refusal), tt))
    × (download (container_of acme) alive (text "../x") (text "/tmp/x") tt
        ≡ ((false, some refusal), tt))
    × (get_or_nil (container_of acme) alive (text "../x") tt ≡ ((none, some refusal), tt))
    × (get (container_of acme) alive (text "../x") tt ≡ ((none, some refusal), tt))
    × (access_url (container_of acme) alive (text "../x") no_options tt ≡ (([], some refusal), tt))
dots_are_refused_example =
    dots_are_refused (container_of acme) alive (text "../x") tt none true (text "/tmp/x") no_options
      refl refl goes_up

acme_request :
    make_request (container_of acme) alive (text "a") tt
    ≡ (ok (built acme (text "a") (text "acme/a")), tt)
unfolding make_request identity_naming_service default_key_builder text_discrete
acme_request = refl

zeta_request :
    make_request (container_of zeta) alive (text "a") tt
    ≡ (ok (built zeta (text "a") (text "23/a")), tt)
unfolding make_request identity_naming_service default_key_builder text_discrete
zeta_request = refl

make_request-default_example :
    (build_key (built acme (text "a") (text "acme/a")) tt ≡ ok (text "acme/a"))
    × (text "a" ≡ text "a")
    × (some acme ≡ some (acme {W = World}))
    × (clone (clone scoped_config) ≡ clone (container_of acme).config)
make_request-default_example =
    make_request-default (container_of acme) alive (text "a") tt tt
      (built acme (text "a") (text "acme/a")) refl refl acme_request

abbrev factory : Factory World
factory = record {
  configs = without_cache;
  backends = files_only;
  names = identity_naming_service;
  keys = default_key_builder;
}

abbrev config_options : ConfigOptions World
config_options = record {
  source = some docs_source;
  cache = some (cache_of (err (message "connection refused" [])));
}

abbrev container_options : ContainerOptions World
container_options = record { backends = some files_only; names = none; keys = none }

factory_is_made :
    new_factory (cache_of (ok none)) (some config_options) (some container_options) ≡ ok factory
unfolding new_factory
factory_is_made = refl

open_container-cases_example :
    OpenCases factory
      (text "docs")
      (snapshot_tenant (some acme) tt)
      (open_load factory alive (text "docs") (some acme) tt).0
      (open_container factory alive (text "docs") (some acme) tt).0
open_container-cases_example = open_container-cases factory alive (text "docs") (some acme) tt

container_of-IsOpened :
    (t : TenantContext World) → IsOpened factory (text "docs") t scoped_config (container_of t)
unfolding resolve new_backend_registry text_discrete lookup
container_of-IsOpened t = record {
  same_key = refl;
  cloned = refl;
  snapshot = refl;
  resolved = refl;
  same_names = refl;
  same_keys = refl;
}

different : tenant_identifier acme tt ≢ tenant_identifier zeta tt
unfolding tenant_identifier
different = λ e. cc

acme_is_named : tenant_identifier acme tt ≢ []
unfolding tenant_identifier
acme_is_named = λ e. cc

zeta_is_named : tenant_identifier zeta tt ≢ []
unfolding tenant_identifier
zeta_is_named = λ e. cc

open_container-isolated_example : text "acme/a" ≢ text "23/a"
open_container-isolated_example =
    open_container-isolated factory (text "docs") (text "docs") acme zeta scoped_config
      scoped_config (container_of acme) (container_of zeta) alive (text "a") (text "a") tt tt tt tt
      (built acme (text "a") (text "acme/a")) (built zeta (text "a") (text "23/a")) refl refl
      (container_of-IsOpened acme) (container_of-IsOpened zeta) refl refl acme_is_named
      zeta_is_named acme_request zeta_request different
