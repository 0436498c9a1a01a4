-- ===== src/Factory.antt =====
-- factory.go: from configuration and backends to opened containers.
pub mod Open
use sharp_store.Prelude.{ℕ, Option, none, some, [], Text}
use sharp_store.Errors.{Error, Result, ok, err, message}
use sharp_store.Scope.{Context, TenantContext, snapshot_tenant}
use sharp_store.Config.{ContainerConfig, clone}
use sharp_store.Backend.{Backend, BackendResolver}
use sharp_store.Naming.{NamingService, identity_naming_service, and_then}
use sharp_store.Key.{KeyBuilder, default_key_builder}
use sharp_store.Cache.{ConfigCache}
use sharp_store.Loader.{
  ConfigSource, ConfigOptions, CachedConfigSource, LoadRequest, load, new_cached_config_source,
}
use sharp_store.Container.{Container}

-- ContainerOptions: nil interfaces are `none`.
pub record ContainerOptions (W : Type 0) : Type 0 where
  pub backends : Option (BackendResolver W)
  pub names : Option (NamingService W)
  pub keys : Option (KeyBuilder W)

pub record Factory (W : Type 0) : Type 0 where
  pub configs : CachedConfigSource W
  pub backends : BackendResolver W
  pub names : NamingService W
  pub keys : KeyBuilder W

module _ {W : Type 0} where
  unfoldable pub new_container_options : Option (BackendResolver W) → ContainerOptions W
  new_container_options backends = record { backends = backends; names = none; keys = none }

  unfoldable pub with_naming_service :
      Option (ContainerOptions W) → Option (NamingService W) → Option (ContainerOptions W)
  with_naming_service none names = none
  with_naming_service (some o) names = some (record o { names = names })

  unfoldable pub with_key_builder :
      Option (ContainerOptions W) → Option (KeyBuilder W) → Option (ContainerOptions W)
  with_key_builder none keys = none
  with_key_builder (some o) keys = some (record o { keys = keys })

  abbrev pub names_or_default : Option (NamingService W) → NamingService W
  names_or_default none = identity_naming_service
  names_or_default (some names) = names

  abbrev pub keys_or_default : Option (KeyBuilder W) → KeyBuilder W
  keys_or_default none = default_key_builder
  keys_or_default (some keys) = keys

  abbrev pub with_backends :
      CachedConfigSource W → ContainerOptions W → Option (BackendResolver W) → Result (Factory W)
  with_backends configs o none = err (message "backend resolver is required" [])
  with_backends configs o (some backends) = ok (record {
    configs = configs;
    backends = backends;
    names = names_or_default o.names;
    keys = keys_or_default o.keys;
  })

  -- newFactory, whose `configs` is never nil here
  unfoldable pub factory_of :
      CachedConfigSource W → Option (ContainerOptions W) → Result (Factory W)
  factory_of configs none = err (message "backend resolver is required" [])
  factory_of configs (some o) = with_backends configs o o.backends

  abbrev pub cache_or_default : ConfigCache W → Option (ConfigCache W) → ConfigCache W
  cache_or_default memory none = memory
  cache_or_default memory (some cache) = cache

  abbrev pub with_source :
      ConfigCache W
      → ConfigOptions W
      → Option (ConfigSource W)
      → Option (ContainerOptions W)
      → Result (Factory W)
  with_source memory o none containers = err (message "config source is required" [])
  with_source memory o (some source) containers =
      factory_of (new_cached_config_source source (cache_or_default memory o.cache)) containers

  -- NewFactory; `memory` is what NewMemoryConfigCache() gives
  unfoldable pub new_factory :
      ConfigCache W → Option (ConfigOptions W) → Option (ContainerOptions W) → Result (Factory W)
  unfolding factory_of new_cached_config_source
  new_factory memory none containers = err (message "config source is required" [])
  new_factory memory (some o) containers = with_source memory o o.source containers

  abbrev pub opened :
      Factory W
      → Text
      → TenantContext W
      → ContainerConfig
      → Result (Backend W)
      → Result (Container W)
  opened f key tenant config (err e) = err e
  opened f key tenant config (ok backend) = ok (record {
    key = key;
    config = clone config;
    tenant = some tenant;
    backend = backend;
    names = f.names;
    keys = f.keys;
  })

  -- Open, if no other Load meets its own
  unfoldable pub open_container :
      Factory W → Context W → Text → Option (TenantContext W) → W → Result (Container W) × W
  unfolding load snapshot_tenant clone
  open_container f ctx key tenant w =
      let snapshot = snapshot_tenant tenant w in
      and_then (load f.configs (record { ctx = ctx; key = key; tenant = some snapshot }) w)
        λ config w₁. (opened f key snapshot config (f.backends config.backend), w₁)
