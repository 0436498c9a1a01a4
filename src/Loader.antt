-- ===== src/Loader.antt =====
-- config_loader.go: configuration by way of a cache, with one load at a time for each key.
-- `load` is a call of cachedConfigSource.Load that no other call meets; Loader/Flight.antt has the
-- calls that run together, made of the same parts.
pub mod Flight
pub mod Outage
use sharp_store.Prelude.{Bool, true, false, Option, none, some, [], Text, text_discrete, ℕ}
use sharp_store.Errors.{Error, Outcome, Result, ok, err}
use sharp_store.Scope.{Context, TenantContext}
use sharp_store.Config.{ContainerConfig, clone}
use sharp_store.Cache.{ConfigCache, VersionedOperations}

-- ConfigSource; what Load returns beside an error is never read.
abbrev pub ConfigSource : Type 0 → Type 0
ConfigSource W = Context W → Text → Option (TenantContext W) → W → Result ContainerConfig × W

-- ConfigOptions: nil interfaces are `none`.
pub record ConfigOptions (W : Type 0) : Type 0 where
  pub source : Option (ConfigSource W)
  pub cache : Option (ConfigCache W)

-- cachedConfigSource, without the table of running loads
pub record CachedConfigSource (W : Type 0) : Type 0 where
  pub source : ConfigSource W
  pub cache : ConfigCache W

pub record LoadKey : Type 0 where
  pub tenant_id : Text
  pub key : Text

pub LoadKey-discrete : Discrete LoadKey
LoadKey-discrete = hlevel text_discrete

-- The arguments of a call of Load.
pub record LoadRequest (W : Type 0) : Type 0 where
  pub ctx : Context W
  pub key : Text
  pub tenant : Option (TenantContext W)

-- What the second look into the cache gives: a configuration, or the version to fill with.
pub data Recheck : Type 0 where
  found : ContainerConfig → Recheck
  missing : Text → Recheck

abbrev pub clone_result : Result ContainerConfig → Result ContainerConfig
clone_result (ok c) = ok (clone c)
clone_result (err e) = err e

module _ {W : Type 0} where
  unfoldable pub new_config_options : Option (ConfigSource W) → ConfigOptions W
  new_config_options source = record { source = source; cache = none }

  -- WithCache on a pointer that may be nil
  unfoldable pub with_cache :
      Option (ConfigOptions W) → Option (ConfigCache W) → Option (ConfigOptions W)
  with_cache none cache = none
  with_cache (some o) cache = some (record o { cache = cache })

  unfoldable pub new_cached_config_source : ConfigSource W → ConfigCache W → CachedConfigSource W
  new_cached_config_source source cache = record { source = source; cache = cache }

  abbrev pub new_load_key : LoadRequest W → W → LoadKey
  new_load_key r w = key_of r.tenant
    where
      key_of : Option (TenantContext W) → LoadKey
      key_of none = record { tenant_id = []; key = r.key }
      key_of (some t) = record { tenant_id = t.tenant_id w; key = r.key }

  module _ (s : CachedConfigSource W) (r : LoadRequest W) where
    abbrev pub hit : Result (Option ContainerConfig) → Option ContainerConfig
    hit (ok o) = o
    hit (err e) = none

    -- `config, ok, err := s.cache.Get(...)`, where an error is a miss
    unfoldable pub first_read : W → Option ContainerConfig × W
    first_read w = let (m, w') = s.cache.get r.ctx r.key r.tenant w in (hit m, w')

    abbrev versioned_recheck : Result (Option ContainerConfig × Text) → Recheck
    versioned_recheck (ok (some c, version)) = found c
    versioned_recheck (ok (none, version)) = missing version
    versioned_recheck (err e) = missing []

    abbrev plain_recheck : Result (Option ContainerConfig) → Recheck
    plain_recheck (ok (some c)) = found c
    plain_recheck (ok none) = missing []
    plain_recheck (err e) = missing []

    abbrev pub recheck_by : Option (VersionedOperations W) → W → Recheck × W
    recheck_by (some v) w =
        let (m, w') = v.get_with_version r.ctx r.key r.tenant w in (versioned_recheck m, w')
    recheck_by none w = let (m, w') = s.cache.get r.ctx r.key r.tenant w in (plain_recheck m, w')

    -- the leading call's own look into the cache, where an error is a miss with no version
    unfoldable pub recheck : W → Recheck × W
    recheck w = recheck_by s.cache.versioned w

    -- `call.config, call.err = s.source.Load(...)`, and the clone of what was loaded
    unfoldable pub from_source : W → Result ContainerConfig × W
    unfolding clone
    from_source w = let (m, w') = s.source r.ctx r.key r.tenant w in (clone_result m, w')

    abbrev pub fill_by : Option (VersionedOperations W) → Result ContainerConfig → Text → W → W
    fill_by (some v) (ok c) version w = (v.set_if_version r.ctx r.key r.tenant c version w).1
    fill_by (some v) (err e) version w = w
    fill_by none m version w = w

    -- the best-effort fill, whose result is dropped
    unfoldable pub fill : Result ContainerConfig → Text → W → W
    fill m version w = fill_by s.cache.versioned m version w

    -- the leading call up to the close of `call.done`
    abbrev pub lead_from : Recheck → W → Result ContainerConfig × W
    lead_from (found c) w = (ok c, w)
    lead_from (missing version) w = let (m, w') = from_source w in (m, fill m version w')

    unfoldable pub lead : W → Result ContainerConfig × W
    unfolding recheck from_source fill
    lead w = let (k, w') = recheck w in lead_from k w'

    abbrev pub load_from : Option ContainerConfig → W → Result ContainerConfig × W
    load_from (some c) w = (ok c, w)
    load_from none w = let (m, w') = lead w in (clone_result m, w')

    unfoldable pub load : W → Result ContainerConfig × W
    unfolding first_read lead
    load w = let (o, w') = first_read w in load_from o w'
