-- ===== src/Source.antt =====
-- source/static/static.go: configuration from memory, the same for every tenant.
use mathlib.Core.List.{lookup}
use sharp_store.Prelude.{
  ◌≡◌, refl, ◌⊎◌, inl, inr, Option-cases, Option, none, some, Text, Map, text_discrete,
}
use sharp_store.Prelude.Maps.{copy_map, lookup-copy_map}
use sharp_store.Errors.{Result, ok, err, sentinel, container_not_found}
use sharp_store.Scope.{Context, TenantContext}
use sharp_store.Config.{ContainerConfig, clone}
use sharp_store.Loader.{ConfigSource}

-- Source of static.go
pub record StaticSource : Type 0 where
  pub configs : Map Text ContainerConfig

-- New
unfoldable pub new_static_source : Map Text ContainerConfig → StaticSource
unfolding copy_map clone
new_static_source configs = record { configs = copy_map text_discrete clone configs }

abbrev pub loaded : Option ContainerConfig → Result ContainerConfig
loaded none = err (sentinel container_not_found)
loaded (some c) = ok (clone c)

-- Load
unfoldable pub load_static : {W : Type 0} → StaticSource → ConfigSource W
unfolding clone
load_static s ctx key tenant w = (loaded (lookup text_discrete key s.configs), w)

-- A static source knows the names that it was made with: for such a name it gives, to every tenant,
-- a clone of the clone that it has kept, and for any other the error ErrContainerNotFound. In either
-- case it acts on nothing.
pub load_static-cases :
    {W : Type 0} (m : Map Text ContainerConfig) (ctx : Context W) (key : Text)
    (tenant : Option (TenantContext W)) (w : W)
    → ((c : ContainerConfig) × (lookup text_discrete key m ≡ some c)
        × (load_static (new_static_source m) ctx key tenant w ≡ (ok (clone (clone c)), w)))
      ⊎ ((lookup text_discrete key m ≡ none)
          × (load_static (new_static_source m) ctx key tenant w
              ≡ (err (sentinel container_not_found), w)))
unfolding load_static new_static_source
load_static-cases m ctx key tenant w = elim (Option-cases (lookup text_discrete key m)) [
  | inl e ↦ inr (e, rw (lookup-copy_map, e) refl)
  | inr (c, e) ↦ inl (c, e, rw (lookup-copy_map, e) refl)
]
