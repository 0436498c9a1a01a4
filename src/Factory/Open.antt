-- ===== src/Factory/Open.antt =====
-- Containers that a factory (factory.go) has opened.
use sharp_store.Prelude.{◌≡◌, ◌≢◌, refl, ap, ◌∙◌, ◌⊎◌, inl, inr, Option, some, [], Text, arith}
use sharp_store.Errors.{Error, Result, ok, err}
use sharp_store.Scope.{Context, TenantContext, snapshot_tenant}
use sharp_store.Config.{ContainerConfig, clone, tenant_scoped}
use sharp_store.Backend.{Backend, FileRequest}
use sharp_store.Cache.{ConfigCache}
use sharp_store.Loader.{ConfigOptions, load}
use sharp_store.Naming.{and_then, identity_naming_service}
use sharp_store.Container.{Container, make_request}
use sharp_store.Container.Requests.{make_request-default}
use sharp_store.Key.{default_key_builder, tenant_identifier}
use sharp_store.Key.Isolation.{tenant_isolation}
use sharp_store.Factory.{
  ContainerOptions, Factory, new_factory, open_container, opened, names_or_default, keys_or_default,
  cache_or_default,
}

-- The configuration that Open gets for its tenant.
abbrev pub open_load :
    {W : Type 0}
    → Factory W
    → Context W
    → Text
    → Option (TenantContext W)
    → W
    → Result ContainerConfig × W
open_load f ctx key tenant w =
    load f.configs (record { ctx = ctx; key = key; tenant = some (snapshot_tenant tenant w) }) w

-- An opened container has the loaded configuration, the backend that its name resolves to, the
-- services of the factory, and the tenant's answers as they were when Open was called.
pub record IsOpened {W : Type 0} (f : Factory W) (key : Text) (t : TenantContext W)
    (config : ContainerConfig) (c : Container W) : Type 0 where
  pub same_key : c.key ≡ key
  pub cloned : c.config ≡ clone config
  pub snapshot : c.tenant ≡ some t
  pub resolved : f.backends config.backend ≡ ok c.backend
  pub same_names : c.names ≡ f.names
  pub same_keys : c.keys ≡ f.keys

-- The three ways in which Open ends, after a load that gave `m`.
abbrev pub OpenCases :
    {W : Type 0}
    → Factory W
    → Text
    → TenantContext W
    → Result ContainerConfig
    → Result (Container W)
    → Type 0
OpenCases {W} f key t m o =
    ((e : Error) × (m ≡ err e) × (o ≡ err e))
    ⊎ ((config : ContainerConfig) × (e : Error) × (m ≡ ok config)
        × (f.backends config.backend ≡ err e)
        × (o ≡ err e))
    ⊎ ((config : ContainerConfig) × (c : Container W) × (m ≡ ok config)
        × (o ≡ ok c)
        × IsOpened f key t config c)

module _ {W : Type 0} (f : Factory W) (key : Text) (t : TenantContext W) where
  opened-cases :
      (config : ContainerConfig) (b : Result (Backend W))
      → f.backends config.backend ≡ b
      → OpenCases f key t (ok config) (opened f key t config b)
  opened-cases config (err e) h = inr (inl (config, e, refl, h, refl))
  opened-cases config (ok b) h = inr (
      inr (
        config,
        _,
        refl,
        refl,
        record {
          same_key = refl;
          cloned = refl;
          snapshot = refl;
          resolved = h;
          same_names = refl;
          same_keys = refl;
        },
      ))

  and_then-cases :
      (p : Result ContainerConfig × W)
      → OpenCases f key t p.0
          (and_then p (λ config w. (opened f key t config (f.backends config.backend), w))).0
  and_then-cases (err e, w) = inl (e, refl, refl)
  and_then-cases (ok config, w) = opened-cases config (f.backends config.backend) refl

-- Open fails with the error of the load or else with that of the resolver, and otherwise opens the
-- container of the loaded configuration for a snapshot of the tenant.
pub open_container-cases :
    {W : Type 0} (f : Factory W) (ctx : Context W) (key : Text) (tenant : Option (TenantContext W))
    (w : W)
    → OpenCases f key
        (snapshot_tenant tenant w)
        (open_load f ctx key tenant w).0
        (open_container f ctx key tenant w).0
unfolding open_container
open_container-cases f ctx key tenant w =
    and_then-cases f key (snapshot_tenant tenant w) (open_load f ctx key tenant w)

-- A snapshot answers at every later state as the caller's tenant did when it was taken.
pub snapshot_tenant-fixed :
    {W : Type 0} (t : TenantContext W) (w u : W)
    → ((snapshot_tenant (some t) w).tenant_id u ≡ t.tenant_id w)
      × ((snapshot_tenant (some t) w).tenant_code u ≡ t.tenant_code w)
      × ((snapshot_tenant (some t) w).tenant_name u ≡ t.tenant_name w)
unfolding snapshot_tenant
snapshot_tenant-fixed t w u = (refl, refl, refl)

-- If NewFactory succeeds, then it was given a source and a resolver, which it uses, and it has put in
-- the identity naming service, the default key builder and the memory cache for what was missing.
new_factory-ok :
    {W : Type 0} (memory : ConfigCache W) (o : ConfigOptions W) (p : ContainerOptions W)
    (f : Factory W)
    → new_factory memory (some o) (some p) ≡ ok f
    → (o.source ≡ some f.configs.source)
      × (f.configs.cache ≡ cache_or_default memory o.cache)
      × (p.backends ≡ some f.backends)
      × (f.names ≡ names_or_default p.names)
      × (f.keys ≡ keys_or_default p.keys)
unfolding new_factory
new_factory-ok memory o p f h = ground arith

-- Containers that are opened by one factory with the default services, for tenants with different
-- nonempty identifiers and from tenant-scoped configuration, never make requests with one key.
pub open_container-isolated :
    {W : Type 0} (f : Factory W) (key₁ key₂ : Text) (s t : TenantContext W) (a b : ContainerConfig)
    (c d : Container W) (ctx : Context W) (file₁ file₂ : Text) (w w₁ v v₁ : W) (q r : FileRequest W)
    → f.names ≡ identity_naming_service
    → f.keys ≡ default_key_builder
    → IsOpened f key₁ s a c
    → IsOpened f key₂ t b d
    → a.tenant_mode ≡ tenant_scoped
    → b.tenant_mode ≡ tenant_scoped
    → tenant_identifier s w ≢ []
    → tenant_identifier t v ≢ []
    → make_request c ctx file₁ w ≡ (ok q, w₁)
    → make_request d ctx file₂ v ≡ (ok r, v₁)
    → tenant_identifier s w ≢ tenant_identifier t v
    → q.key ≢ r.key
unfolding clone
open_container-isolated f key₁ key₂ s t a b c d ctx file₁ file₂ w w₁ v v₁ q r n k x y ma mb hs ht hq
      hr ne e =
    let (bq, _, tq, cq) =
      make_request-default c ctx file₁ w w₁ q (x.same_names ∙ n) (x.same_keys ∙ k) hq in
    let (br, _, tr, cr) =
      make_request-default d ctx file₂ v v₁ r (y.same_names ∙ n) (y.same_keys ∙ k) hr in
    ne
      (tenant_isolation q r w v r.key
        (record {
          tenant = s;
          scoped = ap (λ (z : ContainerConfig). z.tenant_mode) (cq ∙ ap clone x.cloned) ∙ ma;
          present = tq ∙ x.snapshot;
          named = refl;
          not_empty = hs;
        })
        (record {
          tenant = t;
          scoped = ap (λ (z : ContainerConfig). z.tenant_mode) (cr ∙ ap clone y.cloned) ∙ mb;
          present = tr ∙ y.snapshot;
          named = refl;
          not_empty = ht;
        })
        (bq ∙ ap ok e) br).0
