-- ===== src/Scope.antt =====
-- scope.go: tenant information. `W` is the state of everything outside the library. A caller's
-- TenantContext answers from that state, so two readings of it may differ.
use sharp_store.Prelude.{Option, none, some, [], Text}
use sharp_store.Errors.{Outcome}

-- context.Context, of which the library asks Err alone
abbrev pub Context : Type 0 → Type 0
Context W = W → Outcome

pub record TenantContext (W : Type 0) : Type 0 where
  pub tenant_id : W → Text
  pub tenant_code : W → Text
  pub tenant_name : W → Text

module _ {W : Type 0} where
  -- DefaultTenantContext and tenantContextSnapshot, whose methods return their fields
  abbrev pub default_tenant : Text → Text → Text → TenantContext W
  default_tenant id code name = record {
    tenant_id = λ _. id;
    tenant_code = λ _. code;
    tenant_name = λ _. name;
  }

  unfoldable pub no_tenant : TenantContext W
  no_tenant = default_tenant [] [] []

  unfoldable pub snapshot_tenant : Option (TenantContext W) → W → TenantContext W
  snapshot_tenant none w = default_tenant [] [] []
  snapshot_tenant (some t) w = default_tenant (t.tenant_id w) (t.tenant_code w) (t.tenant_name w)
