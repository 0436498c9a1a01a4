-- ===== src/Container.antt =====
-- container.go: an opened container. Every operation normalizes the name, builds the key and hands
-- the request to the backend.
pub mod Requests
use sharp_store.Prelude.{Bool, true, false, Option, none, some, [], Text, ℕ}
use sharp_store.Errors.{Error, Outcome, Result, ok, err, sentinel, file_not_found}
use sharp_store.Scope.{Context, TenantContext}
use sharp_store.Config.{ContainerConfig, clone}
use sharp_store.Backend.{
  Backend, Reader, FileRequest, SaveRequest, DownloadRequest, AccessUrlRequest,
}
use sharp_store.Naming.{NamingService, NormalizedName, and_then}
use sharp_store.Key.{KeyBuilder}

pub record AccessUrlOptions : Type 0 where
  pub expires_at : Option ℕ
  pub check_exists : Bool

pub record Container (W : Type 0) : Type 0 where
  pub key : Text
  pub config : ContainerConfig
  pub tenant : Option (TenantContext W)
  pub backend : Backend W
  pub names : NamingService W
  pub keys : KeyBuilder W

abbrev pub not_nil : Option Reader × Outcome → Option Reader × Outcome
not_nil (r, some e) = (none, some e)
not_nil (none, none) = (none, some (sentinel file_not_found))
not_nil (some r, none) = (some r, none)

module _ {W : Type 0} where
  unfoldable pub configuration : Container W → ContainerConfig
  unfolding clone
  configuration c = clone c.config

  -- the request before its key is built
  abbrev pub unkeyed : Container W → NormalizedName → FileRequest W
  unkeyed c n = record {
    container = n.container;
    config = clone c.config;
    tenant = c.tenant;
    file_id = n.file_id;
    key = [];
  }

  abbrev pub with_key : FileRequest W → Text → W → Result (FileRequest W) × W
  with_key r k w = (ok (record r { key = k }), w)

  -- request
  unfoldable pub make_request : Container W → Context W → Text → W → Result (FileRequest W) × W
  unfolding clone
  make_request c ctx file_id w =
      and_then (c.names ctx c.config c.key file_id w)
        λ n w₁. and_then (c.keys ctx (unkeyed c n) w₁) λ k w₂. with_key (unkeyed c n) k w₂

  -- `if err != nil { return zero, err }` before the call of the backend
  abbrev pub pass_on :
      {A : Type 0}
      → A
      → Result (FileRequest W) × W
      → (FileRequest W → W → (A × Outcome) × W)
      → (A × Outcome) × W
  pass_on zero (ok r, w) call = call r w
  pass_on zero (err e, w) call = ((zero, some e), w)

  unfoldable pub save :
      Container W → Context W → Text → Option Reader → Bool → W → (Text × Outcome) × W
  unfolding make_request
  save c ctx file_id body overwrite w =
      pass_on [] (make_request c ctx file_id w)
        λ r w₁. c.backend.save ctx (record { file = r; body = body; overwrite = overwrite }) w₁

  unfoldable pub delete : Container W → Context W → Text → W → (Bool × Outcome) × W
  unfolding make_request
  delete c ctx file_id w =
      pass_on false (make_request c ctx file_id w) λ r w₁. c.backend.delete ctx r w₁

  unfoldable pub exists : Container W → Context W → Text → W → (Bool × Outcome) × W
  unfolding make_request
  exists c ctx file_id w =
      pass_on false (make_request c ctx file_id w) λ r w₁. c.backend.exists ctx r w₁

  unfoldable pub download : Container W → Context W → Text → Text → W → (Bool × Outcome) × W
  unfolding make_request
  download c ctx file_id destination w =
      pass_on false (make_request c ctx file_id w)
        λ r w₁. c.backend.download ctx (record { file = r; destination = destination }) w₁

  unfoldable pub get_or_nil : Container W → Context W → Text → W → (Option Reader × Outcome) × W
  unfolding make_request
  get_or_nil c ctx file_id w =
      pass_on none (make_request c ctx file_id w) λ r w₁. c.backend.get_or_nil ctx r w₁

  unfoldable pub get : Container W → Context W → Text → W → (Option Reader × Outcome) × W
  unfolding get_or_nil
  get c ctx file_id w = let (r, w₁) = get_or_nil c ctx file_id w in (not_nil r, w₁)

  unfoldable pub access_url :
      Container W → Context W → Text → AccessUrlOptions → W → (Text × Outcome) × W
  unfolding make_request
  access_url c ctx file_id options w = pass_on [] (make_request c ctx file_id w) λ r w₁.
      c.backend.access_url ctx
        (record { file = r; expires_at = options.expires_at; check_exists = options.check_exists })
        w₁
