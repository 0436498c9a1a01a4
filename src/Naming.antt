-- ===== src/Naming.antt =====
-- naming.go: names pass through a chain of normalizers before a request is built.
use sharp_store.Prelude.{List, [], ◌∷◌, Text}
use sharp_store.Errors.{Result, ok, err}
use sharp_store.Scope.{Context}
use sharp_store.Config.{ContainerConfig}

pub record NormalizedName : Type 0 where
  pub container : Text
  pub file_id : Text

-- NamingService
abbrev pub NamingService : Type 0 → Type 0
NamingService W = Context W → ContainerConfig → Text → Text → W → Result NormalizedName × W

pub record KeyNormalizer (W : Type 0) : Type 0 where
  pub normalize_container : Context W → ContainerConfig → Text → W → Result Text × W
  pub normalize_file : Context W → ContainerConfig → Text → W → Result Text × W

module _ {W : Type 0} where
  -- `if err != nil { return zero, err }` after a call that acts on the outside state
  abbrev pub and_then : {A B : Type 0} → Result A × W → (A → W → Result B × W) → Result B × W
  and_then (ok a, w) f = f a w
  and_then (err e, w) f = (err e, w)

  -- NamingServiceSet.Normalize over the normalizers of the set
  unfoldable pub normalize : List (KeyNormalizer W) → NamingService W
  normalize [] ctx config container file_id w =
      (ok (record { container = container; file_id = file_id }), w)
  normalize (n ∷ ns) ctx config container file_id w =
      and_then (n.normalize_container ctx config container w) λ container' w₁.
        and_then (n.normalize_file ctx config file_id w₁)
          λ file_id' w₂. normalize ns ctx config container' file_id' w₂

  -- NewNamingService copies the slice of normalizers.
  unfoldable pub new_naming_service : List (KeyNormalizer W) → NamingService W
  unfolding normalize
  new_naming_service ns = normalize ns

  -- identityNamingService.Normalize
  unfoldable pub identity_naming_service : NamingService W
  identity_naming_service ctx config container file_id w =
      (ok (record { container = container; file_id = file_id }), w)
