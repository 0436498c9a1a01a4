-- ===== src/Backend/Registry/Resolve.antt =====
-- BackendRegistry of backend.go: which backend a name stands for.
use mathlib.Core.List.{lookup}
use sharp_store.Prelude.{
  ◌≡◌, refl, Option, none, some, List, [], ◌∷◌, Text, Map, text_discrete, ite, arith, ◌⊎◌, inl, inr,
  true,
}
use sharp_store.Prelude.Maps.{put, lookup-put}
use sharp_store.Errors.{
  Error, Outcome, Result, ok, err, is_error, invalid_config, sentinel, backend_not_found,
}
use sharp_store.Scope.{Context}
use sharp_store.Config.{Values}
use sharp_store.Backend.{Backend}
use sharp_store.Backend.Registry.{
  BackendRegistry, register, new_backend_registry, resolve, validate_config, resolved,
  invalid_backend_config, run_validator, validate_resolved,
}

invalid-cases :
    (name : Text) (o : Outcome) (e : Error)
    → invalid_backend_config name o ≡ some e
    → is_error invalid_config e ≡ true
unfolding is_error
invalid-cases name (some c) e h = ground arith
invalid-cases name none e h = cc

module _ {W : Type 0} where
  -- The last backend of the list that carries the name; `b` if there is none.
  abbrev pub last_named : Text → Option (Backend W) → List (Option (Backend W)) → Option (Backend W)
  last_named name b [] = b
  last_named name b (none ∷ bs) = last_named name b bs
  last_named name b (some c ∷ bs) = last_named name (ite (text_discrete c.name name) (some c) b) bs

  lookup-register :
      (name : Text) (bs : List (Option (Backend W))) (m : Map Text (Backend W))
      → lookup text_discrete name (register bs m) ≡ last_named name (lookup text_discrete name m) bs
  unfolding register
  lookup-register name [] m = refl
  lookup-register name (none ∷ bs) m = lookup-register name bs m
  lookup-register name (some c ∷ bs) m =
      rw (← lookup-put text_discrete c.name name c m)
        (lookup-register name bs (put text_discrete c.name c m))

  abbrev pub or_not_found : Option (Backend W) → Result (Backend W)
  or_not_found none = err (sentinel backend_not_found)
  or_not_found (some b) = ok b

  resolved_lem : (o : Option (Backend W)) → resolved o ≡ or_not_found o
  resolved_lem none = refl
  resolved_lem (some b) = refl

  -- A new registry resolves a name to the last non-nil backend that carries it, and any other name
  -- to ErrBackendNotFound.
  pub resolve-new_backend_registry :
      (bs : List (Option (Backend W))) (name : Text)
      → resolve (new_backend_registry bs) name ≡ or_not_found (last_named name none bs)
  unfolding resolve new_backend_registry lookup
  resolve-new_backend_registry bs name = rw lookup-register (resolved_lem (last_named name none bs))

  run_validator-errors :
      (o : Option (Context W → Values → W → Outcome × W)) (ctx : Context W) (name : Text)
      (values : Values) (w : W) (e : Error)
      → (run_validator o ctx name values w).0 ≡ some e
      → is_error invalid_config e ≡ true
  run_validator-errors none ctx name values w e h = cc
  run_validator-errors (some v) ctx name values w e h = invalid-cases name (v ctx values w).0 e h

  validate_resolved-errors :
      (m : Result (Backend W)) (ctx : Context W) (name : Text) (values : Values) (w : W) (e : Error)
      → (validate_resolved m ctx name values w).0 ≡ some e
      → ((b : Backend W) × (m ≡ ok b) × (is_error invalid_config e ≡ true)) ⊎ (m ≡ err e)
  validate_resolved-errors (ok b) ctx name values w e h =
      inl (b, refl, run_validator-errors b.validate_config ctx name values w e h)
  validate_resolved-errors (err d) ctx name values w e h = inr (cc)

  -- An error of ValidateConfig is ErrInvalidConfig if the name resolves, and otherwise it is the
  -- error of Resolve.
  pub validate_config-errors :
      (r : BackendRegistry W) (ctx : Context W) (name : Text) (values : Values) (w : W) (e : Error)
      → (validate_config r ctx name values w).0 ≡ some e
      → ((b : Backend W) × (resolve r name ≡ ok b) × (is_error invalid_config e ≡ true))
        ⊎ (resolve r name ≡ err e)
  unfolding validate_config
  validate_config-errors r ctx name values w e h =
      validate_resolved-errors (resolve r name) ctx name values w e h
