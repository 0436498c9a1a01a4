-- ===== src/Examples/Backends.antt =====
-- The registry of backend.go with concrete backends.
use mathlib.Core.List.{lookup, Perm}
use sharp_store.Prelude.{
  ◌≡◌, refl, ◌⊎◌, true, Option, none, some, List, [], ◌∷◌, map, text, text_discrete,
}
use sharp_store.Errors.{Error, ok, err, message, wrap_cause, sentinel, invalid_config, is_error}
use sharp_store.Backend.{Backend}
use sharp_store.Backend.Registry.{
  new_backend_registry, resolve, list_backends, info_of, validate_config,
}
use sharp_store.Backend.Registry.Resolve.{
  last_named, or_not_found, resolve-new_backend_registry, validate_config-errors,
}
use sharp_store.Backend.Registry.Listing.{Rises, list_backends-sorted}
use sharp_store.Examples.{World, alive, idle_backend}

-- one name twice and a nil backend
abbrev three_backends : List (Option (Backend World))
three_backends =
    some (idle_backend (text "s3"))
    ∷ some (idle_backend (text "files"))
    ∷ none
    ∷ some (idle_backend (text "s3"))
    ∷ []

resolve-new_backend_registry_example :
    resolve (new_backend_registry three_backends) (text "s3")
    ≡ or_not_found (last_named (text "s3") none three_backends)
resolve-new_backend_registry_example = resolve-new_backend_registry three_backends (text "s3")

list_backends-sorted_example :
    Rises (list_backends (new_backend_registry three_backends))
    × Perm
        (list_backends (new_backend_registry three_backends))
        (map info_of (new_backend_registry three_backends).backends)
list_backends-sorted_example = list_backends-sorted three_backends

abbrev refusal : Error
refusal =
    wrap_cause (sentinel invalid_config) "backend %q: %v" (text "files" ∷ [])
      (message "root is required" [])

files_refused :
    (validate_config (new_backend_registry three_backends) alive (text "files") [] tt).0
    ≡ some refusal
unfolding validate_config new_backend_registry text_discrete lookup
files_refused = refl

validate_config-errors_example :
    ((b : Backend World) × (resolve (new_backend_registry three_backends) (text "files") ≡ ok b)
      × (is_error invalid_config refusal ≡ true))
    ⊎ (resolve (new_backend_registry three_backends) (text "files") ≡ err refusal)
validate_config-errors_example =
    validate_config-errors (new_backend_registry three_backends) alive (text "files") [] tt refusal
      files_refused
