-- ===== src/Backend/Registry.antt =====
-- backend.go: BackendRegistry.
pub mod Resolve
pub mod Listing
use mathlib.Core.List.{lookup}
use sharp_store.Prelude.{
  Bool, true, false, Option, none, some, List, [], ◌∷◌, map, Text, Map, text_discrete,
  if◌then◌else◌,
}
use sharp_store.Prelude.Maps.{put}
use sharp_store.Prelude.Order.{text_ltb}
use sharp_store.Errors.{
  Error, Outcome, Result, ok, err, sentinel, wrap_cause, backend_not_found, invalid_config,
}
use sharp_store.Scope.{Context}
use sharp_store.Config.{Values}
use sharp_store.Backend.{Backend, BackendInfo, ConfigOption}

pub record BackendRegistry (W : Type 0) : Type 0 where
  pub backends : Map Text (Backend W)

abbrev pub options_or_nil : Option (List ConfigOption) → List ConfigOption
options_or_nil none = []
options_or_nil (some os) = os

-- sort.Slice by Name
unfoldable pub insert_info : BackendInfo → List BackendInfo → List BackendInfo
unfolding text_ltb
insert_info i [] = i ∷ []
insert_info i (j ∷ js) =
    let rest = insert_info i js in if text_ltb i.name j.name then i ∷ j ∷ js else j ∷ rest

unfoldable pub sort_infos : List BackendInfo → List BackendInfo
unfolding insert_info
sort_infos [] = []
sort_infos (i ∷ is) = insert_info i (sort_infos is)

-- `%w: backend %q: %v` around a validator's error
abbrev pub invalid_backend_config : Text → Outcome → Outcome
invalid_backend_config name none = none
invalid_backend_config name (some e) =
    some (wrap_cause (sentinel invalid_config) "backend %q: %v" (name ∷ []) e)

module _ {W : Type 0} where
  -- the loop of NewBackendRegistry; a nil backend is left out
  unfoldable pub register : List (Option (Backend W)) → Map Text (Backend W) → Map Text (Backend W)
  unfolding put
  register [] m = m
  register (none ∷ bs) m = register bs m
  register (some b ∷ bs) m = register bs (put text_discrete b.name b m)

  unfoldable pub new_backend_registry : List (Option (Backend W)) → BackendRegistry W
  unfolding register
  new_backend_registry bs = record { backends = register bs [] }

  abbrev pub resolved : Option (Backend W) → Result (Backend W)
  resolved none = err (sentinel backend_not_found)
  resolved (some b) = ok b

  unfoldable pub resolve : BackendRegistry W → Text → Result (Backend W)
  resolve r name = resolved (lookup text_discrete name r.backends)

  abbrev pub info_of : Text × Backend W → BackendInfo
  info_of (name, b) = record { name = name; options = options_or_nil b.config_options }

  -- List
  unfoldable pub list_backends : BackendRegistry W → List BackendInfo
  unfolding sort_infos
  list_backends r = sort_infos (map info_of r.backends)

  abbrev pub run_validator :
      Option (Context W → Values → W → Outcome × W) → Context W → Text → Values → W → Outcome × W
  run_validator none ctx name values w = (none, w)
  run_validator (some v) ctx name values w =
      let (e, w') = v ctx values w in (invalid_backend_config name e, w')

  abbrev pub validate_resolved : Result (Backend W) → Context W → Text → Values → W → Outcome × W
  validate_resolved (err e) ctx name values w = (some e, w)
  validate_resolved (ok b) ctx name values w = run_validator b.validate_config ctx name values w

  unfoldable pub validate_config : BackendRegistry W → Context W → Text → Values → W → Outcome × W
  unfolding resolve
  validate_config r ctx name values w = validate_resolved (resolve r name) ctx name values w
