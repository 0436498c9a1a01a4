-- ===== src/Examples/Loads.antt =====
-- Loads of config_loader.go, alone and together, from a static source.
use mathlib.Core.List.{lookup}
use sharp_store.Prelude.{
  [], ℕ, ◌≤◌, ◌≡◌, refl, ◌⊎◌, true, arith, Option, none, some, List, ◌∷◌, Text, text, Map,
  text_discrete, ℕ_discrete,
}
use sharp_store.Errors.{Result, ok, err, message, sentinel, container_not_found}
use sharp_store.Config.{ContainerConfig, clone}
use sharp_store.Cache.{ConfigCache}
use sharp_store.Loader.{
  ConfigSource, CachedConfigSource, LoadKey, LoadRequest, clone_result, load, first_read, recheck,
}
use sharp_store.Loader.Outage.{IsDown, load-IsDown}
use sharp_store.Loader.Flight.{Flight, Move, runs, outside, run, at_rest, waiting, returned}
use sharp_store.Loader.Flight.Invariant.{led, IsLed}
use sharp_store.Loader.Flight.Single.{reached, one_leader, waiting_is_served}
use sharp_store.Loader.Flight.Leading.{HasReturned, leader_returns}
use sharp_store.Loader.Flight.Waking.{steps_then, waiting_returns_soon}
use sharp_store.Source.{new_static_source, load_static, load_static-cases}
use sharp_store.Examples.{World, alive, acme, scoped_config}

abbrev pub docs_configs : Map Text ContainerConfig
docs_configs = (text "docs", scoped_config) ∷ []

abbrev pub docs_source : ConfigSource World
docs_source = load_static (new_static_source docs_configs)

load_static-cases_example :
    ((c : ContainerConfig) × (lookup text_discrete (text "docs") docs_configs ≡ some c)
      × (load_static (new_static_source docs_configs) alive (text "docs") (some acme) tt
          ≡ (ok (clone (clone c)), tt)))
    ⊎ ((lookup text_discrete (text "docs") docs_configs ≡ none)
        × (load_static (new_static_source docs_configs) alive (text "docs") (some acme) tt
            ≡ (err (sentinel container_not_found), tt)))
load_static-cases_example = load_static-cases docs_configs alive (text "docs") (some acme) tt

-- a cache that cannot be reached, and one that holds nothing
abbrev pub cache_of : Result (Option ContainerConfig) → ConfigCache World
cache_of m = record {
  get = λ ctx key t w. (m, w);
  set = λ ctx key t config w. (none, w);
  delete = λ ctx key t w. (none, w);
  versioned = none;
}

abbrev pub without_cache : CachedConfigSource World
without_cache = record {
  source = docs_source;
  cache = cache_of (err (message "connection refused" []));
}

abbrev with_empty_cache : CachedConfigSource World
with_empty_cache = record { source = docs_source; cache = cache_of (ok none) }

abbrev docs_request : LoadRequest World
docs_request = record { ctx = alive; key = text "docs"; tenant = some acme }

without_cache-IsDown : IsDown without_cache docs_request
without_cache-IsDown = record {
  get_fails = λ w. (message "connection refused" [], refl);
  reads_fail = λ v w h. cc;
}

load-IsDown_example :
    (w' : World) × ((load without_cache docs_request tt).0
      ≡ clone_result (clone_result (docs_source alive (text "docs") (some acme) w').0))
load-IsDown_example = load-IsDown without_cache docs_request tt without_cache-IsDown

abbrev requests : ℕ → LoadRequest World
requests i = docs_request

abbrev docs_key : LoadKey
docs_key = record { tenant_id = text "17"; key = text "docs" }

-- Goroutine 0 leads the load, and goroutine 1 waits for it.
abbrev schedule : List (Move with_empty_cache requests)
schedule = runs 0 true ∷ runs 0 true ∷ runs 1 true ∷ runs 1 true ∷ runs 0 true ∷ []

abbrev both : Flight World
both = reached with_empty_cache requests tt schedule

zero_leads : led (both.phase 0) ≡ some (0, docs_key)
unfolding run first_read recheck at_rest lookup text_discrete
zero_leads = refl

one_waits : both.phase 1 ≡ waiting 0
unfolding run first_read recheck at_rest lookup text_discrete
one_waits = refl

one_leader_example : ◌≡◌ {A = ℕ} 0 0
one_leader_example =
    one_leader with_empty_cache requests tt schedule 0 0 0 0 docs_key zero_leads zero_leads

waiting_returns_soon_example :
    (u : ℕ) × (n : ℕ) × (n ≤ 4)
    × ((m : Result ContainerConfig) × ((run with_empty_cache requests
              (steps_then with_empty_cache requests true n u 1)
              both).phase
            1
          ≡ returned m))
waiting_returns_soon_example =
    waiting_returns_soon with_empty_cache requests true tt schedule 1 0 one_waits

waiting_is_served_example : ((m : Result ContainerConfig) × (both.done 0 ≡ some m)) ⊎ IsLed both 0
waiting_is_served_example = waiting_is_served with_empty_cache requests tt schedule 1 0 one_waits

-- In turns with goroutine 1, goroutine 0 takes four more steps.
abbrev in_turns : List (Move with_empty_cache requests)
in_turns =
    runs 1 true
    ∷ runs 0 true
    ∷ runs 1 true
    ∷ runs 0 true
    ∷ runs 0 true
    ∷ outside tt
    ∷ runs 0 true
    ∷ []

leader_returns_example :
    HasReturned with_empty_cache requests 0 0 (run with_empty_cache requests in_turns both)
unfolding ℕ_discrete
leader_returns_example =
    leader_returns with_empty_cache requests tt schedule in_turns 0 0 docs_key zero_leads
      (omega arith)
