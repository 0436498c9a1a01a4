-- ===== src/Loader/Flight/Single.antt =====
-- What concurrent loads of config_loader.go guarantee, whatever the schedule.
use mathlib.Core.List.{lookup}
use sharp_store.Prelude.{ℕ, ◌≡◌, sym, ap, subst, ◌⊎◌, Bool, none, some, List}
use sharp_store.Errors.{Result}
use sharp_store.Config.{ContainerConfig}
use sharp_store.Loader.{CachedConfigSource, LoadKey, LoadKey-discrete, LoadRequest, clone_result}
use sharp_store.Loader.Flight.{waiting, returned, Flight, at_rest, step, run, Move, runs}
use sharp_store.Loader.Flight.Invariant.{led, awaited, IsLed, Inv}
use sharp_store.Loader.Flight.Steps.{Inv-run, Inv-at_rest, update_self}

module _ {W : Type 0} (s : CachedConfigSource W) (request : ℕ → LoadRequest W) (w : W)
    (schedule : List (Move s request)) where
  abbrev pub reached : Flight W
  reached = run s request schedule (at_rest w)

  pub reached-Inv : Inv reached
  reached-Inv = Inv-run s request schedule (at_rest w) (Inv-at_rest w)

  -- Whatever the schedule, at no time do two goroutines lead loads of one key.
  pub one_leader :
      (t u call call' : ℕ) (k : LoadKey)
      → led (reached.phase t) ≡ some (call, k)
      → led (reached.phase u) ≡ some (call', k)
      → t ≡ u
  one_leader t u call call' k d e =
      let (r, _, _) = reached-Inv.leads t call k d in
      let (q, _, _) = reached-Inv.leads u call' k e in
      let same_call : call ≡ call' = cc in
      reached-Inv.alone t u call k k d
        (subst (λ c. led (reached.phase u) ≡ some (c, k)) (sym same_call) e)

  -- Whatever the schedule, the table of running loads names a call for a key only if some goroutine
  -- leads that call, and it names the call that a goroutine leads for that key.
  loads_iff_led :
      (k : LoadKey)
      → ((call : ℕ) → lookup LoadKey-discrete k reached.loads ≡ some call → IsLed reached call)
        × ((t call : ℕ)
            → led (reached.phase t) ≡ some (call, k)
            → lookup LoadKey-discrete k reached.loads ≡ some call)
  loads_iff_led k = (
    λ call e. let (t, d) = reached-Inv.led_by k call e in (t, k, d),
    λ t call d. (reached-Inv.leads t call k d).0,
  )

  -- Whatever the schedule, a goroutine that waits for a call is never forgotten: the call has a
  -- result, or some goroutine still leads it.
  pub waiting_is_served :
      (t call : ℕ)
      → reached.phase t ≡ waiting call
      → ((m : Result ContainerConfig) × (reached.done call ≡ some m)) ⊎ IsLed reached call
  waiting_is_served t call e = reached-Inv.waits t call (ap awaited e)

  -- If its call has a result and its context is alive, a waiting goroutine returns that result at
  -- its next step.
  pub waiting_returns :
      (t call : ℕ) (first : Bool) (m : Result ContainerConfig)
      → reached.phase t ≡ waiting call
      → reached.done call ≡ some m
      → (request t).ctx reached.world ≡ none
      → (step s request (runs t first) reached).phase t ≡ returned (clone_result m)
  unfolding step
  waiting_returns t call first m e d a =
      rw (e, d, a) (update_self reached.phase t (returned (clone_result m)))
