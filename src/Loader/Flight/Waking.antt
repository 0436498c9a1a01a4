-- ===== src/Loader/Flight/Waking.antt =====
-- How a goroutine of config_loader.go that waits for a load gets to its return.
use sharp_store.Prelude.{
  [], ℕ, suc, zero, ◌≤◌, ◌≡◌, ◌≢◌, refl, ap, ◌∙◌, inl, inr, Bool, true, false, Option, none, some,
  List, ◌∷◌, Text, arith,
}
use sharp_store.Errors.{Outcome, Result, ok, err}
use sharp_store.Config.{ContainerConfig}
use sharp_store.Loader.{
  CachedConfigSource, LoadKey, LoadRequest, Recheck, found, missing, clone_result, recheck,
  from_source, fill,
}
use sharp_store.Loader.Flight.{
  Phase, starting, entering, waiting, leading, loading, filling, finishing, returned, Flight, moved,
  finish, step, step_phase, run, Move, runs, selected, after_recheck,
}
use sharp_store.Loader.Flight.Invariant.{led}
use sharp_store.Loader.Flight.Steps.{update_self, update_ne}
use sharp_store.Loader.Flight.Single.{reached, waiting_is_served}

module _ {W : Type 0} (s : CachedConfigSource W) (request : ℕ → LoadRequest W) (first : Bool) where
  -- so many steps of goroutine `u`, and then one of `t`
  unfoldable pub steps_then : ℕ → ℕ → ℕ → List (Move s request)
  steps_then zero u t = runs t first ∷ []
  steps_then (suc n) u t = runs u first ∷ steps_then n u t

  module _ (u t : ℕ) where
    abbrev Wakes : ℕ → Flight W → Type 0
    Wakes n f =
        (m : Result ContainerConfig) × ((run s request (steps_then n u t) f).phase t ≡ returned m)

    -- within so many steps of `u`
    abbrev WakesWithin : ℕ → Flight W → Type 0
    WakesWithin b f = (n : ℕ) × (n ≤ b) × Wakes n f

    selected-done :
        (c : Outcome) (m : Result ContainerConfig)
        → (r : Result ContainerConfig) × (selected first c (some m) ≡ some r)
    selected-done none m = (clone_result m, refl)
    selected-done (some e) m = chosen first
      where
        chosen : (b : Bool) → (r : Result ContainerConfig) × (selected b (some e) (some m) ≡ some r)
        chosen true = (err e, refl)
        chosen false = (clone_result m, refl)

    wakes_done :
        (b call : ℕ) (m : Result ContainerConfig) (f : Flight W)
        → f.phase t ≡ waiting call
        → f.done call ≡ some m
        → WakesWithin b f
    unfolding run step steps_then
    wakes_done b call m f w d =
        let (r, e) = selected-done ((request t).ctx f.world) m in
        (0, omega arith, (r, rw (w, d, e) (update_self f.phase t (returned r))))

    wakes_after :
        (b : ℕ) (f : Flight W)
        → WakesWithin b (step s request (runs u first) f)
        → WakesWithin (suc b) f
    unfolding run steps_then
    wakes_after b f (n, h, e) = (suc n, omega arith, e)

    at_phase :
        (b : ℕ) (f : Flight W) (p : Phase)
        → f.phase u ≡ p
        → WakesWithin b (step_phase s request u first p f)
        → WakesWithin (suc b) f
    unfolding step
    at_phase b f p e h = wakes_after b f (rw e h)

    wakes_finishing :
        (f : Flight W) (call : ℕ) (k : LoadKey) (m : Result ContainerConfig)
        → u ≢ t
        → f.phase u ≡ finishing call k m
        → f.phase t ≡ waiting call
        → WakesWithin 1 f
    wakes_finishing f call k m n e w = at_phase 0 f (finishing call k m) e (
        wakes_done 0 call m (finish u call k m f)
          (update_ne f.phase u t (returned (clone_result m)) n ∙ w)
          (update_self f.done call (some m)))

    wakes_filling :
        (f : Flight W) (call : ℕ) (k : LoadKey) (m : Result ContainerConfig) (v : Text)
        → u ≢ t
        → f.phase u ≡ filling call k m v
        → f.phase t ≡ waiting call
        → WakesWithin 2 f
    wakes_filling f call k m v n e w =
        let g = moved f u (finishing call k m) (fill s (request u) m v f.world) in
        at_phase 1 f (filling call k m v) e (
          wakes_finishing g call k m n (update_self f.phase u (finishing call k m))
            (update_ne f.phase u t (finishing call k m) n ∙ w))

    wakes_loading :
        (f : Flight W) (call : ℕ) (k : LoadKey) (v : Text)
        → u ≢ t
        → f.phase u ≡ loading call k v
        → f.phase t ≡ waiting call
        → WakesWithin 3 f
    wakes_loading f call k v n e w =
        let (m, world) = from_source s (request u) f.world in
        at_phase 2 f (loading call k v) e (
          wakes_filling (moved f u (filling call k m v) world) call k m v n
            (update_self f.phase u (filling call k m v))
            (update_ne f.phase u t (filling call k m v) n ∙ w))

    wakes_rechecked :
        (f : Flight W) (call : ℕ) (k : LoadKey) (r : Recheck)
        → u ≢ t
        → f.phase u ≡ after_recheck call k r
        → f.phase t ≡ waiting call
        → WakesWithin 3 f
    wakes_rechecked f call k (found c) n e w =
        let (i, h, x) = wakes_finishing f call k (ok c) n e w in (i, omega arith, x)
    wakes_rechecked f call k (missing v) n e w = wakes_loading f call k v n e w

    wakes_leading :
        (f : Flight W) (call : ℕ) (k : LoadKey)
        → u ≢ t
        → f.phase u ≡ leading call k
        → f.phase t ≡ waiting call
        → WakesWithin 4 f
    wakes_leading f call k n e w =
        let (r, world) = recheck s (request u) f.world in
        at_phase 3 f (leading call k) e (
          wakes_rechecked (moved f u (after_recheck call k r) world) call k r n
            (update_self f.phase u (after_recheck call k r))
            (update_ne f.phase u t (after_recheck call k r) n ∙ w))

    call_of :
        {c call : ℕ} {j k : LoadKey}
        → ◌≡◌ {A = Option (ℕ × LoadKey)} (some (c, j)) (some (call, k))
        → call ≡ c
    call_of h = cc

    -- who leads a call brings whoever waits for it to its return
    wakes_led :
        (f : Flight W) (p : Phase) (call : ℕ) (k : LoadKey)
        → u ≢ t
        → f.phase u ≡ p
        → led p ≡ some (call, k)
        → f.phase t ≡ waiting call
        → WakesWithin 4 f
    wakes_led f (leading c j) call k n e l w = wakes_leading f c j n e (w ∙ ap waiting (call_of l))
    wakes_led f (loading c j v) call k n e l w =
        let (i, h, x) = wakes_loading f c j v n e (w ∙ ap waiting (call_of l)) in
        (i, omega arith, x)
    wakes_led f (filling c j m v) call k n e l w =
        let (i, h, x) = wakes_filling f c j m v n e (w ∙ ap waiting (call_of l)) in
        (i, omega arith, x)
    wakes_led f (finishing c j m) call k n e l w =
        let (i, h, x) = wakes_finishing f c j m n e (w ∙ ap waiting (call_of l)) in
        (i, omega arith, x)
    wakes_led f starting call k n e l w = cc
    wakes_led f (entering j) call k n e l w = cc
    wakes_led f (waiting c) call k n e l w = cc
    wakes_led f (returned m) call k n e l w = cc

  led_differs :
      (f : Flight W) (u t call c : ℕ) (k : LoadKey)
      → led (f.phase u) ≡ some (call, k)
      → f.phase t ≡ waiting c
      → u ≢ t
  led_differs f u t call c k l w p = cc (ap (λ i. led (f.phase i)) p, ap led w)

  -- Whatever the schedule has been, a goroutine that waits for a load returns if, after at most four
  -- steps of one goroutine, it takes a step of its own: it waits for nothing else.
  pub waiting_returns_soon :
      (w : W) (schedule : List (Move s request)) (t call : ℕ)
      → (reached s request w schedule).phase t ≡ waiting call
      → (u : ℕ) × (n : ℕ) × (n ≤ 4)
        × ((m : Result ContainerConfig) × ((run s request
                  (steps_then n u t)
                  (reached s request w schedule)).phase
                t
              ≡ returned m))
  waiting_returns_soon w schedule t call e =
      elim (waiting_is_served s request w schedule t call e) [
        | inl (m, d) ↦
            let (n, h, x) = wakes_done t t 4 call m (reached s request w schedule) e d in
            (t, n, h, x)
        | inr (u, k, l) ↦
            let (n, h, x) =
              wakes_led u t (reached s request w schedule) ((reached s request w schedule).phase u)
                call k (led_differs (reached s request w schedule) u t call call k l e) refl l e in
            (u, n, h, x)
      ]
