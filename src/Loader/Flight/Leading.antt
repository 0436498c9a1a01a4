-- ===== src/Loader/Flight/Leading.antt =====
-- How a goroutine of config_loader.go that leads a load gets to its return.
use mathlib.Core.List.{lookup}
use sharp_store.Prelude.{
  ℕ, ◌+◌, ◌-◌, ◌≤◌, ◌≡◌, ◌≢◌, refl, sym, ap, subst, ◌∙◌, ◌⊎◌, inl, inr, Bool, Option, none, some,
  List, [], ◌∷◌, ite, ℕ_discrete, arith,
}
use sharp_store.Errors.{Result}
use sharp_store.Config.{ContainerConfig}
use sharp_store.Loader.{
  CachedConfigSource, LoadKey, LoadKey-discrete, LoadRequest, Recheck, found, missing, clone_result,
  recheck, from_source, fill,
}
use sharp_store.Loader.Flight.{
  Phase, starting, entering, waiting, leading, loading, filling, finishing, returned, Flight, moved,
  join_or_start, woken, selected, step, step_phase, run, Move, runs, outside, after_recheck,
}
use sharp_store.Loader.Flight.Invariant.{led, Inv}
use sharp_store.Loader.Flight.Steps.{update_self, update_ne, Inv-step}
use sharp_store.Loader.Flight.Single.{reached, reached-Inv}

-- How many own steps a leading goroutine still has to take. Other phases are not counted, and each
-- use stands beside an equation that says that the goroutine leads.
abbrev left : Phase → ℕ
left (leading call k) = 4
left (loading call k version) = 3
left (filling call k m version) = 2
left _ = 1

module _ {W : Type 0} (s : CachedConfigSource W) (request : ℕ → LoadRequest W) where
  -- how many steps of a goroutine a schedule has
  abbrev pub own_steps : ℕ → List (Move s request) → ℕ
  own_steps t [] = 0
  own_steps t (runs i first ∷ ms) = ite (ℕ_discrete i t) 1 0 + own_steps t ms
  own_steps t (outside w ∷ ms) = own_steps t ms

  phase-join_or_start :
      (i t : ℕ) (k : LoadKey) (o : Option ℕ) (f : Flight W)
      → i ≢ t
      → (join_or_start i k o f).phase t ≡ f.phase t
  phase-join_or_start i t k (some call) f n = update_ne f.phase i t (waiting call) n
  phase-join_or_start i t k none f n = update_ne f.phase i t (leading f.calls k) n

  phase-woken :
      (i t : ℕ) (o : Option (Result ContainerConfig)) (f : Flight W)
      → i ≢ t
      → (woken i o f).phase t ≡ f.phase t
  phase-woken i t none f n = refl
  phase-woken i t (some m) f n = update_ne f.phase i t (returned m) n

  -- a step of one goroutine leaves the phase of another
  phase-step_phase :
      (i t : ℕ) (first : Bool) (p : Phase) (f : Flight W)
      → i ≢ t
      → (step_phase s request i first p f).phase t ≡ f.phase t
  phase-step_phase i t first starting f n = update_ne f.phase i t _ n
  phase-step_phase i t first (entering k) f n =
      phase-join_or_start i t k (lookup LoadKey-discrete k f.loads) f n
  phase-step_phase i t first (waiting call) f n =
      phase-woken i t (selected first ((request i).ctx f.world) (f.done call)) f n
  phase-step_phase i t first (leading call k) f n = update_ne f.phase i t _ n
  phase-step_phase i t first (loading call k version) f n = update_ne f.phase i t _ n
  phase-step_phase i t first (filling call k m version) f n = update_ne f.phase i t _ n
  phase-step_phase i t first (finishing call k m) f n = update_ne f.phase i t _ n
  phase-step_phase i t first (returned m) f n = refl

  done-join_or_start :
      (i : ℕ) (k : LoadKey) (o : Option ℕ) (f : Flight W) → (join_or_start i k o f).done ≡ f.done
  done-join_or_start i k (some call) f = refl
  done-join_or_start i k none f = refl

  done-woken :
      (i : ℕ) (o : Option (Result ContainerConfig)) (f : Flight W) → (woken i o f).done ≡ f.done
  done-woken i none f = refl
  done-woken i (some m) f = refl

  -- the result of a call is never changed
  done-step_phase :
      (i call : ℕ) (first : Bool) (p : Phase) (f : Flight W) (m : Result ContainerConfig)
      → Inv f
      → f.phase i ≡ p
      → f.done call ≡ some m
      → (step_phase s request i first p f).done call ≡ some m
  done-step_phase i call first starting f m v e d = d
  done-step_phase i call first (entering k) f m v e d =
      ap (λ (g : ℕ → Option (Result ContainerConfig)). g call)
        (done-join_or_start i k (lookup LoadKey-discrete k f.loads) f)
      ∙ d
  done-step_phase i call first (waiting c) f m v e d =
      ap (λ (g : ℕ → Option (Result ContainerConfig)). g call)
        (done-woken i (selected first ((request i).ctx f.world) (f.done c)) f)
      ∙ d
  done-step_phase i call first (leading c k) f m v e d = d
  done-step_phase i call first (loading c k version) f m v e d = d
  done-step_phase i call first (filling c k q version) f m v e d = d
  done-step_phase i call first (finishing c k q) f m v e d =
      let (_, open_call, _) = v.leads i c k (ap led e) in
      update_ne f.done c call (some q) (λ h. cc (ap f.done h, open_call, d)) ∙ d
  done-step_phase i call first (returned q) f m v e d = d

  module _ (t call : ℕ) where
    -- Goroutine `t` has returned what the call has as its result.
    abbrev pub HasReturned : Flight W → Type 0
    HasReturned f =
        (m : Result ContainerConfig) × (f.phase t ≡ returned (clone_result m))
        × (f.done call ≡ some m)

    abbrev Leads : ℕ → Flight W → Type 0
    Leads n f = (k : LoadKey) × (led (f.phase t) ≡ some (call, k)) × (left (f.phase t) ≤ n)

    abbrev Within : ℕ → Flight W → Type 0
    Within n f = HasReturned f ⊎ Leads n f

    left-after_recheck : (c : ℕ) (k : LoadKey) (r : Recheck) → left (after_recheck c k r) ≤ 3
    left-after_recheck c k (found x) = omega arith
    left-after_recheck c k (missing version) = omega arith

    led-after_recheck :
        (c : ℕ) (k : LoadKey) (r : Recheck) → led (after_recheck c k r) ≡ some (c, k)
    led-after_recheck c k (found x) = refl
    led-after_recheck c k (missing version) = refl

    leads_at :
        (n : ℕ) (k : LoadKey) (p : Phase) (f : Flight W) (w : W)
        → led p ≡ some (call, k)
        → left p ≤ n
        → Within n (moved f t p w)
    leads_at n k p f w l h =
        inr (k, ap led (update_self f.phase t p) ∙ l, rw (update_self f.phase t p) h)

    -- an own step of a leader
    own_step :
        (n : ℕ) (first : Bool) (p : Phase) (f : Flight W) (k : LoadKey)
        → led p ≡ some (call, k)
        → left p ≤ n
        → Within (n - 1) (step_phase s request t first p f)
    own_step n first (leading c j) f k l h =
        let (r, w) = recheck s (request t) f.world in
        leads_at (n - 1) k (after_recheck c j r) f w (led-after_recheck c j r ∙ l)
          (omega (arith, left-after_recheck c j r))
    own_step n first (loading c j version) f k l h =
        let (m, w) = from_source s (request t) f.world in
        leads_at (n - 1) k (filling c j m version) f w l (omega arith)
    own_step n first (filling c j m version) f k l h =
        leads_at (n - 1) k (finishing c j m) f (fill s (request t) m version f.world) l
          (omega arith)
    own_step n first (finishing c j m) f k l h =
        let same_call : c ≡ call = cc in
        inl (
          m,
          update_self f.phase t (returned (clone_result m)),
          rw same_call (update_self f.done call (some m)),
        )
    own_step n first starting f k l h = cc
    own_step n first (entering j) f k l h = cc
    own_step n first (waiting c) f k l h = cc
    own_step n first (returned m) f k l h = cc

    own_step-Within :
        (n : ℕ) (first : Bool) (f : Flight W)
        → Within n f
        → Within (n - 1) (step_phase s request t first (f.phase t) f)
    own_step-Within n first f (inl (m, e, d)) = rw e (inl (m, e, d))
    own_step-Within n first f (inr (k, l, h)) = own_step n first (f.phase t) f k l h

    other_step-Within :
        (n i : ℕ) (first : Bool) (f : Flight W)
        → Inv f
        → i ≢ t
        → Within n f
        → Within n (step_phase s request i first (f.phase i) f)
    other_step-Within n i first f v o (inl (m, e, d)) = inl (
      m,
      phase-step_phase i t first (f.phase i) f o ∙ e,
      done-step_phase i call first (f.phase i) f m v refl d,
    )
    other_step-Within n i first f v o (inr (k, l, h)) =
        rw (phase-step_phase i t first (f.phase i) f o) (inr (k, l, h))

    never_zero : (p : Phase) → left p ≤ 0 → ⊥
    never_zero (leading c j) h = omega arith
    never_zero (loading c j version) h = omega arith
    never_zero (filling c j m version) h = omega arith
    never_zero _ h = omega arith

    run-HasReturned :
        (ms : List (Move s request)) (n : ℕ) (f : Flight W)
        → Inv f
        → n ≤ own_steps t ms
        → Within n f
        → HasReturned (run s request ms f)
    unfolding run step
    run-HasReturned [] n f v b (inl r) = r
    run-HasReturned [] n f v b (inr (k, l, h)) = absurd (never_zero (f.phase t) (omega arith))
    run-HasReturned (outside w ∷ ms) n f v b x =
        run-HasReturned ms n (record f { world = w }) (Inv-step s request (outside w) f v) b x
    run-HasReturned (runs i first ∷ ms) n f v b x =
        let g = step_phase s request i first (f.phase i) f in
        let after = Inv-step s request (runs i first) f v in
        elim (ℕ_discrete i t) [
          | yes p ↦ run-HasReturned ms (n - 1) g after (ground arith) (
              subst (λ j. Within (n - 1) (step_phase s request j first (f.phase j) f)) (sym p)
                (own_step-Within n first f x))
          | no o ↦ run-HasReturned ms n g after (ground arith) (other_step-Within n i first f v o x)
        ]

  at_most : (p : Phase) → left p ≤ 4
  at_most (leading c j) = omega arith
  at_most (loading c j version) = omega arith
  at_most (filling c j m version) = omega arith
  at_most _ = omega arith

  -- Whatever the schedule has been, a goroutine that leads a call has returned once any further
  -- schedule has given it four steps, whatever the others and the outside do in between; and what it
  -- has returned is a clone of the result that the call then has for the goroutines that wait.
  pub leader_returns :
      (w : W) (schedule ms : List (Move s request)) (t call : ℕ) (k : LoadKey)
      → led ((reached s request w schedule).phase t) ≡ some (call, k)
      → 4 ≤ own_steps t ms
      → HasReturned t call (run s request ms (reached s request w schedule))
  leader_returns w schedule ms t call k l h =
      run-HasReturned t call ms 4 (reached s request w schedule) (reached-Inv s request w schedule)
        h (inr (k, l, at_most ((reached s request w schedule).phase t)))
