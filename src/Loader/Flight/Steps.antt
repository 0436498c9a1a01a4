-- ===== src/Loader/Flight/Steps.antt =====
-- Every step of the running loads of config_loader.go keeps the invariant.
use mathlib.Core.List.{lookup}
use sharp_store.Prelude.{
  ℕ, ◌≡◌, ◌≢◌, refl, sym, ap, ◌∙◌, ◌⊎◌, inl, inr, Bool, Option, none, some, List, [], ◌∷◌, ite,
  if_pos, if_neg, ℕ_discrete, arith, Option-cases,
}
use sharp_store.Prelude.Maps.{lookup-put, lookup-delete}
use sharp_store.Errors.{Result, ok}
use sharp_store.Config.{ContainerConfig}
use sharp_store.Loader.{
  CachedConfigSource, LoadKey, LoadKey-discrete, LoadRequest, Recheck, found, missing, clone_result,
}
use sharp_store.Loader.Flight.{
  Phase, starting, entering, waiting, leading, loading, filling, finishing, returned, Flight,
  update, moved, at_rest, join_or_start, finish, step_phase, step, run, Move, runs, outside, woken,
  after_first, after_recheck,
}
use sharp_store.Loader.Flight.Invariant.{
  led, awaited, IsLed, Inv, Inv-moved, Inv-joins, apply-update,
}

pub update_self {ℓ} : {A : Type ℓ} (h : ℕ → A) (i : ℕ) (a : A) → update h i a i ≡ a
update_self h i a = if_pos (ℕ_discrete i i) refl a (h i)

pub update_ne {ℓ} : {A : Type ℓ} (h : ℕ → A) (i t : ℕ) (a : A) → i ≢ t → update h i a t ≡ h t
update_ne h i t a n = if_neg (ℕ_discrete i t) n a (h t)

module _ {W : Type 0} (f : Flight W) (v : Inv f) (i : ℕ) where
  not_ended : f.done f.calls ≡ none
  not_ended = elim (Option-cases (f.done f.calls)) [
    | inl e ↦ e
    | inr (m, e) ↦ absurd (omega (arith, v.ended f.calls m e))
  ]

  other_leads :
      (t call : ℕ) (k : LoadKey) → led (f.phase i) ≡ none → led (f.phase t) ≡ some (call, k) → i ≢ t
  other_leads t call k n e p = cc (ap (λ j. led (f.phase j)) p)

  -- who waits after `i` has gone to a phase where it does not wait, waited before
  awaited_before :
      (p : Phase) (t call : ℕ)
      → awaited p ≡ none
      → awaited (update f.phase i p t) ≡ some call
      → awaited (f.phase t) ≡ some call
  awaited_before p t call a e = ground (arith, apply-update awaited f.phase i t p)

  -- a goroutine that finds no running load starts one
  Inv-starts :
      (k : LoadKey)
      → led (f.phase i) ≡ none
      → lookup LoadKey-discrete k f.loads ≡ none
      → Inv (join_or_start i k none f)
  Inv-starts k n r = record {
    leads = λ t c l e. ground (
      arith,
      apply-update led f.phase i t (leading f.calls k),
      v.leads t c l,
      not_ended,
      lookup-put LoadKey-discrete k l f.calls f.loads,
    );
    led_by =
        λ l c e. led_by_started l c (sym (lookup-put LoadKey-discrete k l f.calls f.loads) ∙ e);
    alone = λ t u c l j d e. ground (
      arith,
      apply-update led f.phase i t (leading f.calls k),
      apply-update led f.phase i u (leading f.calls k),
      v.alone t u c l j,
      v.leads t c l,
      v.leads u c j,
    );
    ended = λ c m e. omega (arith, v.ended c m e);
    waits = λ t c e. still_led c (v.waits t c (awaited_before (leading f.calls k) t c refl e));
  }
    where
      led_by_before :
          (l : LoadKey) (c : ℕ)
          → lookup LoadKey-discrete l f.loads ≡ some c
          → (t : ℕ) × (led (update f.phase i (leading f.calls k) t) ≡ some (c, l))
      led_by_before l c e =
          let (t, d) = v.led_by l c e in
          (t, ap led (update_ne f.phase i t (leading f.calls k) (other_leads t c l n d)) ∙ d)

      led_by_started :
          (l : LoadKey) (c : ℕ)
          → ite (LoadKey-discrete k l) (some f.calls) (lookup LoadKey-discrete l f.loads) ≡ some c
          → (t : ℕ) × (led (update f.phase i (leading f.calls k) t) ≡ some (c, l))
      led_by_started l c e = elim (LoadKey-discrete k l) [
        | yes p ↦
            let same_call : f.calls ≡ c = ground arith in
            (i, ap led (update_self f.phase i (leading f.calls k)) ∙ cc (p, same_call))
        | no p ↦ led_by_before l c (ground arith)
      ]

      still_led :
          (c : ℕ)
          → ((m : Result ContainerConfig) × (f.done c ≡ some m)) ⊎ IsLed f c
          → ((m : Result ContainerConfig) × (f.done c ≡ some m))
            ⊎ IsLed (join_or_start i k none f) c
      still_led c (inl d) = inl d
      still_led c (inr (u, l, d)) =
          inr (u, l, ap led (update_ne f.phase i u (leading f.calls k) (other_leads u c l n d)) ∙ d)

  -- a goroutine that leads a call finishes it
  Inv-finish :
      (call : ℕ) (k : LoadKey) (m : Result ContainerConfig)
      → led (f.phase i) ≡ some (call, k)
      → Inv (finish i call k m f)
  Inv-finish call k m n = record {
    leads = λ t c l e. ground (
      arith,
      apply-update led f.phase i t (returned (clone_result m)),
      v.leads t c l,
      v.leads i call k n,
      v.alone i t call k l n,
      lookup-delete LoadKey-discrete k l f.loads,
    );
    led_by = λ l c e. led_by_before l c (sym (lookup-delete LoadKey-discrete k l f.loads) ∙ e);
    alone = λ t u c l j d e. ground (
      arith,
      apply-update led f.phase i t (returned (clone_result m)),
      apply-update led f.phase i u (returned (clone_result m)),
      v.alone t u c l j,
    );
    ended = λ c q e. ground (arith, v.ended c q, v.leads i call k n);
    waits = λ t c e.
        done_or_led c (v.waits t c (awaited_before (returned (clone_result m)) t c refl e));
  }
    where
      gone : Phase
      gone = returned (clone_result m)

      other_call :
          (t c : ℕ) (l : LoadKey) → led (f.phase t) ≡ some (c, l) → (call ≢ c) ⊎ (k ≢ l) → i ≢ t
      other_call t c l d x p = differ (sym n ∙ ap (λ j. led (f.phase j)) p ∙ d) x
        where
          differ :
              ◌≡◌ {A = Option (ℕ × LoadKey)} (some (call, k)) (some (c, l))
              → (call ≢ c) ⊎ (k ≢ l)
              → ⊥
          differ q (inl g) = g (ground arith)
          differ q (inr g) = g (ground arith)

      led_by_other :
          (l : LoadKey) (c : ℕ)
          → k ≢ l
          → lookup LoadKey-discrete l f.loads ≡ some c
          → (t : ℕ) × (led (update f.phase i gone t) ≡ some (c, l))
      led_by_other l c x e =
          let (t, d) = v.led_by l c e in
          (t, ap led (update_ne f.phase i t gone (other_call t c l d (inr x))) ∙ d)

      led_by_before :
          (l : LoadKey) (c : ℕ)
          → ite (LoadKey-discrete k l) none (lookup LoadKey-discrete l f.loads) ≡ some c
          → (t : ℕ) × (led (update f.phase i gone t) ≡ some (c, l))
      led_by_before l c e = elim (LoadKey-discrete k l) [
        | yes p ↦ absurd (ground arith)
        | no p ↦ led_by_other l c p (ground arith)
      ]

      done_or_led :
          (c : ℕ)
          → ((q : Result ContainerConfig) × (f.done c ≡ some q)) ⊎ IsLed f c
          → ((q : Result ContainerConfig) × (update f.done call (some m) c ≡ some q))
            ⊎ IsLed (finish i call k m f) c
      done_or_led c o = elim (ℕ_discrete call c) [
        | yes p ↦ inl (m, if_pos (ℕ_discrete call c) p (some m) (f.done c))
        | no p ↦ others c p o
      ]
        where
          others :
              (c : ℕ)
              → call ≢ c
              → ((q : Result ContainerConfig) × (f.done c ≡ some q)) ⊎ IsLed f c
              → ((q : Result ContainerConfig) × (update f.done call (some m) c ≡ some q))
                ⊎ IsLed (finish i call k m f) c
          others c p (inl (q, d)) = inl (q, update_ne f.done call c (some m) p ∙ d)
          others c p (inr (u, l, d)) =
              inr (u, l, ap led (update_ne f.phase i u gone (other_call u c l d (inl p))) ∙ d)

-- What a step does to a state that satisfies the invariant.
module _ {W : Type 0} (s : CachedConfigSource W) (request : ℕ → LoadRequest W) where
  Inv-join_or_start :
      (f : Flight W) (i : ℕ) (k : LoadKey)
      → Inv f
      → led (f.phase i) ≡ none
      → Inv (join_or_start i k (lookup LoadKey-discrete k f.loads) f)
  Inv-join_or_start f i k v n = elim (Option-cases (lookup LoadKey-discrete k f.loads)) [
    | inl e ↦ rw e (Inv-starts f v i k n e)
    | inr (call, e) ↦ rw e (Inv-joins f v i k call n e)
  ]

  Inv-woken :
      (f : Flight W) (i : ℕ) (o : Option (Result ContainerConfig))
      → Inv f
      → led (f.phase i) ≡ none
      → Inv (woken i o f)
  Inv-woken f i none v n = v
  Inv-woken f i (some m) v n = Inv-moved f v i (returned m) f.world (sym n) refl

  Inv-after_first :
      (f : Flight W) (i : ℕ) (k : LoadKey) (o : Option ContainerConfig) (w : W)
      → Inv f
      → led (f.phase i) ≡ none
      → Inv (moved f i (after_first k o) w)
  Inv-after_first f i k none w v n = Inv-moved f v i (entering k) w (sym n) refl
  Inv-after_first f i k (some c) w v n = Inv-moved f v i (returned (ok c)) w (sym n) refl

  Inv-after_recheck :
      (f : Flight W) (i call : ℕ) (k : LoadKey) (m : Recheck) (w : W)
      → Inv f
      → led (f.phase i) ≡ some (call, k)
      → Inv (moved f i (after_recheck call k m) w)
  Inv-after_recheck f i call k (found c) w v n =
      Inv-moved f v i (finishing call k (ok c)) w (sym n) refl
  Inv-after_recheck f i call k (missing version) w v n =
      Inv-moved f v i (loading call k version) w (sym n) refl

  Inv-step_phase :
      (i : ℕ) (first : Bool) (p : Phase) (f : Flight W)
      → f.phase i ≡ p
      → Inv f
      → Inv (step_phase s request i first p f)
  Inv-step_phase i first starting f e v = Inv-after_first f i _ _ _ v (ap led e)
  Inv-step_phase i first (entering k) f e v = Inv-join_or_start f i k v (ap led e)
  Inv-step_phase i first (waiting call) f e v = Inv-woken f i _ v (ap led e)
  Inv-step_phase i first (leading call k) f e v = Inv-after_recheck f i call k _ _ v (ap led e)
  Inv-step_phase i first (loading call k version) f e v = Inv-moved f v i _ _ (sym (ap led e)) refl
  Inv-step_phase i first (filling call k m version) f e v =
      Inv-moved f v i _ _ (sym (ap led e)) refl
  Inv-step_phase i first (finishing call k m) f e v = Inv-finish f v i call k m (ap led e)
  Inv-step_phase i first (returned m) f e v = v

  pub Inv-step : (m : Move s request) (f : Flight W) → Inv f → Inv (step s request m f)
  unfolding step
  Inv-step (runs i first) f v = Inv-step_phase i first (f.phase i) f refl v
  Inv-step (outside w) f v = record {
    leads = v.leads;
    led_by = v.led_by;
    alone = v.alone;
    ended = v.ended;
    waits = λ t c e. v.waits t c e;
  }

  pub Inv-run : (ms : List (Move s request)) (f : Flight W) → Inv f → Inv (run s request ms f)
  unfolding run
  Inv-run [] f v = v
  Inv-run (m ∷ ms) f v = Inv-run ms (step s request m f) (Inv-step m f v)

pub Inv-at_rest : {W : Type 0} (w : W) → Inv (at_rest w)
unfolding at_rest lookup
Inv-at_rest w = record {
  leads = λ t c k e. cc;
  led_by = λ k c e. cc;
  alone = λ t u c k l d e. cc;
  ended = λ c m e. cc;
  waits = λ t c e. cc;
}
