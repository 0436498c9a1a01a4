-- ===== src/Loader/Flight/Invariant.antt =====
-- The invariant of the running loads of config_loader.go, and the four ways to change the state.
use mathlib.Core.List.{lookup}
use sharp_store.Prelude.{
  ℕ, ◌<◌, ◌≡◌, refl, sym, ap, ◌∙◌, subst, ◌⊎◌, inl, inr, Option, none, some, ite, if_pos, if_neg,
  ℕ_discrete, arith,
}
use sharp_store.Errors.{Result}
use sharp_store.Config.{ContainerConfig}
use sharp_store.Loader.{LoadKey, LoadKey-discrete}
use sharp_store.Loader.Flight.{
  Phase, waiting, leading, loading, filling, finishing, Flight, update, moved,
}

-- The call that a goroutine leads, and its key.
abbrev pub led : Phase → Option (ℕ × LoadKey)
led (leading call k) = some (call, k)
led (loading call k version) = some (call, k)
led (filling call k m version) = some (call, k)
led (finishing call k m) = some (call, k)
led _ = none

-- The call that a goroutine waits for.
abbrev pub awaited : Phase → Option ℕ
awaited (waiting call) = some call
awaited _ = none

-- Somebody leads the call.
abbrev pub IsLed : {W : Type 0} → Flight W → ℕ → Type 0
IsLed f call = (t : ℕ) × (k : LoadKey) × (led (f.phase t) ≡ some (call, k))

-- Led calls are those in the table, each led by one goroutine and not done; who waits, waits for a
-- call that is done or led.
pub record Inv {W : Type 0} (f : Flight W) : Type 0 where
  pub leads :
      (t call : ℕ) (k : LoadKey)
      → led (f.phase t) ≡ some (call, k)
      → (lookup LoadKey-discrete k f.loads ≡ some call) × (f.done call ≡ none) × (call < f.calls)
  pub led_by :
      (k : LoadKey) (call : ℕ)
      → lookup LoadKey-discrete k f.loads ≡ some call
      → (t : ℕ) × (led (f.phase t) ≡ some (call, k))
  pub alone :
      (t u call : ℕ) (k l : LoadKey)
      → led (f.phase t) ≡ some (call, k)
      → led (f.phase u) ≡ some (call, l)
      → t ≡ u
  pub ended : (call : ℕ) (m : Result ContainerConfig) → f.done call ≡ some m → call < f.calls
  pub waits :
      (t call : ℕ)
      → awaited (f.phase t) ≡ some call
      → ((m : Result ContainerConfig) × (f.done call ≡ some m)) ⊎ IsLed f call

pub apply-update {ℓ κ} :
    {A : Type ℓ} {B : Type κ} (g : A → B) (h : ℕ → A) (i t : ℕ) (a : A)
    → g (update h i a t) ≡ ite (ℕ_discrete i t) (g a) (g (h t))
apply-update g h i t a = elim (ℕ_discrete i t) [
  | yes e ↦ rw (if_pos _ e, if_pos _ e)
  | no n ↦ rw (if_neg _ n, if_neg _ n)
]

module _ {W : Type 0} (f : Flight W) (v : Inv f) (i : ℕ) where
  pub led-update :
      (p : Phase) (t : ℕ) → led p ≡ led (f.phase i) → led (update f.phase i p t) ≡ led (f.phase t)
  led-update p t h = elim (ℕ_discrete i t) [
    | yes e ↦ rw (apply-update led f.phase i t p, if_pos _ e) (h ∙ ap (λ j. led (f.phase j)) e)
    | no n ↦ rw (apply-update led f.phase i t p, if_neg _ n) refl
  ]

  -- a step that neither takes up nor gives up the lead, and does not begin to wait
  pub Inv-moved :
      (p : Phase) (w : W) → led p ≡ led (f.phase i) → awaited p ≡ none → Inv (moved f i p w)
  Inv-moved p w h a = record {
    leads = λ t call k e. v.leads t call k (sym (led-update p t h) ∙ e);
    led_by = λ k call e. let (t, d) = v.led_by k call e in (t, led-update p t h ∙ d);
    alone = λ t u call k l d e.
        v.alone t u call k l (sym (led-update p t h) ∙ d) (sym (led-update p u h) ∙ e);
    ended = v.ended;
    waits = λ t call e. waits_still t call (v.waits t call (awaited_before t call e));
  }
    where
      awaited_before :
          (t call : ℕ)
          → awaited (update f.phase i p t) ≡ some call
          → awaited (f.phase t) ≡ some call
      awaited_before t call e = ground (arith, apply-update awaited f.phase i t p)

      waits_still :
          (t call : ℕ)
          → ((m : Result ContainerConfig) × (f.done call ≡ some m)) ⊎ IsLed f call
          → ((m : Result ContainerConfig) × (f.done call ≡ some m)) ⊎ IsLed (moved f i p w) call
      waits_still t call (inl d) = inl d
      waits_still t call (inr (u, k, d)) = inr (u, k, led-update p u h ∙ d)

  -- a step that begins to wait for a running load
  pub Inv-joins :
      (k : LoadKey) (call : ℕ)
      → led (f.phase i) ≡ none
      → lookup LoadKey-discrete k f.loads ≡ some call
      → Inv (moved f i (waiting call) f.world)
  Inv-joins k call n r = record {
    leads = λ t c l e. v.leads t c l (sym (led-update (waiting call) t (sym n)) ∙ e);
    led_by = λ l c e. let (t, d) = v.led_by l c e in (t, led-update (waiting call) t (sym n) ∙ d);
    alone = λ t u c l j d e.
        v.alone t u c l j (sym (led-update (waiting call) t (sym n)) ∙ d)
          (sym (led-update (waiting call) u (sym n)) ∙ e);
    ended = v.ended;
    waits = λ t c e. still_led c (joined_or_before t c e);
  }
    where
      still_led :
          (c : ℕ)
          → ((m : Result ContainerConfig) × (f.done c ≡ some m)) ⊎ IsLed f c
          → ((m : Result ContainerConfig) × (f.done c ≡ some m))
            ⊎ IsLed (moved f i (waiting call) f.world) c
      still_led c (inl d) = inl d
      still_led c (inr (u, l, d)) = inr (u, l, led-update (waiting call) u (sym n) ∙ d)

      leader : (t : ℕ) × (led (f.phase t) ≡ some (call, k))
      leader = v.led_by k call r

      joined_or_before :
          (t c : ℕ)
          → awaited (update f.phase i (waiting call) t) ≡ some c
          → ((m : Result ContainerConfig) × (f.done c ≡ some m)) ⊎ IsLed f c
      joined_or_before t c e = elim (ℕ_discrete i t) [
        | yes p ↦
            let same_call : call ≡ c =
              ground (arith, apply-update awaited f.phase i t (waiting call)) in
            inr (leader.0, k, subst (λ x. led (f.phase leader.0) ≡ some (x, k)) same_call leader.1)
        | no p ↦ v.waits t c (ground (arith, apply-update awaited f.phase i t (waiting call)))
      ]
