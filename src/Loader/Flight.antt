-- ===== src/Loader/Flight.antt =====
-- config_loader.go: calls of cachedConfigSource.Load that run together. Each goroutine makes one
-- call; a step takes it past one locked section or one call of the cache or the source, and the
-- schedule says whose step is next. A goroutine that waits in `select` and has both an ended
-- context and a finished load goes on as its step chooses.
pub mod Invariant
pub mod Steps
pub mod Single
pub mod Leading
pub mod Waking
use mathlib.Core.List.{lookup}
use sharp_store.Prelude.{
  ℕ, suc, Bool, true, false, Option, none, some, List, [], ◌∷◌, Text, Map, ite, ℕ_discrete,
  if◌then◌else◌,
}
use sharp_store.Prelude.Maps.{put, delete}
use sharp_store.Errors.{Error, Outcome, Result, ok, err}
use sharp_store.Config.{ContainerConfig}
use sharp_store.Loader.{
  CachedConfigSource, LoadKey, LoadKey-discrete, LoadRequest, Recheck, found, missing, clone_result,
  new_load_key, first_read, recheck, from_source, fill,
}

-- How far a call is. A number names a configLoadCall.
pub data Phase : Type 0 where
  starting : Phase
  entering : LoadKey → Phase
  waiting : ℕ → Phase
  leading : ℕ → LoadKey → Phase
  loading : ℕ → LoadKey → Text → Phase
  filling : ℕ → LoadKey → Result ContainerConfig → Text → Phase
  finishing : ℕ → LoadKey → Result ContainerConfig → Phase
  returned : Result ContainerConfig → Phase

-- `loads` is the table of running loads, `done` has the results of the calls whose channel is
-- closed, and `calls` is the number of calls made so far.
pub record Flight (W : Type 0) : Type 0 where
  pub world : W
  pub loads : Map LoadKey ℕ
  pub done : ℕ → Option (Result ContainerConfig)
  pub calls : ℕ
  pub phase : ℕ → Phase

abbrev pub update {ℓ} : {A : Type ℓ} → (ℕ → A) → ℕ → A → ℕ → A
update f i a j = ite (ℕ_discrete i j) a (f j)

-- what `select` gives: nothing while both channels are silent
abbrev pub selected :
    Bool → Outcome → Option (Result ContainerConfig) → Option (Result ContainerConfig)
selected first none none = none
selected first none (some m) = some (clone_result m)
selected first (some e) none = some (err e)
selected first (some e) (some m) = if first then some (err e) else some (clone_result m)

abbrev pub after_first : LoadKey → Option ContainerConfig → Phase
after_first k (some c) = returned (ok c)
after_first k none = entering k

abbrev pub after_recheck : ℕ → LoadKey → Recheck → Phase
after_recheck call k (found c) = finishing call k (ok c)
after_recheck call k (missing version) = loading call k version

module _ {W : Type 0} where
  abbrev pub moved : Flight W → ℕ → Phase → W → Flight W
  moved f i p w = record f { world = w; phase = update f.phase i p }

  -- the section of Load under the mutex that joins a running load or starts one
  abbrev pub join_or_start : ℕ → LoadKey → Option ℕ → Flight W → Flight W
  join_or_start i k (some call) f = moved f i (waiting call) f.world
  join_or_start i k none f = record f {
    loads = put LoadKey-discrete k f.calls f.loads;
    calls = suc f.calls;
    phase = update f.phase i (leading f.calls k);
  }

  -- the section that takes the load out of the table and closes its channel
  abbrev pub finish : ℕ → ℕ → LoadKey → Result ContainerConfig → Flight W → Flight W
  finish i call k m f = record f {
    loads = delete LoadKey-discrete k f.loads;
    done = update f.done call (some m);
    phase = update f.phase i (returned (clone_result m));
  }

  abbrev pub woken : ℕ → Option (Result ContainerConfig) → Flight W → Flight W
  woken i none f = f
  woken i (some m) f = moved f i (returned m) f.world

  module _ (s : CachedConfigSource W) (request : ℕ → LoadRequest W) where
    -- one step of goroutine `i`, which is at a phase
    abbrev pub step_phase : ℕ → Bool → Phase → Flight W → Flight W
    step_phase i first starting f =
        let (o, w) = first_read s (request i) f.world in
        moved f i (after_first (new_load_key (request i) w) o) w
    step_phase i first (entering k) f = join_or_start i k (lookup LoadKey-discrete k f.loads) f
    step_phase i first (waiting call) f =
        woken i (selected first ((request i).ctx f.world) (f.done call)) f
    step_phase i first (leading call k) f =
        let (m, w) = recheck s (request i) f.world in moved f i (after_recheck call k m) w
    step_phase i first (loading call k version) f =
        let (m, w) = from_source s (request i) f.world in moved f i (filling call k m version) w
    step_phase i first (filling call k m version) f =
        moved f i (finishing call k m) (fill s (request i) m version f.world)
    step_phase i first (finishing call k m) f = finish i call k m f
    step_phase i first (returned m) f = f

    -- A schedule is a list of steps: a goroutine with its choice in `select`, or a change of the
    -- outside state.
    pub data Move : Type 0 where
      runs : ℕ → Bool → Move
      outside : W → Move

    unfoldable pub step : Move → Flight W → Flight W
    unfolding put delete LoadKey-discrete
    step (runs i first) f = step_phase i first (f.phase i) f
    step (outside w) f = record f { world = w }

    unfoldable pub run : List Move → Flight W → Flight W
    unfolding step
    run [] f = f
    run (m ∷ ms) f = run ms (step m f)

  -- newCachedConfigSource: no load is running, and no goroutine has begun
  unfoldable pub at_rest : W → Flight W
  at_rest w = record { world = w; loads = []; done = λ _. none; calls = 0; phase = λ _. starting }
