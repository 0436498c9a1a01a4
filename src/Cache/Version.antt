-- ===== src/Cache/Version.antt =====
-- The versions of MemoryConfigCache (config_cache.go): a fill that was prepared before a write
-- fails.
use mathlib.Core.Logic.{◌≢◌}
use sharp_store.Prelude.{
  ℕ, ◌+◌, ◌≤◌, ◌<◌, ◌≡◌, Bool, true, false, ◌||◌, none, List, [], ◌∷◌, same, arith, length, ◌^◌,
  ◌%◌, if◌then◌else◌,
}
use sharp_store.Prelude.Decimal.{format_uint, format_uint-injective}
use sharp_store.Errors.{ok}
use sharp_store.Config.{ContainerConfig}
use sharp_store.Cache.{
  CacheKey, MemoryConfigCache, maybe_sweep_locked, evict_section, set, delete_entry, set_if_version,
}
use sharp_store.Cache.View.{IsValid}
use sharp_store.Cache.Events.{Event, reads, sets, deletes, fills, step, run}

-- Set and Delete, if the context is alive
abbrev pub is_write : Event → Bool
is_write (sets none d t k config) = true
is_write (deletes none k) = true
is_write _ = false

abbrev pub has_write : List Event → Bool
has_write [] = false
has_write (e ∷ es) = is_write e || has_write es

-- how often the version is counted up
bump : Event → MemoryConfigCache → ℕ
bump (sets none d t k config) c = 1
bump (deletes none k) c = 1
bump (fills none d k config version) c = if same (format_uint c.version) version then 1 else 0
bump _ c = 0

bumps : List Event → MemoryConfigCache → ℕ
bumps [] c = 0
bumps (e ∷ es) c = bump e c + bumps es (step e c).1

version-step :
    (e : Event) (c : MemoryConfigCache)
    → c.version < 2 ^ 64
    → (step e c).1.version ≡ (c.version + bump e c) % 2 ^ 64
unfolding step bump evict_section set delete_entry set_if_version maybe_sweep_locked
version-step (reads t k) c h = omega arith
version-step _ c h = ground arith

version-run :
    (es : List Event) (c : MemoryConfigCache)
    → c.version < 2 ^ 64
    → (run es c).version ≡ (c.version + bumps es c) % 2 ^ 64
unfolding run bumps
version-run [] c h = omega arith
version-run (e ∷ es) c h =
    let one = version-step e c h in
    omega (arith, one, version-run es (step e c).1 (omega (arith, one)))

bump_bounds :
    (e : Event) (c : MemoryConfigCache) → (bump e c ≤ 1) × (is_write e ≡ true → bump e c ≡ 1)
unfolding bump
bump_bounds (reads t k) c = ground arith
bump_bounds _ c = ground arith

bumps_bounds :
    (es : List Event) (c : MemoryConfigCache)
    → (bumps es c ≤ length es) × (has_write es ≡ true → 0 < bumps es c)
unfolding bumps
bumps_bounds [] c = ground arith
bumps_bounds (e ∷ es) c = ground (arith, bump_bounds e c, bumps_bounds es (step e c).1)

-- In a valid cache a fill with a version that was read before a Set or a Delete of any key is
-- refused and changes nothing, whatever else happened in between, if fewer than 2^64 events did.
pub set_if_version_stale :
    (es : List Event) (c : MemoryConfigCache) (now : ℕ) (k : CacheKey) (config : ContainerConfig)
    → IsValid c
    → has_write es ≡ true
    → length es < 2 ^ 64
    → set_if_version none now k config (format_uint c.version) (run es c) ≡ (ok false, run es c)
unfolding set_if_version
set_if_version_stale es c now k config v h l =
    let moved = version-run es c v.version_fits in
    let (most, least) = bumps_bounds es c in
    let differs : (run es c).version ≢ c.version = omega (arith, moved, most, least h) in
    let unequal : format_uint (run es c).version ≢ format_uint c.version =
      λ e. differs (format_uint-injective _ _ (omega (arith, moved)) v.version_fits e) in
    ground (arith, unequal)
