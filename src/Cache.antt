-- ===== src/Cache.antt =====
-- config_cache.go: the cache interfaces and MemoryConfigCache. A time is its number of nanoseconds
-- since some day before all others, and each reading of the injected clock is an argument `now` of
-- the method that makes it. The mutex makes each locked section one atomic step, so a method with
-- two sections is a composition of two functions.
pub mod View
pub mod Sweep
pub mod Version
pub mod Events
pub mod Refinement
use mathlib.Core.List.{lookup}
use sharp_store.Prelude.{
  ℕ, zero, suc, ◌+◌, ◌*◌, ◌%◌, ◌^◌, Bool, true, false, Option, none, some, List, [], ◌∷◌, Text, Map,
  text_discrete, same, ltb, leb, length, if◌then◌else◌,
}
use sharp_store.Prelude.Integers.{ℤ, pos, negsuc}
use sharp_store.Prelude.Decimal.{format_uint}
use sharp_store.Prelude.Maps.{put, delete}
use sharp_store.Errors.{Error, Outcome, Result, ok, err, check, ◌>>=◌, ◌>>◌}
use sharp_store.Scope.{Context, TenantContext}
use sharp_store.Config.{ContainerConfig, clone}

-- 5 * time.Minute
abbrev pub default_config_cache_ttl : ℕ
default_config_cache_ttl = 5 * 60 * 1000000000

abbrev pub cache_sweep_min_interval : ℕ
cache_sweep_min_interval = 16

-- VersionedConfigCache, beyond ConfigCache
pub record VersionedOperations (W : Type 0) : Type 0 where
  pub get_with_version :
      Context W → Text → Option (TenantContext W) → W → Result (Option ContainerConfig × Text) × W
  pub set_if_version :
      Context W → Text → Option (TenantContext W) → ContainerConfig → Text → W → Result Bool × W

-- ConfigCache; `versioned` is there if the cache is a VersionedConfigCache. What a Get returns
-- beside an error, or beside ok = false, is never read and is left out.
pub record ConfigCache (W : Type 0) : Type 0 where
  pub get : Context W → Text → Option (TenantContext W) → W → Result (Option ContainerConfig) × W
  pub set : Context W → Text → Option (TenantContext W) → ContainerConfig → W → Outcome × W
  pub delete : Context W → Text → Option (TenantContext W) → W → Outcome × W
  pub versioned : Option (VersionedOperations W)

-- memoryConfigCacheKey
pub record CacheKey : Type 0 where
  pub tenant_id : Text
  pub key : Text

pub CacheKey-discrete : Discrete CacheKey
CacheKey-discrete = hlevel text_discrete

-- newMemoryConfigCacheKey
unfoldable pub new_cache_key : {W : Type 0} → Text → Option (TenantContext W) → W → CacheKey
new_cache_key key none w = record { tenant_id = []; key = key }
new_cache_key key (some t) w = record { tenant_id = t.tenant_id w; key = key }

-- memoryConfigCacheEntry
pub record CacheEntry : Type 0 where
  pub config : ContainerConfig
  pub expires_at : ℕ

abbrev pub Entries : Type 0
Entries = Map CacheKey CacheEntry

pub record MemoryConfigCache : Type 0 where
  pub entries : Entries
  pub ttl : ℕ
  pub version : ℕ
  pub next_sweep : ℕ

-- newMemoryConfigCache, without the clock
unfoldable pub empty_cache : ℕ → MemoryConfigCache
empty_cache ttl = record {
  entries = [];
  ttl = ttl;
  version = 0;
  next_sweep = cache_sweep_min_interval;
}

-- the TTL of the first option, if it is positive
unfoldable pub chosen_ttl : List ℤ → ℕ
chosen_ttl [] = default_config_cache_ttl
chosen_ttl (pos zero ∷ _) = default_config_cache_ttl
chosen_ttl (pos (suc n) ∷ _) = suc n
chosen_ttl (negsuc n ∷ _) = default_config_cache_ttl

unfoldable pub new_memory_config_cache : List ℤ → MemoryConfigCache
unfolding chosen_ttl empty_cache
new_memory_config_cache options = empty_cache (chosen_ttl options)

-- !now.Before(entry.expiresAt)
abbrev pub is_expired : ℕ → CacheEntry → Bool
is_expired now e = leb e.expires_at now

-- `for key, entry := range c.entries { if expired { delete(c.entries, key) } }`
unfoldable pub remove_expired : ℕ → Entries → Entries
remove_expired now [] = []
remove_expired now ((k, e) ∷ m) =
    let rest = remove_expired now m in if is_expired now e then rest else (k, e) ∷ rest

-- 2 * n, and no less than the minimal interval
abbrev pub sweep_threshold : ℕ → ℕ
sweep_threshold n = if ltb (2 * n) cache_sweep_min_interval then cache_sweep_min_interval else 2 * n

abbrev pub swept : MemoryConfigCache → Entries → MemoryConfigCache
swept c m = record c { entries = m; next_sweep = sweep_threshold (length m) }

unfoldable pub maybe_sweep_locked : ℕ → MemoryConfigCache → MemoryConfigCache
unfolding remove_expired
maybe_sweep_locked now c =
    if ltb (length c.entries) c.next_sweep then c else swept c (remove_expired now c.entries)

-- c.version++ on a uint64
abbrev pub next_version : ℕ → ℕ
next_version v = (v + 1) % 2 ^ 64

-- the section of GetWithVersion under the read lock
unfoldable pub read_section : CacheKey → MemoryConfigCache → Option CacheEntry × Text
unfolding CacheKey-discrete
read_section k c = (lookup CacheKey-discrete k c.entries, format_uint c.version)

abbrev pub evict_entry : ℕ → CacheKey → Option CacheEntry → MemoryConfigCache → MemoryConfigCache
evict_entry now k none c = c
evict_entry now k (some e) c =
    if is_expired now e then record c { entries = delete CacheKey-discrete k c.entries } else c

-- the section of GetWithVersion under the write lock, which looks the entry up again
unfoldable pub evict_section : ℕ → CacheKey → MemoryConfigCache → MemoryConfigCache
unfolding delete CacheKey-discrete
evict_section now k c = evict_entry now k (lookup CacheKey-discrete k c.entries) c

-- What GetWithVersion returns for what it read, `now` being its first reading of the clock.
abbrev pub read_answer : ℕ → Option CacheEntry → Text → Option ContainerConfig × Text
read_answer now none version = (none, version)
read_answer now (some e) version =
    if is_expired now e then (none, version) else (some (clone e.config), version)

-- whether GetWithVersion goes on to the section under the write lock
abbrev pub read_expired : ℕ → Option CacheEntry → Bool
read_expired now none = false
read_expired now (some e) = is_expired now e

-- GetWithVersion with no other call between its sections. `early` is ctx.Err(); `now₁` is read
-- between the sections and `now₂` under the write lock.
unfoldable pub get_with_version :
    Outcome
    → ℕ
    → ℕ
    → CacheKey
    → MemoryConfigCache
    → Result (Option ContainerConfig × Text) × MemoryConfigCache
unfolding read_section evict_section
get_with_version (some e) now₁ now₂ k c = (err e, c)
get_with_version none now₁ now₂ k c =
    let (found, version) = read_section k c in
    (
      ok (read_answer now₁ found version),
      if read_expired now₁ found then evict_section now₂ k c else c,
    )

abbrev pub drop_version : Result (Option ContainerConfig × Text) → Result (Option ContainerConfig)
drop_version m = m >>= λ r. ok r.0

-- Get
unfoldable pub get :
    Outcome
    → ℕ
    → ℕ
    → CacheKey
    → MemoryConfigCache
    → Result (Option ContainerConfig) × MemoryConfigCache
unfolding get_with_version
get early now₁ now₂ k c = let (r, c') = get_with_version early now₁ now₂ k c in (drop_version r, c')

-- `c.entries[key] = entry; c.version++`
abbrev pub store_entry : CacheKey → CacheEntry → MemoryConfigCache → MemoryConfigCache
store_entry k e c = record c {
  entries = put CacheKey-discrete k e c.entries;
  version = next_version c.version;
}

abbrev pub new_entry : ℕ → ContainerConfig → MemoryConfigCache → CacheEntry
new_entry now config c = record { config = clone config; expires_at = now + c.ttl }

-- Set: `now₁` dates the entry, and `now₂` is read by a sweep.
unfoldable pub set :
    Outcome → ℕ → ℕ → CacheKey → ContainerConfig → MemoryConfigCache → Outcome × MemoryConfigCache
unfolding maybe_sweep_locked put CacheKey-discrete clone
set (some e) now₁ now₂ k config c = (some e, c)
set none now₁ now₂ k config c =
    (none, store_entry k (new_entry now₁ config c) (maybe_sweep_locked now₂ c))

-- Delete
unfoldable pub delete_entry : Outcome → CacheKey → MemoryConfigCache → Outcome × MemoryConfigCache
unfolding delete CacheKey-discrete
delete_entry (some e) k c = (some e, c)
delete_entry none k c = (
  none,
  record c { entries = delete CacheKey-discrete k c.entries; version = next_version c.version },
)

-- SetIfVersion
unfoldable pub set_if_version :
    Outcome
    → ℕ
    → CacheKey
    → ContainerConfig
    → Text
    → MemoryConfigCache
    → Result Bool × MemoryConfigCache
unfolding put CacheKey-discrete clone
set_if_version (some e) now k config version c = (err e, c)
set_if_version none now k config version c =
    if same (format_uint c.version) version
    then (ok true, store_entry k (new_entry now config c) c)
    else (ok false, c)
