-- ===== src/Cache/View.antt =====
-- What a caller of MemoryConfigCache (config_cache.go) can see: the configuration that each key
-- has at a time. Expired entries that are still stored cannot be seen.
use mathlib.Core.List.{lookup}
use sharp_store.Prelude.{
  ℕ, ◌≤◌, ◌<◌, ◌≡◌, refl, ◌∙◌, Option, none, some, [], ◌∷◌, arith, ltb, ite, ◌^◌, if◌then◌else◌,
}
use sharp_store.Prelude.Maps.{lookup-put, lookup-delete, Fresh, HasDistinctKeys, lookup-Fresh}
use sharp_store.Prelude.Decimal.{format_uint}
use sharp_store.Config.{ContainerConfig, clone}
use sharp_store.Cache.{
  CacheKey, CacheKey-discrete, CacheEntry, Entries, MemoryConfigCache, is_expired, remove_expired,
  maybe_sweep_locked, store_entry, new_entry, evict_section, set, delete_entry, set_if_version,
}

abbrev pub live_config : ℕ → Option CacheEntry → Option ContainerConfig
live_config now none = none
live_config now (some e) = if is_expired now e then none else some (clone e.config)

unfoldable pub view : ℕ → CacheKey → MemoryConfigCache → Option ContainerConfig
unfolding CacheKey-discrete
view now k c = live_config now (lookup CacheKey-discrete k c.entries)

abbrev pub shown : ℕ → CacheEntry → Option ContainerConfig
shown now e = if ltb now e.expires_at then some (clone e.config) else none

lookup-remove_expired :
    (now t : ℕ) (k : CacheKey) (m : Entries)
    → now ≤ t
    → HasDistinctKeys m
    → live_config t (lookup CacheKey-discrete k (remove_expired now m))
      ≡ live_config t (lookup CacheKey-discrete k m)
unfolding remove_expired lookup
lookup-remove_expired now t k [] h d = refl
lookup-remove_expired now t k ((j, e) ∷ m) h d =
    ground (arith, lookup-remove_expired now t k m h d.1, lookup-Fresh CacheKey-discrete j m d.0)

pub remove_expired-Fresh :
    (now : ℕ) (k : CacheKey) (m : Entries) → Fresh k m → Fresh k (remove_expired now m)
unfolding remove_expired
remove_expired-Fresh now k [] f = tt
remove_expired-Fresh now k ((j, e) ∷ m) f = ground (arith, remove_expired-Fresh now k m f.1)

pub remove_expired-HasDistinctKeys :
    (now : ℕ) (m : Entries) → HasDistinctKeys m → HasDistinctKeys (remove_expired now m)
unfolding remove_expired
remove_expired-HasDistinctKeys now [] d = tt
remove_expired-HasDistinctKeys now ((j, e) ∷ m) d =
    ground (arith, remove_expired-HasDistinctKeys now m d.1, remove_expired-Fresh now j m d.0)

-- A key stands once, and the counters are in range.
pub record IsValid (c : MemoryConfigCache) : Type 0 where
  pub distinct : HasDistinctKeys c.entries
  pub version_fits : c.version < 2 ^ 64
  pub interval : 16 ≤ c.next_sweep

module _ (t : ℕ) (j : CacheKey) (c : MemoryConfigCache) where
  -- A sweep hides nothing that could be seen.
  pub view-maybe_sweep_locked :
      (now : ℕ) → IsValid c → now ≤ t → view t j (maybe_sweep_locked now c) ≡ view t j c
  unfolding view maybe_sweep_locked
  view-maybe_sweep_locked now v h =
      ground (arith, lookup-remove_expired now t j c.entries h v.distinct)

  -- Nor does an eviction, even of an entry stored since the entry was found expired.
  pub view-evict_section :
      (now : ℕ) (k : CacheKey) → now ≤ t → view t j (evict_section now k c) ≡ view t j c
  unfolding view evict_section
  view-evict_section now k h = ground (arith, lookup-delete CacheKey-discrete k j c.entries)

  pub view-store_entry :
      (k : CacheKey) (e : CacheEntry)
      → view t j (store_entry k e c) ≡ ite (CacheKey-discrete k j) (shown t e) (view t j c)
  unfolding view
  view-store_entry k e = ground (arith, lookup-put CacheKey-discrete k j e c.entries)

module _ (t : ℕ) (j : CacheKey) (c : MemoryConfigCache) where
  pub view-set :
      (now₁ now₂ : ℕ) (k : CacheKey) (config : ContainerConfig)
      → IsValid c
      → now₂ ≤ t
      → view t j (set none now₁ now₂ k config c).1
        ≡ ite (CacheKey-discrete k j) (shown t (new_entry now₁ config c)) (view t j c)
  unfolding set
  view-set now₁ now₂ k config v h =
      view-store_entry t j (maybe_sweep_locked now₂ c) k (new_entry now₁ config c)
      ∙ rw (view-maybe_sweep_locked t j c now₂ v h) refl

  -- SetIfVersion changes as much if it is given the current version.
  pub view-set_if_version :
      (now : ℕ) (k : CacheKey) (config : ContainerConfig)
      → view t j (set_if_version none now k config (format_uint c.version) c).1
        ≡ ite (CacheKey-discrete k j) (shown t (new_entry now config c)) (view t j c)
  unfolding set_if_version
  view-set_if_version now k config =
      ground (arith, view-store_entry t j c k (new_entry now config c))

  pub view-delete_entry :
      (k : CacheKey)
      → view t j (delete_entry none k c).1 ≡ ite (CacheKey-discrete k j) none (view t j c)
  unfolding delete_entry view
  view-delete_entry k = ground (arith, lookup-delete CacheKey-discrete k j c.entries)
