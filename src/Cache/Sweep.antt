-- ===== src/Cache/Sweep.antt =====
-- How many entries MemoryConfigCache (config_cache.go) keeps.
use sharp_store.Prelude.{
  ℕ, ◌+◌, ◌*◌, ◌≤◌, ◌<◌, ◌≡◌, sym, ap, subst, none, [], ◌∷◌, Map, arith, length, ◌⊎◌, All,
}
use sharp_store.Prelude.Decimal.{format_uint}
use sharp_store.Prelude.Maps.{put, length-put-le, length-put-Fresh, Fresh, put-Fresh}
use sharp_store.Config.{ContainerConfig}
use sharp_store.Cache.{
  CacheKey, CacheKey-discrete, CacheEntry, Entries, MemoryConfigCache, remove_expired,
  maybe_sweep_locked, set, set_if_version, new_entry,
}

abbrev pub AllLive : ℕ → Entries → Type 0
AllLive now m = All (λ p. now < p.1.expires_at) m

remove_expired-AllLive : (now : ℕ) (m : Entries) → AllLive now (remove_expired now m)
unfolding remove_expired
remove_expired-AllLive now [] = tt
remove_expired-AllLive now ((k, e) ∷ m) = ground (arith, remove_expired-AllLive now m)

-- After any Set the entries are within the threshold of the next sweep, and that threshold is the
-- old one, at most 16, or at most twice the number of the old entries that are alive.
pub length-set-le :
    (now₁ now₂ : ℕ) (k : CacheKey) (config : ContainerConfig) (c : MemoryConfigCache)
    → let c' = (set none now₁ now₂ k config c).1 in
      (length c'.entries ≤ c'.next_sweep)
      × ((c'.next_sweep ≡ c.next_sweep)
          ⊎ (c'.next_sweep ≤ 16)
          ⊎ ((c'.next_sweep ≤ 2 * length (remove_expired now₂ c.entries))
              × AllLive now₂ (remove_expired now₂ c.entries)))
unfolding set maybe_sweep_locked
length-set-le now₁ now₂ k config c = ground (
  arith,
  length-put-le CacheKey-discrete k (new_entry now₁ config c) c.entries,
  length-put-le CacheKey-discrete k (new_entry now₁ config c) (remove_expired now₂ c.entries),
  remove_expired-AllLive now₂ c.entries,
)

abbrev pub Loads : Type 0
Loads = Map CacheKey (ℕ × ContainerConfig)

-- What a load of the factory does to the cache, after GetWithVersion has found nothing.
abbrev pub fill : CacheKey × (ℕ × ContainerConfig) → MemoryConfigCache → MemoryConfigCache
fill (k, (now, config)) c = (set_if_version none now k config (format_uint c.version) c).1

abbrev pub fill_all : Loads → MemoryConfigCache → MemoryConfigCache
fill_all [] c = c
fill_all (f ∷ fs) c = fill_all fs (fill f c)

fill-entries :
    (k : CacheKey) (now : ℕ) (config : ContainerConfig) (c : MemoryConfigCache)
    → (fill (k, (now, config)) c).entries
      ≡ put CacheKey-discrete k (new_entry now config c) c.entries
unfolding set_if_version
fill-entries k now config c = ground arith

-- the keys of the loads differ from one another and from those in the cache
abbrev pub AllFresh : Loads → Entries → Type 0
AllFresh [] m = Unit
AllFresh ((k, (now, config)) ∷ fs) m = Fresh k m × Fresh k fs × AllFresh fs m

AllFresh-put :
    (k : CacheKey) (e : CacheEntry) (fs : Loads) (m : Entries)
    → Fresh k fs
    → AllFresh fs m
    → AllFresh fs (put CacheKey-discrete k e m)
AllFresh-put k e [] m f a = tt
AllFresh-put k e ((j, (now, config)) ∷ fs) m f a =
    (put-Fresh CacheKey-discrete k j e m (λ p. f.0 (sym p)) a.0, a.1, AllFresh-put k e fs m f.1 a.2)

-- Loads fill the cache and never sweep it: after loads of new keys every one of their entries is
-- stored beside all the old ones, however long ago those expired.
pub length-fill_all :
    (fs : Loads) (c : MemoryConfigCache)
    → AllFresh fs c.entries
    → length (fill_all fs c).entries ≡ length fs + length c.entries
length-fill_all [] c a = omega arith
length-fill_all ((k, (now, config)) ∷ fs) c a =
    let e = new_entry now config c in
    let grown = fill-entries k now config c in
    let fresh = subst (AllFresh fs) (sym grown) (AllFresh-put k e fs c.entries a.1 a.2) in
    omega (
      arith,
      length-fill_all fs (fill (k, (now, config)) c) fresh,
      ap length grown,
      length-put-Fresh CacheKey-discrete k e c.entries a.0,
    )
