-- ===== src/Examples/Caches.antt =====
-- The cache of config_cache.go in concrete runs.
use sharp_store.Prelude.{
  ◌+◌, ◌*◌, ◌≤◌, ◌≡◌, refl, ◌⊎◌, false, none, List, [], ◌∷◌, text, arith, length,
}
use sharp_store.Prelude.Decimal.{format_uint}
use sharp_store.Errors.{ok}
use sharp_store.Cache.{
  CacheKey, MemoryConfigCache, empty_cache, set, set_if_version, remove_expired,
}
use sharp_store.Cache.View.{IsValid}
use sharp_store.Cache.Events.{
  Event, reads, evicts, sets, deletes, fills, step, run, replies, spec_replies,
}
use sharp_store.Cache.Refinement.{empty_spec, step-IsValid, replies-empty_cache}
use sharp_store.Cache.Version.{set_if_version_stale}
use sharp_store.Cache.Sweep.{AllLive, Loads, fill_all, length-set-le, length-fill_all}
use sharp_store.Examples.{scoped_config}

abbrev docs : CacheKey
docs = record { tenant_id = text "17"; key = text "docs" }

abbrev pictures : CacheKey
pictures = record { tenant_id = text "17"; key = text "pictures" }

abbrev fresh_cache : MemoryConfigCache
fresh_cache = empty_cache 10

fresh_cache-IsValid : IsValid fresh_cache
unfolding empty_cache
fresh_cache-IsValid = record { distinct = tt; version_fits = omega arith; interval = omega arith }

-- A fill, a hit, an expired read with its eviction after a newer Set, and a refused fill.
abbrev interleaving : List Event
interleaving =
    fills none 1 docs scoped_config (text "0")
    ∷ reads 2 docs
    ∷ reads 11 docs
    ∷ sets none 11 11 docs scoped_config
    ∷ evicts 12 docs
    ∷ reads 12 docs
    ∷ deletes none pictures
    ∷ fills none 13 docs scoped_config (text "1")
    ∷ []

replies-empty_cache_example :
    replies interleaving (empty_cache 10) ≡ spec_replies interleaving (empty_spec 10)
replies-empty_cache_example =
    replies-empty_cache 10 interleaving
      (omega arith, (omega arith, (omega arith, (omega arith, (omega arith, tt)))))

step-IsValid_example : IsValid (step (sets none 1 1 docs scoped_config) fresh_cache).1
step-IsValid_example =
    step-IsValid (sets none 1 1 docs scoped_config) fresh_cache fresh_cache-IsValid

set_if_version_stale_example :
    set_if_version none 3 docs scoped_config
      (format_uint fresh_cache.version)
      (run (deletes none docs ∷ []) fresh_cache)
    ≡ (ok false, run (deletes none docs ∷ []) fresh_cache)
set_if_version_stale_example =
    set_if_version_stale (deletes none docs ∷ []) fresh_cache 3 docs scoped_config
      fresh_cache-IsValid refl (omega arith)

length-set-le_example :
    (length (set none 1 2 docs scoped_config fresh_cache).1.entries
      ≤ (set none 1 2 docs scoped_config fresh_cache).1.next_sweep)
    × (((set none 1 2 docs scoped_config fresh_cache).1.next_sweep ≡ fresh_cache.next_sweep)
        ⊎ ((set none 1 2 docs scoped_config fresh_cache).1.next_sweep ≤ 16)
        ⊎ (((set none 1 2 docs scoped_config fresh_cache).1.next_sweep
              ≤ 2 * length (remove_expired 2 fresh_cache.entries))
            × AllLive 2 (remove_expired 2 fresh_cache.entries)))
length-set-le_example = length-set-le 1 2 docs scoped_config fresh_cache

-- The second load runs long after the entry of the first has expired.
abbrev two_loads : Loads
two_loads = (docs, (1, scoped_config)) ∷ (pictures, (1000, scoped_config)) ∷ []

length-fill_all_example :
    length (fill_all two_loads fresh_cache).entries ≡ length two_loads + length fresh_cache.entries
unfolding empty_cache
length-fill_all_example = length-fill_all two_loads fresh_cache (tt, ((λ e. cc), tt), (tt, tt, tt))
