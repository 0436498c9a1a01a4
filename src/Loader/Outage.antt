-- ===== src/Loader/Outage.antt =====
-- Loads of config_loader.go: hits, misses and failing caches.
use sharp_store.Prelude.{◌≡◌, refl, Option, none, some, []}
use sharp_store.Errors.{Error, ok, err}
use sharp_store.Config.{ContainerConfig}
use sharp_store.Cache.{VersionedOperations}
use sharp_store.Loader.{
  CachedConfigSource, LoadRequest, clone_result, load, lead, first_read, recheck, recheck_by,
  from_source, missing,
}

module _ {W : Type 0} (s : CachedConfigSource W) (r : LoadRequest W) where
  -- Every look into the cache fails, and perhaps changes the outside state.
  pub record IsDown : Type 0 where
    pub get_fails : (w : W) → (e : Error) × ((s.cache.get r.ctx r.key r.tenant w).0 ≡ err e)
    pub reads_fail :
        (v : VersionedOperations W) (w : W)
        → s.cache.versioned ≡ some v
        → (e : Error) × ((v.get_with_version r.ctx r.key r.tenant w).0 ≡ err e)

  first_read-IsDown : (w : W) → IsDown → (first_read s r w).0 ≡ none
  unfolding first_read
  first_read-IsDown w d = let (e, h) = d.get_fails w in rw h

  recheck_by-IsDown :
      (o : Option (VersionedOperations W)) (w : W)
      → s.cache.versioned ≡ o
      → IsDown
      → (recheck_by s r o w).0 ≡ missing []
  recheck_by-IsDown none w p d = let (e, h) = d.get_fails w in rw h
  recheck_by-IsDown (some v) w p d = let (e, h) = d.reads_fail v w p in rw h

  recheck-IsDown : (w : W) → IsDown → (recheck s r w).0 ≡ missing []
  unfolding recheck
  recheck-IsDown w d = recheck_by-IsDown s.cache.versioned w refl d

  -- While the cache is down a load gives what the source gives at some state: its error, or a
  -- clone of its configuration.
  pub load-IsDown :
      (w : W)
      → IsDown
      → (w' : W) × ((load s r w).0
          ≡ clone_result (clone_result (s.source r.ctx r.key r.tenant w').0))
  unfolding load lead from_source
  load-IsDown w d = (
    (recheck s r (first_read s r w).1).1,
    rw (first_read-IsDown w d, recheck-IsDown (first_read s r w).1 d) refl,
  )

  -- A hit returns the cached configuration; neither the source nor the running loads are touched.
  pub load-hit :
      (w : W) (c : ContainerConfig)
      → (s.cache.get r.ctx r.key r.tenant w).0 ≡ ok (some c)
      → load s r w ≡ (ok c, (s.cache.get r.ctx r.key r.tenant w).1)
  unfolding load first_read
  load-hit w c h = rw h
