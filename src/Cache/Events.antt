-- ===== src/Cache/Events.antt =====
-- Interleavings of calls of MemoryConfigCache (config_cache.go): the mutex makes each section of a
-- method one event, and any order of events can happen.
use sharp_store.Prelude.{
  ℕ, ◌+◌, ◌≤◌, Bool, true, false, Option, none, some, List, [], ◌∷◌, Text, same, if◌then◌else◌, ite,
  ltb,
}
use sharp_store.Prelude.Decimal.{format_uint}
use sharp_store.Errors.{Outcome, Result, ok, err}
use sharp_store.Config.{ContainerConfig, clone}
use sharp_store.Cache.{
  CacheKey, CacheKey-discrete, CacheEntry, MemoryConfigCache, next_version, read_section,
  read_answer, evict_section, set, delete_entry, set_if_version,
}

-- `reads` is the section of GetWithVersion under the read lock, with the reading of the clock that
-- follows it at some time; `evicts` is its section under the write lock. The others are whole
-- calls: before the lock they read the clock and nothing else.
pub data Event : Type 0 where
  reads : ℕ → CacheKey → Event
  evicts : ℕ → CacheKey → Event
  sets : Outcome → ℕ → ℕ → CacheKey → ContainerConfig → Event
  deletes : Outcome → CacheKey → Event
  fills : Outcome → ℕ → CacheKey → ContainerConfig → Text → Event

pub data Reply : Type 0 where
  silent : Reply
  answer : Option ContainerConfig × Text → Reply
  finished : Outcome → Reply
  filled : Result Bool → Reply

abbrev pub answer_of : ℕ → Option CacheEntry × Text → Reply
answer_of now (found, version) = answer (read_answer now found version)

unfoldable pub step : Event → MemoryConfigCache → Reply × MemoryConfigCache
step (reads now k) c = (answer_of now (read_section k c), c)
step (evicts now k) c = (silent, evict_section now k c)
step (sets early now₁ now₂ k config) c =
    let (e, c') = set early now₁ now₂ k config c in (finished e, c')
step (deletes early k) c = let (e, c') = delete_entry early k c in (finished e, c')
step (fills early now k config version) c =
    let (r, c') = set_if_version early now k config version c in (filled r, c')

unfoldable pub run : List Event → MemoryConfigCache → MemoryConfigCache
run [] c = c
run (e ∷ es) c = run es (step e c).1

unfoldable pub replies : List Event → MemoryConfigCache → List Reply
replies [] c = []
replies (e ∷ es) c = (step e c).0 ∷ replies es (step e c).1

-- The readings of the clock under the write lock never go back, and an answer is not dated before
-- the last of them. The dates of entries are free, since they are read before the lock.
abbrev pub InOrder : ℕ → List Event → Type 0
InOrder now [] = Unit
InOrder now (reads t k ∷ es) = (now ≤ t) × InOrder now es
InOrder now (evicts t k ∷ es) = (now ≤ t) × InOrder t es
InOrder now (sets early d t k config ∷ es) = (now ≤ t) × InOrder t es
InOrder now (deletes early k ∷ es) = InOrder now es
InOrder now (fills early d k config version ∷ es) = InOrder now es

-- The promise of VersionedConfigCache: every key has the entry that was last written and not
-- deleted, whether it has expired or not; a write or a deletion makes a new version.
pub record SpecCache : Type 0 where
  pub stored : CacheKey → Option CacheEntry
  pub ttl : ℕ
  pub version : ℕ

abbrev pub write : CacheKey → Option CacheEntry → SpecCache → SpecCache
write k o s = record s {
  stored = λ j. ite (CacheKey-discrete k j) o (s.stored j);
  version = next_version s.version;
}

abbrev pub dated : ℕ → ContainerConfig → SpecCache → Option CacheEntry
dated now config s = some (record { config = clone config; expires_at = now + s.ttl })

-- what a key promises at a time: a clone of what is stored, strictly before it expires
abbrev pub promised : ℕ → Option CacheEntry → Option ContainerConfig
promised now none = none
promised now (some e) = if ltb now e.expires_at then some (clone e.config) else none

unfoldable pub spec_step : Event → SpecCache → Reply × SpecCache
spec_step (reads now k) s = (answer (promised now (s.stored k), format_uint s.version), s)
spec_step (evicts now k) s = (silent, s)
spec_step (sets none d t k config) s = (finished none, write k (dated d config s) s)
spec_step (sets (some e) d t k config) s = (finished (some e), s)
spec_step (deletes none k) s = (finished none, write k none s)
spec_step (deletes (some e) k) s = (finished (some e), s)
spec_step (fills none d k config version) s =
    if same (format_uint s.version) version
    then (filled (ok true), write k (dated d config s) s)
    else (filled (ok false), s)
spec_step (fills (some e) d k config version) s = (filled (err e), s)

unfoldable pub spec_replies : List Event → SpecCache → List Reply
spec_replies [] s = []
spec_replies (e ∷ es) s = (spec_step e s).0 ∷ spec_replies es (spec_step e s).1
