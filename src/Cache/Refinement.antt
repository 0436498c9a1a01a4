-- ===== src/Cache/Refinement.antt =====
-- MemoryConfigCache of config_cache.go keeps the promise of VersionedConfigCache under every
-- interleaving: sweeps and evictions cannot be observed.
use mathlib.Core.List.{lookup}
use mathlib.Core.Path.{ap₂}
use native.Mathlib.Nat.{le_trans}
use sharp_store.Prelude.{
  ℕ, ◌≤◌, ◌≡◌, refl, ap, ◌∙◌, Option, none, some, List, [], ◌∷◌, Text, same, ite, arith, Bool-cases,
  inl, inr, if_pos, if_neg,
}
use sharp_store.Prelude.Decimal.{format_uint}
use sharp_store.Prelude.Maps.{put-HasDistinctKeys, delete-HasDistinctKeys}
use sharp_store.Config.{ContainerConfig}
use sharp_store.Cache.{
  CacheKey, CacheKey-discrete, CacheEntry, MemoryConfigCache, next_version, read_section,
  read_answer, maybe_sweep_locked, store_entry, new_entry, evict_section, set, delete_entry,
  set_if_version, empty_cache,
}
use sharp_store.Cache.View.{
  view, live_config, shown, IsValid, view-store_entry, view-set, view-delete_entry,
  view-evict_section, remove_expired-HasDistinctKeys,
}
use sharp_store.Cache.Events.{
  Event, reads, evicts, sets, deletes, fills, answer, step, replies, InOrder, SpecCache, write,
  dated, promised, spec_step, spec_replies, answer_of,
}

maybe_sweep_locked-IsValid :
    (now : ℕ) (c : MemoryConfigCache) → IsValid c → IsValid (maybe_sweep_locked now c)
unfolding maybe_sweep_locked
maybe_sweep_locked-IsValid now c v =
    ground (arith, remove_expired-HasDistinctKeys now c.entries v.distinct)

store_entry-IsValid :
    (k : CacheKey) (e : CacheEntry) (c : MemoryConfigCache)
    → IsValid c
    → IsValid (store_entry k e c)
store_entry-IsValid k e c v = record {
  distinct = put-HasDistinctKeys CacheKey-discrete k e c.entries v.distinct;
  version_fits = omega arith;
  interval = v.interval;
}

-- Every event keeps the keys distinct, the version a uint64 and the sweep interval at least 16.
pub step-IsValid : (e : Event) (c : MemoryConfigCache) → IsValid c → IsValid (step e c).1
unfolding step evict_section set delete_entry set_if_version
step-IsValid (reads now k) c v = v
step-IsValid (evicts now k) c v =
    ground (arith, delete-HasDistinctKeys CacheKey-discrete k c.entries v.distinct)
step-IsValid (sets none d t k config) c v =
    store_entry-IsValid k _ _ (maybe_sweep_locked-IsValid t c v)
step-IsValid (sets (some e) d t k config) c v = v
step-IsValid (deletes none k) c v = record {
  distinct = delete-HasDistinctKeys CacheKey-discrete k c.entries v.distinct;
  version_fits = omega arith;
  interval = v.interval;
}
step-IsValid (deletes (some e) k) c v = v
step-IsValid (fills none d k config version) c v =
    ground (arith, store_entry-IsValid k (new_entry d config c) c v)
step-IsValid (fills (some e) d k config version) c v = v

-- From `now` on, the cache shows what the specification has stored.
pub record Shows (now : ℕ) (c : MemoryConfigCache) (s : SpecCache) : Type 0 where
  pub valid : IsValid c
  pub same_ttl : c.ttl ≡ s.ttl
  pub same_version : c.version ≡ s.version
  pub shows : (t : ℕ) (j : CacheKey) → now ≤ t → view t j c ≡ live_config t (s.stored j)

read_answer-view :
    (now : ℕ) (o p : Option CacheEntry) (version : Text)
    → live_config now o ≡ live_config now p
    → read_answer now o version ≡ read_answer now p version
read_answer-view now o p version h = ground arith

read_answer-promised :
    (now : ℕ) (o : Option CacheEntry) (version : Text)
    → read_answer now o version ≡ (promised now o, version)
read_answer-promised now none version = refl
read_answer-promised now (some e) version = ground arith

ttl-maybe_sweep_locked :
    (now : ℕ) (c : MemoryConfigCache)
    → ((maybe_sweep_locked now c).ttl ≡ c.ttl) × ((maybe_sweep_locked now c).version ≡ c.version)
unfolding maybe_sweep_locked
ttl-maybe_sweep_locked now c = ground arith

after : Event → ℕ → ℕ
after (reads t k) now = now
after (evicts t k) now = t
after (sets early d t k config) now = t
after (deletes early k) now = now
after (fills early d k config version) now = now

-- the first event of an ordered list is not before its time
InOrder-after :
    (e : Event) (es : List Event) (now : ℕ)
    → InOrder now (e ∷ es)
    → (now ≤ after e now) × InOrder (after e now) es
unfolding after
InOrder-after (reads t k) es now h = (omega arith, h.1)
InOrder-after (evicts t k) es now h = h
InOrder-after (sets early d t k config) es now h = h
InOrder-after (deletes early k) es now h = (omega arith, h)
InOrder-after (fills early d k config version) es now h = (omega arith, h)

-- a write on both sides, which are seen from `t` on
write-shows :
    (t t' : ℕ) (j k : CacheKey) (d : ℕ) (config : ContainerConfig) (c : MemoryConfigCache)
    (s : SpecCache)
    → c.ttl ≡ s.ttl
    → view t' j c ≡ live_config t' (s.stored j)
    → ite (CacheKey-discrete k j) (shown t' (new_entry d config c)) (view t' j c)
      ≡ live_config t' ((write k (dated d config s) s).stored j)
write-shows t t' j k d config c s e h = elim (CacheKey-discrete k j) [
  | yes p ↦ rw (if_pos _ p, if_pos _ p) (ground arith)
  | no p ↦ rw (if_neg _ p, if_neg _ p) h
]

sets-Shows :
    (now d t : ℕ) (k : CacheKey) (config : ContainerConfig) (c : MemoryConfigCache) (s : SpecCache)
    → now ≤ t
    → Shows now c s
    → Shows t (set none d t k config c).1 (write k (dated d config s) s)
sets-Shows now d t k config c s h r = record {
  valid = unfold step in step-IsValid (sets none d t k config) c r.valid;
  same_ttl = unfold set in (ttl-maybe_sweep_locked t c).0 ∙ r.same_ttl;
  same_version = unfold set in ap next_version ((ttl-maybe_sweep_locked t c).1 ∙ r.same_version);
  shows = λ t' j g.
      view-set t' j c d t k config r.valid g
      ∙ write-shows t t' j k d config c s r.same_ttl (r.shows t' j (le_trans h g));
}

fills-Shows :
    (now d : ℕ) (k : CacheKey) (config : ContainerConfig) (c : MemoryConfigCache) (s : SpecCache)
    → Shows now c s
    → Shows now (store_entry k (new_entry d config c) c) (write k (dated d config s) s)
fills-Shows now d k config c s r = record {
  valid = store_entry-IsValid k (new_entry d config c) c r.valid;
  same_ttl = r.same_ttl;
  same_version = ap next_version r.same_version;
  shows = λ t' j g.
      view-store_entry t' j c k (new_entry d config c)
      ∙ write-shows now t' j k d config c s r.same_ttl (r.shows t' j g);
}

deletes-Shows :
    (now : ℕ) (k : CacheKey) (c : MemoryConfigCache) (s : SpecCache)
    → Shows now c s
    → Shows now (delete_entry none k c).1 (write k none s)
deletes-Shows now k c s r = record {
  valid = unfold step in step-IsValid (deletes none k) c r.valid;
  same_ttl = unfold delete_entry in r.same_ttl;
  same_version = unfold delete_entry in ap next_version r.same_version;
  shows = λ t' j g. view-delete_entry t' j c k ∙ (elim (CacheKey-discrete k j) [
    | yes p ↦ rw (if_pos _ p, if_pos _ p)
    | no p ↦ rw (if_neg _ p, if_neg _ p) (r.shows t' j g)
  ]);
}

evicts-Shows :
    (now t : ℕ) (k : CacheKey) (c : MemoryConfigCache) (s : SpecCache)
    → now ≤ t
    → Shows now c s
    → Shows t (evict_section t k c) s
evicts-Shows now t k c s h r = record {
  valid = unfold step in step-IsValid (evicts t k) c r.valid;
  same_ttl = unfold evict_section in ground (arith, r.same_ttl);
  same_version = unfold evict_section in ground (arith, r.same_version);
  shows = λ t' j g. view-evict_section t' j c t k g ∙ r.shows t' j (le_trans h g);
}

-- Both sides give one reply and go on showing the same.
abbrev Matches : Event → ℕ → MemoryConfigCache → SpecCache → Type 0
Matches e now c s =
    ((step e c).0 ≡ (spec_step e s).0) × Shows (after e now) (step e c).1 (spec_step e s).1

fills-Matches :
    (now d : ℕ) (k : CacheKey) (config : ContainerConfig) (version : Text) (c : MemoryConfigCache)
    (s : SpecCache)
    → Shows now c s
    → Matches (fills none d k config version) now c s
unfolding step spec_step set_if_version after
fills-Matches now d k config version c s r =
    let current = ap (λ v. same (format_uint v) version) r.same_version in
    elim (Bool-cases (same (format_uint s.version) version)) [
      | inl e ↦ rw (current ∙ e, e) (refl, fills-Shows now d k config c s r)
      | inr e ↦ rw (current ∙ e, e) (refl, r)
    ]

-- Time may pass with no event.
Shows-later :
    {now t : ℕ} {c : MemoryConfigCache} {s : SpecCache} → now ≤ t → Shows now c s → Shows t c s
Shows-later h r = record {
  valid = r.valid;
  same_ttl = r.same_ttl;
  same_version = r.same_version;
  shows = λ t' j g. r.shows t' j (le_trans h g);
}

reads-Matches :
    (now t : ℕ) (k : CacheKey) (c : MemoryConfigCache) (s : SpecCache)
    → now ≤ t
    → Shows now c s
    → answer_of t (read_section k c) ≡ answer (promised t (s.stored k), format_uint s.version)
unfolding read_section view
reads-Matches now t k c s h r = ap answer (
    read_answer-view t (lookup CacheKey-discrete k c.entries) (s.stored k) (format_uint c.version)
      (r.shows t k h)
    ∙ ap (λ v. read_answer t (s.stored k) (format_uint v)) r.same_version
    ∙ read_answer-promised t (s.stored k) (format_uint s.version))

step-Matches :
    (e : Event) (es : List Event) (now : ℕ) (c : MemoryConfigCache) (s : SpecCache)
    → InOrder now (e ∷ es)
    → Shows now c s
    → Matches e now c s
unfolding step spec_step after
step-Matches (reads t k) es now c s h r = (reads-Matches now t k c s h.0 r, r)
step-Matches (evicts t k) es now c s h r = (refl, evicts-Shows now t k c s h.0 r)
step-Matches (sets none d t k config) es now c s h r =
    (unfold set in refl, sets-Shows now d t k config c s h.0 r)
step-Matches (sets (some e) d t k config) es now c s h r = unfold set in (refl, Shows-later h.0 r)
step-Matches (deletes none k) es now c s h r =
    (unfold delete_entry in refl, deletes-Shows now k c s r)
step-Matches (deletes (some e) k) es now c s h r = unfold delete_entry in (refl, r)
step-Matches (fills none d k config version) es now c s h r =
    fills-Matches now d k config version c s r
step-Matches (fills (some e) d k config version) es now c s h r = unfold set_if_version in (refl, r)

replies-Shows :
    (es : List Event) (now : ℕ) (c : MemoryConfigCache) (s : SpecCache)
    → InOrder now es
    → Shows now c s
    → replies es c ≡ spec_replies es s
unfolding replies spec_replies
replies-Shows [] now c s h r = refl
replies-Shows (e ∷ es) now c s h r =
    let (same_reply, r') = step-Matches e es now c s h r in
    let (_, h') = InOrder-after e es now h in
    ap₂ ◌∷◌ same_reply (replies-Shows es (after e now) (step e c).1 (spec_step e s).1 h' r')

-- the specification of a new cache
abbrev pub empty_spec : ℕ → SpecCache
empty_spec ttl = record { stored = λ _. none; ttl = ttl; version = 0 }

empty_cache-Shows : (ttl : ℕ) → Shows 0 (empty_cache ttl) (empty_spec ttl)
unfolding empty_cache view lookup
empty_cache-Shows ttl = record {
  valid = record { distinct = tt; version_fits = omega arith; interval = omega arith };
  same_ttl = refl;
  same_version = refl;
  shows = λ t j g. refl;
}

-- However the sections of concurrent calls interleave, if the clock does not go back, then a new
-- cache gives the replies, errors and versions included, of the cache that never sweeps nor evicts.
pub replies-empty_cache :
    (ttl : ℕ) (es : List Event)
    → InOrder 0 es
    → replies es (empty_cache ttl) ≡ spec_replies es (empty_spec ttl)
replies-empty_cache ttl es h =
    replies-Shows es 0 (empty_cache ttl) (empty_spec ttl) h (empty_cache-Shows ttl)
