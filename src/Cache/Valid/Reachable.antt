-- ===== src/Cache/Valid/Reachable.antt =====
-- The cache of src/kes_cache.c over its life: from kes_cache_create on, through any sequence of
-- calls, sweeps of the background threads, and writes of clients to buffers.
use kanek_extents_storage.Common.{
  ℕ, ◌+◌, ◌^◌, ◌<◌, Bool, ◌&&◌, ◌||◌, ltb, ◌==◌, if◌then◌else◌, if_false, List, [], Option, none,
  some, Status, ◌≡◌, refl, subst, sym, arith, inl, inr, Bool-cases,
}
use kanek_extents_storage.Cache.{
  ExtentId, CacheConfig, Cache, ReadExtent, WriteExtent, SyncDevice, update,
}
use kanek_extents_storage.Cache.Find.{found}
use kanek_extents_storage.Cache.Operations.{
  kes_cache_put_extent, kes_cache_mark_dirty, kes_cache_pin_extent, kes_cache_unpin_extent,
  kes_cache_flush_extent, kes_cache_invalidate, kes_cache_sync, put_entry, mark_entry, pin_entry,
  unpin_entry, flush_entry, invalidate_entry,
}
use kanek_extents_storage.Cache.Access.{Environment, kes_cache_get_extent, filled}
use kanek_extents_storage.Cache.Lifecycle.{
  new_cache, kes_cache_min_memory, kes_cache_min_entries, kes_cache_create, kes_cache_stop,
  kes_cache_start, bg_thread_round, kes_cache_set_io_callbacks, kes_cache_reset_stats, is_lru,
}
use kanek_extents_storage.Cache.Valid.{CountsDirty}
use kanek_extents_storage.Cache.Valid.Sweeps.{cache_sweep-Swept}
use kanek_extents_storage.Cache.Valid.Entries.{Sound, Sound-put_entry, Sound-mark_entry}
use kanek_extents_storage.Cache.Valid.Pins.{Sound-pin_entry, Sound-unpin_entry}
use kanek_extents_storage.Cache.Valid.Writes.{Sound-flush_entry}
use kanek_extents_storage.Cache.Valid.Fresh.{Ends-kes_cache_get_extent}
use kanek_extents_storage.Cache.Valid.Steps.{
  Sound-with_found, Sound-frame, Sound-start_threads, Sound-invalidated, Sound-written, Sound-got,
  Sound-round, some-injective, none-some,
}

-- One call, one round of a background thread, or one write of a client to a buffer. A count of pins
-- that would wrap is left out. kes_cache_destroy ends the life of the cache.
pub data Step {D : Type 0} : Cache D → Cache D → Type 0 where
  gets :
      (env : Environment) (id : ExtentId) (c : Cache D)
      → id.block_count < 2 ^ 32
      → Step c (kes_cache_get_extent env id c).0
  puts : (id : ExtentId) (c : Cache D) → Step c (kes_cache_put_extent id c).0
  writes :
      (id : ExtentId) (p : ℕ) (bytes : List ℕ) (c : Cache D)
      → found c id ≡ some p
      → Step c (update (some p) (filled bytes) c)
  marks : (id : ExtentId) (c : Cache D) → Step c (kes_cache_mark_dirty id c).0
  pins :
      (id : ExtentId) (c : Cache D)
      → ((q : ℕ) → (c.heap q).pin_count + 1 < 2 ^ 32)
      → Step c (kes_cache_pin_extent id c).0
  unpins :
      (id : ExtentId) (c : Cache D)
      → ((q : ℕ) → (c.heap q).pin_count < 2 ^ 32)
      → Step c (kes_cache_unpin_extent id c).0
  flushes : (id : ExtentId) (c : Cache D) → Step c (kes_cache_flush_extent id c).0
  invalidates : (id : ExtentId) (c : Cache D) → Step c (kes_cache_invalidate id c).0
  syncs : (c : Cache D) → Step c (kes_cache_sync c).0
  sweeps : (c c' : Cache D) → bg_thread_round c ≡ some c' → Step c c'
  registers :
      (read : Option (ReadExtent D)) (write : Option (WriteExtent D)) (sync : Option (SyncDevice D))
      (c : Cache D)
      → Step c (kes_cache_set_io_callbacks read write sync c).0
  resets : (c : Cache D) → Step c (kes_cache_reset_stats c).0
  stops : (c : Cache D) → Step c (kes_cache_stop c).0
  starts :
      (threads_allocated : Bool) (created : ℕ → Bool) (c : Cache D)
      → Step c (kes_cache_start threads_allocated created c).0

pub data Reaches {D : Type 0} : Cache D → Cache D → Type 0 where
  stay : (c : Cache D) → Reaches c c
  go : {c c1 c2 : Cache D} → Reaches c c1 → Step c1 c2 → Reaches c c2

module _ {D : Type 0} where
  -- Each step keeps the invariant, with whatever entries are then left.
  pub Step-Sound :
      (c c' : Cache D) (xs : List ℕ) → Step c c' → Sound c xs → (ys : List ℕ) × Sound c' ys
  unfolding kes_cache_put_extent kes_cache_mark_dirty kes_cache_pin_extent kes_cache_unpin_extent
      kes_cache_flush_extent kes_cache_invalidate kes_cache_sync kes_cache_set_io_callbacks
      kes_cache_reset_stats kes_cache_stop kes_cache_start
  Step-Sound _ _ xs (gets env id c n) h =
      Sound-got id c xs _ (Ends-kes_cache_get_extent env id c xs n h)
  Step-Sound _ _ xs (puts id c) h =
      Sound-with_found put_entry c xs id (λ p i. (xs, Sound-put_entry c xs p i h)) h
  Step-Sound _ _ xs (writes id p bytes c e) h = Sound-written c xs id p bytes e h
  Step-Sound _ _ xs (marks id c) h =
      Sound-with_found mark_entry c xs id (λ p i. (xs, Sound-mark_entry c xs p i h)) h
  Step-Sound _ _ xs (pins id c small) h =
      Sound-with_found pin_entry c xs id (λ p i. (xs, Sound-pin_entry c xs p (small p) i h)) h
  Step-Sound _ _ xs (unpins id c small) h =
      Sound-with_found unpin_entry c xs id (λ p i. (xs, Sound-unpin_entry c xs p (small p) i h)) h
  Step-Sound _ _ xs (flushes id c) h =
      Sound-with_found (flush_entry id) c xs id (λ p i. (xs, Sound-flush_entry id c xs p i h)) h
  Step-Sound _ _ xs (invalidates id c) h =
      Sound-with_found invalidate_entry c xs id (λ p i. Sound-invalidated c xs p i h) h
  Step-Sound _ _ xs (syncs c) (v, d) =
      let (ys, w) = cache_sweep-Swept c xs v d in (ys, (w.0.valid, w.0.counts))
  Step-Sound _ _ xs (sweeps c c' e) h = Sound-round c c' xs e h
  Step-Sound _ _ xs (registers read write sync c) h =
      Sound-frame c _ xs (refl, refl, refl, refl, refl, refl, refl, refl) refl refl refl h
  Step-Sound _ _ xs (resets c) h =
      Sound-frame c _ xs (refl, refl, refl, refl, refl, refl, refl, refl) refl refl refl h
  Step-Sound _ _ xs (stops c) h =
      Sound-frame c _ xs (refl, refl, refl, refl, refl, refl, refl, refl) refl refl refl h
  Step-Sound _ _ xs (starts a created c) h = elim (Bool-cases (c.config.background_threads == 0)) [
    | inl e ↦ simp e (xs, h)
    | inr e ↦
        subst {A = Cache D × Status} (λ r. (ys : List ℕ) × Sound r.0 ys) (sym (if_false _ _ _ e))
          (Sound-start_threads a created c.bg_threads c xs h)
  ]

  Sound-new_cache :
      (device : D) (config : CacheConfig)
      → config.max_entries + 1 < 2 ^ 32
      → config.max_memory < 2 ^ 63
      → Sound (new_cache device config) []
  unfolding CountsDirty
  Sound-new_cache device config n m = (
    record {
      shape = record {
        distinct = tt;
        lru = refl;
        tail = refl;
        chains = λ b. [];
        chain_distinct = λ b. tt;
        chain = λ b. refl;
        chain_has = λ b q. refl;
        unique = λ p q i j e. absurd (ground arith);
      };
      settled = λ q i. absurd (ground arith);
      given = λ q i. absurd (ground arith);
      cached = refl;
      memory = refl;
      pins = refl;
      entries_fit = omega arith;
      memory_fits = omega arith;
      entries_small = n;
      memory_small = m;
    },
    refl,
  )

  -- A new cache is empty.
  pub Sound-create :
      (cache_allocated buckets_allocated : Bool) (device : D) (config : CacheConfig) (c : Cache D)
      → kes_cache_create cache_allocated buckets_allocated device config ≡ some c
      → config.max_entries + 1 < 2 ^ 32
      → config.max_memory < 2 ^ 63
      → Sound c []
  unfolding kes_cache_create
  Sound-create ca ba device config c e n m =
      let small =
        ltb config.max_memory kes_cache_min_memory
        || ltb config.max_entries kes_cache_min_entries in
      let fine = is_lru config.policy && (ca && ba) in
      let made : Option (Cache D) = some (new_cache device config) in
      elim (Bool-cases small) [
        | inl f ↦ absurd (
            none-some
              (subst (λ b. (if b then none else (if fine then made else none)) ≡ some c) f e))
        | inr f ↦
            let e' =
              subst (λ b. (if b then none else (if fine then made else none)) ≡ some c) f e in
            elim (Bool-cases fine) [
              | inl g ↦
                  subst (λ z. Sound z [])
                    (some-injective (subst (λ b. (if b then made else none) ≡ some c) g e'))
                    (Sound-new_cache device config n m)
              | inr g ↦ absurd (none-some (subst (λ b. (if b then made else none) ≡ some c) g e'))
            ]
      ]

  -- From a cache that kes_cache_create has made, with limits far enough from those of uint32_t
  -- and size_t, every sequence of calls, background sweeps and writes of clients to buffers leads
  -- to a well-formed cache: every entry is in the LRU list and in the chain of its bucket, no two
  -- have equal identifiers, the limits hold, nothing is left pinned by a lookup or loading, and
  -- the counters of entries, memory, pins and dirty entries are right. Left out are
  -- kes_cache_destroy, lookups of 2 ^ 32 blocks or more and a pin whose count would wrap.
  pub Reaches-Sound :
      (cache_allocated buckets_allocated : Bool) (device : D) (config : CacheConfig)
      (c c' : Cache D)
      → kes_cache_create cache_allocated buckets_allocated device config ≡ some c
      → config.max_entries + 1 < 2 ^ 32
      → config.max_memory < 2 ^ 63
      → Reaches c c'
      → (ys : List ℕ) × Sound c' ys
  Reaches-Sound ca ba device config c c' e n m (stay _) =
      ([], Sound-create ca ba device config c e n m)
  Reaches-Sound ca ba device config c c' e n m (go {c1} r s) =
      let (xs, h) = Reaches-Sound ca ba device config c c1 e n m r in Step-Sound c1 c' xs s h
