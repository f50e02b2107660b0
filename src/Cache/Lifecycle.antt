-- ===== src/Cache/Lifecycle.antt =====
-- The life of a cache in src/kes_cache.c: configuration, kes_cache_create, kes_cache_destroy, the
-- background threads and the statistics. A background thread acts by whole sweeps, one per round.
use kanek_extents_storage.Common.{
  ℕ, zero, suc, ◌-◌, ◌*◌, Bool, true, false, ◌&&◌, ◌||◌, ltb, ◌==◌, if◌then◌else◌, Option, none,
  some, Result, ok, err, invalid, nomem, exists, busy, Status, success,
}
use kanek_extents_storage.Cache.{
  Entry, Policy, lru, lfu, custom, CacheConfig, CacheStats, Cache, ReadExtent, WriteExtent,
  SyncDevice,
}
use kanek_extents_storage.Cache.Lists.{pin_lookup, unpin_lookup, try_evict_entry_locked}
use kanek_extents_storage.Cache.Sweep.{cache_sweep}
use kanek_extents_storage.Cache.Operations.{set_stats}
use kanek_extents_storage.Cache.Access.{init_extent_entry}

abbrev pub kes_cache_min_memory : ℕ
kes_cache_min_memory = 1024 * 1024

abbrev pub kes_cache_min_entries : ℕ
kes_cache_min_entries = 16

abbrev pub kes_cache_default_buckets : ℕ
kes_cache_default_buckets = 1024

unfoldable pub kes_cache_get_default_config : Bool → CacheConfig
kes_cache_get_default_config true = record {
  max_memory = 8 * 1024 * 1024;
  min_memory = 2 * 1024 * 1024;
  max_entries = 256;
  policy = lru;
  background_threads = 1;
  sync_interval_ms = 5000;
  enable_prefetch = true;
  enable_compression = false;
}
kes_cache_get_default_config false = record {
  max_memory = 512 * 1024 * 1024;
  min_memory = 64 * 1024 * 1024;
  max_entries = 4096;
  policy = lru;
  background_threads = 4;
  sync_interval_ms = 1000;
  enable_prefetch = true;
  enable_compression = false;
}

abbrev pub zero_stats : CacheStats
zero_stats = record {
  hits = 0;
  misses = 0;
  evictions = 0;
  flushes = 0;
  bytes_read = 0;
  bytes_written = 0;
  memory_used = 0;
  entries_cached = 0;
  entries_dirty = 0;
  entries_pinned = 0;
}

unfoldable pub is_lru : Policy → Bool
is_lru lru = true
is_lru lfu = false
is_lru custom = false

-- The heap has no entry yet: what stands at its addresses is never read.
abbrev unused_entry : ℕ → Entry
unused_entry q =
    init_extent_entry (record { start_block = 0; block_count = 0; block_size = 0; reserved = 0 }) 0

unfoldable pub all_created : ℕ → (ℕ → Bool) → Bool
all_created zero created = true
all_created (suc n) created = all_created n created && created n

module _ {D : Type 0} where
  abbrev pub new_cache : D → CacheConfig → Cache D
  new_cache device config = record {
    config = config;
    stats = zero_stats;
    buckets = λ b. none;
    bucket_count = kes_cache_default_buckets;
    bucket_mask = kes_cache_default_buckets - 1;
    mru_head = none;
    lru_tail = none;
    bg_threads = none;
    shutdown = false;
    inflight_lookups = 0;
    destroying = false;
    read_extent = none;
    write_extent = none;
    sync_device = none;
    heap = unused_entry;
    next_address = 0;
    device = device;
  }

  -- With the outcomes of the two callocs.
  unfoldable pub kes_cache_create : Bool → Bool → D → CacheConfig → Option (Cache D)
  kes_cache_create cache_allocated buckets_allocated device config =
      if ltb config.max_memory kes_cache_min_memory || ltb config.max_entries kes_cache_min_entries
      then none
      else (if is_lru config.policy && (cache_allocated && buckets_allocated)
          then some (new_cache device config)
          else none)

  -- The threads see `shutdown`, end and are joined.
  unfoldable pub kes_cache_stop : Cache D → Cache D × Status
  kes_cache_stop c = (record c { shutdown = true; bg_threads = none }, success)

  -- `created i` is whether pthread_create succeeds for thread i; if one fails, those before it are
  -- stopped again.
  unfoldable pub start_threads : Bool → (ℕ → Bool) → Option ℕ → Cache D → Cache D × Status
  start_threads threads_allocated created (some running) c = (c, err exists)
  start_threads threads_allocated created none c =
      let n = c.config.background_threads in
      if threads_allocated
      then (if all_created n created
          then (record c { bg_threads = some n; shutdown = false }, success)
          else (record c { shutdown = false }, err invalid))
      else (c, err nomem)

  unfoldable pub kes_cache_start : Bool → (ℕ → Bool) → Cache D → Cache D × Status
  kes_cache_start threads_allocated created c =
      if c.config.background_threads == 0
      then (c, err invalid)
      else start_threads threads_allocated created c.bg_threads c

  -- One round of cache_bg_thread_func, after its timed wait; `none` ends the thread.
  unfoldable pub bg_thread_round : Cache D → Option (Cache D)
  bg_thread_round c = if c.shutdown then none else some (cache_sweep c)

  unfoldable pub kes_cache_set_io_callbacks :
      Option (ReadExtent D)
      → Option (WriteExtent D)
      → Option (SyncDevice D)
      → Cache D
      → Cache D × Status
  kes_cache_set_io_callbacks read write sync c =
      (record c { read_extent = read; write_extent = write; sync_device = sync }, success)

  unfoldable pub kes_cache_get_stats : Cache D → Result CacheStats
  kes_cache_get_stats c = ok c.stats

  unfoldable pub kes_cache_reset_stats : Cache D → Cache D × Status
  kes_cache_reset_stats c = (
    set_stats
        (λ s. record s {
          hits = 0;
          misses = 0;
          evictions = 0;
          flushes = 0;
          bytes_read = 0;
          bytes_written = 0;
        })
        c,
    success,
  )

  unfoldable pub destroy_from : ℕ → Option ℕ → Cache D → Cache D
  destroy_from fuel none c = c
  destroy_from zero (some p) c = c
  destroy_from (suc fuel) (some p) c =
      let next = (c.heap p).list_next in
      let c1 = unpin_lookup (some p) (pin_lookup next c) in
      destroy_from fuel next (try_evict_entry_locked p true c1).0

  -- KES_SUCCESS: the empty cache and its buckets are freed.
  unfoldable pub finish_destroy : Option ℕ → Cache D → Cache D × Status
  finish_destroy none c =
      if c.inflight_lookups == 0 then (c, success) else (record c { destroying = false }, err busy)
  finish_destroy (some p) c = (record c { destroying = false }, err busy)

  unfoldable pub kes_cache_destroy : Cache D → Cache D × Status
  kes_cache_destroy c =
      let c1 = (kes_cache_stop c).0 in
      let c2 = record c1 { destroying = true } in
      let c3 = destroy_from c2.stats.entries_cached c2.mru_head (pin_lookup c2.mru_head c2) in
      if c1.inflight_lookups == 0 then finish_destroy c3.mru_head c3 else (c1, err busy)
