-- ===== src/Cache/Sweep.antt =====
-- The walks along the LRU list in src/kes_cache.c that write entries back and evict them. A walk has
-- as many rounds left as `fuel` says, at the start the number of entries in the cache.
use kanek_extents_storage.Common.{
  ℕ, zero, suc, ◌+◌, Bool, true, false, not, ◌&&◌, leb, if◌then◌else◌, Option, none, some, ok, err,
  Status, u32, u64, u32_sub,
}
use kanek_extents_storage.Cache.{ExtentId, Entry, Cache, WriteExtent, kes_align, update}
use kanek_extents_storage.Cache.Lists.{pin_lookup, unpin_lookup, try_evict_entry_locked}

-- The state after a failed write and after a successful one.
abbrev pub failed : Entry → Entry
failed e = record e { state = record e.state { error = true } }

abbrev pub cleaned : Entry → Entry
cleaned e = record e { state = record e.state { dirty = false; error = false; clean = true } }

module _ {D : Type 0} where
  -- What a write's result makes of the entry's state, and of the statistics.
  unfoldable pub write_result : ℕ → Status → Cache D → Cache D
  write_result p (ok tt) c =
      let c1 = update (some p) cleaned c in
      record c1 {
        stats = record c1.stats {
          bytes_written = u64 (c1.stats.bytes_written + (c.heap p).data_size);
          flushes = u64 (c1.stats.flushes + 1);
          entries_dirty = u32_sub c1.stats.entries_dirty 1;
        };
      }
  write_result p (err e) c = update (some p) failed c

  unfoldable pub write_entry : ℕ → ExtentId → WriteExtent D → Cache D → Cache D × Status
  write_entry p id write c =
      let (device, result) = write c.device id (c.heap p).buffer (c.heap p).data_size in
      (write_result p result (record c { device = device }), result)

  unfoldable pub write_registered : ℕ → Option (WriteExtent D) → Cache D → Cache D
  write_registered p none c = c
  write_registered p (some write) c = (write_entry p (c.heap p).id write c).0

  -- The flush that the two walks share: nothing happens where no write_extent is registered.
  unfoldable pub flush_dirty : ℕ → Cache D → Cache D
  flush_dirty p c =
      if (c.heap p).state.dirty && not (c.heap p).state.loading
      then write_registered p c.write_extent c
      else c

  unfoldable pub sweep_flush_and_maybe_evict : ℕ → Cache D → Cache D
  sweep_flush_and_maybe_evict p c =
      (try_evict_entry_locked p false (flush_dirty p (unpin_lookup (some p) c))).0

  unfoldable pub sweep_from : ℕ → Option ℕ → Cache D → Cache D
  sweep_from fuel none c = c
  sweep_from zero (some p) c = c
  sweep_from (suc fuel) (some p) c =
      let next = (c.heap p).list_next in
      sweep_from fuel next (sweep_flush_and_maybe_evict p (pin_lookup next c))

  unfoldable pub cache_sweep : Cache D → Cache D
  cache_sweep c = sweep_from c.stats.entries_cached c.mru_head (pin_lookup c.mru_head c)

  -- Whether one more entry is within the limits of the configuration.
  unfoldable pub has_room : ℕ → Cache D → Bool
  has_room aligned_needed c =
      leb (u32 (c.stats.entries_cached + 1)) c.config.max_entries
      && leb (u64 (c.stats.memory_used + aligned_needed)) c.config.max_memory

  abbrev pub count_eviction : Cache D → Cache D
  count_eviction c = record c { stats = record c.stats { evictions = u64 (c.stats.evictions + 1) } }

  -- Whether there is room now, where the walk goes on, and without the pin if it ends here.
  abbrev pub go_on : Bool → Option ℕ → Cache D → Bool × Option ℕ × Cache D
  go_on fits prev c =
      (fits, (if fits then none else prev), (if fits then unpin_lookup prev c else c))

  -- After the attempt to evict an entry: only an eviction makes the walk look for room again.
  unfoldable pub after_attempt : ℕ → Bool → Option ℕ → Cache D × Bool → Bool × Option ℕ × Cache D
  after_attempt aligned_needed fits prev (c, false) = go_on fits prev c
  after_attempt aligned_needed fits prev (c, true) =
      go_on (has_room aligned_needed (count_eviction c)) prev (count_eviction c)

  unfoldable pub room_from : ℕ → ℕ → Bool → Option ℕ → Cache D → Cache D × Bool
  room_from fuel aligned_needed fits none c = (c, fits)
  room_from zero aligned_needed fits (some p) c = (c, fits)
  room_from (suc fuel) aligned_needed fits (some p) c =
      let c1 = flush_dirty p (unpin_lookup (some p) c) in
      let prev = (c1.heap p).list_prev in
      let c2 = if fits then c1 else pin_lookup prev c1 in
      let (fits', next, c3) =
        after_attempt aligned_needed fits prev (try_evict_entry_locked p false c2) in
      room_from fuel aligned_needed fits' next c3

  unfoldable pub make_room_for_new_entry : ℕ → Cache D → Cache D × Bool
  make_room_for_new_entry needed_size c =
      let aligned_needed = kes_align needed_size in
      let fits = has_room aligned_needed c in
      let start = if fits then none else c.lru_tail in
      room_from c.stats.entries_cached aligned_needed fits start (pin_lookup start c)
