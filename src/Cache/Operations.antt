-- ===== src/Cache/Operations.antt =====
-- The operations of src/kes_cache.c on an entry that is in the cache. The wait for a load in
-- progress is never entered, as a call is one step.
use kanek_extents_storage.Common.{
  ℕ, ◌+◌, true, false, ◌||◌, ltb, ◌==◌, if◌then◌else◌, Option, none, some, ok, err, invalid,
  notfound, io, busy, Status, success, u32, u32_sub,
}
use kanek_extents_storage.Cache.{ExtentId, Entry, State, CacheStats, Cache, WriteExtent, update}
use kanek_extents_storage.Cache.Lists.{hash_find, unpin_lookup, try_evict_entry_locked}
use kanek_extents_storage.Cache.Sweep.{write_entry, cache_sweep}

unfoldable pub io_of : Status → Status
io_of (ok tt) = success
io_of (err e) = err io

-- One reference less, the dirty flag, and one pin more or less.
abbrev pub released : Entry → Entry
released e = record e { ref_count = u32_sub e.ref_count 1 }

abbrev pub dirtied : Entry → Entry
dirtied e = record e { state = record e.state { dirty = true } }

abbrev pub pinned_more : Entry → Entry
pinned_more e = record e { pin_count = u32 (e.pin_count + 1) }

abbrev pub pinned_less : Entry → Entry
pinned_less e = record e { pin_count = u32_sub e.pin_count 1 }

module _ {D : Type 0} where
  abbrev pub set_state : ℕ → (State → State) → Cache D → Cache D
  set_state p f = update (some p) λ e. record e { state = f e.state }

  abbrev pub set_stats : (CacheStats → CacheStats) → Cache D → Cache D
  set_stats f c = record c { stats = f c.stats }

  -- hash_find and the lock of the entry that it found, or KES_ERROR_NOTFOUND.
  unfoldable pub with_found :
      (ℕ → Cache D → Cache D × Status) → Cache D × Option ℕ → Cache D × Status
  with_found use_entry (c, none) = (c, err notfound)
  with_found use_entry (c, some p) = use_entry p (unpin_lookup (some p) c)

  unfoldable pub put_entry : ℕ → Cache D → Cache D × Status
  put_entry p c = ((if ltb 0 (c.heap p).ref_count then update (some p) released c else c), success)

  unfoldable pub kes_cache_put_extent : ExtentId → Cache D → Cache D × Status
  kes_cache_put_extent id c = with_found put_entry (hash_find c id)

  unfoldable pub mark_entry : ℕ → Cache D → Cache D × Status
  mark_entry p c = (
    (if (c.heap p).state.dirty
        then c
        else set_stats (λ s. record s { entries_dirty = u32 (s.entries_dirty + 1) })
            (update (some p) dirtied c)),
    success,
  )

  unfoldable pub kes_cache_mark_dirty : ExtentId → Cache D → Cache D × Status
  kes_cache_mark_dirty id c = with_found mark_entry (hash_find c id)

  unfoldable pub pin_entry : ℕ → Cache D → Cache D × Status
  pin_entry p c =
      let c1 =
        if (c.heap p).pin_count == 0
        then set_stats (λ s. record s { entries_pinned = u32 (s.entries_pinned + 1) })
            (set_state p (λ s. record s { pinned = true }) c)
        else c in
      (update (some p) pinned_more c1, success)

  unfoldable pub kes_cache_pin_extent : ExtentId → Cache D → Cache D × Status
  kes_cache_pin_extent id c = with_found pin_entry (hash_find c id)

  unfoldable pub unpin_entry : ℕ → Cache D → Cache D × Status
  unpin_entry p c =
      let c1 = update (some p) pinned_less c in
      (
        (if ltb 0 (c.heap p).pin_count
            then (if (c1.heap p).pin_count == 0
                then set_stats (λ s. record s { entries_pinned = u32_sub s.entries_pinned 1 })
                    (set_state p (λ s. record s { pinned = false }) c1)
                else c1)
            else c),
        success,
      )

  unfoldable pub kes_cache_unpin_extent : ExtentId → Cache D → Cache D × Status
  kes_cache_unpin_extent id c = with_found unpin_entry (hash_find c id)

  -- A failed write is KES_ERROR_IO.
  unfoldable pub write_registered_or_fail :
      ℕ → ExtentId → Option (WriteExtent D) → Cache D → Cache D × Status
  write_registered_or_fail p id none c = (c, err invalid)
  write_registered_or_fail p id (some write) c =
      let (c', result) = write_entry p id write c in (c', io_of result)

  unfoldable pub flush_entry : ExtentId → ℕ → Cache D → Cache D × Status
  flush_entry id p c =
      if (c.heap p).state.dirty
      then write_registered_or_fail p id c.write_extent c
      else (c, success)

  unfoldable pub kes_cache_flush_extent : ExtentId → Cache D → Cache D × Status
  kes_cache_flush_extent id c = with_found (flush_entry id) (hash_find c id)

  unfoldable pub kes_cache_sync : Cache D → Cache D × Status
  kes_cache_sync c = (cache_sweep c, success)

  abbrev pub count_off : Cache D → Cache D
  count_off = set_stats λ s. record s { entries_dirty = u32_sub s.entries_dirty 1 }

  unfoldable pub invalidate_entry : ℕ → Cache D → Cache D × Status
  invalidate_entry p c =
      let was_dirty = (c.heap p).state.dirty in
      let (c1, evicted) = try_evict_entry_locked p true c in
      if ltb 0 (c.heap p).ref_count || ltb 0 (c.heap p).pin_count
      then (c, err busy)
      else (if evicted then ((if was_dirty then count_off c1 else c1), success) else (c1, err busy))

  unfoldable pub kes_cache_invalidate : ExtentId → Cache D → Cache D × Status
  kes_cache_invalidate id c = with_found invalidate_entry (hash_find c id)
