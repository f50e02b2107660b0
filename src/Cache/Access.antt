-- ===== src/Cache/Access.antt =====
-- kes_cache_get_extent of src/kes_cache.c. What it asks of the system, memory and the time, is in
-- an environment. The buffer that it returns is named by the address of its entry.
use kanek_extents_storage.Common.{
  ℕ, suc, ◌+◌, Bool, true, false, not, ◌&&◌, ◌||◌, ltb, ◌==◌, if◌then◌else◌, List, Option, none,
  some, Error, Result, ok, err, invalid, nomem, io, busy, Status, Call, u32, u64, u32_sub,
}
use kanek_extents_storage.Descriptor.{kes_min_block_size, kes_max_block_size}
use kanek_extents_storage.Storage.Lifecycle.{is_power_of_2}
use kanek_extents_storage.Cache.{
  ExtentId, Entry, no_flags, Cache, ReadExtent, fill, extent_data_size, kes_align, update,
}
use kanek_extents_storage.Cache.Lists.{
  hash_find, hash_find_or_insert, unpin_lookup, lru_add_head, lru_touch,
}
use kanek_extents_storage.Cache.Sweep.{make_room_for_new_entry}
use kanek_extents_storage.Cache.Operations.{set_stats}

-- Whether calloc and aligned_alloc succeed, what the new buffer holds, and the time.
pub record Environment : Type 0 where
  pub entry_allocated : Bool
  pub data_allocated : Bool
  pub junk : List ℕ
  pub now : ℕ

unfoldable pub init_extent_entry : ExtentId → ℕ → Entry
init_extent_entry id now = record {
  id = id;
  buffer = none;
  state = no_flags;
  ref_count = 0;
  pin_count = 0;
  access_time = now;
  access_count = 0;
  data_size = extent_data_size id;
  lookup_pins = 0;
  cond_waiters = 0;
  hash_next = none;
  hash_prev = none;
  list_next = none;
  list_prev = none;
}

-- The entry that a miss builds, with the buffer of extent_alloc_data.
unfoldable pub candidate : Environment → ExtentId → Entry
candidate env id = record (init_extent_entry id env.now) {
  state = record no_flags { loading = true };
  ref_count = 1;
  buffer = some env.junk;
}

unfoldable pub is_valid_id : ExtentId → Bool
is_valid_id id =
    not (
      not (is_power_of_2 id.block_size)
      || (ltb id.block_size kes_min_block_size || ltb kes_max_block_size id.block_size))
    && not (id.block_count == 0)

-- The codes that a failed load returns: KES_ERROR_INVALID is passed on, all else is KES_ERROR_IO.
unfoldable pub load_error : Error → Error
load_error invalid = invalid
load_error e = io

-- The entry after a read, a load that succeeded or failed, a retry, and an access.
abbrev pub filled : List ℕ → Entry → Entry
filled bytes e = record e { buffer = fill e.buffer bytes }

abbrev pub loaded : Entry → Entry
loaded e = record e { state = record no_flags { clean = true } }

abbrev pub load_failed : Entry → Entry
load_failed e = record e {
  state = record no_flags { error = true };
  ref_count = if ltb 0 e.ref_count then u32_sub e.ref_count 1 else e.ref_count;
}

abbrev pub reloading : Entry → Entry
reloading e = record e { state = record no_flags { loading = true } }

abbrev pub still_failed : Entry → Entry
still_failed e = record e { state = record no_flags { error = true } }

abbrev pub accessed : ℕ → Entry → Entry
accessed now e = record e {
  ref_count = u32 (e.ref_count + 1);
  access_time = now;
  access_count = u64 (e.access_count + 1);
}

module _ {D : Type 0} where
  abbrev pub leave : Cache D → Cache D
  leave c = record c { inflight_lookups = u32_sub c.inflight_lookups 1 }

  abbrev pub count_read : ℕ → Cache D → Cache D
  count_read p c =
      set_stats (λ s. record s { bytes_read = u64 (s.bytes_read + (c.heap p).data_size) }) c

  unfoldable pub read_registered : ℕ → ExtentId → Option (ReadExtent D) → Cache D → Cache D × Status
  read_registered p id none c = (c, err invalid)
  read_registered p id (some read) c =
      let (device, bytes, result) = read c.device id (c.heap p).buffer (c.heap p).data_size in
      (update (some p) (filled bytes) (record c { device = device }), result)

  unfoldable pub finish_load : ℕ → Cache D × Status → Cache D × Result ℕ
  finish_load p (c, ok tt) = (count_read p (update (some p) loaded c), ok p)
  finish_load p (c, err e) = (update (some p) load_failed c, err (load_error e))

  unfoldable pub load_new : ℕ → ExtentId → Cache D → Cache D × Result ℕ
  load_new p id c =
      let c1 = lru_add_head p (set_stats (λ s. record s { misses = u64 (s.misses + 1) }) c) in
      let c2 =
        set_stats
          (λ s. record s {
            entries_cached = u32 (s.entries_cached + 1);
            memory_used = u64 (s.memory_used + kes_align (c1.heap p).data_size);
          })
          c1 in
      finish_load p (read_registered p id c.read_extent (leave c2))

  -- The one retry of a load that failed before.
  unfoldable pub finish_retry : ℕ → Cache D × Status → Cache D
  finish_retry p (c, ok tt) = count_read p (update (some p) loaded c)
  finish_retry p (c, err e) = update (some p) still_failed c

  unfoldable pub retry_load : ℕ → ExtentId → Cache D → Cache D
  retry_load p id c =
      if (c.heap p).state.error && not (c.heap p).state.dirty
      then finish_retry p (read_registered p id c.read_extent (update (some p) reloading c))
      else c

  unfoldable pub hit : Environment → ℕ → Cache D → Cache D × Result ℕ
  hit env p c =
      let c1 = update (some p) (accessed env.now) c in
      if (c.heap p).state.error
      then (leave c, err io)
      else (leave (set_stats (λ s. record s { hits = u64 (s.hits + 1) }) (lru_touch p c1)), ok p)

  unfoldable pub attach : Environment → ExtentId → ℕ → Cache D → Cache D × Result ℕ
  attach env id p c = hit env p (retry_load p id (unpin_lookup (some p) c))

  -- A candidate that another entry has come before is freed.
  unfoldable pub publish : Environment → ExtentId → ℕ → Cache D × Option ℕ → Cache D × Result ℕ
  publish env id p (c, none) = load_new p id c
  publish env id p (c, some q) = attach env id q c

  -- The new entry is written at the next free address.
  abbrev pub build : Environment → ExtentId → Cache D → Cache D
  build env id c = record (update (some c.next_address) (λ e. candidate env id) c) {
    next_address = suc c.next_address;
  }

  unfoldable pub miss : Environment → ExtentId → Cache D × Bool → Cache D × Result ℕ
  miss env id (c, false) = (leave c, err busy)
  miss env id (c, true) =
      if env.entry_allocated && env.data_allocated
      then publish env id c.next_address (hash_find_or_insert c.next_address (build env id c))
      else (leave c, err nomem)

  unfoldable pub looked_up : Environment → ExtentId → Cache D × Option ℕ → Cache D × Result ℕ
  looked_up env id (c, none) = miss env id (make_room_for_new_entry (extent_data_size id) c)
  looked_up env id (c, some p) = attach env id p c

  unfoldable pub kes_cache_get_extent : Environment → ExtentId → Call (Cache D) ℕ
  kes_cache_get_extent env id c =
      let entered = record c { inflight_lookups = u32 (c.inflight_lookups + 1) } in
      if is_valid_id id
      then (if c.destroying then (c, err invalid) else looked_up env id (hash_find entered id))
      else (c, err invalid)
