-- ===== src/Cache/Lists.antt =====
-- The two linked structures of src/kes_cache.c: the LRU list and the chains of the hash table, and
-- the eviction of an entry from both. A walk along a chain has as many rounds left as `fuel` says.
use kanek_extents_storage.Common.{
  ℕ, zero, suc, ◌+◌, Bool, true, false, not, ◌&&◌, ◌||◌, ◌==◌, if◌then◌else◌, Option, none, some,
  u32, u64_sub, u32_sub,
}
use kanek_extents_storage.Cache.{
  ExtentId, Entry, Cache, kes_extent_equal, kes_align, points, update, if_null, bucket_idx,
}

-- The walk from an entry along `hash_next`.
unfoldable pub find_in_chain : ℕ → (ℕ → Entry) → ExtentId → Option ℕ → Option ℕ
find_in_chain fuel heap id none = none
find_in_chain zero heap id (some p) = none
find_in_chain (suc fuel) heap id (some p) =
    let rest = find_in_chain fuel heap id (heap p).hash_next in
    if kes_extent_equal (heap p).id id then some p else rest

-- Whether counts and state let the entry go; `discard_dirty` lets dirty and failed ones go too.
unfoldable pub is_evictable : Entry → Bool → Bool
is_evictable entry discard_dirty =
    (entry.ref_count == 0)
    && ((entry.pin_count == 0)
        && ((entry.cond_waiters == 0)
            && (discard_dirty || (not entry.state.dirty && not entry.state.error))))

module _ {D : Type 0} where
  unfoldable pub lru_add_head : ℕ → Cache D → Cache D
  lru_add_head p c =
      let c1 = update (some p) (λ e. record e { list_next = c.mru_head; list_prev = none }) c in
      let c2 = update c.mru_head (λ e. record e { list_prev = some p }) c1 in
      record c2 { mru_head = some p; lru_tail = if_null c.lru_tail (some p) c.lru_tail }

  unfoldable pub lru_remove : ℕ → Cache D → Cache D
  lru_remove p c =
      let entry = c.heap p in
      let c1 = update entry.list_prev (λ e. record e { list_next = entry.list_next }) c in
      let c2 = update entry.list_next (λ e. record e { list_prev = entry.list_prev }) c1 in
      let c3 = update (some p) (λ e. record e { list_next = none; list_prev = none }) c2 in
      record c3 {
        mru_head = if_null entry.list_prev entry.list_next c.mru_head;
        lru_tail = if_null entry.list_next entry.list_prev c.lru_tail;
      }

  unfoldable pub lru_touch : ℕ → Cache D → Cache D
  lru_touch p c = if points c.mru_head p then c else lru_add_head p (lru_remove p c)

  -- `__atomic_fetch_add( &entry->lookup_pins, 1)` and `__atomic_fetch_sub`
  abbrev pub pin_lookup : Option ℕ → Cache D → Cache D
  pin_lookup p = update p λ e. record e { lookup_pins = u32 (e.lookup_pins + 1) }

  abbrev pub unpin_lookup : Option ℕ → Cache D → Cache D
  unpin_lookup p = update p λ e. record e { lookup_pins = u32_sub e.lookup_pins 1 }

  unfoldable pub hash_find : Cache D → ExtentId → Cache D × Option ℕ
  hash_find c id =
      let found = find_in_chain c.stats.entries_cached c.heap id (c.buckets (bucket_idx c id)) in
      (pin_lookup found c, found)

  -- The candidate becomes the first entry of its bucket's chain.
  abbrev pub hash_insert : ℕ → Cache D → Cache D
  hash_insert p c =
      let b = bucket_idx c (c.heap p).id in
      let head = c.buckets b in
      let c1 = update (some p) (λ e. record e { hash_next = head; hash_prev = none }) c in
      let c2 = update head (λ e. record e { hash_prev = some p }) c1 in
      record c2 { buckets = λ i. if b == i then some p else c.buckets i }

  unfoldable pub hash_find_or_insert : ℕ → Cache D → Cache D × Option ℕ
  hash_find_or_insert p c =
      let id = (c.heap p).id in
      let found = find_in_chain c.stats.entries_cached c.heap id (c.buckets (bucket_idx c id)) in
      (if_null found (hash_insert p c) (pin_lookup found c), found)

  abbrev pub hash_remove : ℕ → Cache D → Cache D
  hash_remove p c =
      let entry = c.heap p in
      let b = bucket_idx c entry.id in
      let c1 = update entry.hash_prev (λ e. record e { hash_next = entry.hash_next }) c in
      let c2 = update entry.hash_next (λ e. record e { hash_prev = entry.hash_prev }) c1 in
      let c3 = update (some p) (λ e. record e { hash_next = none; hash_prev = none }) c2 in
      record c3 {
        buckets = λ i.
            if b == i then if_null entry.hash_prev entry.hash_next (c.buckets i) else c.buckets i;
      }

  unfoldable pub extent_free_data {ℓ} : {A : Type ℓ} → Option A → ℕ → Cache D → Cache D
  extent_free_data ptr size c =
      let used = c.stats.memory_used in
      record c {
        stats = record c.stats { memory_used = if_null ptr used (u64_sub used (kes_align size)) };
      }

  -- The entry's memory is never handed out again, so `free( entry)` changes nothing here.
  abbrev pub drop_entry : ℕ → Cache D → Cache D
  drop_entry p c =
      let entry = c.heap p in
      let c1 = extent_free_data entry.buffer entry.data_size (lru_remove p (hash_remove p c)) in
      record c1 { stats = record c1.stats { entries_cached = u32_sub c1.stats.entries_cached 1 } }

  unfoldable pub try_evict_entry_locked : ℕ → Bool → Cache D → Cache D × Bool
  try_evict_entry_locked p discard_dirty c =
      if is_evictable (c.heap p) discard_dirty && ((c.heap p).lookup_pins == 0)
      then (drop_entry p c, true)
      else (c, false)
