-- ===== src/Cache.antt =====
-- The block cache of src/kes_cache.c and include/kes/kes_cache.h: its data, and the writes to its
-- entries. A pointer to an entry is an address, NULL is `none`, and the entries lie in a heap. A
-- call holds the locks it needs and is one step, so the locks themselves have no state here.
pub mod Chain
pub mod Lists
pub mod Links
pub mod Shape
pub mod Find
pub mod Totals
pub mod Valid
pub mod Sweep
pub mod Operations
pub mod Access
pub mod Lifecycle
use kanek_extents_storage.Common.{
  ℕ, ◌+◌, ◌*◌, ◌/◌, ◌^◌, bit_and, bit_xor, Bool, true, false, ◌&&◌, ◌==◌, if◌then◌else◌, List,
  Option, none, some, Status, u32, u64,
}

-- kes_extent_id_t
pub record ExtentId : Type 0 where
  pub start_block : ℕ
  pub block_count : ℕ
  pub block_size : ℕ
  pub reserved : ℕ

-- kes_extent_state_t: one Boolean for each bit
pub record State : Type 0 where
  pub clean : Bool
  pub dirty : Bool
  pub pinned : Bool
  pub loading : Bool
  pub flushing : Bool
  pub error : Bool

abbrev pub no_flags : State
no_flags = record {
  clean = false;
  dirty = false;
  pinned = false;
  loading = false;
  flushing = false;
  error = false;
}

-- kes_cache_policy_t
pub data Policy : Type 0 where
  lru lfu custom : Policy

-- kes_cache_config_t. A negative number of threads, an int, counts as 0: the code only tests
-- `<= 0` and counts up to it. What the device handle points to is a field of the cache.
pub record CacheConfig : Type 0 where
  pub max_memory : ℕ
  pub min_memory : ℕ
  pub max_entries : ℕ
  pub policy : Policy
  pub background_threads : ℕ
  pub sync_interval_ms : ℕ
  pub enable_prefetch : Bool
  pub enable_compression : Bool

-- kes_cache_stats_t
pub record CacheStats : Type 0 where
  pub hits : ℕ
  pub misses : ℕ
  pub evictions : ℕ
  pub flushes : ℕ
  pub bytes_read : ℕ
  pub bytes_written : ℕ
  pub memory_used : ℕ
  pub entries_cached : ℕ
  pub entries_dirty : ℕ
  pub entries_pinned : ℕ

-- struct kes_extent_entry; `buffer` is its `data`, with the bytes it points to
pub record Entry : Type 0 where
  pub id : ExtentId
  pub buffer : Option (List ℕ)
  pub state : State
  pub ref_count : ℕ
  pub pin_count : ℕ
  pub access_time : ℕ
  pub access_count : ℕ
  pub data_size : ℕ
  pub lookup_pins : ℕ
  pub cond_waiters : ℕ
  pub hash_next : Option ℕ
  pub hash_prev : Option ℕ
  pub list_next : Option ℕ
  pub list_prev : Option ℕ

-- The callbacks, on a device with states `D`. The buffer is a pointer, so it may be NULL; what
-- read_extent leaves in it is a list of bytes.
abbrev pub ReadExtent : Type 0 → Type 0
ReadExtent D = D → ExtentId → Option (List ℕ) → ℕ → D × List ℕ × Status

abbrev pub WriteExtent : Type 0 → Type 0
WriteExtent D = D → ExtentId → Option (List ℕ) → ℕ → D × Status

abbrev pub SyncDevice : Type 0 → Type 0
SyncDevice D = D → D × Status

-- struct kes_cache, with the heap its pointers lead into, the address that malloc gives next, and
-- the device behind its handle. `bg_threads` is the number of running background threads.
pub record Cache (D : Type 0) : Type 0 where
  pub config : CacheConfig
  pub stats : CacheStats
  pub buckets : ℕ → Option ℕ
  pub bucket_count : ℕ
  pub bucket_mask : ℕ
  pub mru_head : Option ℕ
  pub lru_tail : Option ℕ
  pub bg_threads : Option ℕ
  pub shutdown : Bool
  pub inflight_lookups : ℕ
  pub destroying : Bool
  pub read_extent : Option (ReadExtent D)
  pub write_extent : Option (WriteExtent D)
  pub sync_device : Option (SyncDevice D)
  pub heap : ℕ → Entry
  pub next_address : ℕ
  pub device : D

-- `hash = ((hash >> 16) ^ hash) * 0x45d9f3b`
abbrev mix : ℕ → ℕ
mix hash = u32 (bit_xor (hash / 2 ^ 16) hash * 0x45d9f3b)

unfoldable pub kes_extent_hash : ExtentId → ℕ
kes_extent_hash id =
    let low = bit_xor 0x12345678 (u32 id.start_block) in
    let high = bit_xor low (u32 (id.start_block / 2 ^ 32)) in
    let hash = mix (mix (bit_xor (bit_xor high id.block_count) id.block_size)) in
    bit_xor (hash / 2 ^ 16) hash

unfoldable pub kes_extent_equal : ExtentId → ExtentId → Bool
kes_extent_equal id1 id2 =
    (id1.start_block == id2.start_block)
    && ((id1.block_count == id2.block_count) && (id1.block_size == id2.block_size))

unfoldable pub extent_data_size : ExtentId → ℕ
extent_data_size id = u64 (id.block_count * id.block_size)

-- KES_ALIGN(size, KES_CACHE_ALIGNMENT), on size_t
unfoldable pub kes_align : ℕ → ℕ
kes_align size = u64 (size + 63) / 64 * 64

-- Whether a pointer points to an address.
abbrev pub points : Option ℕ → ℕ → Bool
points none q = false
points (some p) q = p == q

-- `if ( p != NULL) *p = f( *p)`
unfoldable pub store : Option ℕ → (Entry → Entry) → (ℕ → Entry) → ℕ → Entry
store p f heap q = if points p q then f (heap q) else heap q

abbrev pub update : {D : Type 0} → Option ℕ → (Entry → Entry) → Cache D → Cache D
update p f c = record c { heap = store p f c.heap }

-- `p == NULL ? a : b`
abbrev pub if_null {ℓ κ} : {A : Type ℓ} {B : Type κ} → Option A → B → B → B
if_null none a b = a
if_null (some p) a b = b

-- The buffer behind a pointer, after a write of all of it.
abbrev pub fill : Option (List ℕ) → List ℕ → Option (List ℕ)
fill none bytes = none
fill (some old) bytes = some bytes

-- `hash & cache->bucket_mask`
abbrev pub bucket_idx : {D : Type 0} → Cache D → ExtentId → ℕ
bucket_idx c id = bit_and (kes_extent_hash id) c.bucket_mask
