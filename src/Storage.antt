-- ===== src/Storage.antt =====
-- The storage of src/kes_storage.c: its state (struct kes_storage), the descriptor in block 0, and
-- the steps that allocate, free, sync and close share. The operations are in the child modules. A
-- call holds the mutex and the exclusive file lock over its whole length, so it is one step.
pub mod Steps
pub mod Persist
pub mod Extents
pub mod Lifecycle
pub mod Info
pub mod History
pub mod Durable
use kanek_extents_storage.Common.{
  ℕ, ◌+◌, ◌*◌, ◌%◌, ◌^◌, Bool, true, false, ◌==◌, if◌then◌else◌, List, [], Result, ok, err, invalid,
  io, corrupt, success, Call, and_then, ◌>>◌, ◌>>=◌, u32, u64, u64_sub,
}
use kanek_extents_storage.Os.{Os, attempt, lseek, read_into, write_all}
use kanek_extents_storage.Bitmap.{Bitmap, kes_bitmap_find_free, kes_bitmap_set_range}
use kanek_extents_storage.Bitmap.Disk.{kes_bitmap_load, kes_bitmap_save, kes_bitmap_checksum}
use kanek_extents_storage.Descriptor.{
  Descriptor, descriptor_size, encode, decode, kes_magic_number, kes_version_major,
}

-- kes_allocation_strategy_t
pub data Strategy : Type 0 where
  first_fit best_fit worst_fit next_fit : Strategy

-- kes_extent_descriptor_t
pub record Extent : Type 0 where
  pub start_block : ℕ
  pub block_count : ℕ
  pub flags : ℕ
  pub extent_id : ℕ

-- kes_extent_request_t
pub record Request : Type 0 where
  pub block_count : ℕ
  pub alignment : ℕ
  pub hint_block : ℕ
  pub flags : ℕ

-- kes_storage_stats_t
pub record StorageStats : Type 0 where
  pub total_blocks : ℕ
  pub free_blocks : ℕ
  pub used_blocks : ℕ
  pub allocated_extents : ℕ
  pub fragmentation : ℕ
  pub reads_completed : ℕ
  pub writes_completed : ℕ
  pub bytes_read : ℕ
  pub bytes_written : ℕ

-- struct kes_storage; its file descriptor and lock are in `Os`.
pub record Storage : Type 0 where
  pub desc : Descriptor
  pub bitmap : Bitmap
  pub strategy : Strategy
  pub stats : StorageStats
  pub readonly : Bool
  pub sync_writes : Bool

-- One handle, and the system that it acts on.
pub record World : Type 0 where
  pub storage : Storage
  pub os : Os

-- flock(LOCK_EX) or fsync: an I/O error if the call fails.
unfoldable pub attempt_io : Call World (Unit {0})
attempt_io w =
    let (os', passed) = attempt w.os in (record w { os = os' }, if passed then success else err io)

abbrev pub with_desc : World → Descriptor → Os → World
with_desc w desc os = record { storage = record w.storage { desc = desc }; os = os }

-- A short read has already overwritten a part of the descriptor in memory.
unfoldable pub load_storage_descriptor : Call World (Unit {0})
load_storage_descriptor w =
    let (os1, sought) = lseek 0 w.os in
    let (os2, bytes, complete) = read_into descriptor_size (encode w.storage.desc) os1 in
    let desc = decode bytes in
    let w' = with_desc w desc os2 in
    if sought
    then (if complete
        then (if desc.magic == kes_magic_number
            then (if desc.version_major == kes_version_major
                then (w', success)
                else (w', err corrupt))
            else (w', err corrupt))
        else (w', err io))
    else (record w { os = os1 }, err io)

unfoldable pub save_storage_descriptor : Call World (Unit {0})
save_storage_descriptor w =
    let (os1, sought) = lseek 0 w.os in
    let (os2, complete) = write_all (encode w.storage.desc) os1 in
    if sought
    then (if complete then (record w { os = os2 }, success) else (record w { os = os2 }, err io))
    else (record w { os = os1 }, err io)

-- `storage->desc.bitmap_start_block * storage->desc.block_size`, on uint64_t
abbrev pub bitmap_offset : Descriptor → ℕ
bitmap_offset desc = u64 (desc.bitmap_start_block * desc.block_size)

-- A call on the handle's bitmap and the system.
abbrev pub on_bitmap : Call (Bitmap × Os) (Unit {0}) → Call World (Unit {0})
on_bitmap m w =
    let (s, r) = m (w.storage.bitmap, w.os) in
    (record { storage = record w.storage { bitmap = s.0 }; os = s.1 }, r)

abbrev pub load_bitmap : Call World (Unit {0})
load_bitmap w = on_bitmap (kes_bitmap_load (bitmap_offset w.storage.desc)) w

abbrev pub save_bitmap : Call World (Unit {0})
save_bitmap w = on_bitmap (kes_bitmap_save (bitmap_offset w.storage.desc)) w

-- The handle's view is refreshed from the file: first the descriptor, then the bitmap.
unfoldable pub reload : Call World (Unit {0})
reload = do load_storage_descriptor; load_bitmap

module _ (crc : List ℕ → ℕ) where
  abbrev pub refresh_checksum : Call World (Unit {0})
  refresh_checksum w = (
    with_desc w
        (record w.storage.desc { bitmap_checksum = kes_bitmap_checksum crc w.storage.bitmap }) w.os,
    success,
  )

  -- The bitmap, then the descriptor with its checksum, then fsync.
  unfoldable pub persist : Call World (Unit {0})
  persist = do save_bitmap; refresh_checksum; save_storage_descriptor; attempt_io
