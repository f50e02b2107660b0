-- ===== src/Storage/Extents.antt =====
-- kes_extent_allocate, kes_extent_free, kes_extent_read and kes_extent_write of src/kes_storage.c.
-- The buffer of a read or write is the list of its bytes; out parameters are results, which a call
-- that fails does not give.
pub mod Allocate
pub mod Allocation
pub mod Release
pub mod Freeing
pub mod Access
pub mod Transfer
pub mod Isolation
use kanek_extents_storage.Common.{
  ℕ, zero, suc, ◌+◌, ◌*◌, ◌%◌, ◌^◌, Bool, true, false, ◌==◌, ltb, if◌then◌else◌, List, [],
  replicate, length, Result, ok, err, invalid, notfound, io, success, Call, and_then, ◌>>◌, ◌>>=◌,
  return, fail, u32, u64, u64_sub,
}
use kanek_extents_storage.Os.{Os, lseek, read_into, write_all}
use kanek_extents_storage.Bitmap.{
  Bitmap, kes_bitmap_test, kes_bitmap_find_free, kes_bitmap_set_range, kes_bitmap_clear_range,
}
use kanek_extents_storage.Storage.{World, Storage, Extent, Request, attempt_io, reload, persist}

-- A call on the handle's bitmap alone.
abbrev pub in_bitmap {ℓ} : {A : Type ℓ} → Call Bitmap A → Call World A
in_bitmap m w =
    let (bm, r) = m w.storage.bitmap in (record w { storage = record w.storage { bitmap = bm } }, r)

-- The extent's identifier is set by the caller. `alignment` is not read.
unfoldable pub allocate_extent_first_fit : Request → Call World Extent
allocate_extent_first_fit request = do
  found_start ← in_bitmap (kes_bitmap_find_free request.block_count request.hint_block)
  in_bitmap (kes_bitmap_set_range found_start request.block_count)
  return (record {
    start_block = found_start;
    block_count = request.block_count;
    flags = request.flags;
    extent_id = 0;
  })

-- The statistics, and the identifier of the new extent.
unfoldable pub count_allocation : Extent → Call World Extent
count_allocation extent w =
    let desc = w.storage.desc in
    let stats = w.storage.stats in
    let next_extent_id = u64 (desc.next_extent_id + 1) in
    (
      record w {
        storage = record w.storage {
          desc = record desc {
            used_blocks = u64 (desc.used_blocks + extent.block_count);
            free_blocks = u64_sub desc.free_blocks extent.block_count;
            next_extent_id = next_extent_id;
          };
          stats = record stats { allocated_extents = u64 (stats.allocated_extents + 1) };
        };
      },
      ok (record extent { extent_id = next_extent_id }),
    )

unfoldable pub count_free : Extent → Call World (Unit {0})
count_free extent w =
    let desc = w.storage.desc in
    let stats = w.storage.stats in
    (
      record w {
        storage = record w.storage {
          desc = record desc {
            used_blocks = u64_sub desc.used_blocks extent.block_count;
            free_blocks = u64 (desc.free_blocks + extent.block_count);
          };
          stats = record stats { allocated_extents = u64_sub stats.allocated_extents 1 };
        };
      },
      success,
    )

-- The loop of kes_extent_free, with `left` rounds to go from round `i`.
unfoldable pub all_allocated : Bitmap → ℕ → ℕ → ℕ → Bool
all_allocated bm start_block i zero = true
all_allocated bm start_block i (suc left) =
    if kes_bitmap_test bm (u64 (start_block + i))
    then all_allocated bm start_block (i + 1) left
    else false

-- Every block of the extent has to be allocated, or the call fails with no change.
unfoldable pub check_allocated : Extent → Call World (Unit {0})
check_allocated extent w =
    if all_allocated w.storage.bitmap extent.start_block 0 extent.block_count
    then (w, success)
    else (w, err notfound)

module _ (crc : List ℕ → ℕ) where
  -- What runs under the locks. Each case of the switch on the strategy is first fit.
  unfoldable pub allocate_locked : Request → Call World Extent
  unfolding allocate_extent_first_fit count_allocation
  allocate_locked request = do
    attempt_io
    reload
    extent ← allocate_extent_first_fit request
    extent' ← count_allocation extent
    persist crc
    return extent'

  unfoldable pub kes_extent_allocate : Request → Call World Extent
  unfolding allocate_locked
  kes_extent_allocate request w =
      if w.storage.readonly
      then (w, err invalid)
      else if request.block_count == 0
      then (w, err invalid)
      else allocate_locked request w

  unfoldable pub free_locked : Extent → Call World (Unit {0})
  unfolding check_allocated count_free
  free_locked extent = do
    attempt_io
    reload
    check_allocated extent
    in_bitmap (kes_bitmap_clear_range extent.start_block extent.block_count)
    count_free extent
    persist crc

  unfoldable pub kes_extent_free : Extent → Call World (Unit {0})
  unfolding free_locked
  kes_extent_free extent w = if w.storage.readonly then (w, err invalid) else free_locked extent w

-- Where the extent's byte `offset` lies in the file, on uint64_t.
abbrev pub file_offset : Storage → Extent → ℕ → ℕ
file_offset s extent offset =
    let extent_start_byte =
      u64 (u64 (s.desc.user_start_block + extent.start_block) * s.desc.block_size) in
    u64 (extent_start_byte + offset)

-- The bounds check of reads and writes: `offset + size > extent_size`.
abbrev pub exceeds : Storage → Extent → ℕ → ℕ → Bool
exceeds s extent size offset =
    ltb (u64 (extent.block_count * s.desc.block_size)) (u64 (offset + size))

unfoldable pub kes_extent_read : Extent → ℕ → ℕ → Call World (List ℕ)
kes_extent_read extent size offset w =
    let s = w.storage in
    let (os1, sought) = lseek (file_offset s extent offset) w.os in
    let (os2, buffer, complete) = read_into size (replicate size 0) os1 in
    let stats = record s.stats {
      reads_completed = u64 (s.stats.reads_completed + 1);
      bytes_read = u64 (s.stats.bytes_read + size);
    } in
    if exceeds s extent size offset
    then (w, err invalid)
    else if sought
    then (if complete
        then (record { storage = record s { stats = stats }; os = os2 }, ok buffer)
        else (record w { os = os2 }, err io))
    else (record w { os = os1 }, err io)

unfoldable pub kes_extent_write : Extent → List ℕ → ℕ → Call World (Unit {0})
kes_extent_write extent buffer offset w =
    let s = w.storage in
    let (os1, sought) = lseek (file_offset s extent offset) w.os in
    let (os2, complete) = write_all buffer os1 in
    let stats = record s.stats {
      writes_completed = u64 (s.stats.writes_completed + 1);
      bytes_written = u64 (s.stats.bytes_written + length buffer);
    } in
    if s.readonly
    then (w, err invalid)
    else if exceeds s extent (length buffer) offset
    then (w, err invalid)
    else if sought
    then (if complete
        then (record { storage = record s { stats = stats }; os = os2 }, success)
        else (record w { os = os2 }, err io))
    else (record w { os = os1 }, err io)
