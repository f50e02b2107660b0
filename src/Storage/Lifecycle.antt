-- ===== src/Storage/Lifecycle.antt =====
-- kes_storage_create, kes_storage_open, kes_storage_sync, kes_storage_close and validate_config of
-- src/kes_storage.c. The path names the file of `Os`; allocations, pthread_mutex_init and open are
-- calls that the plan may fail. The new handle is the result.
pub mod Syncing
pub mod Closing
pub mod Handles
pub mod Creating
pub mod Opening
pub mod Validation
use kanek_extents_storage.Common.{
  Result, ℕ, ◌-◌, ◌*◌, Bool, true, false, not, ◌||◌, ◌&&◌, ◌==◌, ltb, if◌then◌else◌, List, [],
  bit_and, ok, err, invalid, nomem, io, corrupt, Status, success, Call, Error, ◌>>◌, u32,
}
use kanek_extents_storage.Os.{Os, attempt}
use kanek_extents_storage.Bitmap.{Bitmap, kes_bitmap_create}
use kanek_extents_storage.Bitmap.Disk.{kes_bitmap_checksum}
use kanek_extents_storage.Descriptor.{
  zeroed, init_storage_descriptor, kes_min_block_size, kes_max_block_size,
}
use kanek_extents_storage.Storage.{
  World, Storage, StorageStats, Strategy, first_fit, attempt_io, load_storage_descriptor,
  save_storage_descriptor, load_bitmap, save_bitmap, reload, persist, refresh_checksum, with_desc,
}

-- kes_storage_config_t; the path is there or it is NULL.
pub record Config : Type 0 where
  pub has_device_path : Bool
  pub device_size : ℕ
  pub block_size : ℕ
  pub flags : ℕ
  pub strategy : Strategy

-- kes_storage_flags_t
abbrev pub kes_storage_readonly : ℕ
kes_storage_readonly = 1

abbrev pub kes_storage_truncate : ℕ
kes_storage_truncate = 4

abbrev pub kes_storage_sync_flag : ℕ
kes_storage_sync_flag = 8

abbrev pub has_flag : ℕ → ℕ → Bool
has_flag flags flag = not (bit_and flags flag == 0)

-- KES_IS_POWER_OF_2, on uint32_t
abbrev pub is_power_of_2 : ℕ → Bool
is_power_of_2 x = not (x == 0) && (bit_and x (x - 1) == 0)

abbrev pub is_first_fit : Strategy → Bool
is_first_fit first_fit = true
is_first_fit _ = false

unfoldable pub validate_config : Config → Status
validate_config config =
    if not config.has_device_path
    then err invalid
    else if not (is_power_of_2 config.block_size)
        || ltb config.block_size kes_min_block_size
        || ltb kes_max_block_size config.block_size
    then err invalid
    else if ltb config.device_size (u32 (config.block_size * 10))
    then err invalid
    else if not (is_first_fit config.strategy)
    then err invalid
    else success

-- calloc's struct: the bitmap is a NULL pointer yet.
abbrev pub no_bitmap : Bitmap
no_bitmap = record { bytes = []; total_bits = 0; total_bytes = 0; free_bits = 0; search_hint = 0 }

abbrev pub no_stats : StorageStats
no_stats = record {
  total_blocks = 0;
  free_blocks = 0;
  used_blocks = 0;
  allocated_extents = 0;
  fragmentation = 0;
  reads_completed = 0;
  writes_completed = 0;
  bytes_read = 0;
  bytes_written = 0;
}

abbrev pub new_handle : ℕ → Strategy → Storage
new_handle flags strategy = record {
  desc = zeroed;
  bitmap = no_bitmap;
  strategy = strategy;
  stats = no_stats;
  readonly = has_flag flags kes_storage_readonly;
  sync_writes = has_flag flags kes_storage_sync_flag;
}

-- An allocation, pthread_mutex_init or open, with the error code of its failure.
abbrev pub demand : Error → Call Os (Unit {0})
demand e os = let (os', passed) = attempt os in (os', if passed then success else err e)

abbrev pub check : Status → Call Os (Unit {0})
check r os = (os, r)

-- O_TRUNC empties the file when it is opened.
abbrev pub truncate : ℕ → Call Os (Unit {0})
truncate flags os = (
  if has_flag flags kes_storage_truncate
      then record os { file = record { size = 0; byte = λ i. 0 } }
      else os,
  success,
)

-- Steps on a new handle; the handle is given out if they all succeed.
abbrev pub as_handle : Storage → Call World (Unit {0}) → Call Os Storage
as_handle s m os =
    let (w, r) = m (record { storage = s; os = os }) in
    (w.os, elim r [ ok _ ↦ ok w.storage | err e ↦ err e ])

abbrev pub hold_bitmap : World → Result Bitmap → World × Status
hold_bitmap w (ok bm) = (record w { storage = record w.storage { bitmap = bm } }, success)
hold_bitmap w (err e) = (w, err e)

unfoldable pub create_bitmap : Call World (Unit {0})
create_bitmap w =
    let (os1, struct_allocated) = attempt w.os in
    let (os2, data_allocated) = attempt os1 in
    hold_bitmap (record w { os = os2 })
      (kes_bitmap_create (struct_allocated, data_allocated) w.storage.desc.user_blocks)

abbrev pub init_desc : ℕ → Call World (Unit {0})
init_desc size w = (with_desc w (init_storage_descriptor size w.storage.desc) w.os, success)

module _ (crc : List ℕ → ℕ) where
  unfoldable pub lay_out : ℕ → Call World (Unit {0})
  unfolding create_bitmap
  lay_out size = do
    init_desc size
    create_bitmap
    refresh_checksum crc
    save_bitmap
    save_storage_descriptor

  unfoldable pub kes_storage_create : Config → Call Os Storage
  unfolding lay_out
  kes_storage_create config = do
    check (validate_config config)
    demand nomem
    demand nomem
    demand io
    truncate config.flags
    as_handle (new_handle config.flags config.strategy) (lay_out config.device_size)

  -- The loaded bitmap against the checksum of the descriptor.
  unfoldable pub verify_checksum : Call World (Unit {0})
  verify_checksum w =
      if kes_bitmap_checksum crc w.storage.bitmap == w.storage.desc.bitmap_checksum
      then (w, success)
      else (w, err corrupt)

  -- Under the shared file lock.
  unfoldable pub open_locked : Call World (Unit {0})
  unfolding create_bitmap verify_checksum
  open_locked = do attempt_io; load_storage_descriptor; create_bitmap; load_bitmap; verify_checksum

  unfoldable pub kes_storage_open : ℕ → Call Os Storage
  unfolding open_locked
  kes_storage_open flags = do
    demand nomem
    demand nomem
    demand io
    as_handle (new_handle flags first_fit) open_locked

  unfoldable pub sync_locked : Call World (Unit {0})
  sync_locked = do attempt_io; reload; persist crc

  unfoldable pub kes_storage_sync : Call World (Unit {0})
  unfolding sync_locked
  kes_storage_sync w = if w.storage.readonly then (w, err invalid) else sync_locked w

  -- The second half of what close does under the file lock: no failure stops it.
  unfoldable pub write_back : World → World
  write_back w2 =
      let w3 = (save_bitmap w2).0 in
      let w4 = (refresh_checksum crc w3).0 in
      let w5 = (save_storage_descriptor w4).0 in (attempt_io w5).0

  -- The bitmap is loaded if the descriptor was, and what came of that is not looked at.
  unfoldable pub close_locked : World → World
  unfolding write_back
  close_locked w =
      let (w1, loaded) = load_storage_descriptor w in
      write_back (elim loaded [ ok _ ↦ (load_bitmap w1).0 | err _ ↦ w1 ])

  -- The handle is gone; what stays is the system. The result is always success.
  unfoldable pub kes_storage_close : World → Os
  unfolding close_locked
  kes_storage_close w =
      let (w1, locked) = attempt_io w in
      if w.storage.readonly
      then w.os
      else elim locked [ ok _ ↦ (close_locked w1).os | err _ ↦ w1.os ]
