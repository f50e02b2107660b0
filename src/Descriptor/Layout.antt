-- ===== src/Descriptor/Layout.antt =====
-- The layout of a new storage: block 0, the user blocks, the bitmap, with no gap and no overlap.
use kanek_extents_storage.Common.{ℕ, ◌+◌, ◌*◌, ◌/◌, ◌^◌, ◌≤◌, ◌<◌, ◌≡◌, refl, arith}
use kanek_extents_storage.Descriptor.{
  Descriptor, init_storage_descriptor, kes_default_block_size, Fits, zeroed,
}

-- The regions follow one another and fill the device's whole blocks; the bitmap has a bit for every
-- user block, and no block beyond those that a bit for every block of the device takes.
pub record IsLaidOut (size : ℕ) (d : Descriptor) : Type 0 where
  pub in_device : d.total_blocks * d.block_size ≤ size
  pub whole_device : size < (d.total_blocks + 1) * d.block_size
  pub block_size : d.block_size ≡ kes_default_block_size
  pub no_block_more : d.bitmap_blocks * d.block_size < (d.total_blocks + 7) / 8 + d.block_size
  pub user_start : d.user_start_block ≡ 1
  pub user_end : d.user_start_block + d.user_blocks ≡ d.bitmap_start_block
  pub bitmap_end : d.bitmap_start_block + d.bitmap_blocks ≡ d.total_blocks
  pub some_user_block : 0 < d.user_blocks
  pub bitmap_fits : (d.user_blocks + 7) / 8 ≤ d.bitmap_blocks * d.block_size
  pub all_free : d.free_blocks ≡ d.user_blocks
  pub none_used : d.used_blocks ≡ 0

-- On a device of at least three blocks of 8192 bytes, whose size is a uint64_t, the layout of a new
-- storage has block 0, then at least one user block, then the bitmap blocks up to the last block of
-- 8192 bytes that the device holds in full. They have room for a bit for each user block, and none
-- is there beyond those that a bit for each block of the device takes; all user blocks are free.
pub init_storage_descriptor-IsLaidOut :
    (size : ℕ) (desc : Descriptor)
    → 3 * 8192 ≤ size
    → size < 2 ^ 64
    → IsLaidOut size (init_storage_descriptor size desc)
unfolding init_storage_descriptor
init_storage_descriptor-IsLaidOut size desc lo hi = record {
  in_device = omega arith;
  whole_device = omega arith;
  block_size = refl;
  no_block_more = omega arith;
  user_start = refl;
  user_end = omega arith;
  bitmap_end = omega arith;
  some_user_block = omega arith;
  bitmap_fits = omega arith;
  all_free = refl;
  none_used = refl;
}

pub init_storage_descriptor-Fits :
    (size : ℕ) → size < 2 ^ 64 → Fits (init_storage_descriptor size zeroed)
unfolding init_storage_descriptor
init_storage_descriptor-Fits size hi = omega arith
