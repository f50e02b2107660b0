-- ===== src/Storage/Info.antt =====
-- The statistics and the small helpers of src/kes_storage.c.
pub mod Sizes
use kanek_extents_storage.Common.{ℕ, ◌+◌, ◌-◌, ◌*◌, ◌/◌, ◌^◌, ◌&&◌, ltb, if◌then◌else◌, u32, u64}
use kanek_extents_storage.Descriptor.{Descriptor, kes_default_block_size}
use kanek_extents_storage.Storage.{Storage, StorageStats, Extent}

-- The fragmentation is computed in double precision and cut off; the quotient here is the same as
-- long as 100 times the number of extents and the number of used blocks are below 2 ^ 53.
unfoldable pub kes_storage_get_stats : Storage → StorageStats
kes_storage_get_stats s =
    let used = s.desc.used_blocks in
    let extents = s.stats.allocated_extents in
    record s.stats {
      total_blocks = s.desc.total_blocks;
      free_blocks = s.desc.free_blocks;
      used_blocks = used;
      fragmentation = if ltb 0 used && ltb 0 extents then 100 * (extents - 1) / used else 0;
    }

unfoldable pub kes_storage_get_descriptor : Storage → Descriptor
kes_storage_get_descriptor s = s.desc

-- KES_BYTES_TO_BLOCKS on size_t, cut to 32 bits.
unfoldable pub kes_calculate_blocks_needed : ℕ → ℕ → ℕ
kes_calculate_blocks_needed byte_size block_size =
    u32 (u64 (u64 (byte_size + block_size) + (2 ^ 64 - 1)) / block_size)

unfoldable pub kes_calculate_extent_size : Extent → ℕ
kes_calculate_extent_size extent = u64 (extent.block_count * kes_default_block_size)
