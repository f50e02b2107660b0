-- ===== src/Descriptor.antt =====
-- kes_storage_descriptor_t of include/kes/kes_types.h, its bytes in block 0, and the layout that
-- init_storage_descriptor of src/kes_storage.c gives a new storage. The struct is read and written
-- as it lies in memory: little-endian fields, with four bytes of padding behind block_size.
pub mod Codec
pub mod Layout
use kanek_extents_storage.Common.{
  ℕ, ◌+◌, ◌-◌, ◌*◌, ◌/◌, ◌^◌, ◌<◌, List, ◌++◌, take, drop, u32, u64, u64_sub,
}
use kanek_extents_storage.Os.Bytes.{le_bytes, from_le}

abbrev pub kes_version_major : ℕ
kes_version_major = 2

abbrev pub kes_version_minor : ℕ
kes_version_minor = 0

abbrev pub kes_version_patch : ℕ
kes_version_patch = 0

-- "KESS"
abbrev pub kes_magic_number : ℕ
kes_magic_number = 0x4B455353

abbrev pub kes_default_block_size : ℕ
kes_default_block_size = 8192

abbrev pub kes_min_block_size : ℕ
kes_min_block_size = 4096

abbrev pub kes_max_block_size : ℕ
kes_max_block_size = 65536

-- `padding` and `reserved` are bytes that only travel along, as numbers.
pub record Descriptor : Type 0 where
  pub magic : ℕ
  pub version_major : ℕ
  pub version_minor : ℕ
  pub block_size : ℕ
  pub padding : ℕ
  pub total_blocks : ℕ
  pub bitmap_start_block : ℕ
  pub bitmap_blocks : ℕ
  pub user_start_block : ℕ
  pub user_blocks : ℕ
  pub free_blocks : ℕ
  pub used_blocks : ℕ
  pub next_extent_id : ℕ
  pub bitmap_checksum : ℕ
  pub reserved : ℕ

abbrev pub descriptor_size : ℕ
descriptor_size = 112

unfoldable pub encode : Descriptor → List ℕ
encode d =
    le_bytes 4 d.magic
    ++ (le_bytes 2 d.version_major
        ++ (le_bytes 2 d.version_minor
            ++ (le_bytes 4 d.block_size
                ++ (le_bytes 4 d.padding
                    ++ (le_bytes 8 d.total_blocks
                        ++ (le_bytes 8 d.bitmap_start_block
                            ++ (le_bytes 8 d.bitmap_blocks
                                ++ (le_bytes 8 d.user_start_block
                                    ++ (le_bytes 8 d.user_blocks
                                        ++ (le_bytes 8 d.free_blocks
                                            ++ (le_bytes 8 d.used_blocks
                                                ++ (le_bytes 8 d.next_extent_id
                                                    ++ (le_bytes 4 d.bitmap_checksum
                                                        ++ le_bytes 28 d.reserved)))))))))))))

-- The field of `width` bytes at an offset of the struct.
abbrev pub field_at : ℕ → ℕ → List ℕ → ℕ
field_at offset width bytes = from_le (take width (drop offset bytes))

unfoldable pub decode : List ℕ → Descriptor
decode bytes = record {
  magic = field_at 0 4 bytes;
  version_major = field_at 4 2 bytes;
  version_minor = field_at 6 2 bytes;
  block_size = field_at 8 4 bytes;
  padding = field_at 12 4 bytes;
  total_blocks = field_at 16 8 bytes;
  bitmap_start_block = field_at 24 8 bytes;
  bitmap_blocks = field_at 32 8 bytes;
  user_start_block = field_at 40 8 bytes;
  user_blocks = field_at 48 8 bytes;
  free_blocks = field_at 56 8 bytes;
  used_blocks = field_at 64 8 bytes;
  next_extent_id = field_at 72 8 bytes;
  bitmap_checksum = field_at 80 4 bytes;
  reserved = field_at 84 28 bytes;
}

-- Each field fits its C type.
pub record Fits (d : Descriptor) : Type 0 where
  pub magic : d.magic < 256 ^ 4
  pub version_major : d.version_major < 256 ^ 2
  pub version_minor : d.version_minor < 256 ^ 2
  pub block_size : d.block_size < 256 ^ 4
  pub padding : d.padding < 256 ^ 4
  pub total_blocks : d.total_blocks < 256 ^ 8
  pub bitmap_start_block : d.bitmap_start_block < 256 ^ 8
  pub bitmap_blocks : d.bitmap_blocks < 256 ^ 8
  pub user_start_block : d.user_start_block < 256 ^ 8
  pub user_blocks : d.user_blocks < 256 ^ 8
  pub free_blocks : d.free_blocks < 256 ^ 8
  pub used_blocks : d.used_blocks < 256 ^ 8
  pub next_extent_id : d.next_extent_id < 256 ^ 8
  pub bitmap_checksum : d.bitmap_checksum < 256 ^ 4
  pub reserved : d.reserved < 256 ^ 28

-- Each byte of the bitmap stands for 8 blocks.
unfoldable pub calculate_bitmap_blocks : ℕ → ℕ → ℕ
calculate_bitmap_blocks total_blocks block_size =
    let bitmap_bytes = u64 (total_blocks + 7) / 8 in
    u64_sub (u64 (bitmap_bytes + block_size)) 1 / block_size

-- The fields that the function does not set keep what `desc` holds: zeros, from calloc.
unfoldable pub init_storage_descriptor : ℕ → Descriptor → Descriptor
unfolding calculate_bitmap_blocks
init_storage_descriptor size desc =
    let total_blocks = size / kes_default_block_size in
    let bitmap_blocks = calculate_bitmap_blocks total_blocks kes_default_block_size in
    let bitmap_start_block = u64_sub total_blocks bitmap_blocks in
    let user_blocks = u64_sub bitmap_start_block 1 in
    record desc {
      magic = kes_magic_number;
      version_major = kes_version_major;
      version_minor = kes_version_minor;
      block_size = kes_default_block_size;
      total_blocks = total_blocks;
      bitmap_start_block = bitmap_start_block;
      bitmap_blocks = bitmap_blocks;
      user_start_block = 1;
      user_blocks = user_blocks;
      free_blocks = user_blocks;
      used_blocks = 0;
      next_extent_id = 1;
    }

-- calloc's struct
abbrev pub zeroed : Descriptor
zeroed = record {
  magic = 0;
  version_major = 0;
  version_minor = 0;
  block_size = 0;
  padding = 0;
  total_blocks = 0;
  bitmap_start_block = 0;
  bitmap_blocks = 0;
  user_start_block = 0;
  user_blocks = 0;
  free_blocks = 0;
  used_blocks = 0;
  next_extent_id = 0;
  bitmap_checksum = 0;
  reserved = 0;
}
