-- ===== src/Descriptor/Codec.antt =====
-- The bytes of a descriptor, which is written and read as the struct lies in memory.
use kanek_extents_storage.Common.{◌≡◌, refl, length}
use kanek_extents_storage.Os.Bytes.{from_le-le_bytes}
use kanek_extents_storage.Descriptor.{Descriptor, encode, decode, Fits}

pub length-encode : (d : Descriptor) → length (encode d) ≡ 112
unfolding encode
length-encode d = refl

-- A descriptor whose fields fit their C types is read back from its bytes as it was written.
pub decode-encode : (d : Descriptor) → Fits d → decode (encode d) ≡ d
unfolding encode decode
decode-encode d h = λ i. record {
  magic = from_le-le_bytes 4 d.magic h.magic i;
  version_major = from_le-le_bytes 2 d.version_major h.version_major i;
  version_minor = from_le-le_bytes 2 d.version_minor h.version_minor i;
  block_size = from_le-le_bytes 4 d.block_size h.block_size i;
  padding = from_le-le_bytes 4 d.padding h.padding i;
  total_blocks = from_le-le_bytes 8 d.total_blocks h.total_blocks i;
  bitmap_start_block = from_le-le_bytes 8 d.bitmap_start_block h.bitmap_start_block i;
  bitmap_blocks = from_le-le_bytes 8 d.bitmap_blocks h.bitmap_blocks i;
  user_start_block = from_le-le_bytes 8 d.user_start_block h.user_start_block i;
  user_blocks = from_le-le_bytes 8 d.user_blocks h.user_blocks i;
  free_blocks = from_le-le_bytes 8 d.free_blocks h.free_blocks i;
  used_blocks = from_le-le_bytes 8 d.used_blocks h.used_blocks i;
  next_extent_id = from_le-le_bytes 8 d.next_extent_id h.next_extent_id i;
  bitmap_checksum = from_le-le_bytes 4 d.bitmap_checksum h.bitmap_checksum i;
  reserved = from_le-le_bytes 28 d.reserved h.reserved i;
}
