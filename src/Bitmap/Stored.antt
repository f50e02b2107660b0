-- ===== src/Bitmap/Stored.antt =====
-- What a load gives when the bytes of a well-formed bitmap lie in the file: that bitmap.
use kanek_extents_storage.Common.{ℕ, ◌≡◌, u64_sub, arith}
use kanek_extents_storage.Os.Files.{File, window}
use kanek_extents_storage.Bitmap.{Bitmap, count_used_bits}
use kanek_extents_storage.Bitmap.Bits.{bit, ones, count_bytes-eq-used}
use kanek_extents_storage.Bitmap.Invariant.{IsValid, used-eq-used_blocks}
use kanek_extents_storage.Bitmap.Disk.{stored}

-- The count over the bytes of a well-formed bitmap is the number of its used blocks.
pub count_used_bits-eq-ones :
    (bm : Bitmap) → IsValid bm → count_used_bits bm ≡ ones (bit bm.bytes) bm.total_bits
unfolding count_used_bits
count_used_bits-eq-ones bm v = omega (
  arith,
  count_bytes-eq-used bm.bytes 0 (omega (arith, v.counted, v.small)),
  used-eq-used_blocks bm v,
)

module _ (a bm : Bitmap) (f : File) (offset : ℕ) (v : IsValid bm)
    (same_bits : a.total_bits ≡ bm.total_bits) (same_bytes : a.total_bytes ≡ bm.total_bytes)
    (there : window f offset bm.total_bytes ≡ bm.bytes) where
  loaded_bytes : window f offset a.total_bytes ≡ bm.bytes
  loaded_bytes = rw same_bytes there

  recount : u64_sub a.total_bits (count_used_bits bm) ≡ bm.free_bits
  recount =
      omega (
        arith,
        count_used_bits-eq-ones bm v,
        used-eq-used_blocks bm v,
        v.counted,
        v.small,
        same_bits,
      )

  pub stored-eq : stored a f offset ≡ record bm { search_hint = a.search_hint }
  unfolding stored count_used_bits
  stored-eq =
      rw (loaded_bytes, recount)
        λ i. record {
          bytes = bm.bytes;
          total_bits = same_bits i;
          total_bytes = same_bytes i;
          free_bits = bm.free_bits;
          search_hint = a.search_hint;
        }
