-- ===== src/Storage/Info/Sizes.antt =====
-- kes_calculate_blocks_needed and kes_storage_get_stats: rounding, and the counts that are reported.
use kanek_extents_storage.Common.{
  ℕ, ◌+◌, ◌-◌, ◌*◌, ◌/◌, ◌%◌, ◌^◌, ◌≤◌, ◌<◌, ◌≡◌, arith, u32, u64, dec_lt,
}
use native.Mathlib.Nat.{div-add-mod, mod-lt, mul-le-mul_right}
use kanek_extents_storage.Bitmap.Bits.{bit, ones}
use kanek_extents_storage.Bitmap.Invariant.{used-eq-used_blocks}
use kanek_extents_storage.Storage.{Storage}
use kanek_extents_storage.Storage.Steps.{Coherent}
use kanek_extents_storage.Storage.Info.{kes_calculate_blocks_needed, kes_storage_get_stats}

-- For a block size of at least 1, a byte count that leaves room for a block below 2 ^ 64 and is below
-- 2 ^ 31 blocks, the number of blocks is the least that holds the bytes.
pub kes_calculate_blocks_needed-least :
    (byte_size block_size : ℕ)
    → 0 < block_size
    → byte_size + block_size < 2 ^ 64
    → byte_size < 2 ^ 31 * block_size
    → (byte_size ≤ kes_calculate_blocks_needed byte_size block_size * block_size)
      × (kes_calculate_blocks_needed byte_size block_size * block_size < byte_size + block_size)
unfolding kes_calculate_blocks_needed
kes_calculate_blocks_needed-least byte_size block_size pos small few =
    let q = (byte_size + block_size - 1) / block_size in
    let e : u64 (u64 (byte_size + block_size) + (2 ^ 64 - 1)) ≡ byte_size + block_size - 1 =
      omega arith in
    let m = byte_size + block_size - 1 in
    let d : block_size * q + m % block_size ≡ m = div-add-mod m block_size in
    let l : m % block_size < block_size = mod-lt m pos in
    let d' : q * block_size + m % block_size ≡ m = grind (arith, d) in
    let fits : q < 2 ^ 32 = elim (dec_lt q (2 ^ 32)) [
      | yes lt ↦ lt
      | no ge ↦
          let more : 2 ^ 32 * block_size ≤ q * block_size =
            mul-le-mul_right block_size (omega arith) in
          absurd (omega arith)
    ] in
    let e' : u32 q ≡ q = omega arith in rw (e, e') (omega arith, omega arith)

-- For a handle whose descriptor and bitmap belong together, the statistics report as used the number
-- of blocks whose bit is set, and as free all the others.
pub kes_storage_get_stats-counts :
    (s : Storage)
    → Coherent s.desc s.bitmap
    → ((kes_storage_get_stats s).used_blocks ≡ ones (bit s.bitmap.bytes) s.bitmap.total_bits)
      × ((kes_storage_get_stats s).used_blocks + (kes_storage_get_stats s).free_blocks
          ≡ s.bitmap.total_bits)
unfolding kes_storage_get_stats
kes_storage_get_stats-counts s c =
    let e = used-eq-used_blocks s.bitmap c.valid in
    (
      omega (arith, e, c.valid.counted, c.free_counted, c.used_counted, c.sized),
      omega (arith, c.used_counted, c.sized),
    )
