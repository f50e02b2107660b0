-- ===== src/Bitmap.antt =====
-- The block bitmap: src/kes_bitmap.c and struct kes_bitmap of include/kes/kes_bitmap.h. A bit is 1
-- where the block is used. The bitmap is a value, so the pointer arguments are never NULL; the
-- functions that read and write a file are in Bitmap/Disk.
pub mod Bytes
pub mod Bits
pub mod Invariant
pub mod Ranges
pub mod Search
pub mod Counting
pub mod Disk
pub mod Stored
pub mod Creation
use kanek_extents_storage.Common.{
  ℕ, zero, suc, ◌+◌, ◌-◌, ◌*◌, ◌/◌, ◌%◌, ◌^◌, min, bit_and, bit_or, Bool, true, false, not, ◌||◌,
  ◌==◌, ltb, leb, if◌then◌else◌, List, [], ◌∷◌, Option, none, some, get_or, set, replicate, u64,
  u64_sub, Error, invalid, nomem, nospace, Result, ok, err, Status, success, Call, and_then,
}

pub record Bitmap : Type 0 where
  pub bytes : List ℕ
  pub total_bits : ℕ
  pub total_bytes : ℕ
  pub free_bits : ℕ
  pub search_hint : ℕ

-- BIT_BYTE_INDEX, BIT_OFFSET and BIT_MASK
abbrev pub byte_index : ℕ → ℕ
byte_index bit = bit / 8

abbrev pub bit_offset : ℕ → ℕ
bit_offset bit = bit % 8

abbrev pub bit_mask : ℕ → ℕ
bit_mask bit = 2 ^ bit_offset bit

-- `byte & mask` as a condition
abbrev pub has_bit : ℕ → ℕ → Bool
has_bit byte mask = not (bit_and byte mask == 0)

unfoldable pub popcount_table : List ℕ
popcount_table =
    0 ∷ 1 ∷ 1 ∷ 2 ∷ 1 ∷ 2 ∷ 2 ∷ 3 ∷ 1 ∷ 2 ∷ 2 ∷ 3 ∷ 2 ∷ 3 ∷ 3 ∷ 4 ∷ 1 ∷ 2 ∷ 2 ∷ 3 ∷ 2 ∷ 3 ∷ 3 ∷ 4
    ∷ 2 ∷ 3 ∷ 3 ∷ 4 ∷ 3 ∷ 4 ∷ 4 ∷ 5 ∷ 1 ∷ 2 ∷ 2 ∷ 3 ∷ 2 ∷ 3 ∷ 3 ∷ 4 ∷ 2 ∷ 3 ∷ 3 ∷ 4 ∷ 3 ∷ 4 ∷ 4 ∷ 5
    ∷ 2 ∷ 3 ∷ 3 ∷ 4 ∷ 3 ∷ 4 ∷ 4 ∷ 5 ∷ 3 ∷ 4 ∷ 4 ∷ 5 ∷ 4 ∷ 5 ∷ 5 ∷ 6 ∷ 1 ∷ 2 ∷ 2 ∷ 3 ∷ 2 ∷ 3 ∷ 3 ∷ 4
    ∷ 2 ∷ 3 ∷ 3 ∷ 4 ∷ 3 ∷ 4 ∷ 4 ∷ 5 ∷ 2 ∷ 3 ∷ 3 ∷ 4 ∷ 3 ∷ 4 ∷ 4 ∷ 5 ∷ 3 ∷ 4 ∷ 4 ∷ 5 ∷ 4 ∷ 5 ∷ 5 ∷ 6
    ∷ 2 ∷ 3 ∷ 3 ∷ 4 ∷ 3 ∷ 4 ∷ 4 ∷ 5 ∷ 3 ∷ 4 ∷ 4 ∷ 5 ∷ 4 ∷ 5 ∷ 5 ∷ 6 ∷ 3 ∷ 4 ∷ 4 ∷ 5 ∷ 4 ∷ 5 ∷ 5 ∷ 6
    ∷ 4 ∷ 5 ∷ 5 ∷ 6 ∷ 5 ∷ 6 ∷ 6 ∷ 7 ∷ 1 ∷ 2 ∷ 2 ∷ 3 ∷ 2 ∷ 3 ∷ 3 ∷ 4 ∷ 2 ∷ 3 ∷ 3 ∷ 4 ∷ 3 ∷ 4 ∷ 4 ∷ 5
    ∷ 2 ∷ 3 ∷ 3 ∷ 4 ∷ 3 ∷ 4 ∷ 4 ∷ 5 ∷ 3 ∷ 4 ∷ 4 ∷ 5 ∷ 4 ∷ 5 ∷ 5 ∷ 6 ∷ 2 ∷ 3 ∷ 3 ∷ 4 ∷ 3 ∷ 4 ∷ 4 ∷ 5
    ∷ 3 ∷ 4 ∷ 4 ∷ 5 ∷ 4 ∷ 5 ∷ 5 ∷ 6 ∷ 3 ∷ 4 ∷ 4 ∷ 5 ∷ 4 ∷ 5 ∷ 5 ∷ 6 ∷ 4 ∷ 5 ∷ 5 ∷ 6 ∷ 5 ∷ 6 ∷ 6 ∷ 7
    ∷ 2 ∷ 3 ∷ 3 ∷ 4 ∷ 3 ∷ 4 ∷ 4 ∷ 5 ∷ 3 ∷ 4 ∷ 4 ∷ 5 ∷ 4 ∷ 5 ∷ 5 ∷ 6 ∷ 3 ∷ 4 ∷ 4 ∷ 5 ∷ 4 ∷ 5 ∷ 5 ∷ 6
    ∷ 4 ∷ 5 ∷ 5 ∷ 6 ∷ 5 ∷ 6 ∷ 6 ∷ 7 ∷ 3 ∷ 4 ∷ 4 ∷ 5 ∷ 4 ∷ 5 ∷ 5 ∷ 6 ∷ 4 ∷ 5 ∷ 5 ∷ 6 ∷ 5 ∷ 6 ∷ 6 ∷ 7
    ∷ 4 ∷ 5 ∷ 5 ∷ 6 ∷ 5 ∷ 6 ∷ 6 ∷ 7 ∷ 5 ∷ 6 ∷ 6 ∷ 7 ∷ 6 ∷ 7 ∷ 7 ∷ 8 ∷ []

unfoldable pub popcount_byte : ℕ → ℕ
unfolding popcount_table
popcount_byte byte = get_or popcount_table byte 0

-- The loop of count_used_bits from one byte on, with the count so far.
unfoldable pub count_bytes : List ℕ → ℕ → ℕ
count_bytes [] used_count = used_count
count_bytes (byte ∷ rest) used_count = count_bytes rest (u64 (used_count + popcount_byte byte))

unfoldable pub count_used_bits : Bitmap → ℕ
unfolding count_bytes popcount_byte
count_used_bits bm = count_bytes bm.bytes 0

-- `allocated` says of each of the two calloc calls whether it succeeds.
unfoldable pub kes_bitmap_create : Bool × Bool → ℕ → Result Bitmap
kes_bitmap_create (struct_allocated, data_allocated) total_blocks =
    let total_bytes = u64_sub (u64 (total_blocks + 8)) 1 / 8 in
    if total_blocks == 0
    then err invalid
    else if not struct_allocated
    then err nomem
    else if not data_allocated
    then err nomem
    else ok (record {
      bytes = replicate total_bytes 0;
      total_bits = total_blocks;
      total_bytes = total_bytes;
      free_bits = total_blocks;
      search_hint = 0;
    })

unfoldable pub kes_bitmap_set : ℕ → Call Bitmap (Unit {0})
kes_bitmap_set bit_index bm =
    let byte = get_or bm.bytes (byte_index bit_index) 0 in
    if leb bm.total_bits bit_index
    then (bm, err invalid)
    else if has_bit byte (bit_mask bit_index)
    then (bm, success)
    else (
      record bm {
        bytes = set bm.bytes (byte_index bit_index) (bit_or byte (bit_mask bit_index));
        free_bits = u64_sub bm.free_bits 1;
      },
      success,
    )

-- `byte & ~mask`, where both are below 256.
unfoldable pub kes_bitmap_clear : ℕ → Call Bitmap (Unit {0})
kes_bitmap_clear bit_index bm =
    let byte = get_or bm.bytes (byte_index bit_index) 0 in
    if leb bm.total_bits bit_index
    then (bm, err invalid)
    else if not (has_bit byte (bit_mask bit_index))
    then (bm, success)
    else (
      record bm {
        bytes = set bm.bytes (byte_index bit_index) (bit_and byte (255 - bit_mask bit_index));
        free_bits = u64 (bm.free_bits + 1);
      },
      success,
    )

unfoldable pub kes_bitmap_test : Bitmap → ℕ → Bool
kes_bitmap_test bm bit_index =
    if leb bm.total_bits bit_index
    then false
    else has_bit (get_or bm.bytes (byte_index bit_index) 0) (bit_mask bit_index)

-- The loop of kes_bitmap_set_range and kes_bitmap_clear_range over `op`, with `left` rounds to go
-- from round `i`: the first call that fails ends it.
unfoldable pub for_bits : (ℕ → Call Bitmap (Unit {0})) → ℕ → ℕ → ℕ → Call Bitmap (Unit {0})
for_bits op start_bit i zero bm = (bm, success)
for_bits op start_bit i (suc left) bm =
    and_then (op (u64 (start_bit + i)) bm) (λ _. for_bits op start_bit (i + 1) left)

abbrev pub out_of_range : Bitmap → ℕ → ℕ → Bool
out_of_range bm start_bit bit_count =
    leb bm.total_bits start_bit || ltb bm.total_bits (u64 (start_bit + bit_count))

unfoldable pub kes_bitmap_set_range : ℕ → ℕ → Call Bitmap (Unit {0})
kes_bitmap_set_range start_bit bit_count bm =
    if out_of_range bm start_bit bit_count
    then (bm, err invalid)
    else for_bits kes_bitmap_set start_bit 0 bit_count bm

unfoldable pub kes_bitmap_clear_range : ℕ → ℕ → Call Bitmap (Unit {0})
kes_bitmap_clear_range start_bit bit_count bm =
    if out_of_range bm start_bit bit_count
    then (bm, err invalid)
    else for_bits kes_bitmap_clear start_bit 0 bit_count bm

-- The inner loop of kes_bitmap_find_free: `found` after the rounds from `i` on.
unfoldable pub is_run_free : Bitmap → ℕ → ℕ → ℕ → Bool
is_run_free bm start i zero = true
is_run_free bm start i (suc left) =
    if kes_bitmap_test bm (u64 (start + i)) then false else is_run_free bm start (i + 1) left

-- The outer loop, with `left` candidates to try from `start` on.
unfoldable pub scan : Bitmap → ℕ → ℕ → ℕ → Option ℕ
scan bm bit_count start zero = none
scan bm bit_count start (suc left) =
    let later = scan bm bit_count (start + 1) left in
    if is_run_free bm start 0 bit_count then some start else later

-- `*found_start = start`, and the hint behind the run.
abbrev pub found_at : ℕ → ℕ → Call Bitmap ℕ
found_at bit_count start bm = (record bm { search_hint = u64 (start + bit_count) }, ok start)

-- The search from the beginning, made if the first one did not start there.
unfoldable pub search_wrapped : ℕ → ℕ → ℕ → Call Bitmap ℕ
search_wrapped bit_count search_start last bm =
    if search_start == 0
    then (bm, err nospace)
    else elim (scan bm bit_count 0 (min search_start (last + 1))) [
      | some start ↦ found_at bit_count start bm
      | none ↦ (bm, err nospace)
    ]

-- The search from the hint on, and then the other one.
unfoldable pub search_from : ℕ → ℕ → ℕ → Call Bitmap ℕ
search_from bit_count search_start last bm =
    elim (scan bm bit_count search_start (last + 1 - search_start)) [
      | some start ↦ found_at bit_count start bm
      | none ↦ search_wrapped bit_count search_start last bm
    ]

abbrev pub search_start : Bitmap → ℕ → ℕ
search_start bm start_hint = if leb bm.total_bits start_hint then 0 else start_hint

-- The candidates are the blocks up to `total_bits - bit_count`. `found_start` is the result.
unfoldable pub kes_bitmap_find_free : ℕ → ℕ → Call Bitmap ℕ
unfolding search_from search_wrapped
kes_bitmap_find_free bit_count start_hint bm =
    if bit_count == 0
    then (bm, err invalid)
    else if ltb bm.free_bits bit_count
    then (bm, err nospace)
    else search_from bit_count (search_start bm start_hint) (u64_sub bm.total_bits bit_count) bm

pub record Stats : Type 0 where
  pub total : ℕ
  pub free : ℕ
  pub used : ℕ

-- All three out parameters.
unfoldable pub kes_bitmap_get_stats : Bitmap → Stats
kes_bitmap_get_stats bm = record {
  total = bm.total_bits;
  free = bm.free_bits;
  used = u64_sub bm.total_bits bm.free_bits;
}
