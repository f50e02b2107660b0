-- ===== src/Bitmap/Creation.antt =====
-- kes_bitmap_create: a new bitmap is well-formed and has every block free.
use kanek_extents_storage.Common.{
  ℕ, zero, suc, ◌+◌, ◌/◌, ◌%◌, ◌^◌, ◌<◌, ◌≡◌, refl, ◌⊎◌, inl, inr, Bool, true, false, ◌==◌,
  replicate, All, arith, ok, err, nomem, invalid, u64, u64_sub, length-replicate, get_or-replicate,
  ◌&&◌,
}
use kanek_extents_storage.Bitmap.{Bitmap, kes_bitmap_create, popcount_byte, popcount_table}
use kanek_extents_storage.Bitmap.Bits.{IsByte, bit, used, zero-bit_and}
use kanek_extents_storage.Bitmap.Invariant.{IsValid}

zeros-clear : (n i : ℕ) → bit (replicate n 0) i ≡ false
unfolding bit
zeros-clear n i = rw (get_or-replicate {A = ℕ} n (i / 8) 0, zero-bit_and (2 ^ (i % 8))) refl

zeros-used : (n : ℕ) → used (replicate n 0) ≡ 0
unfolding used popcount_byte popcount_table
zeros-used zero = refl
zeros-used (suc n) = omega (arith, zeros-used n)

zeros-good : (n : ℕ) → All IsByte (replicate n 0)
zeros-good zero = tt
zeros-good (suc n) = (omega arith, zeros-good n)

-- A well-formed bitmap of so many blocks, all free.
pub record IsNew (total_blocks : ℕ) (bm : Bitmap) : Type 0 where
  pub valid : IsValid bm
  pub size : bm.total_bits ≡ total_blocks
  pub all_free : bm.free_bits ≡ total_blocks
  pub hint : bm.search_hint ≡ 0
  pub bits : (i : ℕ) → bit bm.bytes i ≡ false

abbrev pub new_bitmap : ℕ → Bitmap
new_bitmap total_blocks = record {
  bytes = replicate ((total_blocks + 7) / 8) 0;
  total_bits = total_blocks;
  total_bytes = (total_blocks + 7) / 8;
  free_bits = total_blocks;
  search_hint = 0;
}

pub new_bitmap-IsNew :
    (total_blocks : ℕ)
    → 0 < total_blocks
    → total_blocks + 8 < 2 ^ 64
    → IsNew total_blocks (new_bitmap total_blocks)
new_bitmap-IsNew total_blocks pos small = record {
  valid = record {
    positive = pos;
    small = small;
    allocated = length-replicate {A = ℕ} ((total_blocks + 7) / 8) 0;
    enough = refl;
    good = zeros-good ((total_blocks + 7) / 8);
    padding = λ i le. zeros-clear ((total_blocks + 7) / 8) i;
    counted = omega (arith, zeros-used ((total_blocks + 7) / 8));
  };
  size = refl;
  all_free = refl;
  hint = refl;
  bits = zeros-clear ((total_blocks + 7) / 8);
}

pub kes_bitmap_create-eq :
    (total_blocks : ℕ)
    → 0 < total_blocks
    → total_blocks + 8 < 2 ^ 64
    → kes_bitmap_create (true, true) total_blocks ≡ ok (new_bitmap total_blocks)
unfolding kes_bitmap_create
kes_bitmap_create-eq total_blocks pos small =
    let e : u64_sub (u64 (total_blocks + 8)) 1 / 8 ≡ (total_blocks + 7) / 8 = omega arith in
    let f : (total_blocks == 0) ≡ false = ground arith in rw (f, e) refl

-- Creating a bitmap for fewer than 2 ^ 64 - 8 blocks fails with KES_ERROR_INVALID for no block, with
-- KES_ERROR_NOMEM if one of its two allocations fails, and otherwise gives a well-formed bitmap of
-- that many blocks, all of them free.
pub kes_bitmap_create-IsNew :
    (allocated : Bool × Bool) (total_blocks : ℕ)
    → total_blocks + 8 < 2 ^ 64
    → ((total_blocks ≡ 0) × (kes_bitmap_create allocated total_blocks ≡ err invalid))
      ⊎ ((0 < total_blocks)
          × (((allocated.0 && allocated.1) ≡ false)
              × (kes_bitmap_create allocated total_blocks ≡ err nomem)))
      ⊎ ((0 < total_blocks)
          × ((bm : Bitmap) × (kes_bitmap_create allocated total_blocks ≡ ok bm)
              × IsNew total_blocks bm))
unfolding kes_bitmap_create
kes_bitmap_create-IsNew allocated zero small = inl (refl, refl)
kes_bitmap_create-IsNew (false, b) (suc n) small =
    let e : (suc n == 0) ≡ false = ground arith in inr (inl (omega arith, (refl, rw e refl)))
kes_bitmap_create-IsNew (true, false) (suc n) small =
    let e : (suc n == 0) ≡ false = ground arith in inr (inl (omega arith, (refl, rw e refl)))
kes_bitmap_create-IsNew (true, true) (suc n) small = inr (
    inr (
      omega arith,
      (
        new_bitmap (suc n),
        kes_bitmap_create-eq (suc n) (omega arith) small,
        new_bitmap-IsNew (suc n) (omega arith) small,
      ),
    ))
