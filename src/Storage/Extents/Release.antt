-- ===== src/Storage/Extents/Release.antt =====
-- What the check, the clearing and the counts make of a handle in kes_extent_free.
use kanek_extents_storage.Common.{
  ℕ, zero, suc, ◌+◌, ◌-◌, ◌^◌, ◌≤◌, ◌<◌, ◌≡◌, refl, ◌∙◌, ◌⊎◌, inl, inr, true, false, arith, success,
  u64, Bool-cases, dec_lt, le→leb,
}
use kanek_extents_storage.Os.{Os}
use kanek_extents_storage.Bitmap.{Bitmap, kes_bitmap_test, kes_bitmap_clear_range}
use kanek_extents_storage.Bitmap.Bits.{bit}
use kanek_extents_storage.Bitmap.Invariant.{IsValid, Marks, kes_bitmap_test-eq-bit}
use kanek_extents_storage.Bitmap.Counting.{Marks-free_given}
use kanek_extents_storage.Bitmap.Ranges.{between}
use kanek_extents_storage.Storage.{Storage, Extent}
use kanek_extents_storage.Storage.Steps.{Coherent}
use kanek_extents_storage.Storage.Extents.{all_allocated, count_free}

-- All blocks of a run are used, and so lie inside the bitmap.
pub record IsUsedRun (bm : Bitmap) (s n : ℕ) : Type 0 where
  pub used : (i : ℕ) → i < n → bit bm.bytes (s + i) ≡ true
  pub inside : 0 < n → s + n ≤ bm.total_bits

module _ (bm : Bitmap) (v : IsValid bm) where
  -- A used block lies inside the bitmap.
  used-lt : (j : ℕ) → bit bm.bytes j ≡ true → j < bm.total_bits
  used-lt j h = elim (dec_lt j bm.total_bits) [
    | yes lt ↦ lt
    | no ge ↦ let z : bit bm.bytes j ≡ false = v.padding j (omega arith) in cc
  ]

  module _ (s : ℕ) where
    all_allocated-true :
        (i left : ℕ)
        → s + i + left < 2 ^ 64
        → all_allocated bm s i left ≡ true
        → (j : ℕ) → j < left
        → bit bm.bytes (s + i + j) ≡ true
    unfolding all_allocated
    all_allocated-true i zero small h j lt = absurd (omega arith)
    all_allocated-true i (suc left) small h zero lt =
        let e : u64 (s + i) ≡ s + i = omega arith in
        let e' : s + i + 0 ≡ s + i = omega arith in
        rw e' (ground (arith, e, kes_bitmap_test-eq-bit bm (s + i) v))
    all_allocated-true i (suc left) small h (suc j) lt =
        let e : s + i + suc j ≡ s + (i + 1) + j = omega arith in
        rw e (all_allocated-true (i + 1) left (omega arith) (ground arith) j (omega arith))

    all_allocated-false :
        (i left : ℕ)
        → s + i + left < 2 ^ 64
        → all_allocated bm s i left ≡ false
        → (j : ℕ) × (j < left) × (bit bm.bytes (s + i + j) ≡ false)
    unfolding all_allocated
    all_allocated-false i zero small h = cc
    all_allocated-false i (suc left) small h =
        let e : u64 (s + i) ≡ s + i = omega arith in
        elim (Bool-cases (kes_bitmap_test bm (u64 (s + i)))) [
          | inr f ↦
              let e' : s + i + 0 ≡ s + i = omega arith in
              (0, omega arith, rw e' (ground (arith, e, kes_bitmap_test-eq-bit bm (s + i) v)))
          | inl t ↦
              let (j, lt, b) = all_allocated-false (i + 1) left (omega arith) (ground arith) in
              let e' : s + i + suc j ≡ s + (i + 1) + j = omega arith in
              (suc j, omega arith, rw e' b)
        ]

  -- The run does not wrap round.
  all_allocated_below :
      (s n : ℕ)
      → s + n < 2 ^ 64
      → ((all_allocated bm s 0 n ≡ true) × IsUsedRun bm s n)
        ⊎ ((all_allocated bm s 0 n ≡ false) × ((i : ℕ) × (i < n) × (bit bm.bytes (s + i) ≡ false)))
  all_allocated_below s n small = elim (Bool-cases (all_allocated bm s 0 n)) [
    | inl t ↦
        let run : (j : ℕ) → j < n → bit bm.bytes (s + j) ≡ true = λ j lt.
          let e : s + 0 + j ≡ s + j = omega arith in
          rw e at (all_allocated-true s 0 n (omega arith) t j lt) in
        inl (
          t,
          record {
            used = run;
            inside = λ pos. omega (arith, used-lt (s + (n - 1)) (run (n - 1) (omega arith)));
          },
        )
    | inr f ↦
        let (j, lt, b) = all_allocated-false s 0 n (omega arith) f in
        let e : s + 0 + j ≡ s + j = omega arith in inr (f, (j, lt, rw e at b))
  ]

  -- The first block is not in the bitmap.
  all_allocated_beyond :
      (s n : ℕ) → bm.total_bits ≤ s → s < 2 ^ 64 → 0 < n → all_allocated bm s 0 n ≡ false
  unfolding all_allocated kes_bitmap_test
  all_allocated_beyond s zero le lt pos = absurd (omega arith)
  all_allocated_beyond s (suc n) le lt pos =
      let e : u64 (s + 0) ≡ s = omega arith in rw (e, le→leb bm.total_bits s le) refl

  -- The check of kes_extent_free passes on a run of used blocks, and on no other.
  pub all_allocated_cases :
      (s n : ℕ)
      → 0 < n
      → s < 2 ^ 64
      → n < 2 ^ 32
      → bm.total_bits < 2 ^ 63
      → ((all_allocated bm s 0 n ≡ true) × IsUsedRun bm s n)
        ⊎ ((all_allocated bm s 0 n ≡ false) × ((i : ℕ) × (i < n) × (bit bm.bytes (s + i) ≡ false)))
  all_allocated_cases s n pos s_lt n_lt small = elim (dec_lt s bm.total_bits) [
    | yes lt ↦ all_allocated_below s n (omega arith)
    | no ge ↦
        inr (
          all_allocated_beyond s n (omega arith) s_lt pos,
          (0, pos, v.padding (s + 0) (omega arith)),
        )
  ]

-- The handle after the blocks are cleared and counted.
module _ (extent : Extent) (s : Storage) (os : Os) where
  unfoldable pub cleared : Storage
  cleared = record s {
    bitmap = (kes_bitmap_clear_range extent.start_block extent.block_count s.bitmap).0;
  }

  unfoldable pub uncounted : Storage
  uncounted = (count_free extent (record { storage = cleared; os = os })).0.storage

  pub count_free-eq :
      count_free extent (record { storage = cleared; os = os })
      ≡ (record { storage = uncounted; os = os }, success)
  unfolding uncounted count_free
  count_free-eq = refl

  pub uncounted-Coherent :
      Coherent s.desc s.bitmap
      → IsUsedRun s.bitmap extent.start_block extent.block_count
      → extent.start_block + extent.block_count ≤ s.bitmap.total_bits
      → Marks
          (between extent.start_block (extent.start_block + extent.block_count))
          false
          s.bitmap
          (kes_bitmap_clear_range extent.start_block extent.block_count s.bitmap)
      → Coherent uncounted.desc uncounted.bitmap
  unfolding uncounted count_free cleared
  uncounted-Coherent c run inside m =
      let more =
        Marks-free_given s.bitmap
          (kes_bitmap_clear_range extent.start_block extent.block_count s.bitmap) extent.start_block
          extent.block_count c.valid inside m run.used in
      record {
        fits = record {
          magic = c.fits.magic;
          version_major = c.fits.version_major;
          version_minor = c.fits.version_minor;
          block_size = c.fits.block_size;
          padding = c.fits.padding;
          total_blocks = c.fits.total_blocks;
          bitmap_start_block = c.fits.bitmap_start_block;
          bitmap_blocks = c.fits.bitmap_blocks;
          user_start_block = c.fits.user_start_block;
          user_blocks = c.fits.user_blocks;
          free_blocks = omega arith;
          used_blocks = omega arith;
          next_extent_id = c.fits.next_extent_id;
          bitmap_checksum = c.fits.bitmap_checksum;
          reserved = c.fits.reserved;
        };
        magic = c.magic;
        version = c.version;
        valid = m.valid;
        sized = m.same_size ∙ c.sized;
        offset_small = c.offset_small;
        user_start = c.user_start;
        user_end = c.user_end;
        free_counted = omega (arith, more, c.free_counted, m.valid.counted, m.valid.small);
        used_counted = omega (
          arith, more, c.free_counted, c.used_counted, c.fits.user_blocks, m.valid.counted,
          m.same_size, c.sized,
        );
      }
