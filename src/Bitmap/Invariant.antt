-- ===== src/Bitmap/Invariant.antt =====
-- What a well-formed bitmap is, and that every operation keeps it and changes exactly the bits that
-- it names.
use kanek_extents_storage.Common.{
  ℕ, ◌+◌, ◌-◌, ◌*◌, ◌/◌, ◌%◌, ◌^◌, ◌≤◌, ◌<◌, bit_and, bit_or, ◌≡◌, refl, Bool, true, false, ◌==◌,
  if◌then◌else◌, arith, get_or, set, length, All, All-set, length-set, All-get_or, u64, u64_sub,
  inl, inr, Bool-cases, Status, success, gt→leb, ◌∙◌,
}
use kanek_extents_storage.Bitmap.{Bitmap, kes_bitmap_set, kes_bitmap_clear, kes_bitmap_test}
use kanek_extents_storage.Bitmap.Bytes.{popcount-bit_or, popcount-bit_and, bit_op-lt}
use kanek_extents_storage.Bitmap.Bits.{
  IsByte, bit, bit-set_self, bit-clear_self, used, used-set, used-eq-ones, ones, ones_run,
  ones_beyond,
}

-- The sizes fit, the bits behind the last block are 0, and the free count is that of the zeros.
pub record IsValid (bm : Bitmap) : Type 0 where
  pub positive : 0 < bm.total_bits
  pub small : bm.total_bits + 8 < 2 ^ 64
  pub allocated : length bm.bytes ≡ bm.total_bytes
  pub enough : bm.total_bytes ≡ (bm.total_bits + 7) / 8
  pub good : All IsByte bm.bytes
  pub padding : (i : ℕ) → bm.total_bits ≤ i → bit bm.bytes i ≡ false
  pub counted : bm.free_bits + used bm.bytes ≡ bm.total_bits

-- The search hint does not matter.
pub search_hint-IsValid :
    (bm : Bitmap) (hint : ℕ) → IsValid bm → IsValid (record bm { search_hint = hint })
search_hint-IsValid bm hint v = record {
  positive = v.positive;
  small = v.small;
  allocated = v.allocated;
  enough = v.enough;
  good = v.good;
  padding = v.padding;
  counted = v.counted;
}

-- A call succeeded; the bits that `mark` names are `value` now, and the others are as they were.
pub record Marks (mark : ℕ → Bool) (value : Bool) (bm : Bitmap) (r : Bitmap × Status) : Type 0 where
  pub succeeds : r.1 ≡ success
  pub valid : IsValid r.0
  pub same_size : r.0.total_bits ≡ bm.total_bits
  pub same_hint : r.0.search_hint ≡ bm.search_hint
  pub bits : (j : ℕ) → bit r.0.bytes j ≡ (if mark j then value else bit bm.bytes j)

-- Below the size, `kes_bitmap_test` reads the bit; above it the bits are 0 anyhow.
pub kes_bitmap_test-eq-bit :
    (bm : Bitmap) (i : ℕ) → IsValid bm → kes_bitmap_test bm i ≡ bit bm.bytes i
unfolding kes_bitmap_test bit
kes_bitmap_test-eq-bit bm i v = ground (arith, v.padding i)

-- The population count is the number of used blocks.
pub used-eq-used_blocks :
    (bm : Bitmap) → IsValid bm → used bm.bytes ≡ ones (bit bm.bytes) bm.total_bits
used-eq-used_blocks bm v =
    used-eq-ones bm.bytes v.good
    ∙ ones_beyond (bit bm.bytes) bm.total_bits (8 * length bm.bytes)
        (omega (arith, v.allocated, v.enough)) v.padding

-- A run of free blocks is no longer than the free count.
pub free_run-le :
    (bm : Bitmap) (s n : ℕ)
    → IsValid bm
    → ((i : ℕ) → i < n → bit bm.bytes (s + i) ≡ false)
    → s + n ≤ bm.total_bits
    → n ≤ bm.free_bits
free_run-le bm s n v free le =
    omega (
      arith,
      v.counted,
      used-eq-used_blocks bm v,
      ones_run (bit bm.bytes) s n bm.total_bits free le,
    )

module _ (bm : Bitmap) (i : ℕ) (v : IsValid bm) (lt : i < bm.total_bits) where
  fits : i / 8 < length bm.bytes
  fits = omega (arith, v.allocated, v.enough)

  abbrev byte : ℕ
  byte = get_or bm.bytes (i / 8) 0

  byte-lt : byte < 256
  byte-lt = All-get_or IsByte bm.bytes (i / 8) 0 (omega arith) v.good

  some_free : bit bm.bytes i ≡ false → 1 ≤ bm.free_bits
  some_free clear =
      free_run-le bm i 1 v (λ k h. let e : i + k ≡ i = omega arith in rw e clear) (omega arith)

  abbrev set_bytes : Bitmap
  set_bytes = record bm {
    bytes = set bm.bytes (i / 8) (bit_or byte (2 ^ (i % 8)));
    free_bits = u64_sub bm.free_bits 1;
  }

  set-IsValid : bit bm.bytes i ≡ false → IsValid set_bytes
  unfolding bit
  set-IsValid clear = record {
    positive = v.positive;
    small = v.small;
    allocated = length-set bm.bytes (i / 8) (bit_or byte (2 ^ (i % 8))) ∙ v.allocated;
    enough = v.enough;
    good =
        All-set IsByte bm.bytes (i / 8) _ (bit_op-lt byte (i % 8) byte-lt (omega arith)).0 v.good;
    padding = λ j h. bit-set_self bm.bytes i j v.good fits ∙ ground (arith, v.padding j h);
    counted = ground (
      arith,
      v.counted,
      v.small,
      some_free clear,
      used-set bm.bytes (i / 8) (bit_or byte (2 ^ (i % 8))) fits,
      popcount-bit_or byte (i % 8) byte-lt (omega arith),
    );
  }

  set_old : bit bm.bytes i ≡ true → kes_bitmap_set i bm ≡ (bm, success)
  unfolding kes_bitmap_set bit
  set_old old = rw (gt→leb bm.total_bits i lt, old) refl

  set_new : bit bm.bytes i ≡ false → kes_bitmap_set i bm ≡ (set_bytes, success)
  unfolding kes_bitmap_set bit
  set_new new = rw (gt→leb bm.total_bits i lt, new) refl

  -- On a well-formed bitmap, setting a block inside it succeeds whether or not the block is used, sets
  -- that block and changes no other, and leaves a well-formed bitmap: the free count is still right.
  pub kes_bitmap_set-Marks : Marks (λ j. i == j) true bm (kes_bitmap_set i bm)
  kes_bitmap_set-Marks = elim (Bool-cases (bit bm.bytes i)) [
    | inl old ↦ rw (set_old old) (record {
      succeeds = refl;
      valid = v;
      same_size = refl;
      same_hint = refl;
      bits = λ j. ground arith;
    })
    | inr new ↦ rw (set_new new) (record {
      succeeds = refl;
      valid = set-IsValid new;
      same_size = refl;
      same_hint = refl;
      bits = λ j. bit-set_self bm.bytes i j v.good fits ∙ ground arith;
    })
  ]

  abbrev clear_bytes : Bitmap
  clear_bytes = record bm {
    bytes = set bm.bytes (i / 8) (bit_and byte (255 - 2 ^ (i % 8)));
    free_bits = u64 (bm.free_bits + 1);
  }

  clear-IsValid : bit bm.bytes i ≡ true → IsValid clear_bytes
  unfolding bit
  clear-IsValid old = record {
    positive = v.positive;
    small = v.small;
    allocated = length-set bm.bytes (i / 8) (bit_and byte (255 - 2 ^ (i % 8))) ∙ v.allocated;
    enough = v.enough;
    good =
        All-set IsByte bm.bytes (i / 8) _ (bit_op-lt byte (i % 8) byte-lt (omega arith)).1 v.good;
    padding = λ j h. bit-clear_self bm.bytes i j v.good fits ∙ ground (arith, v.padding j h);
    counted = ground (
      arith,
      v.counted,
      v.small,
      used-set bm.bytes (i / 8) (bit_and byte (255 - 2 ^ (i % 8))) fits,
      popcount-bit_and byte (i % 8) byte-lt (omega arith),
    );
  }

  clear_old : bit bm.bytes i ≡ false → kes_bitmap_clear i bm ≡ (bm, success)
  unfolding kes_bitmap_clear bit
  clear_old old = rw (gt→leb bm.total_bits i lt, old) refl

  clear_new : bit bm.bytes i ≡ true → kes_bitmap_clear i bm ≡ (clear_bytes, success)
  unfolding kes_bitmap_clear bit
  clear_new new = rw (gt→leb bm.total_bits i lt, new) refl

  -- On a well-formed bitmap, clearing a block inside it succeeds whether or not the block is used,
  -- clears that block and changes no other, and leaves a well-formed bitmap: the free count is still
  -- right.
  pub kes_bitmap_clear-Marks : Marks (λ j. i == j) false bm (kes_bitmap_clear i bm)
  kes_bitmap_clear-Marks = elim (Bool-cases (bit bm.bytes i)) [
    | inl new ↦ rw (clear_new new) (record {
      succeeds = refl;
      valid = clear-IsValid new;
      same_size = refl;
      same_hint = refl;
      bits = λ j. bit-clear_self bm.bytes i j v.good fits ∙ ground arith;
    })
    | inr old ↦ rw (clear_old old) (record {
      succeeds = refl;
      valid = v;
      same_size = refl;
      same_hint = refl;
      bits = λ j. ground arith;
    })
  ]
