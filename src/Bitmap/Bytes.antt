-- ===== src/Bitmap/Bytes.antt =====
-- One byte of the bitmap: the bit operations and the population count, checked over all bytes.
use kanek_extents_storage.Common.{
  ℕ, ◌+◌, ◌-◌, ◌^◌, ◌<◌, bit_and, bit_or, ◌≡◌, refl, Bool, true, false, not, ◌||◌, ◌&&◌, ◌==◌, ltb,
  arith, checked_below, checked_below_sound, ==_iff, ltb→lt,
}
use kanek_extents_storage.Bitmap.{has_bit, popcount_byte}

-- The bit of a byte as a number.
abbrev pub digit : Bool → ℕ
digit true = 1
digit false = 0

-- Two Booleans are equal, as a Boolean.
same : Bool → Bool → Bool
same true b = b
same false b = not b

same_sound : (a b : Bool) → same a b ≡ true → a ≡ b
unfolding same
same_sound true b h = ground arith
same_sound false b h = ground arith

and_split : (a b : Bool) → (a && b) ≡ true → (a ≡ true) × (b ≡ true)
and_split true b h = (refl, h)
and_split false b h = ground arith

set_table :
    checked_below 256 (λ d. checked_below 8 (λ k.
      checked_below 8
        (λ j. same (has_bit (bit_or d (2 ^ k)) (2 ^ j)) ((k == j) || has_bit d (2 ^ j)))))
    ≡ true
unfolding checked_below same
set_table = refl

clear_table :
    checked_below 256 (λ d. checked_below 8 (λ k.
      checked_below 8 (λ j.
        same (has_bit (bit_and d (255 - 2 ^ k)) (2 ^ j)) (not (k == j) && has_bit d (2 ^ j)))))
    ≡ true
unfolding checked_below same
clear_table = refl

pub has_bit-bit_or :
    (d k j : ℕ)
    → d < 256
    → k < 8
    → j < 8
    → has_bit (bit_or d (2 ^ k)) (2 ^ j) ≡ ((k == j) || has_bit d (2 ^ j))
has_bit-bit_or d k j hd hk hj = same_sound _ _ (
    checked_below_sound 8 _ j
      (checked_below_sound 8 _ k (checked_below_sound 256 _ d set_table hd) hk) hj)

pub has_bit-bit_and :
    (d k j : ℕ)
    → d < 256
    → k < 8
    → j < 8
    → has_bit (bit_and d (255 - 2 ^ k)) (2 ^ j) ≡ (not (k == j) && has_bit d (2 ^ j))
has_bit-bit_and d k j hd hk hj = same_sound _ _ (
    checked_below_sound 8 _ j
      (checked_below_sound 8 _ k (checked_below_sound 256 _ d clear_table hd) hk) hj)

-- What setting and clearing a bit do to the population count, and that they stay in a byte.
or_count_table :
    checked_below 256 (λ d.
      checked_below 8 (λ k.
        popcount_byte (bit_or d (2 ^ k)) == popcount_byte d + digit (not (has_bit d (2 ^ k)))))
    ≡ true
unfolding checked_below popcount_byte
or_count_table = refl

and_count_table :
    checked_below 256 (λ d.
      checked_below 8 (λ k.
        popcount_byte (bit_and d (255 - 2 ^ k)) + digit (has_bit d (2 ^ k)) == popcount_byte d))
    ≡ true
unfolding checked_below popcount_byte
and_count_table = refl

byte_table :
    checked_below 256
      (λ d. checked_below 8 (λ k. ltb (bit_or d (2 ^ k)) 256 && ltb (bit_and d (255 - 2 ^ k)) 256))
    ≡ true
unfolding checked_below
byte_table = refl

pub popcount-bit_or :
    (d k : ℕ)
    → d < 256
    → k < 8
    → popcount_byte (bit_or d (2 ^ k)) ≡ popcount_byte d + digit (not (has_bit d (2 ^ k)))
popcount-bit_or d k hd hk =
    (==_iff _ _).0 (checked_below_sound 8 _ k (checked_below_sound 256 _ d or_count_table hd) hk)

pub popcount-bit_and :
    (d k : ℕ)
    → d < 256
    → k < 8
    → popcount_byte (bit_and d (255 - 2 ^ k)) + digit (has_bit d (2 ^ k)) ≡ popcount_byte d
popcount-bit_and d k hd hk =
    (==_iff _ _).0 (checked_below_sound 8 _ k (checked_below_sound 256 _ d and_count_table hd) hk)

pub bit_op-lt :
    (d k : ℕ) → d < 256 → k < 8 → (bit_or d (2 ^ k) < 256) × (bit_and d (255 - 2 ^ k) < 256)
bit_op-lt d k hd hk =
    let h =
      and_split _ _ (checked_below_sound 8 _ k (checked_below_sound 256 _ d byte_table hd) hk) in
    (ltb→lt _ _ h.0, ltb→lt _ _ h.1)

-- The number of ones of a byte, bit by bit.
abbrev pub ones_of_byte : ℕ → ℕ
ones_of_byte d =
    digit (has_bit d 1)
    + digit (has_bit d 2)
    + digit (has_bit d 4)
    + digit (has_bit d 8)
    + digit (has_bit d 16)
    + digit (has_bit d 32)
    + digit (has_bit d 64)
    + digit (has_bit d 128)

popcount_check : checked_below 256 (λ d. popcount_byte d == ones_of_byte d) ≡ true
unfolding checked_below popcount_byte
popcount_check = refl

-- The table of the source counts the bits of every byte.
pub popcount_byte-eq : (d : ℕ) → d < 256 → popcount_byte d ≡ ones_of_byte d
popcount_byte-eq d hd = (==_iff _ _).0 (checked_below_sound 256 _ d popcount_check hd)
