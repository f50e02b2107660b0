-- ===== src/Bitmap/Bits.antt =====
-- The bitmap as a function from block numbers to bits, and its number of ones.
use Prim.Native.Nat.{bit_and-bitwise}
use mathlib.Core.Path.{fun_ext}
use kanek_extents_storage.Common.{
  ℕ, zero, suc, ◌+◌, ◌-◌, ◌*◌, ◌/◌, ◌%◌, ◌^◌, ◌≤◌, ◌<◌, bit_and, bit_or, ◌≡◌, ◌≢◌, refl, ap, ◌∙◌,
  Bool, false, not, ◌||◌, ◌&&◌, ◌==◌, List, [], ◌∷◌, arith, get_or, set, length, All, All-get_or,
  get_or-set_self, get_or-set_ne, get_or_beyond, u64, inl, inr, Bool-cases, ==_iff,
}
use kanek_extents_storage.Bitmap.{has_bit, bit_mask, byte_index, popcount_byte, count_bytes}
use kanek_extents_storage.Bitmap.Bytes.{
  digit, ones_of_byte, has_bit-bit_or, has_bit-bit_and, popcount_byte-eq,
}

abbrev pub IsByte : ℕ → Type 0
IsByte d = d < 256

unfoldable pub bit : List ℕ → ℕ → Bool
bit bytes i = has_bit (get_or bytes (byte_index i) 0) (bit_mask i)

pub zero-bit_and : (m : ℕ) → bit_and 0 m ≡ 0
zero-bit_and m = bit_and-bitwise 0 m

pub bit_beyond : (bytes : List ℕ) (i : ℕ) → 8 * length bytes ≤ i → bit bytes i ≡ false
unfolding bit
bit_beyond bytes i h =
    rw (get_or_beyond bytes (i / 8) 0 (omega arith), zero-bit_and (bit_mask i)) refl

module _ (bytes : List ℕ) (i j : ℕ) (good : All IsByte bytes) (fits : i / 8 < length bytes) where
  abbrev byte : ℕ
  byte = get_or bytes (i / 8) 0

  byte-lt : byte < 256
  byte-lt = All-get_or IsByte bytes (i / 8) 0 (omega arith) good

  pub bit-set_self :
      bit (set bytes (i / 8) (bit_or byte (2 ^ (i % 8)))) j ≡ ((i == j) || bit bytes j)
  unfolding bit
  bit-set_self = elim (Bool-cases ((i / 8) == (j / 8))) [
    | inl e ↦
        let q : i / 8 ≡ j / 8 = (==_iff _ _).0 e in
        rw (← q, get_or-set_self bytes (i / 8) (bit_or byte (2 ^ (i % 8))) 0 fits)
          (has_bit-bit_or byte (i % 8) (j % 8) byte-lt (omega arith) (omega arith) ∙ ground arith)
    | inr e ↦
        let q : i / 8 ≢ j / 8 = ground arith in
        rw (get_or-set_ne bytes (i / 8) (j / 8) (bit_or byte (2 ^ (i % 8))) 0 q) (ground arith)
  ]

  pub bit-clear_self :
      bit (set bytes (i / 8) (bit_and byte (255 - 2 ^ (i % 8)))) j ≡ (not (i == j) && bit bytes j)
  unfolding bit
  bit-clear_self = elim (Bool-cases ((i / 8) == (j / 8))) [
    | inl e ↦
        let q : i / 8 ≡ j / 8 = (==_iff _ _).0 e in
        rw (← q, get_or-set_self bytes (i / 8) (bit_and byte (255 - 2 ^ (i % 8))) 0 fits)
          (has_bit-bit_and byte (i % 8) (j % 8) byte-lt (omega arith) (omega arith) ∙ ground arith)
    | inr e ↦
        let q : i / 8 ≢ j / 8 = ground arith in
        rw (get_or-set_ne bytes (i / 8) (j / 8) (bit_and byte (255 - 2 ^ (i % 8))) 0 q)
          (ground arith)
  ]

-- The population count of a list of bytes, with no wrap.
unfoldable pub used : List ℕ → ℕ
used [] = 0
used (d ∷ ds) = popcount_byte d + used ds

pub used-set :
    (bytes : List ℕ) (i v : ℕ)
    → i < length bytes
    → used (set bytes i v) + popcount_byte (get_or bytes i 0) ≡ used bytes + popcount_byte v
unfolding used
used-set [] i v h = absurd (omega arith)
used-set (d ∷ ds) zero v h = omega arith
used-set (d ∷ ds) (suc i) v h = omega (arith, used-set ds i v (omega arith))

pub count_bytes-eq-used :
    (bytes : List ℕ) (n : ℕ) → n + used bytes < 2 ^ 64 → count_bytes bytes n ≡ n + used bytes
unfolding count_bytes used
count_bytes-eq-used [] n h = omega arith
count_bytes-eq-used (d ∷ ds) n h =
    omega (arith, count_bytes-eq-used ds (u64 (n + popcount_byte d)) (omega arith))

-- How many of f 0, …, f (n - 1) are true.
unfoldable pub ones : (ℕ → Bool) → ℕ → ℕ
ones f zero = 0
ones f (suc n) = digit (f 0) + ones (λ i. f (suc i)) n

pub ones-le : (f : ℕ → Bool) (n : ℕ) → ones f n ≤ n
unfolding ones
ones-le f zero = omega arith
ones-le f (suc n) = ground (arith, ones-le (λ i. f (suc i)) n)

-- A run of `n` zeros below `m` leaves at most `m - n` ones.
pub ones_run :
    (f : ℕ → Bool) (s n m : ℕ)
    → ((i : ℕ) → i < n → f (s + i) ≡ false)
    → s + n ≤ m
    → ones f m + n ≤ m
unfolding ones
ones_run f s zero m h le = omega (arith, ones-le f m)
ones_run f s (suc n) zero h le = absurd (omega arith)
ones_run f zero (suc n) (suc m) h le = ground (
  arith,
  h 0 (omega arith),
  ones_run (λ i. f (suc i)) zero n m (λ i lt. ground (arith, h (suc i) (omega arith)))
      (omega arith),
)
ones_run f (suc s) (suc n) (suc m) h le =
    ground
      (arith, ones_run (λ i. f (suc i)) s (suc n) m (λ i lt. ground (arith, h i lt)) (omega arith))

ones_none : (f : ℕ → Bool) (n : ℕ) → ((i : ℕ) → f i ≡ false) → ones f n ≡ 0
unfolding ones
ones_none f zero h = refl
ones_none f (suc n) h = ground (arith, h 0, ones_none (λ i. f (suc i)) n (λ i. h (suc i)))

-- Zeros at the end do not count.
pub ones_beyond :
    (f : ℕ → Bool) (t m : ℕ) → t ≤ m → ((i : ℕ) → t ≤ i → f i ≡ false) → ones f m ≡ ones f t
unfolding ones
ones_beyond f zero m le h = ones_none f m (λ i. h i (omega arith))
ones_beyond f (suc t) zero le h = absurd (omega arith)
ones_beyond f (suc t) (suc m) le h =
    ground (arith, ones_beyond (λ i. f (suc i)) t m (omega arith) (λ i k. h (suc i) (omega arith)))

-- The ones of a list of bytes are those of its bytes.
abbrev eight : ℕ → ℕ
eight i = suc (suc (suc (suc (suc (suc (suc (suc i)))))))

bit-cons : (d : ℕ) (ds : List ℕ) (i : ℕ) → bit (d ∷ ds) (eight i) ≡ bit ds i
unfolding bit
bit-cons d ds i =
    let q : eight i / 8 ≡ suc (i / 8) = omega arith in
    let r : eight i % 8 ≡ i % 8 = omega arith in rw (q, r) refl

ones-cons :
    (d : ℕ) (ds : List ℕ) (n : ℕ)
    → ones (bit (d ∷ ds)) (eight n) ≡ ones_of_byte d + ones (λ i. bit (d ∷ ds) (eight i)) n
unfolding ones bit
ones-cons d ds n = omega arith

pub used-eq-ones :
    (bytes : List ℕ) → All IsByte bytes → used bytes ≡ ones (bit bytes) (8 * length bytes)
unfolding used
used-eq-ones [] good = unfold ones in refl
used-eq-ones (d ∷ ds) good =
    let e : 8 * suc (length ds) ≡ eight (8 * length ds) = omega arith in
    let tail : ones (λ i. bit (d ∷ ds) (eight i)) (8 * length ds) ≡ ones (bit ds) (8 * length ds) =
      ap (λ (f : ℕ → Bool). ones f (8 * length ds)) (fun_ext (bit-cons d ds)) in
    rw (e, ones-cons d ds (8 * length ds))
      (omega (arith, popcount_byte-eq d good.0, used-eq-ones ds good.1, tail))
