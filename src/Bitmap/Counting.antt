-- ===== src/Bitmap/Counting.antt =====
-- What marking a run of blocks does to the free count.
use mathlib.Core.Path.{fun_ext}
use kanek_extents_storage.Common.{
  ℕ, zero, suc, ◌+◌, ◌-◌, ◌≤◌, ◌<◌, ◌≡◌, ap, ◌∙◌, Bool, true, false, if◌then◌else◌, arith, Status,
}
use kanek_extents_storage.Bitmap.{Bitmap}
use kanek_extents_storage.Bitmap.Bits.{bit, ones}
use kanek_extents_storage.Bitmap.Invariant.{IsValid, Marks, used-eq-used_blocks}
use kanek_extents_storage.Bitmap.Ranges.{between}

ones_ext : (f g : ℕ → Bool) (m : ℕ) → ((j : ℕ) → g j ≡ f j) → ones g m ≡ ones f m
ones_ext f g m h = ap (λ (k : ℕ → Bool). ones k m) (fun_ext h)

-- `g` is `f` with the `n` zeros from `s` on turned into ones.
pub ones_marked :
    (f g : ℕ → Bool) (s n m : ℕ)
    → ((j : ℕ) → g j ≡ (if between s (s + n) j then true else f j))
    → ((i : ℕ) → i < n → f (s + i) ≡ false)
    → s + n ≤ m
    → ones g m ≡ ones f m + n
unfolding ones
ones_marked f g s zero m h free le = ones_ext f g m (λ j. ground (arith, h j)) ∙ omega arith
ones_marked f g s (suc n) zero h free le = absurd (omega arith)
ones_marked f g zero (suc n) (suc m) h free le = ground (
  arith,
  h 0,
  free 0 (omega arith),
  ones_marked (λ i. f (suc i)) (λ i. g (suc i)) zero n m (λ j. ground (arith, h (suc j)))
      (λ i lt. ground (arith, free (suc i) (omega arith))) (omega arith),
)
ones_marked f g (suc s) (suc n) (suc m) h free le = ground (
  arith,
  h 0,
  ones_marked (λ i. f (suc i)) (λ i. g (suc i)) s (suc n) m (λ j. ground (arith, h (suc j)))
      (λ i lt. ground (arith, free i lt)) (omega arith),
)

module _ (bm : Bitmap) (r : Bitmap × Status) (s n : ℕ) (v : IsValid bm)
    (le : s + n ≤ bm.total_bits) where
  -- Marking a free run takes its length off the free count.
  pub Marks-free_taken :
      Marks (between s (s + n)) true bm r
      → ((i : ℕ) → i < n → bit bm.bytes (s + i) ≡ false)
      → r.0.free_bits + n ≡ bm.free_bits
  Marks-free_taken m free = omega (
    arith,
    v.counted,
    m.valid.counted,
    m.same_size,
    used-eq-used_blocks bm v,
    used-eq-used_blocks r.0 m.valid,
    ap (ones (bit r.0.bytes)) m.same_size,
    ones_marked (bit bm.bytes) (bit r.0.bytes) s n bm.total_bits m.bits free le,
  )

  -- Clearing a run of used blocks gives its length back.
  pub Marks-free_given :
      Marks (between s (s + n)) false bm r
      → ((i : ℕ) → i < n → bit bm.bytes (s + i) ≡ true)
      → r.0.free_bits ≡ bm.free_bits + n
  Marks-free_given m taken = omega (
    arith,
    v.counted,
    m.valid.counted,
    m.same_size,
    used-eq-used_blocks bm v,
    used-eq-used_blocks r.0 m.valid,
    ap (ones (bit r.0.bytes)) m.same_size,
    ones_marked (bit r.0.bytes) (bit bm.bytes) s n bm.total_bits (λ j. back j)
        (λ i lt. ground (arith, m.bits (s + i))) le,
  )
    where
      back : (j : ℕ) → bit bm.bytes j ≡ (if between s (s + n) j then true else bit r.0.bytes j)
      back j = ground (arith, m.bits j, taken_at j)
        where
          taken_at : (j : ℕ) → between s (s + n) j ≡ true → bit bm.bytes j ≡ true
          taken_at j h =
              let e : s + (j - s) ≡ j = ground arith in rw e at (taken (j - s) (ground arith))
