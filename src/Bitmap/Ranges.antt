-- ===== src/Bitmap/Ranges.antt =====
-- Setting and clearing a range of blocks: one loop for both, then the two calls.
use kanek_extents_storage.Common.{
  ℕ, zero, suc, ◌+◌, ◌≤◌, ◌<◌, ◌≡◌, refl, ◌∙◌, Bool, true, false, ◌&&◌, ◌==◌, ltb, leb, arith, u64,
  err, invalid, Call, gt→leb, ge→ltb, and_then_ok,
}
use kanek_extents_storage.Bitmap.{
  Bitmap, kes_bitmap_set, kes_bitmap_clear, for_bits, kes_bitmap_set_range, kes_bitmap_clear_range,
  out_of_range,
}
use kanek_extents_storage.Bitmap.Invariant.{
  IsValid, Marks, kes_bitmap_set-Marks, kes_bitmap_clear-Marks,
}

-- The blocks from `s` up to, and without, `t`.
abbrev pub between : ℕ → ℕ → ℕ → Bool
between s t j = leb s j && ltb j t

module _ (op : ℕ → Call Bitmap (Unit {0})) (value : Bool)
    (op-Marks : (bm : Bitmap) (i : ℕ)
      → IsValid bm
      → i < bm.total_bits
      → Marks (λ j. i == j) value bm (op i bm)) where
  for_bits-Marks :
      (start i left : ℕ) (bm : Bitmap)
      → IsValid bm
      → start + i + left ≤ bm.total_bits
      → Marks (between (start + i) (start + i + left)) value bm (for_bits op start i left bm)
  unfolding for_bits
  for_bits-Marks start i zero bm v h = record {
    succeeds = refl;
    valid = v;
    same_size = refl;
    same_hint = refl;
    bits = λ j. ground arith;
  }
  for_bits-Marks start i (suc left) bm v h =
      let e : u64 (start + i) ≡ start + i = omega (arith, v.small) in
      let m = op-Marks bm (start + i) v (omega arith) in
      let rest =
        for_bits-Marks start (i + 1) left (op (start + i) bm).0 m.valid
          (omega (arith, m.same_size)) in
      rw (e, and_then_ok (op (start + i) bm) (λ _. for_bits op start (i + 1) left) m.succeeds)
        (record {
          succeeds = rest.succeeds;
          valid = rest.valid;
          same_size = rest.same_size ∙ m.same_size;
          same_hint = rest.same_hint ∙ m.same_hint;
          bits = λ j. rest.bits j ∙ ground (arith, m.bits j);
        })

module _ (bm : Bitmap) (s n : ℕ) (v : IsValid bm) where
  in_range : s < bm.total_bits → s + n ≤ bm.total_bits → out_of_range bm s n ≡ false
  in_range lt le =
      let e : u64 (s + n) ≡ s + n = omega (arith, v.small) in
      rw (gt→leb bm.total_bits s lt, e, ge→ltb bm.total_bits (s + n) le) refl

  -- On a well-formed bitmap, setting a range of blocks that starts and ends inside it succeeds, sets
  -- these blocks and changes no other, and leaves a well-formed bitmap of the same size and hint.
  pub kes_bitmap_set_range-Marks :
      s < bm.total_bits
      → s + n ≤ bm.total_bits
      → Marks (between s (s + n)) true bm (kes_bitmap_set_range s n bm)
  unfolding kes_bitmap_set_range
  kes_bitmap_set_range-Marks lt le =
      let e : s + 0 ≡ s = omega arith in
      rw (in_range lt le)
        (rw e at (for_bits-Marks kes_bitmap_set true kes_bitmap_set-Marks s 0 n bm v (omega arith)))

  -- On a well-formed bitmap, clearing a range of blocks that starts and ends inside it succeeds, clears
  -- these blocks and changes no other, and leaves a well-formed bitmap of the same size and hint.
  pub kes_bitmap_clear_range-Marks :
      s < bm.total_bits
      → s + n ≤ bm.total_bits
      → Marks (between s (s + n)) false bm (kes_bitmap_clear_range s n bm)
  unfolding kes_bitmap_clear_range
  kes_bitmap_clear_range-Marks lt le =
      let e : s + 0 ≡ s = omega arith in
      rw (in_range lt le) (
        rw e at
          (for_bits-Marks kes_bitmap_clear false kes_bitmap_clear-Marks s 0 n bm v (omega arith)))

-- A range that is refused changes nothing.
pub range_refused :
    (bm : Bitmap) (s n : ℕ)
    → out_of_range bm s n ≡ true
    → (kes_bitmap_set_range s n bm ≡ (bm, err invalid))
      × (kes_bitmap_clear_range s n bm ≡ (bm, err invalid))
unfolding kes_bitmap_set_range kes_bitmap_clear_range
range_refused bm s n h = (rw h refl, rw h refl)
