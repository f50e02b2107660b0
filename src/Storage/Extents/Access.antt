-- ===== src/Storage/Extents/Access.antt =====
-- kes_extent_read and kes_extent_write: what a request inside the extent does, and one outside it.
use kanek_extents_storage.Common.{
  if_false, ℕ, ◌+◌, ◌-◌, ◌*◌, ◌^◌, ◌≤◌, ◌<◌, ◌≡◌, refl, sym, ◌∙◌, subst, inl, inr, true, false,
  List, replicate, length, arith, io, Error, u64, ge→ltb, lt→ltb, drop_all, append-nil,
  length-replicate,
}
use kanek_extents_storage.Os.{Os, lseek}
use kanek_extents_storage.Os.Files.{File, window, write_at}
use kanek_extents_storage.Os.Calls.{
  OsAt, Keeps, Keeps-refl, lseek_cases, read_into_cases, write_all_cases,
}
use kanek_extents_storage.Os.Outcomes.{Ends, returns, fails}
use kanek_extents_storage.Bitmap.{Bitmap}
use kanek_extents_storage.Descriptor.{Descriptor}
use kanek_extents_storage.Storage.{Storage, World, Extent, bitmap_offset}
use kanek_extents_storage.Storage.Steps.{Coherent, SameLayout, Running}
use kanek_extents_storage.Storage.Extents.{file_offset, exceeds, kes_extent_read, kes_extent_write}

-- Where an extent begins in the file, and how many bytes it has.
abbrev pub first_byte : Descriptor → Extent → ℕ
first_byte d extent = (d.user_start_block + extent.start_block) * d.block_size

abbrev pub extent_bytes : Descriptor → Extent → ℕ
extent_bytes d extent = extent.block_count * d.block_size

-- The extent lies in the user area of the storage that the handle was opened on.
pub record InStorage (d : Descriptor) (bm : Bitmap) (s : Storage) (extent : Extent) : Type 0 where
  pub coherent : Coherent d bm
  pub layout : SameLayout s.desc d
  pub inside : extent.start_block + extent.block_count ≤ d.user_blocks

module _ (d : Descriptor) (bm : Bitmap) (s : Storage) (extent : Extent)
    (v : InStorage d bm s extent) where
  -- An extent lies between block 0 and the bitmap.
  pub InStorage-bounds :
      (112 ≤ first_byte d extent) × (first_byte d extent + extent_bytes d extent ≤ bitmap_offset d)
  InStorage-bounds = (
    omega (arith, v.coherent.user_start, above),
    omega (arith, v.coherent.user_end, below, split),
  )
    where
      above : d.user_start_block * d.block_size ≤ first_byte d extent
      above = grind arith

      split :
          first_byte d extent + extent_bytes d extent
          ≡ (d.user_start_block + (extent.start_block + extent.block_count)) * d.block_size
      split = grind arith

      below :
          (d.user_start_block + (extent.start_block + extent.block_count)) * d.block_size
          ≤ (d.user_start_block + d.user_blocks) * d.block_size
      below =
          let left = d.user_blocks - (extent.start_block + extent.block_count) in
          let e : extent.start_block + extent.block_count + left ≡ d.user_blocks =
            omega (arith, v.inside) in
          rw (sym e) (grind arith)

  extent_bytes-eq : u64 (extent.block_count * s.desc.block_size) ≡ extent_bytes d extent
  extent_bytes-eq =
      rw v.layout.block_size (omega (arith, InStorage-bounds, v.coherent.offset_small))

  first_byte-eq :
      u64 (u64 (s.desc.user_start_block + extent.start_block) * s.desc.block_size)
      ≡ first_byte d extent
  first_byte-eq =
      let has_size : 0 < d.block_size = grind (arith, v.coherent.user_start) in
      let fewer : d.user_start_block + extent.start_block ≤ first_byte d extent =
        grind (arith, has_size) in
      let e : u64 (d.user_start_block + extent.start_block)
          ≡ d.user_start_block + extent.start_block =
        omega (arith, fewer, InStorage-bounds, v.coherent.offset_small) in
      rw (v.layout.user_start_block, v.layout.block_size, e)
        (omega (arith, InStorage-bounds, v.coherent.offset_small))

  -- A request inside the extent, at the place that it means.
  pub request_inside :
      (size offset : ℕ)
      → offset + size ≤ extent_bytes d extent
      → (file_offset s extent offset ≡ first_byte d extent + offset)
        × (exceeds s extent size offset ≡ false)
        × (first_byte d extent + offset + size ≤ bitmap_offset d)
  request_inside size offset le = (
    rw first_byte-eq (omega (arith, InStorage-bounds, v.coherent.offset_small)),
    rw extent_bytes-eq (ge→ltb _ _ (omega (arith, InStorage-bounds, v.coherent.offset_small))),
    omega (arith, InStorage-bounds),
  )

  -- A request that ends behind the extent, but does not wrap round.
  pub request_outside :
      (size offset : ℕ)
      → extent_bytes d extent < offset + size
      → offset + size < 2 ^ 64
      → exceeds s extent size offset ≡ true
  request_outside size offset lt small = rw extent_bytes-eq (lt→ltb _ _ (omega arith))

  -- An offset of 2 ^ 64 - back, whose sum with the size wraps round, is taken for -back.
  pub request_wrapped :
      (size back : ℕ)
      → 0 < back
      → back ≤ size
      → size ≤ extent_bytes d extent + back
      → back ≤ first_byte d extent
      → (file_offset s extent (2 ^ 64 - back) ≡ first_byte d extent - back)
        × (exceeds s extent size (2 ^ 64 - back) ≡ false)
        × (first_byte d extent - back < 2 ^ 63)
  request_wrapped size back pos le le' le'' = (
    rw first_byte-eq (omega (arith, InStorage-bounds, v.coherent.offset_small)),
    rw extent_bytes-eq (ge→ltb _ _ (omega (arith, InStorage-bounds, v.coherent.offset_small))),
    omega (arith, InStorage-bounds, v.coherent.offset_small),
  )

-- The buffer is in the file at `place`; the handle has counted it.
pub record Written (C : Type 0) (s : Storage) (f : File) (place : ℕ) (buffer : List ℕ) (w : World)
    : Type 0 where
  pub os : OsAt C (write_at place buffer f) w.os
  pub view : w.storage ≡ record s { stats = w.storage.stats }
  pub bytes_written : w.storage.stats.bytes_written ≡ u64 (s.stats.bytes_written + length buffer)

-- An I/O error because something was bound to fail; nothing outside the place of the write changed.
pub record NotWritten (C : Type 0) (s : Storage) (f : File) (place n : ℕ) (w : World) (e : Error)
    : Type 0 where
  pub may : ¬ C
  pub code : e ≡ io
  pub kept : Keeps place n f w.os.file
  pub view : w.storage ≡ s

module _ (C : Type 0) (s : Storage) (f : File) (extent : Extent) (offset place : ℕ) (w : World)
    (small : place < 2 ^ 63) (found : file_offset s extent offset ≡ place)
    (r : Running C s f w) where
  abbrev sought_os : Os
  sought_os = (lseek (file_offset s extent offset) w.os).0

  -- A write that passes the bounds check.
  pub write_accepted :
      (buffer : List ℕ)
      → s.readonly ≡ false
      → exceeds s extent (length buffer) offset ≡ false
      → Ends
          (λ w' _. Written C s f place buffer w')
          (NotWritten C s f place (length buffer))
          (kes_extent_write extent buffer offset (record { storage = s; os = w.os }))
  unfolding kes_extent_write
  write_accepted buffer writable fits =
      subst (Ends (λ w' _. Written C s f place buffer w') (NotWritten C s f place (length buffer)))
        (sym (if_false _ _ s.readonly writable))
        (let (sought, at1) =
            lseek_cases C f w.os (file_offset s extent offset) r.os (rw found small) in
          elim sought [
            | inr (e, may) ↦
                simp (fits, e)
                  (fails (record {
                    may = may;
                    code = refl;
                    kept = rw at1.file (Keeps-refl place (length buffer) f);
                    view = refl;
                  }))
            | inl (e, p) ↦ elim (write_all_cases C f sought_os buffer at1) [
              | inl (e', at2) ↦
                  simp (fits, e, e')
                    (returns
                      (record { os = rw (p, found) at at2; view = refl; bytes_written = refl }))
              | inr (e', may, k) ↦
                  simp (fits, e, e')
                    (fails
                      (record { may = may; code = refl; kept = rw (p, found) at k; view = refl }))
            ]
          ])

  -- A read that passes the bounds check.
  pub read_accepted :
      (size : ℕ)
      → exceeds s extent size offset ≡ false
      → place + size ≤ f.size
      → Ends
          (λ w' bytes.
            (bytes ≡ window f place size)
            × OsAt C f w'.os
            × (w'.storage ≡ record s { stats = w'.storage.stats }))
          (λ w' e. (¬ C) × (e ≡ io) × (w'.os.file ≡ f) × (w'.storage ≡ s))
          (kes_extent_read extent size offset (record { storage = s; os = w.os }))
  unfolding kes_extent_read
  read_accepted size fits le =
      let (sought, at1) =
        lseek_cases C f w.os (file_offset s extent offset) r.os (rw found small) in
      elim sought [
        | inr (e, may) ↦ simp (fits, e) (fails (may, refl, at1.file, refl))
        | inl (e, p) ↦
            let (came, at2) =
              read_into_cases C f sought_os size (replicate size 0) at1 (rw (p, found) le) in
            elim came [
              | inl (e', m) ↦
                  simp (fits, e, e')
                    (returns (
                      m
                          ∙ rw
                              (
                                p,
                                found,
                                drop_all {A = ℕ} size (replicate size 0)
                                    (omega (arith, length-replicate {A = ℕ} size 0)),
                              )
                              (append-nil (window f place size)),
                      at2,
                      refl,
                    ))
              | inr (e', may) ↦ simp (fits, e, e') (fails (may, refl, at2.file, refl))
            ]
      ]
