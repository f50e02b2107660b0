-- ===== src/Bitmap/Disk.antt =====
-- kes_bitmap_load, kes_bitmap_save and kes_bitmap_checksum of src/kes_bitmap.c. The state is the
-- bitmap beside the system; `crc` is kfl_crc32c with seed 0, of the foundations library.
use kanek_extents_storage.Common.{
  ℕ, ◌+◌, ◌≤◌, ◌<◌, ◌^◌, ◌≡◌, refl, ◌∙◌, if◌then◌else◌, List, length, u64_sub, err, io, success,
  Call, arith, inl, inr, drop_all, append-nil,
}
use kanek_extents_storage.Os.{Os, lseek, read_into, write_all}
use kanek_extents_storage.Os.Files.{File, window, write_at}
use kanek_extents_storage.Os.Calls.{
  OsAt, Keeps, Keeps-refl, lseek_cases, read_into_cases, write_all_cases, length-read_into,
}
use kanek_extents_storage.Os.Outcomes.{Ends, returns, fails}
use kanek_extents_storage.Bitmap.{Bitmap, count_used_bits}

unfoldable pub kes_bitmap_load : ℕ → Call (Bitmap × Os) (Unit {0})
kes_bitmap_load offset (bm, os) =
    let (os1, sought) = lseek offset os in
    let (os2, bytes, complete) = read_into bm.total_bytes bm.bytes os1 in
    let bm' = record bm { bytes = bytes } in
    if sought
    then (if complete
        then (
          (record bm' { free_bits = u64_sub bm'.total_bits (count_used_bits bm') }, os2),
          success,
        )
        else ((bm', os2), err io))
    else ((bm, os1), err io)

unfoldable pub kes_bitmap_save : ℕ → Call (Bitmap × Os) (Unit {0})
kes_bitmap_save offset (bm, os) =
    let (os1, sought) = lseek offset os in
    let (os2, complete) = write_all bm.bytes os1 in
    if sought
    then (if complete then ((bm, os2), success) else ((bm, os2), err io))
    else ((bm, os1), err io)

unfoldable pub kes_bitmap_checksum : (List ℕ → ℕ) → Bitmap → ℕ
kes_bitmap_checksum crc bm = crc bm.bytes

-- What a failed load or save leaves alone: the sizes of the bitmap.
pub record SameShape (a b : Bitmap) : Type 0 where
  pub total_bits : a.total_bits ≡ b.total_bits
  pub total_bytes : a.total_bytes ≡ b.total_bytes
  pub allocated : length a.bytes ≡ length b.bytes

-- The bitmap of `bm`'s size that lies at an offset of the file.
unfoldable pub stored : Bitmap → File → ℕ → Bitmap
stored bm f offset =
    let bm' = record bm { bytes = window f offset bm.total_bytes } in
    record bm' { free_bits = u64_sub bm'.total_bits (count_used_bits bm') }

module _ (C : Type 0) (f : File) (bm : Bitmap) (os : Os) (offset : ℕ) (at : OsAt C f os)
    (lt : offset < 2 ^ 63) (alloc : length bm.bytes ≡ bm.total_bytes) where
  os1 : Os
  os1 = (lseek offset os).0

  -- A load from an offset that an off_t holds, where the file has all the bytes, ends in one of two
  -- ways: the bytes of the file are in the bitmap and its free count is counted anew, or an I/O error
  -- is returned, which needs a system call that failed, and the sizes of the bitmap are as they were.
  -- The file stays.
  pub kes_bitmap_load-Ends :
      offset + bm.total_bytes ≤ f.size
      → Ends
          (λ s _. (s.0 ≡ stored bm f offset) × OsAt C f s.1)
          (λ s e. (¬ C) × (e ≡ io) × SameShape s.0 bm × OsAt C f s.1)
          (kes_bitmap_load offset (bm, os))
  unfolding kes_bitmap_load stored os1
  kes_bitmap_load-Ends le =
      let (sought, at1) = lseek_cases C f os offset at lt in
      elim sought [
        | inr (e, may) ↦ rw e (
            fails
              (may, refl, record { total_bits = refl; total_bytes = refl; allocated = refl }, at1))
        | inl (e, p) ↦
            let (came, at2) = read_into_cases C f os1 bm.total_bytes bm.bytes at1 (rw p le) in
            elim came [
              | inr (e', may) ↦
                  rw (e, e')
                    (fails (
                      may,
                      refl,
                      record {
                        total_bits = refl;
                        total_bytes = refl;
                        allocated = length-read_into bm.total_bytes bm.bytes os1 (omega arith);
                      },
                      at2,
                    ))
              | inl (e', w) ↦
                  let w' : (read_into bm.total_bytes bm.bytes os1).1
                      ≡ window f offset bm.total_bytes =
                    w ∙ rw (p, drop_all bm.total_bytes bm.bytes (omega arith)) (append-nil _) in
                  rw (e, e', w') (returns (refl, at2))
            ]
      ]

  -- A save at an offset that an off_t holds ends in one of two ways: the bytes of the bitmap are in the
  -- file at that offset, or an I/O error is returned, which needs a system call that failed, and no
  -- byte of the file outside that place has changed. The bitmap stays.
  pub kes_bitmap_save-Ends :
      Ends
        (λ s _. (s.0 ≡ bm) × OsAt C (write_at offset bm.bytes f) s.1)
        (λ s e. (¬ C) × (e ≡ io) × (s.0 ≡ bm) × Keeps offset (length bm.bytes) f s.1.file)
        (kes_bitmap_save offset (bm, os))
  unfolding kes_bitmap_save os1
  kes_bitmap_save-Ends =
      let (sought, at1) = lseek_cases C f os offset at lt in
      elim sought [
        | inr (e, may) ↦
            rw e (fails (may, refl, refl, rw at1.file (Keeps-refl offset (length bm.bytes) f)))
        | inl (e, p) ↦ elim (write_all_cases C f os1 bm.bytes at1) [
          | inl (e', at2) ↦ rw (e, e') (returns (refl, rw p at at2))
          | inr (e', may, k) ↦ rw (e, e') (fails (may, refl, refl, rw p at k))
        ]
      ]
