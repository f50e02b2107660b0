-- ===== src/Storage/Lifecycle/Opening.antt =====
-- kes_storage_open: what a handle holds that was opened on a well-formed storage.
use kanek_extents_storage.Common.{
  ℕ, ◌+◌, ◌/◌, ◌≡◌, ◌≢◌, refl, sym, ◌∙◌, subst, ◌⊎◌, inl, inr, ◌==◌, ==_iff, Bool-cases, List, [],
  arith, nomem, io, corrupt, Error, Call, and_then, ◌>>◌, length-replicate,
}
use kanek_extents_storage.Os.{Os}
use kanek_extents_storage.Os.Files.{File}
use kanek_extents_storage.Os.Calls.{OsAt}
use kanek_extents_storage.Os.Outcomes.{Ends, returns, fails, Ends-and_then, Ends-mono}
use kanek_extents_storage.Bitmap.{Bitmap}
use kanek_extents_storage.Bitmap.Creation.{new_bitmap}
use kanek_extents_storage.Bitmap.Disk.{kes_bitmap_checksum}
use kanek_extents_storage.Descriptor.{Descriptor}
use kanek_extents_storage.Storage.{Storage, World, first_fit, bitmap_offset, load_bitmap}
use kanek_extents_storage.Storage.Steps.{
  OnDisk, Attached, Sound, Failed, SameShape-refl, KeepsUser-refl, attempt_io-Leads,
  load_storage_descriptor-Leads, load_bitmap_at, fresh,
}
use kanek_extents_storage.Storage.Lifecycle.{
  new_handle, create_bitmap, verify_checksum, open_locked, kes_storage_open, has_flag,
}
use kanek_extents_storage.Storage.Lifecycle.Handles.{
  demand-Ends, create_bitmap-Ends, as_handle-Ends,
}

-- The handle holds what is on the disk, and the checksum of the bitmap is right.
pub record Opened (crc : List ℕ → ℕ) (d : Descriptor) (bm : Bitmap) (f : File) (flags : ℕ) (os : Os)
    (s : Storage) : Type 0 where
  pub file : os.file ≡ f
  pub desc : s.desc ≡ d
  pub bitmap : s.bitmap ≡ record bm { search_hint = 0 }
  pub checksum : crc bm.bytes ≡ d.bitmap_checksum
  pub readonly : s.readonly ≡ has_flag flags 1

-- The checksum is wrong, or a call was bound to fail.
abbrev pub NotOpened : (List ℕ → ℕ) → Type 0 → Descriptor → Bitmap → Os → Error → Type 0
NotOpened crc C d bm os e =
    ((e ≡ corrupt) × (crc bm.bytes ≢ d.bitmap_checksum)) ⊎ ((¬ C) × ((e ≡ nomem) ⊎ (e ≡ io)))

module _ (crc : List ℕ → ℕ) (C : Type 0) (d : Descriptor) (bm : Bitmap) (f : File)
    (disk : OnDisk d bm f) (flags : ℕ) where
  abbrev Lost : World → Error → Type 0
  Lost w e = NotOpened crc C d bm w.os e

  abbrev opening : Storage
  opening = new_handle flags first_fit

  abbrev described : Storage
  described = record opening { desc = d }

  abbrev prepared : Storage
  prepared = record described { bitmap = new_bitmap d.user_blocks }

  start_Sound : (s : Storage) → Sound C (bitmap_offset d) bm.total_bytes s f s f
  start_Sound s = record {
    shape = SameShape-refl s.bitmap;
    kept = KeepsUser-refl (bitmap_offset d) bm.total_bytes f;
  }

  prepared-Attached : Attached prepared bm
  prepared-Attached = record {
    bits = sym disk.sized;
    bytes = omega (arith, disk.valid.enough, disk.sized);
    allocated =
        length-replicate {A = ℕ} ((d.user_blocks + 7) / 8) 0
        ∙ omega (arith, disk.valid.enough, disk.sized);
  }

  seen : Storage
  seen = fresh d bm prepared

  verify_checksum-Ends :
      (os : Os)
      → OsAt C f os
      → Ends
          (λ w _. Opened crc d bm f flags w.os w.storage × (C → w.os.plan ≡ []))
          Lost
          (verify_checksum crc (record { storage = seen; os = os }))
  unfolding verify_checksum seen fresh kes_bitmap_checksum
  verify_checksum-Ends os at = elim (Bool-cases (crc bm.bytes == d.bitmap_checksum)) [
    | inl e ↦ rw e (
        returns (
          record {
            file = at.file;
            desc = refl;
            bitmap = refl;
            checksum = (==_iff _ _).0 e;
            readonly = refl;
          },
          at.calm,
        ))
    | inr e ↦ rw e (fails (inl (refl, ground arith)))
  ]

  lost :
      {n : ℕ} {s0 : Storage} (w : World) (e : Error)
      → Failed C (bitmap_offset d) n s0 f w e
      → Lost w e
  lost w e q = inr (q.may, inr q.code)

  -- From the descriptor on.
  after_desc : Call World (Unit {0})
  after_desc = do create_bitmap; load_bitmap; verify_checksum crc

  after_desc-Ends :
      (os : Os)
      → OsAt C f os
      → Ends
          (λ w _. Opened crc d bm f flags w.os w.storage × (C → w.os.plan ≡ []))
          Lost
          (after_desc (record { storage = described; os = os }))
  unfolding after_desc seen
  after_desc-Ends os at =
      Ends-and_then
        (Ends-mono
          (create_bitmap-Ends C f described os at (omega (arith, disk.valid.positive, disk.sized))
            (omega (arith, disk.valid.small, disk.sized)))
          (λ w e q. inr (q.0, inl q.1)))
        λ w1 _ r1.
          subst
            (λ t.
              Ends (λ w _. Opened crc d bm f flags w.os w.storage × (C → w.os.plan ≡ [])) Lost
                (and_then (load_bitmap (record { storage = t; os = w1.os }))
                  (λ _. verify_checksum crc)))
            (sym r1.storage)
            (Ends-and_then
              (Ends-mono
                (load_bitmap_at C (bitmap_offset d) bm.total_bytes prepared f d bm f disk prepared
                  w1.os (start_Sound prepared) prepared-Attached refl r1.os)
                lost)
              λ w2 _ r2.
                subst
                  (λ t.
                    Ends (λ w _. Opened crc d bm f flags w.os w.storage × (C → w.os.plan ≡ [])) Lost
                      (verify_checksum crc (record { storage = t; os = w2.os })))
                  (sym r2.storage) (verify_checksum-Ends w2.os r2.os))

  open_locked-Ends :
      (os : Os)
      → OsAt C f os
      → Ends
          (λ w _. Opened crc d bm f flags w.os w.storage × (C → w.os.plan ≡ []))
          Lost
          (open_locked crc (record { storage = opening; os = os }))
  unfolding open_locked after_desc
  open_locked-Ends os at =
      Ends-and_then
        (Ends-mono
          (attempt_io-Leads C (bitmap_offset d) bm.total_bytes opening f opening f
            (record { storage = opening; os = os }) (start_Sound opening)
            (record { storage = refl; os = at }))
          lost)
        λ w1 _ r1.
          Ends-and_then
            (Ends-mono
              (load_storage_descriptor-Leads C (bitmap_offset d) bm.total_bytes opening f d bm f
                disk opening w1 (start_Sound opening) r1)
              lost)
            λ w2 _ r2.
              subst
                (λ t.
                  Ends (λ w _. Opened crc d bm f flags w.os w.storage × (C → w.os.plan ≡ [])) Lost
                    (after_desc (record { storage = t; os = w2.os })))
                (sym r2.storage) (after_desc-Ends w2.os r2.os)

-- On a file that holds a well-formed storage, an open ends in one of three ways. It succeeds: the
-- checksum of the descriptor is that of the bitmap, the handle holds the descriptor and the bitmap of
-- the file, with the search hint at 0, and the file stays. Or the checksum differs and it returns
-- KES_ERROR_CORRUPT. Or it returns KES_ERROR_NOMEM or KES_ERROR_IO, which needs a call that failed.
pub kes_storage_open-Ends :
    (crc : List ℕ → ℕ) (C : Type 0) (d : Descriptor) (bm : Bitmap) (f : File) (flags : ℕ) (os : Os)
    → OnDisk d bm f
    → OsAt C f os
    → Ends
        (λ os' s. Opened crc d bm f flags os' s × (C → os'.plan ≡ []))
        (NotOpened crc C d bm)
        (kes_storage_open crc flags os)
unfolding kes_storage_open open_locked
kes_storage_open-Ends crc C d bm f flags os disk at =
    Ends-and_then (Ends-mono (demand-Ends C f nomem os at) (λ t e q. inr (q.0, inl q.1)))
      λ os1 _ at1.
        Ends-and_then (Ends-mono (demand-Ends C f nomem os1 at1) (λ t e q. inr (q.0, inl q.1)))
          λ os2 _ at2.
            Ends-and_then (Ends-mono (demand-Ends C f io os2 at2) (λ t e q. inr (q.0, inr q.1)))
              λ os3 _ at3.
                as_handle-Ends (new_handle flags first_fit) (open_locked crc) os3
                  (open_locked-Ends crc C d bm f disk flags os3 at3) (λ w a p. p) (λ w e q. q)
