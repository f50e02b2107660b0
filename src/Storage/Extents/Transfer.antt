-- ===== src/Storage/Extents/Transfer.antt =====
-- kes_extent_read and kes_extent_write on a file that holds a well-formed storage: what they
-- transfer, what they leave alone, and what becomes of an offset that wraps round.
use kanek_extents_storage.Common.{
  ℕ, ◌+◌, ◌^◌, ◌≤◌, ◌<◌, ◌≡◌, refl, sym, subst, ◌⊎◌, inl, inr, false, List, length, arith, err, io,
  invalid, Error, Call, dec_lt,
}
use kanek_extents_storage.Os.{Os}
use kanek_extents_storage.Os.Files.{File, window}
use kanek_extents_storage.Os.Calls.{OsAt}
use kanek_extents_storage.Os.Outcomes.{Ends}
use kanek_extents_storage.Bitmap.{Bitmap}
use kanek_extents_storage.Descriptor.{Descriptor}
use kanek_extents_storage.Storage.{Storage, World, Extent, bitmap_offset}
use kanek_extents_storage.Storage.Steps.{Running}
use kanek_extents_storage.Storage.Extents.{kes_extent_read, kes_extent_write}
use kanek_extents_storage.Storage.Extents.Access.{
  first_byte, extent_bytes, InStorage, request_inside, request_outside, Written, NotWritten,
  write_accepted, read_accepted,
}

-- A call on a handle `s`, whatever term the world spells it with.
pub on_handle :
    {A : Type 0} {C : Type 0} {P : World → A → Type 0} {Q : World → Error → Type 0} {f : File}
    (s : Storage) (w : World) (m : Call World A)
    → Running C s f w
    → Ends P Q (m (record { storage = s; os = w.os }))
    → Ends P Q (m w)
on_handle {P} {Q} s w m r h =
    subst (λ t. Ends P Q (m (record { storage = t; os = w.os }))) (sym r.storage) h

write_refused :
    (s : Storage) (extent : Extent) (buffer : List ℕ) (offset : ℕ) (os : Os) (d : Descriptor)
    (bm : Bitmap)
    → InStorage d bm s extent
    → extent_bytes d extent < offset + length buffer
    → offset + length buffer < 2 ^ 64
    → kes_extent_write extent buffer offset (record { storage = s; os = os })
      ≡ (record { storage = s; os = os }, err invalid)
unfolding kes_extent_write
write_refused s extent buffer offset os d bm v lt small =
    rw (request_outside d bm s extent v (length buffer) offset lt small) (ground arith)

read_refused :
    (s : Storage) (extent : Extent) (size offset : ℕ) (os : Os) (d : Descriptor) (bm : Bitmap)
    → InStorage d bm s extent
    → extent_bytes d extent < offset + size
    → offset + size < 2 ^ 64
    → kes_extent_read extent size offset (record { storage = s; os = os })
      ≡ (record { storage = s; os = os }, err invalid)
unfolding kes_extent_read
read_refused s extent size offset os d bm v lt small =
    rw (request_outside d bm s extent v size offset lt small) refl

-- A write through a writable handle to an extent of the storage, whose offset and size add up to a
-- uint64_t, does one of two things. If it lies inside the extent, the buffer is in the file at the
-- extent's first byte plus the offset, or an I/O error is returned, which needs a system call that
-- failed, and no byte outside that range has changed. If it does not, KES_ERROR_INVALID is returned
-- and nothing changes.
pub kes_extent_write-Ends :
    (C : Type 0) (d : Descriptor) (bm : Bitmap) (f : File) (s : Storage) (extent : Extent)
    (buffer : List ℕ) (offset : ℕ) (w : World)
    → InStorage d bm s extent
    → s.readonly ≡ false
    → offset + length buffer < 2 ^ 64
    → Running C s f w
    → ((offset + length buffer ≤ extent_bytes d extent)
        × Ends
            (λ w' _. Written C s f (first_byte d extent + offset) buffer w')
            (NotWritten C s f (first_byte d extent + offset) (length buffer))
            (kes_extent_write extent buffer offset w))
      ⊎ ((extent_bytes d extent < offset + length buffer)
          × (kes_extent_write extent buffer offset w ≡ (w, err invalid)))
kes_extent_write-Ends C d bm f s extent buffer offset w v writable small r =
    elim (dec_lt (extent_bytes d extent) (offset + length buffer)) [
      | yes lt ↦ inr (
        lt,
        subst
            (λ t.
              kes_extent_write extent buffer offset (record { storage = t; os = w.os })
              ≡ (record { storage = t; os = w.os }, err invalid))
            (sym r.storage) (write_refused s extent buffer offset w.os d bm v lt small),
      )
      | no ge ↦
          let (found, fits, below) =
            request_inside d bm s extent v (length buffer) offset (omega arith) in
          inl (
            omega arith,
            on_handle s w (kes_extent_write extent buffer offset) r (
                write_accepted C s f extent offset (first_byte d extent + offset) w
                  (omega (arith, below, v.coherent.offset_small)) found r buffer writable fits),
          )
    ]

-- A read from an extent of a storage on disk, whose offset and size add up to a uint64_t, does one of
-- two things. If it lies inside the extent, it returns the file's bytes from the extent's first byte
-- plus the offset on, or an I/O error, which needs a system call that failed; the file stays. If it
-- does not, KES_ERROR_INVALID is returned and nothing changes.
pub kes_extent_read-Ends :
    (C : Type 0) (d : Descriptor) (bm : Bitmap) (f : File) (s : Storage) (extent : Extent)
    (size offset : ℕ) (w : World)
    → InStorage d bm s extent
    → bitmap_offset d ≤ f.size
    → offset + size < 2 ^ 64
    → Running C s f w
    → ((offset + size ≤ extent_bytes d extent)
        × Ends
            (λ w' bytes.
              (bytes ≡ window f (first_byte d extent + offset) size)
              × OsAt C f w'.os
              × (w'.storage ≡ record s { stats = w'.storage.stats }))
            (λ w' e. (¬ C) × (e ≡ io) × (w'.os.file ≡ f) × (w'.storage ≡ s))
            (kes_extent_read extent size offset w))
      ⊎ ((extent_bytes d extent < offset + size)
          × (kes_extent_read extent size offset w ≡ (w, err invalid)))
kes_extent_read-Ends C d bm f s extent size offset w v in_file small r =
    elim (dec_lt (extent_bytes d extent) (offset + size)) [
      | yes lt ↦ inr (
        lt,
        subst
            (λ t.
              kes_extent_read extent size offset (record { storage = t; os = w.os })
              ≡ (record { storage = t; os = w.os }, err invalid))
            (sym r.storage) (read_refused s extent size offset w.os d bm v lt small),
      )
      | no ge ↦
          let (found, fits, below) = request_inside d bm s extent v size offset (omega arith) in
          inl (
            omega arith,
            on_handle s w (kes_extent_read extent size offset) r (
                read_accepted C s f extent offset (first_byte d extent + offset) w
                  (omega (arith, below, v.coherent.offset_small)) found r size fits (omega arith)),
          )
    ]
