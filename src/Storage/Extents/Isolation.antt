-- ===== src/Storage/Extents/Isolation.antt =====
-- What kes_extent_write means for the rest of the storage: the metadata and the other extents stay,
-- the data is read back, and an offset that wraps round escapes the extent.
use kanek_extents_storage.Common.{
  ℕ, ◌+◌, ◌-◌, ◌^◌, ◌≤◌, ◌<◌, ◌≡◌, refl, sym, ◌∙◌, ◌⊎◌, inl, inr, false, List, length, arith,
  Result, io, and_then,
}
use kanek_extents_storage.Os.Files.{
  File, window, write_at, window-write_at_self, window_ext, size-write_at, byte-write_at_ne,
}
use kanek_extents_storage.Os.Calls.{OsAt, Keeps}
use kanek_extents_storage.Os.Outcomes.{Ends, returns, fails, Ends-and_then, Ends-mono, Ends-map}
use kanek_extents_storage.Bitmap.{Bitmap}
use kanek_extents_storage.Descriptor.{Descriptor}
use kanek_extents_storage.Storage.{Storage, World, Extent, bitmap_offset}
use kanek_extents_storage.Storage.Steps.{OnDisk, Running}
use kanek_extents_storage.Storage.Extents.{kes_extent_read, kes_extent_write}
use kanek_extents_storage.Storage.Extents.Access.{
  first_byte, extent_bytes, InStorage, InStorage-bounds, request_inside, request_wrapped, Written,
  NotWritten, write_accepted, read_accepted,
}
use kanek_extents_storage.Storage.Extents.Transfer.{on_handle}

-- Two extents without a block in common.
abbrev pub Disjoint : Extent → Extent → Type 0
Disjoint a b =
    (a.start_block + a.block_count ≤ b.start_block)
    ⊎ (b.start_block + b.block_count ≤ a.start_block)

-- A write of all the bytes changes none outside its range.
pub Keeps-written :
    (f : File) (place : ℕ) (buffer : List ℕ)
    → Keeps place (length buffer) f (write_at place buffer f)
Keeps-written f place buffer = record {
  grown = (size-write_at f place buffer).0;
  kept = λ i h lt. byte-write_at_ne f place i buffer h lt;
}

pub Keeps-window :
    {place n : ℕ} {f g : File} (from m : ℕ)
    → Keeps place n f g
    → (from + m ≤ place) ⊎ (place + n ≤ from)
    → from + m ≤ f.size
    → window g from m ≡ window f from m
Keeps-window {f} {g} from m k h le =
    window_ext g f from m λ i lt. k.kept (from + i) (ground arith) (omega arith)

-- A change between block 0 and the bitmap leaves the metadata as it was.
pub OnDisk-Keeps :
    {d : Descriptor} {bm : Bitmap} {place n : ℕ} {f g : File}
    → OnDisk d bm f
    → Keeps place n f g
    → 112 ≤ place
    → place + n ≤ bitmap_offset d
    → OnDisk d bm g
OnDisk-Keeps {d} {bm} disk k above below = record {
  coherent = disk.coherent;
  desc = Keeps-window 0 112 k (inl above) (omega (arith, disk.in_file)) ∙ disk.desc;
  bytes = Keeps-window (bitmap_offset d) bm.total_bytes k (inr below) disk.in_file ∙ disk.bytes;
  in_file = omega (arith, disk.in_file, k.grown);
}

ordered :
    (d : Descriptor) (a b : Extent)
    → a.start_block + a.block_count ≤ b.start_block
    → first_byte d a + extent_bytes d a ≤ first_byte d b
ordered d a b le =
    let gap = b.start_block - (a.start_block + a.block_count) in
    let e : a.start_block + a.block_count + gap ≡ b.start_block = omega arith in
    rw (sym e) (grind arith)

-- Disjoint extents are disjoint ranges of bytes.
pub Disjoint-bytes :
    (d : Descriptor) (a b : Extent)
    → Disjoint a b
    → (first_byte d a + extent_bytes d a ≤ first_byte d b)
      ⊎ (first_byte d b + extent_bytes d b ≤ first_byte d a)
Disjoint-bytes d a b (inl le) = inl (ordered d a b le)
Disjoint-bytes d a b (inr le) = inr (ordered d b a le)

module _ (C : Type 0) (d : Descriptor) (bm : Bitmap) (f : File) (s : Storage) (extent : Extent)
    (buffer : List ℕ) (offset : ℕ) (w : World) where
  -- What a write that lies inside the extent leaves in the file.
  Kept : World → Type 0
  Kept w' = Keeps (first_byte d extent + offset) (length buffer) f w'.os.file

  write_keeps :
      InStorage d bm s extent
      → s.readonly ≡ false
      → offset + length buffer ≤ extent_bytes d extent
      → Running C s f w
      → Kept (kes_extent_write extent buffer offset w).0
  unfolding Kept
  write_keeps v writable le r =
      let (found, fits, below) = request_inside d bm s extent v (length buffer) offset le in
      either (
        on_handle s w (kes_extent_write extent buffer offset) r (
          write_accepted C s f extent offset (first_byte d extent + offset) w
            (omega (arith, below, v.coherent.offset_small)) found r buffer writable fits))
    where
      either :
          {t : World × Result (Unit {0})}
          → Ends
              (λ w' _. Written C s f (first_byte d extent + offset) buffer w')
              (NotWritten C s f (first_byte d extent + offset) (length buffer))
              t
          → Keeps (first_byte d extent + offset) (length buffer) f t.0.os.file
      either (returns x) = rw x.os.file (Keeps-written f (first_byte d extent + offset) buffer)
      either (fails x) = x.kept

-- A write inside an extent of the storage on disk, whether it succeeds or not, leaves the descriptor
-- and the bitmap on disk as they were, and every byte of every extent that has no block in common
-- with it.
pub kes_extent_write-isolated :
    (C : Type 0) (d : Descriptor) (bm : Bitmap) (f : File) (s : Storage) (extent other : Extent)
    (buffer : List ℕ) (offset : ℕ) (w : World)
    → OnDisk d bm f
    → InStorage d bm s extent
    → InStorage d bm s other
    → Disjoint extent other
    → s.readonly ≡ false
    → offset + length buffer ≤ extent_bytes d extent
    → Running C s f w
    → OnDisk d bm (kes_extent_write extent buffer offset w).0.os.file
      × (window
            (kes_extent_write extent buffer offset w).0.os.file
            (first_byte d other)
            (extent_bytes d other)
          ≡ window f (first_byte d other) (extent_bytes d other))
unfolding Kept
kes_extent_write-isolated C d bm f s extent other buffer offset w disk v v' apart writable le r =
    let k = write_keeps C d bm f s extent buffer offset w v writable le r in
    (
      OnDisk-Keeps disk k (omega (arith, InStorage-bounds d bm s extent v))
          (omega (arith, InStorage-bounds d bm s extent v)),
      Keeps-window (first_byte d other) (extent_bytes d other) k
          (ground (arith, Disjoint-bytes d extent other apart))
          (omega (arith, InStorage-bounds d bm s other v', disk.in_file)),
    )

-- What is written inside an extent is read back, by the same handle, from the same place; or one of
-- the two calls returns an I/O error, which needs a system call that failed.
pub kes_extent_read-write :
    (C : Type 0) (d : Descriptor) (bm : Bitmap) (f : File) (s : Storage) (extent : Extent)
    (buffer : List ℕ) (offset : ℕ) (w : World)
    → OnDisk d bm f
    → InStorage d bm s extent
    → s.readonly ≡ false
    → offset + length buffer ≤ extent_bytes d extent
    → Running C s f w
    → Ends
        (λ w' bytes.
          (bytes ≡ buffer) × OsAt C (write_at (first_byte d extent + offset) buffer f) w'.os)
        (λ w' e. (¬ C) × (e ≡ io))
        (and_then
          (kes_extent_write extent buffer offset w)
          (λ _. kes_extent_read extent (length buffer) offset))
kes_extent_read-write C d bm f s extent buffer offset w disk v writable le r =
    let (found, fits, below) = request_inside d bm s extent v (length buffer) offset le in
    let place = first_byte d extent + offset in
    let small : place < 2 ^ 63 = omega (arith, below, v.coherent.offset_small) in
    let g = write_at place buffer f in
    Ends-and_then
      (Ends-mono
        (on_handle s w (kes_extent_write extent buffer offset) r
          (write_accepted C s f extent offset place w small found r buffer writable fits))
        (λ w' e x. (x.may, x.code)))
      λ w' _ x.
        let t : Storage = record s { stats = w'.storage.stats } in
        let r' : Running C t g w' = record { storage = x.view; os = x.os } in
        Ends-map
          (on_handle t w' (kes_extent_read extent (length buffer) offset) r' (
            read_accepted C t g extent offset place w' small found r' (length buffer) fits
              (omega (arith, below, disk.in_file, (size-write_at f place buffer).0))))
          (λ w'' bytes y. (y.0 ∙ window-write_at_self f place (length buffer) buffer refl, y.1))
          (λ w'' e y. (y.0, y.1))

-- The bounds check adds offset and size on uint64_t. With an offset of 2 ^ 64 - back, for a `back` of
-- at most the buffer's size, the sum wraps round: if it is then at most the extent's size, the write
-- is accepted and puts the buffer `back` bytes in front of the extent, where another extent or the
-- descriptor lies; or it returns an I/O error, which needs a system call that failed.
pub kes_extent_write-wrapped :
    (C : Type 0) (d : Descriptor) (bm : Bitmap) (f : File) (s : Storage) (extent : Extent)
    (buffer : List ℕ) (back : ℕ) (w : World)
    → InStorage d bm s extent
    → s.readonly ≡ false
    → 0 < back
    → back ≤ length buffer
    → length buffer ≤ extent_bytes d extent + back
    → back ≤ first_byte d extent
    → Running C s f w
    → Ends
        (λ w' _. Written C s f (first_byte d extent - back) buffer w')
        (NotWritten C s f (first_byte d extent - back) (length buffer))
        (kes_extent_write extent buffer (2 ^ 64 - back) w)
kes_extent_write-wrapped C d bm f s extent buffer back w v writable pos le le' le'' r =
    let (found, fits, small) =
      request_wrapped d bm s extent v (length buffer) back pos le le' le'' in
    on_handle s w (kes_extent_write extent buffer (2 ^ 64 - back)) r (
      write_accepted C s f extent (2 ^ 64 - back) (first_byte d extent - back) w small found r
        buffer writable fits)
