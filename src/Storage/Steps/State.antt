-- ===== src/Storage/Steps/State.antt =====
-- What the file and the handle of src/kes_storage.c hold before and after an operation.
use kanek_extents_storage.Common.{
  ℕ, ◌+◌, ◌*◌, ◌^◌, ◌≤◌, ◌<◌, ◌≡◌, refl, sym, ◌∙◌, ◌⊎◌, length, arith, io, Error,
}
use kanek_extents_storage.Os.Files.{File, window}
use kanek_extents_storage.Os.Calls.{OsAt}
use kanek_extents_storage.Bitmap.{Bitmap}
use kanek_extents_storage.Bitmap.Invariant.{IsValid, search_hint-IsValid}
use kanek_extents_storage.Bitmap.Disk.{SameShape}
use kanek_extents_storage.Descriptor.{Descriptor, Fits, encode, kes_magic_number, kes_version_major}
use kanek_extents_storage.Storage.{Storage, World, bitmap_offset}

-- A descriptor and the bitmap that belongs to it. Between block 0 and the bitmap lie the user
-- blocks, and the counts are those of the bitmap.
pub record Coherent (d : Descriptor) (bm : Bitmap) : Type 0 where
  pub fits : Fits d
  pub magic : d.magic ≡ kes_magic_number
  pub version : d.version_major ≡ kes_version_major
  pub valid : IsValid bm
  pub sized : bm.total_bits ≡ d.user_blocks
  pub offset_small : bitmap_offset d < 2 ^ 63
  pub user_start : 112 ≤ d.user_start_block * d.block_size
  pub user_end : (d.user_start_block + d.user_blocks) * d.block_size ≤ bitmap_offset d
  pub free_counted : d.free_blocks ≡ bm.free_bits
  pub used_counted : d.used_blocks + d.free_blocks ≡ d.user_blocks

-- Block 0 does not reach the bitmap.
pub Coherent-head : {d : Descriptor} {bm : Bitmap} → Coherent d bm → 112 ≤ bitmap_offset d
Coherent-head {d} c = omega (arith, c.user_start, c.user_end, grows)
  where
    grows : d.user_start_block * d.block_size ≤ (d.user_start_block + d.user_blocks) * d.block_size
    grows = grind arith

-- There are fewer than 2 ^ 63 blocks, as an off_t holds the bitmap's offset.
pub Coherent-small : {d : Descriptor} {bm : Bitmap} → Coherent d bm → bm.total_bits < 2 ^ 63
Coherent-small {d} c = omega (arith, c.sized, c.user_end, c.offset_small, fewer)
  where
    has_size : 0 < d.block_size
    has_size = grind (arith, c.user_start)

    fewer : d.user_blocks ≤ (d.user_start_block + d.user_blocks) * d.block_size
    fewer = grind (arith, has_size)

-- The descriptor and the bitmap that the file holds.
pub record OnDisk (d : Descriptor) (bm : Bitmap) (f : File) : Type 0 where
  pub coherent : Coherent d bm
  pub open coherent use *
  pub desc : window f 0 112 ≡ encode d
  pub bytes : window f (bitmap_offset d) bm.total_bytes ≡ bm.bytes
  pub in_file : bitmap_offset d + bm.total_bytes ≤ f.size

-- The layout is fixed when a storage is created.
pub record SameLayout (a b : Descriptor) : Type 0 where
  pub block_size : a.block_size ≡ b.block_size
  pub total_blocks : a.total_blocks ≡ b.total_blocks
  pub bitmap_start_block : a.bitmap_start_block ≡ b.bitmap_start_block
  pub user_start_block : a.user_start_block ≡ b.user_start_block
  pub user_blocks : a.user_blocks ≡ b.user_blocks

-- A handle whose bitmap has the size of the one in the file. What it last saw may be out of date.
pub record Attached (s : Storage) (bm : Bitmap) : Type 0 where
  pub bits : s.bitmap.total_bits ≡ bm.total_bits
  pub bytes : s.bitmap.total_bytes ≡ bm.total_bytes
  pub allocated : length s.bitmap.bytes ≡ bm.total_bytes

pub record Running (C : Type 0) (s : Storage) (f : File) (w : World) : Type 0 where
  pub storage : w.storage ≡ s
  pub os : OsAt C f w.os

-- The handle that has seen what is in the file.
unfoldable pub fresh : Descriptor → Bitmap → Storage → Storage
fresh d bm s = record s { desc = d; bitmap = record bm { search_hint = s.bitmap.search_hint } }

pub fresh-Coherent :
    (d : Descriptor) (bm : Bitmap) (s : Storage)
    → Coherent d bm
    → Coherent (fresh d bm s).desc (fresh d bm s).bitmap
unfolding fresh
fresh-Coherent d bm s c = record {
  fits = c.fits;
  magic = c.magic;
  version = c.version;
  valid = search_hint-IsValid bm s.bitmap.search_hint c.valid;
  sized = c.sized;
  offset_small = c.offset_small;
  user_start = c.user_start;
  user_end = c.user_end;
  free_counted = c.free_counted;
  used_counted = c.used_counted;
}

pub fresh-SameShape :
    (d : Descriptor) (bm : Bitmap) (s : Storage)
    → Coherent d bm
    → Attached s bm
    → SameShape (fresh d bm s).bitmap s.bitmap
unfolding fresh
fresh-SameShape d bm s c att = record {
  total_bits = sym att.bits;
  total_bytes = sym att.bytes;
  allocated = c.valid.allocated ∙ sym att.allocated;
}

-- `g` has the bytes of `f` outside the descriptor and the `n` bytes of the bitmap.
pub record KeepsUser (offset n : ℕ) (f g : File) : Type 0 where
  pub grown : f.size ≤ g.size
  pub kept : (i : ℕ) → 112 ≤ i → (i < offset) ⊎ (offset + n ≤ i) → i < f.size → g.byte i ≡ f.byte i

-- An I/O error because something was bound to fail; only metadata may have been written.
pub record Failed (C : Type 0) (offset n : ℕ) (s : Storage) (f : File) (w : World) (e : Error)
    : Type 0 where
  pub may : ¬ C
  pub code : e ≡ io
  pub shape : SameShape w.storage.bitmap s.bitmap
  pub kept : KeepsUser offset n f w.os.file

pub SameShape-refl : (bm : Bitmap) → SameShape bm bm
SameShape-refl bm = record { total_bits = refl; total_bytes = refl; allocated = refl }

pub SameShape-trans : {a b c : Bitmap} → SameShape a b → SameShape b c → SameShape a c
SameShape-trans p q = record {
  total_bits = p.total_bits ∙ q.total_bits;
  total_bytes = p.total_bytes ∙ q.total_bytes;
  allocated = p.allocated ∙ q.allocated;
}

pub KeepsUser-refl : (offset n : ℕ) (f : File) → KeepsUser offset n f f
KeepsUser-refl offset n f = record { grown = omega arith; kept = λ i h k lt. refl }
