-- ===== src/Tests.antt =====
-- Concrete storages for the tests: a device of five blocks, new and with two blocks allocated.
pub mod BitmapTests
pub mod StorageTests
pub mod CacheTests
pub mod LifecycleTests
pub mod HistoryTests
use kanek_extents_storage.Common.{
  ℕ, ◌+◌, ◌*◌, ◌^◌, ◌≤◌, ◌<◌, ◌≡◌, refl, Bool, true, false, List, [], ◌∷◌, arith, u32, length,
}
use kanek_extents_storage.Os.{Os}
use kanek_extents_storage.Os.Files.{File}
use kanek_extents_storage.Bitmap.{Bitmap, kes_bitmap_set_range, kes_bitmap_set, for_bits}
use kanek_extents_storage.Bitmap.Invariant.{IsValid, Marks}
use kanek_extents_storage.Bitmap.Ranges.{kes_bitmap_set_range-Marks, between}
use kanek_extents_storage.Bitmap.Creation.{new_bitmap, new_bitmap-IsNew}
use kanek_extents_storage.Descriptor.{
  Descriptor, init_storage_descriptor, calculate_bitmap_blocks, zeroed,
}
use kanek_extents_storage.Storage.{World, Storage, Extent, Request, first_fit}
use kanek_extents_storage.Storage.Lifecycle.{new_handle}
use kanek_extents_storage.Storage.Steps.{Coherent, OnDisk, Attached, Running}
use kanek_extents_storage.Storage.Persist.{persisted, written, written-OnDisk}

-- A checksum that is good enough for tests.
abbrev sum : List ℕ → ℕ
sum [] = 0
sum (b ∷ rest) = b + sum rest

abbrev pub test_crc : List ℕ → ℕ
test_crc bytes = u32 (sum bytes)

pub test_crc-lt : (bytes : List ℕ) → test_crc bytes < 2 ^ 32
test_crc-lt bytes = omega arith

abbrev pub empty_file : File
empty_file = record { size = 0; byte = λ i. 0 }

-- Five blocks of 8192 bytes: three user blocks, and the bitmap at byte 32768.
abbrev pub five_blocks : Descriptor
five_blocks = init_storage_descriptor 40960 zeroed

abbrev pub new_storage : Storage
new_storage = record (new_handle 0 first_fit) { desc = five_blocks; bitmap = new_bitmap 3 }

abbrev pub new_desc : Descriptor
new_desc = (persisted test_crc new_storage).desc

abbrev pub new_file : File
new_file = written test_crc 32768 new_storage empty_file

pub new_bitmap-IsValid : IsValid (new_bitmap 3)
new_bitmap-IsValid = (new_bitmap-IsNew 3 (omega arith) (omega arith)).valid

new-Coherent : Coherent new_storage.desc new_storage.bitmap
unfolding init_storage_descriptor calculate_bitmap_blocks
new-Coherent = record {
  fits = omega arith;
  magic = refl;
  version = refl;
  valid = new_bitmap-IsValid;
  sized = refl;
  offset_small = omega arith;
  user_start = omega arith;
  user_end = omega arith;
  free_counted = refl;
  used_counted = refl;
}

pub new-OnDisk : OnDisk new_desc (new_bitmap 3) new_file
unfolding init_storage_descriptor calculate_bitmap_blocks
new-OnDisk =
    written-OnDisk (Unit {0}) 32768 1 new_storage empty_file test_crc new_storage empty_file
      test_crc-lt new-Coherent refl refl

pub new-Attached : Attached new_storage (new_bitmap 3)
new-Attached = record { bits = refl; bytes = refl; allocated = refl }

-- The file `f` as a handle's system, with no failure planned.
abbrev pub calm_world : Storage → File → World
calm_world s f = record { storage = s; os = record { file = f; pos = 0; plan = [] } }

pub calm-Running : (s : Storage) (f : File) → Running (Unit {0}) s f (calm_world s f)
calm-Running s f = record { storage = refl; os = record { file = refl; calm = λ c. refl } }

-- The same storage with blocks 0 and 1 allocated.
abbrev pub used_bitmap : Bitmap
used_bitmap = (kes_bitmap_set_range 0 2 (new_bitmap 3)).0

pub used-Marks : Marks (between 0 2) true (new_bitmap 3) (kes_bitmap_set_range 0 2 (new_bitmap 3))
used-Marks =
    kes_bitmap_set_range-Marks (new_bitmap 3) 0 2 new_bitmap-IsValid (omega arith) (omega arith)

abbrev pub used_storage : Storage
used_storage = record new_storage {
  desc = record five_blocks { free_blocks = 1; used_blocks = 2; next_extent_id = 2 };
  bitmap = used_bitmap;
}

abbrev pub used_desc : Descriptor
used_desc = (persisted test_crc used_storage).desc

abbrev pub used_file : File
used_file = written test_crc 32768 used_storage empty_file

pub used-Coherent : Coherent used_storage.desc used_storage.bitmap
unfolding init_storage_descriptor calculate_bitmap_blocks kes_bitmap_set_range for_bits
    kes_bitmap_set
used-Coherent = record {
  fits = omega arith;
  magic = refl;
  version = refl;
  valid = used-Marks.valid;
  sized = refl;
  offset_small = omega arith;
  user_start = omega arith;
  user_end = omega arith;
  free_counted = refl;
  used_counted = refl;
}

pub used-OnDisk : OnDisk used_desc used_bitmap used_file
unfolding init_storage_descriptor calculate_bitmap_blocks kes_bitmap_set_range for_bits
    kes_bitmap_set
used-OnDisk =
    written-OnDisk (Unit {0}) 32768 1 used_storage empty_file test_crc used_storage empty_file
      test_crc-lt used-Coherent refl refl

pub used-Attached : Attached new_storage used_bitmap
unfolding kes_bitmap_set_range for_bits kes_bitmap_set
used-Attached = record { bits = refl; bytes = refl; allocated = refl }

abbrev pub first_two : Extent
first_two = record { start_block = 0; block_count = 2; flags = 0; extent_id = 2 }

abbrev pub third : Extent
third = record { start_block = 2; block_count = 1; flags = 0; extent_id = 3 }

abbrev pub two_blocks : Request
two_blocks = record { block_count = 2; alignment = 1; hint_block = 0; flags = 0 }

pub used_bitmap-IsValid : IsValid used_bitmap
used_bitmap-IsValid = used-Marks.valid

pub used_file-size : 32768 + 1 ≤ used_file.size
unfolding init_storage_descriptor calculate_bitmap_blocks persisted kes_bitmap_set_range for_bits
    kes_bitmap_set
used_file-size = used-OnDisk.in_file
