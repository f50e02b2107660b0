-- ===== src/Tests/BitmapTests.antt =====
-- The theorems on bitmaps and descriptors, applied to concrete ones.
use kanek_extents_storage.Common.{
  ℕ, ◌<◌, ◌≡◌, refl, ◌⊎◌, true, false, ◌&&◌, ◌==◌, [], ◌∷◌, arith, ok, err, invalid, nomem, io,
}
use kanek_extents_storage.Os.{Os}
use kanek_extents_storage.Os.Files.{write_at}
use kanek_extents_storage.Os.Calls.{OsAt, Keeps}
use kanek_extents_storage.Os.Outcomes.{Ends}
use kanek_extents_storage.Bitmap.{
  Bitmap, kes_bitmap_set, kes_bitmap_clear, kes_bitmap_set_range, kes_bitmap_clear_range,
  kes_bitmap_find_free, kes_bitmap_create, count_used_bits, popcount_byte, for_bits,
  kes_bitmap_test,
}
use kanek_extents_storage.Bitmap.Bytes.{popcount_byte-eq, ones_of_byte}
use kanek_extents_storage.Bitmap.Bits.{bit, ones}
use kanek_extents_storage.Bitmap.Invariant.{
  Marks, kes_bitmap_set-Marks, kes_bitmap_clear-Marks, kes_bitmap_test-eq-bit,
}
use kanek_extents_storage.Bitmap.Ranges.{
  between, kes_bitmap_set_range-Marks, kes_bitmap_clear_range-Marks,
}
use kanek_extents_storage.Bitmap.Search.{Found, kes_bitmap_find_free-Found}
use kanek_extents_storage.Bitmap.Creation.{new_bitmap, IsNew, kes_bitmap_create-IsNew}
use kanek_extents_storage.Bitmap.Disk.{
  SameShape, stored, kes_bitmap_load, kes_bitmap_save, kes_bitmap_load-Ends, kes_bitmap_save-Ends,
}
use kanek_extents_storage.Bitmap.Stored.{count_used_bits-eq-ones}
use kanek_extents_storage.Descriptor.{init_storage_descriptor, zeroed}
use kanek_extents_storage.Descriptor.Layout.{IsLaidOut, init_storage_descriptor-IsLaidOut}
use kanek_extents_storage.Tests.{
  new_bitmap-IsValid, used_bitmap, used_file, used_bitmap-IsValid, used_file-size,
}

kes_bitmap_find_free-Found_example : Found used_bitmap 1 1 (kes_bitmap_find_free 1 1 used_bitmap)
kes_bitmap_find_free-Found_example =
    kes_bitmap_find_free-Found used_bitmap 1 1 used_bitmap-IsValid (omega arith)

kes_bitmap_set_range-Marks_example :
    Marks (between 1 3) true (new_bitmap 3) (kes_bitmap_set_range 1 2 (new_bitmap 3))
kes_bitmap_set_range-Marks_example =
    kes_bitmap_set_range-Marks (new_bitmap 3) 1 2 new_bitmap-IsValid (omega arith) (omega arith)

kes_bitmap_clear_range-Marks_example :
    Marks (between 0 2) false used_bitmap (kes_bitmap_clear_range 0 2 used_bitmap)
unfolding kes_bitmap_set_range for_bits kes_bitmap_set
kes_bitmap_clear_range-Marks_example =
    kes_bitmap_clear_range-Marks used_bitmap 0 2 used_bitmap-IsValid (omega arith) (omega arith)

kes_bitmap_set-Marks_example : Marks (λ j. 2 == j) true used_bitmap (kes_bitmap_set 2 used_bitmap)
unfolding kes_bitmap_set_range for_bits kes_bitmap_set
kes_bitmap_set-Marks_example = kes_bitmap_set-Marks used_bitmap 2 used_bitmap-IsValid (omega arith)

kes_bitmap_clear-Marks_example :
    Marks (λ j. 1 == j) false used_bitmap (kes_bitmap_clear 1 used_bitmap)
unfolding kes_bitmap_set_range for_bits kes_bitmap_set
kes_bitmap_clear-Marks_example =
    kes_bitmap_clear-Marks used_bitmap 1 used_bitmap-IsValid (omega arith)

kes_bitmap_test-eq-bit_example : kes_bitmap_test used_bitmap 1 ≡ bit used_bitmap.bytes 1
kes_bitmap_test-eq-bit_example = kes_bitmap_test-eq-bit used_bitmap 1 used_bitmap-IsValid

kes_bitmap_create-IsNew_example :
    ((◌≡◌ {A = ℕ} 12 0) × (kes_bitmap_create (true, true) 12 ≡ err invalid))
    ⊎ ((0 < 12) × (((true && true) ≡ false) × (kes_bitmap_create (true, true) 12 ≡ err nomem)))
    ⊎ ((0 < 12) × ((bm : Bitmap) × (kes_bitmap_create (true, true) 12 ≡ ok bm) × IsNew 12 bm))
kes_bitmap_create-IsNew_example = kes_bitmap_create-IsNew (true, true) 12 (omega arith)

count_used_bits-eq-ones_example : count_used_bits used_bitmap ≡ ones (bit used_bitmap.bytes) 3
unfolding kes_bitmap_set_range for_bits kes_bitmap_set
count_used_bits-eq-ones_example = count_used_bits-eq-ones used_bitmap used_bitmap-IsValid

popcount_byte-eq_example : popcount_byte 77 ≡ ones_of_byte 77
popcount_byte-eq_example = popcount_byte-eq 77 (omega arith)

abbrev calm_os : Os
calm_os = record { file = used_file; pos = 0; plan = [] }

kes_bitmap_load-Ends_example :
    Ends
      (λ s _. (s.0 ≡ stored (new_bitmap 3) used_file 32768) × OsAt (Unit {0}) used_file s.1)
      (λ s e.
        (¬ (Unit {0})) × (e ≡ io) × SameShape s.0 (new_bitmap 3) × OsAt (Unit {0}) used_file s.1)
      (kes_bitmap_load 32768 (new_bitmap 3, calm_os))
kes_bitmap_load-Ends_example =
    kes_bitmap_load-Ends (Unit {0}) used_file (new_bitmap 3) calm_os 32768
      (record { file = refl; calm = λ c. refl }) (omega arith) refl used_file-size

kes_bitmap_save-Ends_example :
    Ends
      (λ s _. (s.0 ≡ new_bitmap 3) × OsAt (Unit {0}) (write_at 32768 (0 ∷ []) used_file) s.1)
      (λ s e. (¬ (Unit {0})) × (e ≡ io) × (s.0 ≡ new_bitmap 3) × Keeps 32768 1 used_file s.1.file)
      (kes_bitmap_save 32768 (new_bitmap 3, calm_os))
kes_bitmap_save-Ends_example =
    kes_bitmap_save-Ends (Unit {0}) used_file (new_bitmap 3) calm_os 32768
      (record { file = refl; calm = λ c. refl }) (omega arith) refl

init_storage_descriptor-IsLaidOut_example :
    IsLaidOut 1000000 (init_storage_descriptor 1000000 zeroed)
init_storage_descriptor-IsLaidOut_example =
    init_storage_descriptor-IsLaidOut 1000000 zeroed (omega arith) (omega arith)
