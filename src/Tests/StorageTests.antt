-- ===== src/Tests/StorageTests.antt =====
-- The theorems on storages and extents, applied to the concrete storages.
use kanek_extents_storage.Common.{
  ◌+◌, ◌-◌, ◌^◌, ◌≤◌, ◌<◌, ◌≡◌, refl, ◌⊎◌, inl, [], ◌∷◌, arith, err, invalid, io, and_then,
}
use kanek_extents_storage.Os.Files.{window, write_at}
use kanek_extents_storage.Os.Calls.{OsAt}
use kanek_extents_storage.Os.Outcomes.{Ends}
use kanek_extents_storage.Bitmap.Creation.{new_bitmap}
use kanek_extents_storage.Descriptor.{init_storage_descriptor, calculate_bitmap_blocks}
use kanek_extents_storage.Storage.{Extent}
use kanek_extents_storage.Storage.Persist.{persisted}
use kanek_extents_storage.Storage.Steps.{OnDisk}
use kanek_extents_storage.Storage.Extents.{
  kes_extent_allocate, kes_extent_free, kes_extent_read, kes_extent_write,
}
use kanek_extents_storage.Storage.Extents.Allocation.{
  Allocated, NotAllocated, kes_extent_allocate-Ends,
}
use kanek_extents_storage.Storage.Extents.Freeing.{Freed, NotFreed, kes_extent_free-Ends}
use kanek_extents_storage.Storage.Extents.Access.{
  InStorage, Written, NotWritten, first_byte, extent_bytes,
}
use kanek_extents_storage.Storage.Extents.Transfer.{kes_extent_write-Ends, kes_extent_read-Ends}
use kanek_extents_storage.Storage.Extents.Isolation.{
  kes_extent_write-isolated, kes_extent_read-write, kes_extent_write-wrapped,
}
use kanek_extents_storage.Tests.{
  test_crc, test_crc-lt, new_storage, new_desc, new_file, new-OnDisk, new-Attached, calm_world,
  calm-Running, used_bitmap, used_storage, used_desc, used_file, used-OnDisk, used-Attached,
  first_two, third, two_blocks,
}

kes_extent_allocate-Ends_example :
    Ends
      (λ w' e.
        Allocated test_crc new_desc (new_bitmap 3) new_file new_storage two_blocks w' e
        × (Unit {0} → w'.os.plan ≡ []))
      (NotAllocated (Unit {0}) new_desc (new_bitmap 3) new_file new_storage two_blocks)
      (kes_extent_allocate test_crc two_blocks (calm_world new_storage new_file))
kes_extent_allocate-Ends_example =
    kes_extent_allocate-Ends test_crc test_crc-lt (Unit {0}) new_desc (new_bitmap 3) new_file
      new_storage two_blocks (calm_world new_storage new_file) new-OnDisk new-Attached (omega arith)
      refl (calm-Running new_storage new_file)

-- Through a handle that has not seen the allocation.
kes_extent_free-Ends_example :
    Ends
      (λ w' e.
        Freed test_crc used_desc used_bitmap used_file new_storage first_two w'
        × (Unit {0} → w'.os.plan ≡ []))
      (NotFreed (Unit {0}) used_desc used_bitmap used_file new_storage first_two)
      (kes_extent_free test_crc first_two (calm_world new_storage used_file))
kes_extent_free-Ends_example =
    kes_extent_free-Ends test_crc test_crc-lt (Unit {0}) used_desc used_bitmap used_file new_storage
      first_two (calm_world new_storage used_file) used-OnDisk used-Attached (omega arith)
      (omega arith) (omega arith) refl (calm-Running new_storage used_file)

in_storage :
    (extent : Extent)
    → extent.start_block + extent.block_count ≤ 3
    → InStorage used_desc used_bitmap used_storage extent
unfolding init_storage_descriptor calculate_bitmap_blocks persisted
in_storage extent le = record {
  coherent = used-OnDisk.coherent;
  layout = record {
    block_size = refl;
    total_blocks = refl;
    bitmap_start_block = refl;
    user_start_block = refl;
    user_blocks = refl;
  };
  inside = le;
}

kes_extent_write-Ends_example :
    ((1 + 3 ≤ extent_bytes used_desc first_two)
      × Ends
          (λ w' _.
            Written
              (Unit {0})
              used_storage
              used_file
              (first_byte used_desc first_two + 1)
              (7 ∷ 8 ∷ 9 ∷ [])
              w')
          (NotWritten (Unit {0}) used_storage used_file (first_byte used_desc first_two + 1) 3)
          (kes_extent_write first_two (7 ∷ 8 ∷ 9 ∷ []) 1 (calm_world used_storage used_file)))
    ⊎ ((extent_bytes used_desc first_two < 1 + 3)
        × (kes_extent_write first_two (7 ∷ 8 ∷ 9 ∷ []) 1 (calm_world used_storage used_file)
            ≡ (calm_world used_storage used_file, err invalid)))
kes_extent_write-Ends_example =
    kes_extent_write-Ends (Unit {0}) used_desc used_bitmap used_file used_storage first_two
      (7 ∷ 8 ∷ 9 ∷ []) 1 (calm_world used_storage used_file) (in_storage first_two (omega arith))
      refl (omega arith) (calm-Running used_storage used_file)

kes_extent_read-Ends_example :
    ((1 + 3 ≤ extent_bytes used_desc third)
      × Ends
          (λ w' bytes.
            (bytes ≡ window used_file (first_byte used_desc third + 1) 3)
            × OsAt (Unit {0}) used_file w'.os
            × (w'.storage ≡ record used_storage { stats = w'.storage.stats }))
          (λ w' e.
            (¬ (Unit {0})) × (e ≡ io) × (w'.os.file ≡ used_file) × (w'.storage ≡ used_storage))
          (kes_extent_read third 3 1 (calm_world used_storage used_file)))
    ⊎ ((extent_bytes used_desc third < 1 + 3)
        × (kes_extent_read third 3 1 (calm_world used_storage used_file)
            ≡ (calm_world used_storage used_file, err invalid)))
kes_extent_read-Ends_example =
    kes_extent_read-Ends (Unit {0}) used_desc used_bitmap used_file used_storage third 3 1
      (calm_world used_storage used_file) (in_storage third (omega arith))
      (omega (arith, used-OnDisk.in_file)) (omega arith) (calm-Running used_storage used_file)

kes_extent_write-isolated_example :
    OnDisk used_desc used_bitmap
      (kes_extent_write first_two (7 ∷ 8 ∷ []) 1 (calm_world used_storage used_file)).0.os.file
    × (window
          (kes_extent_write first_two (7 ∷ 8 ∷ []) 1 (calm_world used_storage used_file)).0.os.file
          (first_byte used_desc third)
          (extent_bytes used_desc third)
        ≡ window used_file (first_byte used_desc third) (extent_bytes used_desc third))
unfolding init_storage_descriptor calculate_bitmap_blocks persisted
kes_extent_write-isolated_example =
    kes_extent_write-isolated (Unit {0}) used_desc used_bitmap used_file used_storage first_two
      third (7 ∷ 8 ∷ []) 1 (calm_world used_storage used_file) used-OnDisk
      (in_storage first_two (omega arith)) (in_storage third (omega arith)) (inl (omega arith)) refl
      (omega arith) (calm-Running used_storage used_file)

kes_extent_read-write_example :
    Ends
      (λ w' bytes.
        (bytes ≡ 7 ∷ 8 ∷ [])
        × OsAt (Unit {0}) (write_at (first_byte used_desc third + 1) (7 ∷ 8 ∷ []) used_file) w'.os)
      (λ w' e. (¬ (Unit {0})) × (e ≡ io))
      (and_then
        (kes_extent_write third (7 ∷ 8 ∷ []) 1 (calm_world used_storage used_file))
        (λ _. kes_extent_read third 2 1))
unfolding init_storage_descriptor calculate_bitmap_blocks persisted
kes_extent_read-write_example =
    kes_extent_read-write (Unit {0}) used_desc used_bitmap used_file used_storage third (7 ∷ 8 ∷ [])
      1 (calm_world used_storage used_file) used-OnDisk (in_storage third (omega arith)) refl
      (omega arith) (calm-Running used_storage used_file)

-- Four bytes, two of them in front of the extent's first byte.
kes_extent_write-wrapped_example :
    Ends
      (λ w' _.
        Written
          (Unit {0})
          used_storage
          used_file
          (first_byte used_desc third - 2)
          (1 ∷ 2 ∷ 3 ∷ 4 ∷ [])
          w')
      (NotWritten (Unit {0}) used_storage used_file (first_byte used_desc third - 2) 4)
      (kes_extent_write third (1 ∷ 2 ∷ 3 ∷ 4 ∷ []) (2 ^ 64 - 2) (calm_world used_storage used_file))
unfolding init_storage_descriptor calculate_bitmap_blocks persisted
kes_extent_write-wrapped_example =
    kes_extent_write-wrapped (Unit {0}) used_desc used_bitmap used_file used_storage third
      (1 ∷ 2 ∷ 3 ∷ 4 ∷ []) 2 (calm_world used_storage used_file) (in_storage third (omega arith))
      refl (omega arith) (omega arith) (omega arith) (omega arith)
      (calm-Running used_storage used_file)
