-- ===== src/Tests/HistoryTests.antt =====
-- The theorems on histories, applied to two handles on the storage with two blocks allocated.
use kanek_extents_storage.Common.{
  ℕ, ◌+◌, ◌<◌, true, ◌+◌, ◌≡◌, refl, [], ◌∷◌, arith, ok, Result, ap, inl, inr,
}
use kanek_extents_storage.Os.Files.{window}
use kanek_extents_storage.Bitmap.{kes_bitmap_set_range, kes_bitmap_set, for_bits}
use kanek_extents_storage.Descriptor.{init_storage_descriptor, calculate_bitmap_blocks}
use kanek_extents_storage.Storage.{World, Extent, Request}
use kanek_extents_storage.Storage.Persist.{persisted}
use kanek_extents_storage.Storage.Extents.{kes_extent_allocate}
use kanek_extents_storage.Os.Outcomes.{Ends, Ends-sure}
use kanek_extents_storage.Bitmap.Search.{IsFreeRun}
use kanek_extents_storage.Bitmap.Creation.{new_bitmap-IsNew}
use kanek_extents_storage.Storage.Extents.Allocation.{NotAllocated, kes_extent_allocate-Ends}
use kanek_extents_storage.Storage.Extents.Access.{first_byte, extent_bytes}
use kanek_extents_storage.Storage.History.{System, Step, allocates, start, one_more, calm, replace}
use kanek_extents_storage.Storage.History.Steady.{IsSteady, calm-Running}
use kanek_extents_storage.Storage.History.Reachable.{Reaches-IsSteady, Step-bytes}
use kanek_extents_storage.Storage.Durable.{SameView, Refused, kes_storage_open-allocate}
use kanek_extents_storage.Storage.Lifecycle.{kes_storage_open}
use kanek_extents_storage.Bitmap.Bits.{bit}
use kanek_extents_storage.Tests.{
  test_crc, test_crc-lt, new_storage, used_bitmap, used_desc, used_file, used-OnDisk, used-Attached,
  used-Marks, first_two,
}

-- No handle has seen the allocation of the two blocks.
abbrev two_handles : System
two_handles = record { file = used_file; handles = λ i. new_storage; live = first_two ∷ [] }

two_handles_steady : IsSteady two_handles
unfolding init_storage_descriptor calculate_bitmap_blocks persisted kes_bitmap_set_range for_bits
    kes_bitmap_set
two_handles_steady = record {
  desc = used_desc;
  bitmap = used_bitmap;
  disk = used-OnDisk;
  handles = λ i. record {
    attached = used-Attached;
    layout = record {
      block_size = refl;
      total_blocks = refl;
      bitmap_start_block = refl;
      user_start_block = refl;
      user_blocks = refl;
    };
    writable = refl;
  };
  live = (
    record {
      used = record {
        used = λ i lt. ground (arith, used-Marks.bits (0 + i));
        inside = λ pos. omega arith;
      };
      some_block = omega arith;
      count_small = omega arith;
    },
    tt,
  );
  apart = (tt, tt);
}

abbrev one_block : Request
one_block = record { block_count = 1; alignment = 1; hint_block = 0; flags = 0 }

abbrev allocation : World × Result Extent
allocation = kes_extent_allocate test_crc one_block (calm new_storage used_file)

third_free : IsFreeRun used_bitmap 2 1
unfolding kes_bitmap_set_range for_bits kes_bitmap_set
third_free = record {
  inside = omega arith;
  free = λ i lt. ground (
    arith,
    used-Marks.bits (2 + i),
    (new_bitmap-IsNew 3 (omega arith) (omega arith)).bits (2 + i),
  );
}

-- There is room for the block, and no call fails, so the allocation succeeds.
allocation-ok : (e : Extent) × (allocation.1 ≡ ok e)
unfolding NotAllocated
allocation-ok =
    let r =
      Ends-sure
        (kes_extent_allocate-Ends test_crc test_crc-lt (Unit {0}) used_desc used_bitmap used_file
          new_storage one_block (calm new_storage used_file) used-OnDisk used-Attached (omega arith)
          refl (calm-Running new_storage used_file))
        (λ w e q. elim q [ inl full ↦ full.3 2 third_free | inr f ↦ f.may tt ]) in
    (r.0, r.1)

abbrev third_extent : Extent
third_extent = allocation-ok.0

abbrev after : System
after = record {
  file = allocation.0.os.file;
  handles = replace (λ i. new_storage) 1 allocation.0.storage;
  live = third_extent ∷ first_two ∷ [];
}

-- The second handle allocates a block.
allocation_step : Step test_crc two_handles after
allocation_step =
    allocates 1 one_block allocation.0 third_extent (omega arith) (omega arith)
      (ap (λ (r : Result Extent). (allocation.0, r)) allocation-ok.1)

Reaches-IsSteady_example : IsSteady after
Reaches-IsSteady_example =
    Reaches-IsSteady test_crc test_crc-lt two_handles after two_handles_steady
      (one_more start allocation_step)

Step-bytes_example :
    window after.file (first_byte used_desc first_two) (extent_bytes used_desc first_two)
    ≡ window used_file (first_byte used_desc first_two) (extent_bytes used_desc first_two)
unfolding two_handles_steady allocation_step
Step-bytes_example =
    Step-bytes test_crc test_crc-lt two_handles after two_handles_steady allocation_step first_two
      two_handles_steady.live.0 tt

kes_storage_open-allocate_example :
    Ends
      (λ os' t.
        SameView allocation.0.storage t
        × ((i : ℕ)
            → i < third_extent.block_count
            → bit t.bitmap.bytes (third_extent.start_block + i) ≡ true))
      (Refused (Unit {0}))
      (kes_storage_open test_crc 0 allocation.0.os)
kes_storage_open-allocate_example =
    kes_storage_open-allocate test_crc test_crc-lt (Unit {0}) used_desc used_bitmap used_file
      new_storage one_block (calm new_storage used_file) allocation.0 third_extent 0 used-OnDisk
      used-Attached (omega arith) refl (calm-Running new_storage used_file)
      (ap (λ (r : Result Extent). (allocation.0, r)) allocation-ok.1)
