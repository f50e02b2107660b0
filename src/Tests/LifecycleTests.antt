-- ===== src/Tests/LifecycleTests.antt =====
-- The theorems on the life cycle of a storage, applied to concrete storages.
use kanek_extents_storage.Common.{
  ℕ, ◌⊎◌, false, and_then, ◌+◌, ◌*◌, ◌<◌, ◌≤◌, ◌⊎◌, success, err, invalid, ◌≡◌, refl, true, [], ◌∷◌,
  arith,
}
use kanek_extents_storage.Os.{Os, completes, fails}
use kanek_extents_storage.Os.Outcomes.{Ends}
use kanek_extents_storage.Descriptor.{init_storage_descriptor, calculate_bitmap_blocks}
use kanek_extents_storage.Storage.{first_fit, bitmap_offset}
use kanek_extents_storage.Storage.Steps.{Failed, fresh}
use kanek_extents_storage.Storage.Persist.{written}
use kanek_extents_storage.Storage.Lifecycle.{
  Config, kes_storage_create, kes_storage_open, kes_storage_sync, kes_storage_close,
  validate_config,
}
use kanek_extents_storage.Storage.Lifecycle.Creating.{Created, NotCreated, kes_storage_create-Ends}
use kanek_extents_storage.Storage.Lifecycle.Opening.{Opened, NotOpened, kes_storage_open-Ends}
use kanek_extents_storage.Storage.Lifecycle.Syncing.{Synced, kes_storage_sync-Ends}
use kanek_extents_storage.Storage.Lifecycle.Closing.{
  kes_storage_close-written, kes_storage_close-stale,
}
use kanek_extents_storage.Bitmap.Bits.{bit, ones}
use kanek_extents_storage.Storage.Info.{kes_calculate_blocks_needed, kes_storage_get_stats}
use kanek_extents_storage.Storage.Info.Sizes.{
  kes_calculate_blocks_needed-least, kes_storage_get_stats-counts,
}
use kanek_extents_storage.Storage.Lifecycle.Validation.{Accepts, validate_config-Accepts}
use kanek_extents_storage.Descriptor.Layout.{IsLaidOut}
use kanek_extents_storage.Storage.Durable.{Refused, kes_storage_open-create}
use kanek_extents_storage.Tests.{
  used-Coherent, used_storage, test_crc, test_crc-lt, empty_file, new_storage, used_bitmap,
  used_desc, used_file, used-OnDisk, used-Attached, calm_world, calm-Running,
}

abbrev config : Config
config = record {
  has_device_path = true;
  device_size = 1000000;
  block_size = 8192;
  flags = 6;
  strategy = first_fit;
}

abbrev empty_os : Os
empty_os = record { file = empty_file; pos = 0; plan = [] }

abbrev used_os : Os
used_os = record { file = used_file; pos = 0; plan = [] }

kes_storage_create-Ends_example :
    Ends
      (λ os' s. Created test_crc config os' s × (Unit {0} → os'.plan ≡ []))
      (NotCreated (Unit {0}) config empty_file)
      (kes_storage_create test_crc config empty_os)
kes_storage_create-Ends_example =
    kes_storage_create-Ends test_crc test_crc-lt (Unit {0}) config empty_file empty_os (omega arith)
      (record { file = refl; calm = λ u. refl })

kes_storage_open-Ends_example :
    Ends
      (λ os' s.
        Opened test_crc used_desc used_bitmap used_file 0 os' s × (Unit {0} → os'.plan ≡ []))
      (NotOpened test_crc (Unit {0}) used_desc used_bitmap)
      (kes_storage_open test_crc 0 used_os)
kes_storage_open-Ends_example =
    kes_storage_open-Ends test_crc (Unit {0}) used_desc used_bitmap used_file 0 used_os used-OnDisk
      (record { file = refl; calm = λ u. refl })

-- Through a handle that has not seen the allocation.
kes_storage_sync-Ends_example :
    Ends
      (λ w' _. Synced test_crc used_desc used_bitmap used_file w' × (Unit {0} → w'.os.plan ≡ []))
      (Failed (Unit {0}) (bitmap_offset used_desc) used_bitmap.total_bytes new_storage used_file)
      (kes_storage_sync test_crc (calm_world new_storage used_file))
kes_storage_sync-Ends_example =
    kes_storage_sync-Ends test_crc test_crc-lt (Unit {0}) used_desc used_bitmap used_file
      new_storage (calm_world new_storage used_file) used-OnDisk used-Attached refl
      (calm-Running new_storage used_file)

kes_storage_close-written_example :
    (kes_storage_close test_crc (calm_world new_storage used_file)).file
    ≡ written test_crc (bitmap_offset used_desc) (fresh used_desc used_bitmap new_storage) used_file
kes_storage_close-written_example =
    kes_storage_close-written test_crc used_desc used_bitmap used_file new_storage
      (calm_world new_storage used_file) used-OnDisk used-Attached refl
      (calm-Running new_storage used_file)

-- A handle from before the allocation puts the old bitmap back.
kes_storage_close-stale_example :
    (kes_storage_close test_crc (record {
      storage = new_storage;
      os = record { file = used_file; pos = 0; plan = completes ∷ fails ∷ [] };
    })).file
    ≡ written test_crc (bitmap_offset new_storage.desc) new_storage used_file
unfolding init_storage_descriptor calculate_bitmap_blocks
kes_storage_close-stale_example =
    kes_storage_close-stale test_crc used_file new_storage 0 refl (omega arith) refl

validate_config-Accepts_example :
    ((validate_config config ≡ success) × Accepts config)
    ⊎ ((validate_config config ≡ err invalid) × ¬ Accepts config)
validate_config-Accepts_example = validate_config-Accepts config

kes_calculate_blocks_needed-least_example :
    (8193 ≤ kes_calculate_blocks_needed 8193 8192 * 8192)
    × (kes_calculate_blocks_needed 8193 8192 * 8192 < 8193 + 8192)
kes_calculate_blocks_needed-least_example =
    kes_calculate_blocks_needed-least 8193 8192 (omega arith) (omega arith) (omega arith)

kes_storage_get_stats-counts_example :
    ((kes_storage_get_stats used_storage).used_blocks
      ≡ ones (bit used_bitmap.bytes) used_bitmap.total_bits)
    × ((kes_storage_get_stats used_storage).used_blocks
          + (kes_storage_get_stats used_storage).free_blocks
        ≡ used_bitmap.total_bits)
kes_storage_get_stats-counts_example = kes_storage_get_stats-counts used_storage used-Coherent

kes_storage_open-create_example :
    Ends
      (λ os' t. ((i : ℕ) → bit t.bitmap.bytes i ≡ false) × IsLaidOut 1000000 t.desc)
      (λ os' e. NotCreated (Unit {0}) config empty_file os' e ⊎ Refused (Unit {0}) os' e)
      (and_then (kes_storage_create test_crc config empty_os) (λ s. kes_storage_open test_crc 0))
kes_storage_open-create_example =
    kes_storage_open-create test_crc test_crc-lt (Unit {0}) config 0 empty_file empty_os
      (omega arith) (record { file = refl; calm = λ u. refl })
