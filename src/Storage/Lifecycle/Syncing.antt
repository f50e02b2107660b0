-- ===== src/Storage/Lifecycle/Syncing.antt =====
-- kes_storage_sync and kes_storage_close: what they write back, and what a close writes back when it
-- could not refresh the handle.
use kanek_extents_storage.Common.{ℕ, ◌^◌, ◌<◌, ◌≡◌, refl, sym, ap, ◌∙◌, subst₂, false, List, []}
use kanek_extents_storage.Os.Files.{File}
use kanek_extents_storage.Os.Outcomes.{Ends, Ends-and_then, Ends-map}
use kanek_extents_storage.Bitmap.{Bitmap}
use kanek_extents_storage.Bitmap.Disk.{kes_bitmap_checksum}
use kanek_extents_storage.Descriptor.{Descriptor}
use kanek_extents_storage.Storage.{Storage, World, bitmap_offset, persist}
use kanek_extents_storage.Storage.Steps.{
  OnDisk, Attached, Running, KeepsUser, Failed, Sound, SameShape-refl, KeepsUser-refl,
  attempt_io-Leads, reload-Leads, fresh, fresh-Coherent, fresh-SameShape,
}
use kanek_extents_storage.Storage.Persist.{
  persisted, persist-Leads, written-OnDisk, written-KeepsUser,
}
use kanek_extents_storage.Storage.Lifecycle.{sync_locked, kes_storage_sync}

-- The file holds the storage that it held, with the checksum of its bitmap, and the user bytes.
pub record Synced (crc : List ℕ → ℕ) (d : Descriptor) (bm : Bitmap) (f : File) (w : World)
    : Type 0 where
  pub disk : OnDisk w.storage.desc w.storage.bitmap w.os.file
  pub desc : w.storage.desc ≡ record d { bitmap_checksum = crc bm.bytes }
  pub bytes : w.storage.bitmap.bytes ≡ bm.bytes
  pub user_data : KeepsUser (bitmap_offset d) bm.total_bytes f w.os.file

module _ (crc : List ℕ → ℕ) (crc_lt : (bytes : List ℕ) → crc bytes < 2 ^ 32) (C : Type 0)
    (d : Descriptor) (bm : Bitmap) (f : File) (disk : OnDisk d bm f) (s : Storage)
    (att : Attached s bm) where
  start_Sound : Sound C (bitmap_offset d) bm.total_bytes s f s f
  start_Sound = record {
    shape = SameShape-refl s.bitmap;
    kept = KeepsUser-refl (bitmap_offset d) bm.total_bytes f;
  }

  seen_Sound : Sound C (bitmap_offset d) bm.total_bytes s f (fresh d bm s) f
  seen_Sound = record {
    shape = fresh-SameShape d bm s disk.coherent att;
    kept = KeepsUser-refl (bitmap_offset d) bm.total_bytes f;
  }

  persist_seen :
      (w : World)
      → Running C (fresh d bm s) f w
      → Ends
          (λ w' _. Synced crc d bm f w' × (C → w'.os.plan ≡ []))
          (Failed C (bitmap_offset d) bm.total_bytes s f)
          (persist crc w)
  unfolding fresh persisted kes_bitmap_checksum
  persist_seen w r =
      Ends-map
        (persist-Leads C (bitmap_offset d) bm.total_bytes s f crc (fresh d bm s) f w seen_Sound refl
          disk.valid.allocated refl disk.offset_small r)
        (λ w' _ r'. (
          subst₂
              (λ t g. Synced crc d bm f (record {
                storage = t;
                os = record { file = g; pos = w'.os.pos; plan = w'.os.plan };
              }))
              (sym r'.storage) (sym r'.os.file)
              (record {
                disk =
                    written-OnDisk C (bitmap_offset d) bm.total_bytes s f crc (fresh d bm s) f
                      crc_lt (fresh-Coherent d bm s disk.coherent) refl refl;
                desc = refl;
                bytes = refl;
                user_data =
                    written-KeepsUser C (bitmap_offset d) bm.total_bytes s f crc (fresh d bm s) f
                      seen_Sound refl disk.valid.allocated disk.offset_small;
              }),
          r'.os.calm,
        ))
        (λ w' e q. q)

  sync_locked-Ends :
      (w : World)
      → Running C s f w
      → Ends
          (λ w' _. Synced crc d bm f w' × (C → w'.os.plan ≡ []))
          (Failed C (bitmap_offset d) bm.total_bytes s f)
          (sync_locked crc w)
  unfolding sync_locked
  sync_locked-Ends w r =
      Ends-and_then (attempt_io-Leads C (bitmap_offset d) bm.total_bytes s f s f w start_Sound r)
        λ w1 _ r1.
          Ends-and_then
            (reload-Leads C (bitmap_offset d) bm.total_bytes s f d bm f disk s w1 start_Sound att
              r1)
            λ w2 _ r2. persist_seen w2 r2

-- On a file that holds a well-formed storage, a sync through any writable handle of the right size,
-- whatever that handle last saw, ends in one of two ways. It succeeds and the file holds the same
-- storage, with the checksum of its bitmap, and the same user bytes: a stale handle overwrites
-- nothing. Or it returns an I/O error, which needs a system call that failed, and no user byte has
-- changed.
pub kes_storage_sync-Ends :
    (crc : List ℕ → ℕ) (crc_lt : (bytes : List ℕ) → crc bytes < 2 ^ 32) (C : Type 0)
    (d : Descriptor) (bm : Bitmap) (f : File) (s : Storage) (w : World)
    → OnDisk d bm f
    → Attached s bm
    → s.readonly ≡ false
    → Running C s f w
    → Ends
        (λ w' _. Synced crc d bm f w' × (C → w'.os.plan ≡ []))
        (Failed C (bitmap_offset d) bm.total_bytes s f)
        (kes_storage_sync crc w)
unfolding kes_storage_sync sync_locked
kes_storage_sync-Ends crc crc_lt C d bm f s w disk att writable r =
    let writable' : w.storage.readonly ≡ false =
      ap (λ (t : Storage). t.readonly) r.storage ∙ writable in
    simp writable' (sync_locked-Ends crc crc_lt C d bm f disk s att w r)
