-- ===== src/Storage/Lifecycle/Closing.antt =====
-- kes_storage_close: what it writes back, also when it could not refresh the handle.
use kanek_extents_storage.Common.{
  ℕ, ◌^◌, ◌<◌, ◌≡◌, refl, sym, ap, ◌∙◌, subst, false, List, [], ◌∷◌, length, Result, ok, err, Call,
  and_then, if_false,
}
use kanek_extents_storage.Os.{Os, completes, fails, attempt, lseek}
use kanek_extents_storage.Os.Files.{File, write_at}
use kanek_extents_storage.Os.Calls.{OsAt}
use kanek_extents_storage.Os.Outcomes.{Ends-sure}
use kanek_extents_storage.Bitmap.{Bitmap}
use kanek_extents_storage.Descriptor.{Descriptor, encode}
use kanek_extents_storage.Storage.{
  Storage, World, attempt_io, bitmap_offset, save_bitmap, save_storage_descriptor, refresh_checksum,
  load_storage_descriptor, load_bitmap, reload,
}
use kanek_extents_storage.Storage.Steps.{
  OnDisk, Attached, Running, Sound, SameShape-refl, KeepsUser-refl, attempt_io-Leads, reload-Leads,
  fresh,
}
use kanek_extents_storage.Storage.Persist.{
  persisted, written, save_bitmap_at, save_storage_descriptor_at,
}
use kanek_extents_storage.Storage.Lifecycle.{write_back, close_locked, kes_storage_close}

module _ (crc : List ℕ → ℕ) (s : Storage) (f : File)
    (size : length s.bitmap.bytes ≡ s.bitmap.total_bytes)
    (small : bitmap_offset s.desc < 2 ^ 63) where
  abbrev offset : ℕ
  offset = bitmap_offset s.desc

  abbrev n : ℕ
  n = s.bitmap.total_bytes

  same_Sound : (t : Storage) (g : File) → t.bitmap ≡ s.bitmap → Sound (Unit {0}) offset n t g t g
  same_Sound t g e = record { shape = SameShape-refl t.bitmap; kept = KeepsUser-refl offset n g }

  saved :
      (os : Os)
      → OsAt (Unit {0}) f os
      → Running
          (Unit {0})
          s
          (write_at offset s.bitmap.bytes f)
          (save_bitmap (record { storage = s; os = os })).0
  saved os at =
      (Ends-sure
        (save_bitmap_at (Unit {0}) offset n s f s f (same_Sound s f refl) refl size small os size
          at)
        (λ w e q. q.may tt)).2

  described :
      (g : File) (os : Os)
      → OsAt (Unit {0}) g os
      → Running
          (Unit {0})
          (persisted crc s)
          (write_at 0 (encode (persisted crc s).desc) g)
          (save_storage_descriptor (record { storage = persisted crc s; os = os })).0
  unfolding persisted
  described g os at =
      (Ends-sure
        (save_storage_descriptor_at (Unit {0}) offset n (persisted crc s) g (persisted crc s) g
          (same_Sound (persisted crc s) g refl) refl size small os at)
        (λ w e q. q.may tt)).2

  synced :
      (t : Storage) (g : File) (w : World)
      → Running (Unit {0}) t g w
      → Running (Unit {0}) t g (attempt_io w).0
  synced t g w r =
      (Ends-sure
        (attempt_io-Leads (Unit {0}) offset n t g t g w
          (record { shape = SameShape-refl t.bitmap; kept = KeepsUser-refl offset n g }) r)
        (λ w e q. q.may tt)).2

  -- Where every call completes, the handle's bitmap and descriptor are in the file.
  write_back-written :
      (os : Os)
      → OsAt (Unit {0}) f os
      → Running
          (Unit {0})
          (persisted crc s)
          (written crc offset s f)
          (write_back crc (record { storage = s; os = os }))
  unfolding write_back written persisted
  write_back-written os at =
      let r = saved os at in
      let w3 = (save_bitmap (record { storage = s; os = os })).0 in
      synced (persisted crc s) (written crc offset s f)
        (save_storage_descriptor (refresh_checksum crc w3).0).0
        (subst
          (λ t.
            Running (Unit {0}) (persisted crc s) (written crc offset s f)
              (save_storage_descriptor
                (refresh_checksum crc (record { storage = t; os = w3.os })).0).0)
          (sym r.storage) (described (write_at offset s.bitmap.bytes f) w3.os r.os))

and_then_state :
    {S : Type 0} (r : S × Result (Unit {0})) (k : Call S (Unit {0}))
    → (elim r.1 [ ok _ ↦ (k r.0).0 | err _ ↦ r.0 ]) ≡ (and_then r (λ _. k)).0
and_then_state (s, ok a) k = refl
and_then_state (s, err e) k = refl

-- A close writes back what a reload gives.
close_locked-eq : (crc : List ℕ → ℕ) (w : World) → close_locked crc w ≡ write_back crc (reload w).0
unfolding close_locked reload
close_locked-eq crc w = ap (write_back crc) (and_then_state (load_storage_descriptor w) load_bitmap)

-- A writable handle of the right size is closed on a file that holds a well-formed storage, whatever
-- the handle last saw, and no system call fails: the file then holds the bitmap and the descriptor
-- that it held, with the checksum of the bitmap, written over it.
pub kes_storage_close-written :
    (crc : List ℕ → ℕ) (d : Descriptor) (bm : Bitmap) (f : File) (s : Storage) (w : World)
    → OnDisk d bm f
    → Attached s bm
    → s.readonly ≡ false
    → Running (Unit {0}) s f w
    → (kes_storage_close crc w).file ≡ written crc (bitmap_offset d) (fresh d bm s) f
unfolding kes_storage_close fresh
kes_storage_close-written crc d bm f s w disk att writable r =
    let writable' : w.storage.readonly ≡ false =
      ap (λ (t : Storage). t.readonly) r.storage ∙ writable in
    let so : Sound (Unit {0}) (bitmap_offset d) bm.total_bytes s f s f = record {
      shape = SameShape-refl s.bitmap;
      kept = KeepsUser-refl (bitmap_offset d) bm.total_bytes f;
    } in
    let locked =
      Ends-sure (attempt_io-Leads (Unit {0}) (bitmap_offset d) bm.total_bytes s f s f w so r)
        (λ w e q. q.may tt) in
    let w1 = (attempt_io w).0 in
    let loaded =
      Ends-sure
        (reload-Leads (Unit {0}) (bitmap_offset d) bm.total_bytes s f d bm f disk s w1 so att
          locked.2)
        (λ w e q. q.may tt) in
    let w2 = (reload w1).0 in
    let done =
      subst
        (λ t.
          Running (Unit {0}) (persisted crc (fresh d bm s))
            (written crc (bitmap_offset d) (fresh d bm s) f)
            (write_back crc (record { storage = t; os = w2.os })))
        (sym loaded.2.storage)
        (write_back-written crc (fresh d bm s) f disk.valid.allocated disk.offset_small w2.os
          loaded.2.os) in
    simp (writable', locked.1)
      (ap (λ (v : World). v.os.file) (close_locked-eq crc w1) ∙ done.os.file)

-- The result of the reload is ignored: where the lock is granted, the seek to the descriptor fails and
-- every later call completes, a close through a writable handle, whose bitmap is allocated in full and
-- lies at an offset that an off_t holds, puts the handle's own bitmap and descriptor into the file,
-- with a checksum that fits them, whatever newer state the file held.
pub kes_storage_close-stale :
    (crc : List ℕ → ℕ) (f : File) (s : Storage) (pos : ℕ)
    → length s.bitmap.bytes ≡ s.bitmap.total_bytes
    → bitmap_offset s.desc < 2 ^ 63
    → s.readonly ≡ false
    → (kes_storage_close crc (record {
      storage = s;
      os = record { file = f; pos = pos; plan = completes ∷ fails ∷ [] };
    })).file
      ≡ written crc (bitmap_offset s.desc) s f
unfolding kes_storage_close attempt_io attempt close_locked load_storage_descriptor lseek
kes_storage_close-stale crc f s pos size small writable =
    let os : Os = record { file = f; pos = pos; plan = [] } in
    let done =
      write_back-written crc s f size small os (record { file = refl; calm = λ c. refl }) in
    ap (λ (o : Os). o.file) (if_false _ _ s.readonly writable) ∙ done.os.file
