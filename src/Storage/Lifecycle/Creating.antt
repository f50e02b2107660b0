-- ===== src/Storage/Lifecycle/Creating.antt =====
-- kes_storage_create: what it leaves on the disk.
use kanek_extents_storage.Common.{
  ℕ, ◌^◌, ◌≤◌, ◌<◌, ◌≡◌, refl, sym, subst, ◌⊎◌, inl, inr, false, List, [], arith, err, invalid,
  nomem, io, Error, Call, ◌>>◌, success,
}
use kanek_extents_storage.Os.{Os}
use kanek_extents_storage.Os.Files.{File, write_at}
use kanek_extents_storage.Os.Calls.{OsAt}
use kanek_extents_storage.Os.Outcomes.{Ends, fails, Ends-and_then, Ends-mono}
use kanek_extents_storage.Bitmap.Bits.{bit}
use kanek_extents_storage.Bitmap.Creation.{new_bitmap, new_bitmap-IsNew}
use kanek_extents_storage.Bitmap.Disk.{kes_bitmap_checksum}
use kanek_extents_storage.Descriptor.{Descriptor, zeroed, init_storage_descriptor}
use kanek_extents_storage.Descriptor.Layout.{
  IsLaidOut, init_storage_descriptor-IsLaidOut, init_storage_descriptor-Fits,
}
use kanek_extents_storage.Storage.{
  Storage, World, bitmap_offset, save_bitmap, save_storage_descriptor, refresh_checksum,
}
use kanek_extents_storage.Storage.Steps.{
  Coherent, OnDisk, Running, Sound, Failed, SameShape-refl, KeepsUser-refl,
}
use kanek_extents_storage.Storage.Persist.{
  persisted, written, save_bitmap_at, save_storage_descriptor_at, written-OnDisk,
}
use kanek_extents_storage.Storage.Lifecycle.{
  Config, validate_config, new_handle, truncate, lay_out, kes_storage_create, has_flag,
}
use kanek_extents_storage.Storage.Lifecycle.Handles.{
  demand-Ends, create_bitmap-Ends, as_handle-Ends,
}

-- An accepted configuration has room for ten blocks of the smallest size.
pub validate_config-cases :
    (config : Config)
    → ((validate_config config ≡ success) × (40960 ≤ config.device_size))
      ⊎ (validate_config config ≡ err invalid)
unfolding validate_config
validate_config-cases config = ground arith

-- The new storage on the disk, its handle, and that every block is free.
pub record Created (crc : List ℕ → ℕ) (config : Config) (os : Os) (s : Storage) : Type 0 where
  pub disk : OnDisk s.desc s.bitmap os.file
  pub checksum : s.desc.bitmap_checksum ≡ crc s.bitmap.bytes
  pub layout : IsLaidOut config.device_size s.desc
  pub all_free : (i : ℕ) → bit s.bitmap.bytes i ≡ false
  pub readonly : s.readonly ≡ has_flag config.flags 1

-- Refused by the checks of the configuration, with no effect; or a call that was bound to fail.
pub NotCreated : Type 0 → Config → File → Os → Error → Type 0
NotCreated C config f os e =
    ((e ≡ invalid) × (validate_config config ≡ err invalid) × (os.file ≡ f))
    ⊎ ((¬ C) × ((e ≡ nomem) ⊎ (e ≡ io)))

module _ (crc : List ℕ → ℕ) (crc_lt : (bytes : List ℕ) → crc bytes < 2 ^ 32) (C : Type 0)
    (config : Config) (size_lo : 40960 ≤ config.device_size) (size_hi : config.device_size < 2 ^ 63)
    (g : File) where
  abbrev Lost : World → Error → Type 0
  Lost w e = (¬ C) × ((e ≡ nomem) ⊎ (e ≡ io))

  desc : Descriptor
  desc = init_storage_descriptor config.device_size zeroed

  -- The new handle with its descriptor and bitmap.
  handle : Storage
  handle = record (new_handle config.flags config.strategy) {
    desc = desc;
    bitmap = new_bitmap desc.user_blocks;
  }

  laid_out : IsLaidOut config.device_size desc
  unfolding desc
  laid_out = init_storage_descriptor-IsLaidOut config.device_size zeroed (omega arith) (omega arith)

  handle_Coherent : Coherent handle.desc handle.bitmap
  unfolding handle desc init_storage_descriptor
  handle_Coherent = record {
    fits = init_storage_descriptor-Fits config.device_size (omega arith);
    magic = refl;
    version = refl;
    valid = (new_bitmap-IsNew desc.user_blocks laid_out.some_user_block (omega arith)).valid;
    sized = refl;
    offset_small = omega arith;
    user_start = omega arith;
    user_end = omega arith;
    free_counted = refl;
    used_counted = omega arith;
  }

  abbrev n : ℕ
  n = handle.bitmap.total_bytes

  abbrev place : ℕ
  place = bitmap_offset handle.desc

  filled : (f : File) → Sound C place n (persisted crc handle) f (persisted crc handle) f
  filled f = record {
    shape = SameShape-refl (persisted crc handle).bitmap;
    kept = KeepsUser-refl place n f;
  }

  lost : {s0 : Storage} {f : File} (w : World) (e : Error) → Failed C place n s0 f w e → Lost w e
  lost w e q = (q.may, inr q.code)

  -- Writing out the new handle.
  save_new : Call World (Unit {0})
  save_new = do save_bitmap; save_storage_descriptor

  save_new-Ends :
      (os : Os)
      → OsAt C g os
      → Ends
          (λ w _. Running C (persisted crc handle) (written crc place handle g) w)
          Lost
          (save_new (record { storage = persisted crc handle; os = os }))
  unfolding save_new persisted written
  save_new-Ends os at =
      Ends-and_then
        (Ends-mono
          (save_bitmap_at C place n (persisted crc handle) g (persisted crc handle) g (filled g)
            refl handle_Coherent.valid.allocated handle_Coherent.offset_small os
            handle_Coherent.valid.allocated at)
          lost)
        λ w _ r.
          let h = write_at place handle.bitmap.bytes g in
          subst
            (λ t.
              Ends (λ w' _. Running C (persisted crc handle) (written crc place handle g) w') Lost
                (save_storage_descriptor (record { storage = t; os = w.os })))
            (sym r.storage)
            (Ends-mono
              (save_storage_descriptor_at C place n (persisted crc handle) h (persisted crc handle)
                h (filled h) refl handle_Coherent.valid.allocated handle_Coherent.offset_small w.os
                r.os)
              lost)

  -- All the steps on the new handle.
  lay_out-Ends :
      (os : Os)
      → OsAt C g os
      → Ends
          (λ w _. Running C (persisted crc handle) (written crc place handle g) w)
          Lost
          (lay_out crc config.device_size
            (record { storage = new_handle config.flags config.strategy; os = os }))
  unfolding lay_out handle desc save_new persisted
  lay_out-Ends os at =
      Ends-and_then
        (Ends-mono
          (create_bitmap-Ends C g (record (new_handle config.flags config.strategy) { desc = desc })
            os at laid_out.some_user_block (omega (arith, handle_Coherent.valid.small)))
          (λ w e q. (q.0, inl q.1)))
        λ w _ r.
          subst
            (λ t.
              Ends (λ w' _. Running C (persisted crc handle) (written crc place handle g) w') Lost
                (save_new (refresh_checksum crc (record { storage = t; os = w.os })).0))
            (sym r.storage) (save_new-Ends w.os r.os)

  created :
      (os : Os)
      → OsAt C (written crc place handle g) os
      → Created crc config os (persisted crc handle)
  unfolding handle desc persisted kes_bitmap_checksum init_storage_descriptor
  created os at = record {
    disk =
        rw at.file
          (written-OnDisk C place n handle g crc handle g crc_lt handle_Coherent refl refl);
    checksum = refl;
    layout = record {
      in_device = laid_out.in_device;
      whole_device = laid_out.whole_device;
      block_size = laid_out.block_size;
      no_block_more = laid_out.no_block_more;
      user_start = laid_out.user_start;
      user_end = laid_out.user_end;
      bitmap_end = laid_out.bitmap_end;
      some_user_block = laid_out.some_user_block;
      bitmap_fits = laid_out.bitmap_fits;
      all_free = laid_out.all_free;
      none_used = laid_out.none_used;
    };
    all_free =
        (new_bitmap-IsNew desc.user_blocks laid_out.some_user_block
          (omega (arith, handle_Coherent.valid.small))).bits;
    readonly = refl;
  }

-- Opening the file keeps what is planned.
truncated :
    (C : Type 0) (flags : ℕ) (f : File) (os : Os)
    → OsAt C f os
    → OsAt C (truncate flags os).0.file (truncate flags os).0
truncated C flags f os at = record { file = refl; calm = ground (arith, at.calm) }

-- Whatever the file held before, and for a device of fewer than 2 ^ 63 bytes, a create ends in one of
-- three ways. It succeeds: the file holds a well-formed storage, laid out over the device, with every
-- block free and the checksum of its bitmap, and the handle holds the same. Or the configuration is
-- refused with KES_ERROR_INVALID and the file stays. Or it returns KES_ERROR_NOMEM or KES_ERROR_IO,
-- which needs a call that failed.
pub kes_storage_create-Ends :
    (crc : List ℕ → ℕ) (crc_lt : (bytes : List ℕ) → crc bytes < 2 ^ 32) (C : Type 0)
    (config : Config) (f : File) (os : Os)
    → config.device_size < 2 ^ 63
    → OsAt C f os
    → Ends
        (λ os' s. Created crc config os' s × (C → os'.plan ≡ []))
        (NotCreated C config f)
        (kes_storage_create crc config os)
unfolding kes_storage_create lay_out NotCreated
kes_storage_create-Ends crc crc_lt C config f os hi at = elim (validate_config-cases config) [
  | inr e ↦ rw e (fails (inl (refl, e, at.file)))
  | inl (e, lo) ↦ rw e (
      Ends-and_then (Ends-mono (demand-Ends C f nomem os at) (λ t e q. inr (q.0, inl q.1)))
        λ os1 _ at1.
          Ends-and_then (Ends-mono (demand-Ends C f nomem os1 at1) (λ t e q. inr (q.0, inl q.1)))
            λ os2 _ at2.
              Ends-and_then (Ends-mono (demand-Ends C f io os2 at2) (λ t e q. inr (q.0, inr q.1)))
                λ os3 _ at3.
                  let opened = (truncate config.flags os3).0 in
                  as_handle-Ends (new_handle config.flags config.strategy)
                    (lay_out crc config.device_size) opened
                    (lay_out-Ends crc crc_lt C config lo hi opened.file opened
                      (truncated C config.flags f os3 at3))
                    (λ w a r. (
                      subst (Created crc config w.os) (sym r.storage)
                          (created crc crc_lt C config lo hi opened.file w.os r.os),
                      r.os.calm,
                    ))
                    (λ w e q. inr q))
]
