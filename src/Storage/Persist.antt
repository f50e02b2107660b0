-- ===== src/Storage/Persist.antt =====
-- The second half of an operation: the bitmap, the descriptor and its checksum are written out.
use kanek_extents_storage.Common.{
  ℕ, ◌+◌, ◌^◌, ◌≤◌, ◌<◌, ◌≡◌, refl, sym, ap, ◌∙◌, subst, inl, inr, List, length, arith, Call, ◌>>◌,
}
use kanek_extents_storage.Os.{Os, lseek}
use kanek_extents_storage.Os.Files.{
  File, write_at, byte-write_at_ne, size-write_at, window-write_at_self, window-write_at_ne,
}
use kanek_extents_storage.Os.Calls.{OsAt, lseek_cases, write_all_cases}
use kanek_extents_storage.Os.Outcomes.{returns, fails, Ends-and_then}
use kanek_extents_storage.Bitmap.{Bitmap}
use kanek_extents_storage.Bitmap.Disk.{kes_bitmap_checksum, kes_bitmap_save-Ends}
use kanek_extents_storage.Descriptor.{encode}
use kanek_extents_storage.Descriptor.Codec.{length-encode}
use kanek_extents_storage.Storage.{
  Storage, World, attempt_io, save_storage_descriptor, bitmap_offset, save_bitmap, persist,
  with_desc,
}
use kanek_extents_storage.Storage.Steps.{
  Coherent, Coherent-head, OnDisk, Running, KeepsUser, Leads, Sound, failure, Ends-lift,
  attempt_io-Leads,
}

-- The handle with the checksum of its bitmap.
unfoldable pub persisted : (List ℕ → ℕ) → Storage → Storage
persisted crc s = record s {
  desc = record s.desc { bitmap_checksum = kes_bitmap_checksum crc s.bitmap };
}

-- The file with the handle's bitmap, at `offset`, and its descriptor.
unfoldable pub written : (List ℕ → ℕ) → ℕ → Storage → File → File
written crc offset s f =
    write_at 0 (encode (persisted crc s).desc) (write_at offset s.bitmap.bytes f)

module _ (C : Type 0) (offset n : ℕ) (s0 : Storage) (f0 : File) where
  module _ (s : Storage) (f : File) (so : Sound C offset n s0 f0 s f)
      (place : bitmap_offset s.desc ≡ offset) (size : length s.bitmap.bytes ≡ n)
      (small : offset < 2 ^ 63) where
    pub save_bitmap_at :
        (os : Os)
        → length s.bitmap.bytes ≡ s.bitmap.total_bytes
        → OsAt C f os
        → Leads C offset n s0 f0 s
            (write_at offset s.bitmap.bytes f)
            (save_bitmap (record { storage = s; os = os }))
    save_bitmap_at os alloc at = rw place (
        Ends-lift s (kes_bitmap_save-Ends C f s.bitmap os offset at small alloc)
          (λ t _ p. record { storage = ap (λ (b : Bitmap). record s { bitmap = b }) p.0; os = p.1 })
          (λ t er q. record {
            may = q.0;
            code = q.1;
            shape = rw q.2 so.shape;
            kept = record {
              grown = omega (arith, q.3.grown, so.kept.grown);
              kept = λ i h k lt.
                  q.3.kept i (rw size k) (omega (arith, so.kept.grown)) ∙ so.kept.kept i h k lt;
            };
          }))

    pub save_storage_descriptor_at :
        (os : Os)
        → OsAt C f os
        → Leads C offset n s0 f0 s
            (write_at 0 (encode s.desc) f)
            (save_storage_descriptor (record { storage = s; os = os }))
    unfolding save_storage_descriptor
    save_storage_descriptor_at os at =
        let os1 = (lseek 0 os).0 in
        let (sought, at1) = lseek_cases C f os 0 at (omega arith) in
        elim sought [
          | inr (e, may) ↦ rw e (fails (failure C offset n s0 f0 f _ so.kept so.shape may at1))
          | inl (e, p) ↦ elim (write_all_cases C f os1 (encode s.desc) at1) [
            | inl (e', at2) ↦ rw (e, e') (returns (record { storage = refl; os = rw p at at2 }))
            | inr (e', may, k) ↦
                rw (e, e')
                  (fails (record {
                    may = may;
                    code = refl;
                    shape = so.shape;
                    kept = record {
                      grown = omega (arith, k.grown, so.kept.grown);
                      kept = λ i h j lt.
                          k.kept i (inr (omega (arith, length-encode s.desc, p)))
                            (omega (arith, so.kept.grown))
                          ∙ so.kept.kept i h j lt;
                    };
                  }))
          ]
        ]

    pub after_save : Sound C offset n s0 f0 s (write_at offset s.bitmap.bytes f)
    after_save = record {
      shape = so.shape;
      kept = record {
        grown = omega (arith, so.kept.grown, (size-write_at f offset s.bitmap.bytes).0);
        kept = λ i h k lt.
            byte-write_at_ne f offset i s.bitmap.bytes (rw size k) (omega (arith, so.kept.grown))
            ∙ so.kept.kept i h k lt;
      };
    }

  after_desc :
      (s : Storage) (f : File)
      → Sound C offset n s0 f0 s f
      → Sound C offset n s0 f0 s (write_at 0 (encode s.desc) f)
  after_desc s f so = record {
    shape = so.shape;
    kept = record {
      grown = omega (arith, so.kept.grown, (size-write_at f 0 (encode s.desc)).0);
      kept = λ i h k lt.
          byte-write_at_ne f 0 i (encode s.desc) (inr (omega (arith, length-encode s.desc)))
            (omega (arith, so.kept.grown))
          ∙ so.kept.kept i h k lt;
    };
  }

  module _ (crc : List ℕ → ℕ) where
    finish : Call World (Unit {0})
    finish = do save_storage_descriptor; attempt_io

    finish-Leads :
        (s : Storage) (f : File) (os : Os)
        → Sound C offset n s0 f0 s f
        → bitmap_offset s.desc ≡ offset
        → length s.bitmap.bytes ≡ n
        → offset < 2 ^ 63
        → OsAt C f os
        → Leads C offset n s0 f0 s
            (write_at 0 (encode s.desc) f)
            (finish (record { storage = s; os = os }))
    unfolding finish
    finish-Leads s f os so place size small at =
        Ends-and_then (save_storage_descriptor_at s f so place size small os at) λ w' _ r'.
          attempt_io-Leads C offset n s0 f0 s (write_at 0 (encode s.desc) f) w' (after_desc s f so)
            r'

    -- Writing out gives the file the bitmap, the descriptor and the checksum of the bitmap.
    pub persist-Leads :
        (s : Storage) (f : File) (w : World)
        → Sound C offset n s0 f0 s f
        → bitmap_offset s.desc ≡ offset
        → length s.bitmap.bytes ≡ n
        → s.bitmap.total_bytes ≡ n
        → offset < 2 ^ 63
        → Running C s f w
        → Leads C offset n s0 f0 (persisted crc s) (written crc offset s f) (persist crc w)
    unfolding persist persisted written finish
    persist-Leads s f w so place size total small r =
        subst
          (λ t.
            Leads C offset n s0 f0 (persisted crc s) (written crc offset s f)
              (persist crc (record { storage = t; os = w.os })))
          (sym r.storage)
          (Ends-and_then (save_bitmap_at s f so place size small w.os (size ∙ sym total) r.os)
            λ w1 _ r1.
              let saved = after_save s f so place size small in
              subst
                (λ t. Leads C offset n s0 f0 (persisted crc s) (written crc offset s f) (
                  finish (
                    with_desc (record { storage = t; os = w1.os })
                      (record t.desc { bitmap_checksum = kes_bitmap_checksum crc t.bitmap })
                      w1.os)))
                (sym r1.storage)
                (finish-Leads (persisted crc s) (write_at offset s.bitmap.bytes f) w1.os
                  (record { shape = saved.shape; kept = saved.kept }) place size small r1.os))

    -- Writing out keeps the user bytes.
    pub written-KeepsUser :
        (s : Storage) (f : File)
        → Sound C offset n s0 f0 s f
        → bitmap_offset s.desc ≡ offset
        → length s.bitmap.bytes ≡ n
        → offset < 2 ^ 63
        → KeepsUser offset n f0 (written crc offset s f)
    unfolding written persisted
    written-KeepsUser s f so place size small =
        let saved = after_save s f so place size small in
        (after_desc (persisted crc s) (write_at offset s.bitmap.bytes f)
          (record { shape = saved.shape; kept = saved.kept })).kept

    -- What is written is a well-formed storage again.
    pub written-OnDisk :
        (s : Storage) (f : File)
        → ((bytes : List ℕ) → crc bytes < 2 ^ 32)
        → Coherent s.desc s.bitmap
        → bitmap_offset s.desc ≡ offset
        → s.bitmap.total_bytes ≡ n
        → OnDisk (persisted crc s).desc s.bitmap (written crc offset s f)
    unfolding persisted written kes_bitmap_checksum
    written-OnDisk s f crc_lt c place total = record {
      coherent = record {
        fits = record {
          magic = c.fits.magic;
          version_major = c.fits.version_major;
          version_minor = c.fits.version_minor;
          block_size = c.fits.block_size;
          padding = c.fits.padding;
          total_blocks = c.fits.total_blocks;
          bitmap_start_block = c.fits.bitmap_start_block;
          bitmap_blocks = c.fits.bitmap_blocks;
          user_start_block = c.fits.user_start_block;
          user_blocks = c.fits.user_blocks;
          free_blocks = c.fits.free_blocks;
          used_blocks = c.fits.used_blocks;
          next_extent_id = c.fits.next_extent_id;
          bitmap_checksum = omega (arith, crc_lt s.bitmap.bytes);
          reserved = c.fits.reserved;
        };
        magic = c.magic;
        version = c.version;
        valid = c.valid;
        sized = c.sized;
        offset_small = c.offset_small;
        user_start = c.user_start;
        user_end = c.user_end;
        free_counted = c.free_counted;
        used_counted = c.used_counted;
      };
      desc = window-write_at_self g 0 112 desc_bytes (length-encode (persisted crc s).desc);
      bytes =
          rw (place, total)
            (window-write_at_ne g 0 offset n desc_bytes
                (inr (omega (arith, length-encode (persisted crc s).desc, Coherent-head c, place)))
                (omega (arith, g_size))
              ∙ window-write_at_self f offset n s.bitmap.bytes (c.valid.allocated ∙ total));
      in_file = rw (place, total) (omega (arith, g_size, (size-write_at g 0 desc_bytes).0));
    }
      where
        g : File
        g = write_at offset s.bitmap.bytes f

        g_size : offset + n ≤ g.size
        g_size = omega (
          arith,
          (size-write_at f offset s.bitmap.bytes).1
              (omega (arith, c.valid.positive, c.valid.enough, c.valid.allocated)),
          c.valid.allocated,
          total,
        )

        desc_bytes : List ℕ
        desc_bytes = encode (persisted crc s).desc
