-- ===== src/Storage/Durable.antt =====
-- What a new handle sees of the operations of another: create then open, allocate then open.
use kanek_extents_storage.Common.{
  ℕ, ◌+◌, ◌^◌, ◌<◌, ◌≡◌, refl, sym, ap, ◌∙◌, subst, ◌⊎◌, inl, inr, true, false, List, [], ok, nomem,
  io, Error, and_then, arith,
}
use kanek_extents_storage.Os.{Os}
use kanek_extents_storage.Os.Files.{File}
use kanek_extents_storage.Os.Calls.{OsAt}
use kanek_extents_storage.Os.Outcomes.{Ends, Ends-and_then, Ends-mono, Ends-map, Ends-ok}
use kanek_extents_storage.Bitmap.{Bitmap}
use kanek_extents_storage.Bitmap.Bits.{bit}
use kanek_extents_storage.Descriptor.{Descriptor}
use kanek_extents_storage.Descriptor.Layout.{IsLaidOut}
use kanek_extents_storage.Storage.{Storage, World, Extent, Request}
use kanek_extents_storage.Storage.Steps.{OnDisk, Attached, Running}
use kanek_extents_storage.Storage.Extents.{kes_extent_allocate}
use kanek_extents_storage.Storage.Extents.Allocation.{kes_extent_allocate-Ends}
use kanek_extents_storage.Storage.Lifecycle.{Config, kes_storage_create, kes_storage_open}
use kanek_extents_storage.Storage.Lifecycle.Creating.{NotCreated, kes_storage_create-Ends}
use kanek_extents_storage.Storage.Lifecycle.Opening.{kes_storage_open-Ends}

-- A call that was bound to fail.
abbrev pub Refused : Type 0 → Os → Error → Type 0
Refused C os e = (¬ C) × ((e ≡ nomem) ⊎ (e ≡ io))

-- The handle has the descriptor and the bits of another.
pub record SameView (s t : Storage) : Type 0 where
  pub desc : t.desc ≡ s.desc
  pub bytes : t.bitmap.bytes ≡ s.bitmap.bytes
  pub free_bits : t.bitmap.free_bits ≡ s.bitmap.free_bits

-- An open where the file holds what a handle holds, with the right checksum.
open_after :
    (crc : List ℕ → ℕ) (C : Type 0) (s : Storage) (flags : ℕ) (os : Os)
    → OnDisk s.desc s.bitmap os.file
    → s.desc.bitmap_checksum ≡ crc s.bitmap.bytes
    → (C → os.plan ≡ [])
    → Ends
        (λ os' t. SameView s t × (os'.file ≡ os.file))
        (Refused C)
        (kes_storage_open crc flags os)
open_after crc C s flags os disk checksum calm =
    Ends-map
      (kes_storage_open-Ends crc C s.desc s.bitmap os.file flags os disk
        (record { file = refl; calm = calm }))
      (λ os' t p. (
        record {
          desc = p.0.desc;
          bytes = ap (λ (b : Bitmap). b.bytes) p.0.bitmap;
          free_bits = ap (λ (b : Bitmap). b.free_bits) p.0.bitmap;
        },
        p.0.file,
      ))
      (λ os' e q. elim q [ inl c ↦ absurd (c.1 (sym checksum)) | inr m ↦ m ])

-- For a device of fewer than 2 ^ 63 bytes, an open after a successful create gives a handle in which
-- every block is free and whose descriptor is laid out over the device. Otherwise the configuration
-- was refused or a call failed: the new file is never taken for corrupt.
pub kes_storage_open-create :
    (crc : List ℕ → ℕ) (crc_lt : (bytes : List ℕ) → crc bytes < 2 ^ 32) (C : Type 0)
    (config : Config) (flags : ℕ) (f : File) (os : Os)
    → config.device_size < 2 ^ 63
    → OsAt C f os
    → Ends
        (λ os' t. ((i : ℕ) → bit t.bitmap.bytes i ≡ false) × IsLaidOut config.device_size t.desc)
        (λ os' e. NotCreated C config f os' e ⊎ Refused C os' e)
        (and_then (kes_storage_create crc config os) (λ s. kes_storage_open crc flags))
kes_storage_open-create crc crc_lt C config flags f os hi at =
    Ends-and_then
      (Ends-mono (kes_storage_create-Ends crc crc_lt C config f os hi at) (λ os' e q. inl q))
      λ os1 s p.
        Ends-map (open_after crc C s flags os1 p.0.disk p.0.checksum p.1)
          (λ os' t q. (
            λ i. ap (λ (l : List ℕ). bit l i) q.0.bytes ∙ p.0.all_free i,
            subst (IsLaidOut config.device_size) (sym q.0.desc) p.0.layout,
          ))
          (λ os' e q. inr q)

-- An allocation that returned an extent, on a file that held a well-formed storage and through a
-- writable handle of the right size, is seen by every handle that is opened afterwards: it has the
-- descriptor and the bits of the handle that allocated, so the extent's blocks are in use there; the
-- open is never refused as corrupt, and fails only if a call failed.
pub kes_storage_open-allocate :
    (crc : List ℕ → ℕ) (crc_lt : (bytes : List ℕ) → crc bytes < 2 ^ 32) (C : Type 0)
    (d : Descriptor) (bm : Bitmap) (f : File) (s : Storage) (request : Request) (w w' : World)
    (e : Extent) (flags : ℕ)
    → OnDisk d bm f
    → Attached s bm
    → 0 < request.block_count
    → s.readonly ≡ false
    → Running C s f w
    → kes_extent_allocate crc request w ≡ (w', ok e)
    → Ends
        (λ os' t.
          SameView w'.storage t
          × ((i : ℕ) → i < e.block_count → bit t.bitmap.bytes (e.start_block + i) ≡ true))
        (Refused C)
        (kes_storage_open crc flags w'.os)
kes_storage_open-allocate crc crc_lt C d bm f s request w w' e flags disk att pos writable r eq =
    let (a, calm) =
      Ends-ok (kes_extent_allocate-Ends crc crc_lt C d bm f s request w disk att pos writable r)
        eq in
    Ends-map (open_after crc C w'.storage flags w'.os a.disk a.checksum calm)
      (λ os' t q. (
        q.0,
        λ i lt.
            ap (λ (l : List ℕ). bit l (e.start_block + i)) q.0.bytes
            ∙ ground (arith, a.bits (e.start_block + i)),
      ))
      (λ os' x q. q)
