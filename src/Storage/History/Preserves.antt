-- ===== src/Storage/History/Preserves.antt =====
-- What each of the three steps is, and that it keeps the storage steady.
use kanek_extents_storage.Common.{
  ℕ, ◌+◌, ◌≤◌, ◌<◌, ◌^◌, ◌≡◌, refl, sym, ap, ◌∙◌, subst, inl, inr, ◌==◌, List, ◌∷◌, length, arith,
  Result, ok, err, success, invalid,
}
use kanek_extents_storage.Os.Outcomes.{Ends-ok}
use kanek_extents_storage.Bitmap.Search.{IsFreeRun}
use kanek_extents_storage.Storage.{Storage, World, Extent, Request}
use kanek_extents_storage.Storage.Extents.{kes_extent_allocate, kes_extent_free, kes_extent_write}
use kanek_extents_storage.Storage.Extents.Allocation.{Allocated, kes_extent_allocate-Ends}
use kanek_extents_storage.Storage.Extents.Freeing.{Freed, kes_extent_free-Ends}
use kanek_extents_storage.Storage.Extents.Access.{
  InStorage-bounds, Written, first_byte, extent_bytes,
}
use kanek_extents_storage.Storage.Extents.Transfer.{kes_extent_write-Ends}
use kanek_extents_storage.Storage.Extents.Isolation.{Disjoint, OnDisk-Keeps, Keeps-written}
use kanek_extents_storage.Storage.History.{System, calm, replace, Takes}
use kanek_extents_storage.Storage.History.Live.{
  IsLive, Takes-All, Takes-Apart, All-map, All-zip, free-Disjoint, IsLive-marked, IsLive-cleared,
  IsLive-new,
}
use kanek_extents_storage.Storage.History.Steady.{
  IsHandle, IsSteady, Coherent-bits, IsHandle-moved, IsHandle-fresh, IsHandle-if, calm-Running,
  IsLive-InStorage,
}

module _ (crc : List ℕ → ℕ) (crc_lt : (bytes : List ℕ) → crc bytes < 2 ^ 32) (sys : System)
    (v : IsSteady sys) (i : ℕ) where
  abbrev handle : Storage
  handle = sys.handles i

  -- What a successful allocation is, by its theorem.
  pub allocated :
      (request : Request) (w : World) (e : Extent)
      → 0 < request.block_count
      → kes_extent_allocate crc request (calm handle sys.file) ≡ (w, ok e)
      → Allocated crc v.desc v.bitmap sys.file handle request w e
  allocated request w e pos eq =
      (Ends-ok
        (kes_extent_allocate-Ends crc crc_lt (Unit {0}) v.desc v.bitmap sys.file handle request
          (calm handle sys.file) v.disk (v.handles i).attached pos (v.handles i).writable
          (calm-Running handle sys.file))
        eq).0

  pub allocates-IsSteady :
      (request : Request) (w : World) (e : Extent)
      → 0 < request.block_count
      → request.block_count < 2 ^ 32
      → Allocated crc v.desc v.bitmap sys.file handle request w e
      → IsSteady (record {
        file = w.os.file;
        handles = replace sys.handles i w.storage;
        live = e ∷ sys.live;
      })
  allocates-IsSteady request w e pos small a =
      let c = v.disk.coherent in
      let c' = a.disk.coherent in
      let size : w.storage.bitmap.total_bits ≡ v.bitmap.total_bits =
        Coherent-bits c c' a.same_layout in
      let run : IsFreeRun v.bitmap e.start_block e.block_count = rw a.block_count a.first_fit.run in
      record {
        desc = w.storage.desc;
        bitmap = w.storage.bitmap;
        disk = a.disk;
        handles = λ j.
            IsHandle-if (i == j) (IsHandle-fresh c' refl refl (a.readonly ∙ (v.handles i).writable))
              (IsHandle-moved c c' a.same_layout (v.handles j));
        live = (
          IsLive-new v.bitmap w.storage.bitmap size e e a.bits run.inside
              (omega (arith, a.block_count)) (omega (arith, a.block_count)),
          All-map sys.live (IsLive v.bitmap) (IsLive w.storage.bitmap)
              (λ x. IsLive-marked v.bitmap w.storage.bitmap size e x a.bits) v.live,
        );
        apart = (
          All-map sys.live (IsLive v.bitmap) (Disjoint e)
              (λ x. free-Disjoint v.bitmap x e run (omega (arith, a.block_count))) v.live,
          v.apart,
        );
      }

  pub freed :
      (e : Extent) (w : World)
      → IsLive v.bitmap e
      → kes_extent_free crc e (calm handle sys.file) ≡ (w, success)
      → Freed crc v.desc v.bitmap sys.file handle e w
  freed e w l eq =
      (Ends-ok
        (kes_extent_free-Ends crc crc_lt (Unit {0}) v.desc v.bitmap sys.file handle e
          (calm handle sys.file) v.disk (v.handles i).attached l.some_block l.count_small
          (omega (arith, l.used.inside l.some_block, v.disk.valid.small)) (v.handles i).writable
          (calm-Running handle sys.file))
        eq).0

  pub frees-IsSteady :
      (e : Extent) (rest : List Extent) (w : World)
      → Takes e sys.live rest
      → Freed crc v.desc v.bitmap sys.file handle e w
      → IsSteady
          (record { file = w.os.file; handles = replace sys.handles i w.storage; live = rest })
  frees-IsSteady e rest w t a =
      let c = v.disk.coherent in
      let c' = a.disk.coherent in
      let size : w.storage.bitmap.total_bits ≡ v.bitmap.total_bits =
        Coherent-bits c c' a.same_layout in
      let (apart, apart') = Takes-Apart t v.apart in
      let (l, live') = Takes-All (IsLive v.bitmap) t v.live in
      record {
        desc = w.storage.desc;
        bitmap = w.storage.bitmap;
        disk = a.disk;
        handles = λ j.
            IsHandle-if (i == j) (IsHandle-fresh c' refl refl (a.readonly ∙ (v.handles i).writable))
              (IsHandle-moved c c' a.same_layout (v.handles j));
        live =
            All-zip rest (Disjoint e) (IsLive v.bitmap) (IsLive w.storage.bitmap)
              (λ x. IsLive-cleared v.bitmap w.storage.bitmap size e x a.bits) apart live';
        apart = apart';
      }

  -- What a successful write is: it lies inside the extent, and the buffer is in the file.
  pub write_done :
      (e : Extent) (buffer : List ℕ) (offset : ℕ) (w : World)
      → IsLive v.bitmap e
      → offset + length buffer < 2 ^ 64
      → kes_extent_write e buffer offset (calm handle sys.file) ≡ (w, success)
      → (offset + length buffer ≤ extent_bytes v.desc e)
        × Written (Unit {0}) handle sys.file (first_byte v.desc e + offset) buffer w
  write_done e buffer offset w l small eq =
      elim (kes_extent_write-Ends (Unit {0}) v.desc v.bitmap sys.file handle e buffer offset
        (calm handle sys.file) (IsLive-InStorage v.disk.coherent (v.handles i) l)
        (v.handles i).writable small (calm-Running handle sys.file)) [
          | inl r ↦ (r.0, Ends-ok r.1 eq)
          | inr r ↦
              let same : (w, success) ≡ (calm handle sys.file, err invalid) = sym eq ∙ r.1 in
              absurd (refused (ap (λ (x : World × Result (Unit {0})). x.1) same))
        ]
    where
      refused : success ≡ err invalid → ⊥
      refused h = cc

  pub writes-IsSteady :
      (e : Extent) (buffer : List ℕ) (offset : ℕ) (w : World)
      → IsLive v.bitmap e
      → offset + length buffer ≤ extent_bytes v.desc e
      → Written (Unit {0}) handle sys.file (first_byte v.desc e + offset) buffer w
      → IsSteady
          (record { file = w.os.file; handles = replace sys.handles i w.storage; live = sys.live })
  writes-IsSteady e buffer offset w l le a =
      let bounds =
        InStorage-bounds v.desc v.bitmap handle e
          (IsLive-InStorage v.disk.coherent (v.handles i) l) in
      record {
        desc = v.desc;
        bitmap = v.bitmap;
        disk = rw a.os.file (
            OnDisk-Keeps v.disk (Keeps-written sys.file (first_byte v.desc e + offset) buffer)
              (omega (arith, bounds)) (omega (arith, bounds)));
        handles = λ j.
            IsHandle-if (i == j)
              (subst (IsHandle v.desc v.bitmap) (sym a.view) (record {
                attached = record {
                  bits = (v.handles i).attached.bits;
                  bytes = (v.handles i).attached.bytes;
                  allocated = (v.handles i).attached.allocated;
                };
                layout = (v.handles i).layout;
                writable = (v.handles i).writable;
              }))
              (v.handles j);
        live = v.live;
        apart = v.apart;
      }
