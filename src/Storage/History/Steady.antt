-- ===== src/Storage/History/Steady.antt =====
-- What holds of the file, of every handle and of the live extents between two steps.
use kanek_extents_storage.Common.{
  ℕ, ◌≡◌, refl, sym, ap, ◌∙◌, Bool, true, false, if◌then◌else◌, length, All, arith,
}
use kanek_extents_storage.Os.Files.{File}
use kanek_extents_storage.Bitmap.{Bitmap}
use kanek_extents_storage.Descriptor.{Descriptor}
use kanek_extents_storage.Storage.{Storage, Extent}
use kanek_extents_storage.Storage.Steps.{Coherent, OnDisk, SameLayout, Attached, Running}
use kanek_extents_storage.Storage.Extents.Access.{InStorage}
use kanek_extents_storage.Storage.History.{System, calm}
use kanek_extents_storage.Storage.History.Live.{IsLive, Apart}

-- A writable handle of the storage; its view of the bitmap and of the counts may be out of date.
pub record IsHandle (d : Descriptor) (bm : Bitmap) (s : Storage) : Type 0 where
  pub attached : Attached s bm
  pub layout : SameLayout s.desc d
  pub writable : s.readonly ≡ false

pub record IsSteady (sys : System) : Type 0 where
  pub desc : Descriptor
  pub bitmap : Bitmap
  pub disk : OnDisk desc bitmap sys.file
  pub handles : (i : ℕ) → IsHandle desc bitmap (sys.handles i)
  pub live : All (IsLive bitmap) sys.live
  pub apart : Apart sys.live

pub SameLayout-back : {a b c : Descriptor} → SameLayout a b → SameLayout c b → SameLayout a c
SameLayout-back p q = record {
  block_size = p.block_size ∙ sym q.block_size;
  total_blocks = p.total_blocks ∙ sym q.total_blocks;
  bitmap_start_block = p.bitmap_start_block ∙ sym q.bitmap_start_block;
  user_start_block = p.user_start_block ∙ sym q.user_start_block;
  user_blocks = p.user_blocks ∙ sym q.user_blocks;
}

module _ {d d' : Descriptor} {bm bm' : Bitmap} (c : Coherent d bm) (c' : Coherent d' bm')
    (same : SameLayout d' d) where
  -- The size of the bitmap is fixed by the layout.
  pub Coherent-bits : bm'.total_bits ≡ bm.total_bits
  Coherent-bits = c'.sized ∙ same.user_blocks ∙ sym c.sized

  pub Coherent-bytes : bm'.total_bytes ≡ bm.total_bytes
  Coherent-bytes = omega (arith, c'.valid.enough, c.valid.enough, Coherent-bits)

  -- The other handles stay handles of the storage.
  pub IsHandle-moved : {s : Storage} → IsHandle d bm s → IsHandle d' bm' s
  IsHandle-moved h = record {
    attached = record {
      bits = h.attached.bits ∙ sym Coherent-bits;
      bytes = h.attached.bytes ∙ sym Coherent-bytes;
      allocated = h.attached.allocated ∙ sym Coherent-bytes;
    };
    layout = SameLayout-back h.layout same;
    writable = h.writable;
  }

-- The handle that made the change has seen it.
pub IsHandle-fresh :
    {d : Descriptor} {bm : Bitmap} {s : Storage}
    → Coherent d bm
    → s.desc ≡ d
    → s.bitmap ≡ bm
    → s.readonly ≡ false
    → IsHandle d bm s
IsHandle-fresh c e e' writable = record {
  attached = record {
    bits = ap (λ (b : Bitmap). b.total_bits) e';
    bytes = ap (λ (b : Bitmap). b.total_bytes) e';
    allocated = ap (λ (b : Bitmap). length b.bytes) e' ∙ c.valid.allocated;
  };
  layout = record {
    block_size = ap (λ (x : Descriptor). x.block_size) e;
    total_blocks = ap (λ (x : Descriptor). x.total_blocks) e;
    bitmap_start_block = ap (λ (x : Descriptor). x.bitmap_start_block) e;
    user_start_block = ap (λ (x : Descriptor). x.user_start_block) e;
    user_blocks = ap (λ (x : Descriptor). x.user_blocks) e;
  };
  writable = writable;
}

pub IsHandle-if :
    {d : Descriptor} {bm : Bitmap} {s t : Storage} (b : Bool)
    → IsHandle d bm s
    → IsHandle d bm t
    → IsHandle d bm (if b then s else t)
IsHandle-if true h k = h
IsHandle-if false h k = k

pub calm-Running : (s : Storage) (f : File) → Running (Unit {0}) s f (calm s f)
calm-Running s f = record { storage = refl; os = record { file = refl; calm = λ u. refl } }

-- A live extent lies in the storage, for every handle.
pub IsLive-InStorage :
    {d : Descriptor} {bm : Bitmap} {s : Storage} {e : Extent}
    → Coherent d bm
    → IsHandle d bm s
    → IsLive bm e
    → InStorage d bm s e
IsLive-InStorage c h l = record {
  coherent = c;
  layout = h.layout;
  inside = omega (arith, l.used.inside l.some_block, c.sized);
}
