-- ===== src/Storage/History.antt =====
-- Many handles on one file: the successful calls of kes_extent_allocate, kes_extent_free and
-- kes_extent_write as steps, in any order and through any of the handles, which do not tell each
-- other what they do. The clients write and free only extents that are live, and no write has an
-- offset and a length that wrap around in the bounds check of the code. No system call fails.
pub mod Live
pub mod Steady
pub mod Preserves
pub mod Reachable
use kanek_extents_storage.Common.{
  ℕ, ◌+◌, ◌*◌, ◌≤◌, ◌<◌, ◌^◌, ◌≡◌, ◌⊎◌, Bool, true, false, ◌==◌, if◌then◌else◌, List, [], ◌∷◌,
  length, Result, ok, success,
}
use kanek_extents_storage.Os.Files.{File}
use kanek_extents_storage.Storage.{Storage, World, Extent, Request}
use kanek_extents_storage.Storage.Extents.{kes_extent_allocate, kes_extent_free, kes_extent_write}

-- The file, the handles by number, and the extents that were allocated and not yet freed.
pub record System : Type 0 where
  pub file : File
  pub handles : ℕ → Storage
  pub live : List Extent

-- One handle with the system, where nothing fails.
abbrev pub calm : Storage → File → World
calm s f = record { storage = s; os = record { file = f; pos = 0; plan = [] } }

abbrev pub replace : (ℕ → Storage) → ℕ → Storage → ℕ → Storage
replace handles i s j = if i == j then s else handles j

-- Taking one extent out of a list.
pub data Takes (e : Extent) : List Extent → List Extent → Type 0 where
  here : {es : List Extent} → Takes e (e ∷ es) es
  there : {x : Extent} {es es' : List Extent} → Takes e es es' → Takes e (x ∷ es) (x ∷ es')

module _ (crc : List ℕ → ℕ) where
  pub data Step (sys : System) : System → Type 0 where
    allocates :
        (i : ℕ) (request : Request) (w : World) (e : Extent)
        → 0 < request.block_count
        → request.block_count < 2 ^ 32
        → kes_extent_allocate crc request (calm (sys.handles i) sys.file) ≡ (w, ok e)
        → Step sys (record {
          file = w.os.file;
          handles = replace sys.handles i w.storage;
          live = e ∷ sys.live;
        })
    frees :
        (i : ℕ) (e : Extent) (rest : List Extent) (w : World)
        → Takes e sys.live rest
        → kes_extent_free crc e (calm (sys.handles i) sys.file) ≡ (w, success)
        → Step sys
            (record { file = w.os.file; handles = replace sys.handles i w.storage; live = rest })
    writes :
        (i : ℕ) (e : Extent) (rest : List Extent) (buffer : List ℕ) (offset : ℕ) (w : World)
        → Takes e sys.live rest
        → offset + length buffer < 2 ^ 64
        → kes_extent_write e buffer offset (calm (sys.handles i) sys.file) ≡ (w, success)
        → Step sys (record {
          file = w.os.file;
          handles = replace sys.handles i w.storage;
          live = sys.live;
        })

  -- What some sequence of steps leads to.
  pub data Reaches (sys : System) : System → Type 0 where
    start : Reaches sys sys
    one_more : {mid last : System} → Reaches sys mid → Step mid last → Reaches sys last
