-- ===== src/Storage/History/Reachable.antt =====
-- Every history keeps the storage steady, and every step the bytes of the extents that it is not
-- about.
use kanek_extents_storage.Common.{ℕ, ◌+◌, ◌≤◌, ◌<◌, ◌^◌, ◌≡◌, inl, List, [], ◌∷◌, All, arith}
use kanek_extents_storage.Os.Files.{File, window, window_ext}
use kanek_extents_storage.Storage.{Extent, bitmap_offset}
use kanek_extents_storage.Storage.Steps.{KeepsUser}
use kanek_extents_storage.Storage.Extents.Access.{InStorage-bounds, first_byte, extent_bytes}
use kanek_extents_storage.Storage.Extents.Isolation.{
  Disjoint, Keeps-written, Keeps-window, Disjoint-bytes,
}
use kanek_extents_storage.Storage.History.{
  System, Step, allocates, frees, writes, Reaches, start, one_more,
}
use kanek_extents_storage.Storage.History.Live.{IsLive, Takes-All}
use kanek_extents_storage.Storage.History.Steady.{IsSteady, IsLive-InStorage}
use kanek_extents_storage.Storage.History.Preserves.{
  allocated, allocates-IsSteady, freed, frees-IsSteady, write_done, writes-IsSteady,
}

module _ (crc : List ℕ → ℕ) (crc_lt : (bytes : List ℕ) → crc bytes < 2 ^ 32) where
  Step-IsSteady : {sys sys' : System} → IsSteady sys → Step crc sys sys' → IsSteady sys'
  Step-IsSteady {sys} v (allocates i request w e pos small eq) =
      allocates-IsSteady crc crc_lt sys v i request w e pos small
        (allocated crc crc_lt sys v i request w e pos eq)
  Step-IsSteady {sys} v (frees i e rest w t eq) =
      frees-IsSteady crc crc_lt sys v i e rest w t
        (freed crc crc_lt sys v i e w (Takes-All (IsLive v.bitmap) t v.live).0 eq)
  Step-IsSteady {sys} v (writes i e rest buffer offset w t small eq) =
      let l = (Takes-All (IsLive v.bitmap) t v.live).0 in
      let (le, a) = write_done crc crc_lt sys v i e buffer offset w l small eq in
      writes-IsSteady crc crc_lt sys v i e buffer offset w l le a

-- From a file that holds a well-formed storage, with any number of writable handles on it whose views
-- may be out of date, every sequence of successful allocations of at least one and fewer than 2 ^ 32
-- blocks, frees of live extents, and writes to live extents whose offset and length add up to less
-- than 2 ^ 64, through any of the handles and with no failing system call, leads to a state of the
-- same kind: the file holds a well-formed storage, the blocks of every live extent are in use, and no
-- two live extents have a block in common, though the handles do not know of each other.
pub Reaches-IsSteady :
    (crc : List ℕ → ℕ) (crc_lt : (bytes : List ℕ) → crc bytes < 2 ^ 32) (sys sys' : System)
    → IsSteady sys
    → Reaches crc sys sys'
    → IsSteady sys'
Reaches-IsSteady crc crc_lt sys sys' v start = v
Reaches-IsSteady crc crc_lt sys sys' v (one_more {mid} r step) =
    Step-IsSteady crc crc_lt (Reaches-IsSteady crc crc_lt sys mid v r) step

-- The extents that a step writes to.
abbrev pub written_by : {crc : List ℕ → ℕ} {sys sys' : System} → Step crc sys sys' → List Extent
written_by (allocates i request w e pos small eq) = []
written_by (frees i e rest w t eq) = []
written_by (writes i e rest buffer offset w t small eq) = e ∷ []

KeepsUser-window :
    (offset n from m : ℕ) (f g : File)
    → KeepsUser offset n f g
    → 112 ≤ from
    → from + m ≤ offset
    → from + m ≤ f.size
    → window g from m ≡ window f from m
KeepsUser-window offset n from m f g k lo hi le =
    window_ext g f from m λ j lt. k.kept (from + j) (omega arith) (inl (omega arith)) (omega arith)

-- From such a state, a step of such a sequence, its writes again with an offset and a length that add
-- up to less than 2 ^ 64, leaves every byte of every live extent as it was, unless it is a write to an
-- extent that has a block in common with it.
pub Step-bytes :
    (crc : List ℕ → ℕ) (crc_lt : (bytes : List ℕ) → crc bytes < 2 ^ 32) (sys sys' : System)
    (v : IsSteady sys) (step : Step crc sys sys') (x : Extent)
    → IsLive v.bitmap x
    → All (Disjoint x) (written_by step)
    → window sys'.file (first_byte v.desc x) (extent_bytes v.desc x)
      ≡ window sys.file (first_byte v.desc x) (extent_bytes v.desc x)
Step-bytes crc crc_lt sys sys' v (allocates i request w e pos small eq) x l apart =
    let bounds =
      InStorage-bounds v.desc v.bitmap (sys.handles i) x
        (IsLive-InStorage v.disk.coherent (v.handles i) l) in
    let a = allocated crc crc_lt sys v i request w e pos eq in
    KeepsUser-window (bitmap_offset v.desc) v.bitmap.total_bytes (first_byte v.desc x)
      (extent_bytes v.desc x) sys.file w.os.file a.user_data (omega (arith, bounds))
      (omega (arith, bounds)) (omega (arith, bounds, v.disk.in_file))
Step-bytes crc crc_lt sys sys' v (frees i e rest w t eq) x l apart =
    let bounds =
      InStorage-bounds v.desc v.bitmap (sys.handles i) x
        (IsLive-InStorage v.disk.coherent (v.handles i) l) in
    let a = freed crc crc_lt sys v i e w (Takes-All (IsLive v.bitmap) t v.live).0 eq in
    KeepsUser-window (bitmap_offset v.desc) v.bitmap.total_bytes (first_byte v.desc x)
      (extent_bytes v.desc x) sys.file w.os.file a.user_data (omega (arith, bounds))
      (omega (arith, bounds)) (omega (arith, bounds, v.disk.in_file))
Step-bytes crc crc_lt sys sys' v (writes i e rest buffer offset w t small eq) x l apart =
    let bounds =
      InStorage-bounds v.desc v.bitmap (sys.handles i) x
        (IsLive-InStorage v.disk.coherent (v.handles i) l) in
    let l' = (Takes-All (IsLive v.bitmap) t v.live).0 in
    let (le, a) = write_done crc crc_lt sys v i e buffer offset w l' small eq in
    let place = first_byte v.desc e + offset in
    rw a.os.file (
      Keeps-window (first_byte v.desc x) (extent_bytes v.desc x)
        (Keeps-written sys.file place buffer) (ground (arith, Disjoint-bytes v.desc x e apart.0))
        (omega (arith, bounds, v.disk.in_file)))
