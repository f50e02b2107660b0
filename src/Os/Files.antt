-- ===== src/Os/Files.antt =====
-- A file as a size and a function from offsets to bytes.
use kanek_extents_storage.Common.{
  ℕ, zero, suc, ◌+◌, ◌-◌, ◌≤◌, ◌<◌, max, ◌≡◌, refl, ap, ap₂, ◌⊎◌, ◌&&◌, leb, ltb, ◌==◌,
  if◌then◌else◌, List, [], ◌∷◌, length, get_or, arith, get_or_ext, get_or_beyond, dec_lt,
}

pub record File : Type 0 where
  pub size : ℕ
  pub byte : ℕ → ℕ

-- The `n` bytes from `offset` on.
pub window : File → ℕ → ℕ → List ℕ
window f offset zero = []
window f offset (suc n) = f.byte offset ∷ window f (offset + 1) n

-- Writing `bytes` at `offset`; a gap behind the old end is filled with zeros.
pub write_at : ℕ → List ℕ → File → File
write_at offset bytes f =
    let end = offset + length bytes in
    record {
      size = if length bytes == 0 then f.size else max f.size end;
      byte = λ i.
          if leb offset i && ltb i end
          then get_or bytes (i - offset) 0
          else if ltb i f.size
          then f.byte i
          else 0;
    }

pub length-window : (f : File) (offset n : ℕ) → length (window f offset n) ≡ n
unfolding window
length-window f offset zero = refl
length-window f offset (suc n) = ap suc (length-window f (offset + 1) n)

pub get_or-window :
    (f : File) (offset n i : ℕ) → i < n → get_or (window f offset n) i 0 ≡ f.byte (offset + i)
unfolding window
get_or-window f offset zero i h = absurd (omega arith)
get_or-window f offset (suc n) zero h = let e : offset + 0 ≡ offset = omega arith in rw e refl
get_or-window f offset (suc n) (suc i) h =
    let e : offset + suc i ≡ offset + 1 + i = omega arith in
    rw e (get_or-window f (offset + 1) n i (omega arith))

pub window_ext :
    (f g : File) (offset n : ℕ)
    → ((i : ℕ) → i < n → f.byte (offset + i) ≡ g.byte (offset + i))
    → window f offset n ≡ window g offset n
unfolding window
window_ext f g offset zero h = refl
window_ext f g offset (suc n) h =
    let e : offset + 0 ≡ offset = omega arith in
    let head : f.byte offset ≡ g.byte offset = rw e at (h 0 (omega arith)) in
    ap₂ ◌∷◌ head (
      window_ext f g (offset + 1) n λ i lt.
        let e' : offset + suc i ≡ offset + 1 + i = omega arith in
        rw e' at (h (suc i) (omega arith)))

-- What was written is read back.
pub window-write_at_self :
    (f : File) (offset n : ℕ) (bytes : List ℕ)
    → length bytes ≡ n
    → window (write_at offset bytes f) offset n ≡ bytes
window-write_at_self f offset n bytes e =
    get_or_ext 0 _ bytes (ground (arith, length-window (write_at offset bytes f) offset n)) λ i.
      elim (dec_lt i n) [
        | yes lt ↦ rw (get_or-window (write_at offset bytes f) offset n i lt) (inside i lt)
        | no ge ↦ outside i ge
      ]
  where
    inside : (i : ℕ) → i < n → (write_at offset bytes f).byte (offset + i) ≡ get_or bytes i 0
    inside i lt = let d : offset + i - offset ≡ i = omega arith in unfold write_at in ground arith

    outside :
        (i : ℕ)
        → ¬ (i < n)
        → get_or (window (write_at offset bytes f) offset n) i 0 ≡ get_or bytes i 0
    outside i ge = ground (
      arith,
      get_or_beyond bytes i 0,
      get_or_beyond (window (write_at offset bytes f) offset n) i 0,
      length-window (write_at offset bytes f) offset n,
    )

pub byte-write_at_ne :
    (f : File) (offset i : ℕ) (bytes : List ℕ)
    → (i < offset) ⊎ (offset + length bytes ≤ i)
    → i < f.size
    → (write_at offset bytes f).byte i ≡ f.byte i
unfolding write_at
byte-write_at_ne f offset i bytes h lt = ground arith

-- Bytes that lie elsewhere in the file stay.
pub window-write_at_ne :
    (f : File) (offset from n : ℕ) (bytes : List ℕ)
    → (from + n ≤ offset) ⊎ (offset + length bytes ≤ from)
    → from + n ≤ f.size
    → window (write_at offset bytes f) from n ≡ window f from n
window-write_at_ne f offset from n bytes h le =
    window_ext (write_at offset bytes f) f from n
      λ i lt. byte-write_at_ne f offset (from + i) bytes (ground arith) (omega arith)

pub size-write_at :
    (f : File) (offset : ℕ) (bytes : List ℕ)
    → (f.size ≤ (write_at offset bytes f).size)
      × (0 < length bytes → offset + length bytes ≤ (write_at offset bytes f).size)
unfolding write_at
size-write_at f offset bytes = (ground arith, λ h. ground arith)
