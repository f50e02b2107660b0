-- ===== src/Storage/History/Live.antt =====
-- Live extents: their blocks are in use, and no two have a block in common.
use kanek_extents_storage.Common.{
  ℕ, ◌+◌, ◌-◌, ◌≤◌, ◌<◌, ◌^◌, ◌≡◌, inl, inr, true, false, List, [], ◌∷◌, All, arith, dec_lt,
  if◌then◌else◌, max,
}
use kanek_extents_storage.Bitmap.{Bitmap}
use kanek_extents_storage.Bitmap.Bits.{bit}
use kanek_extents_storage.Bitmap.Search.{IsFreeRun}
use kanek_extents_storage.Bitmap.Ranges.{between}
use kanek_extents_storage.Storage.{Extent}
use kanek_extents_storage.Storage.Extents.Release.{IsUsedRun}
use kanek_extents_storage.Storage.Extents.Isolation.{Disjoint}
use kanek_extents_storage.Storage.History.{Takes, here, there}

pub record IsLive (bm : Bitmap) (e : Extent) : Type 0 where
  pub used : IsUsedRun bm e.start_block e.block_count
  pub some_block : 0 < e.block_count
  pub count_small : e.block_count < 2 ^ 32

abbrev pub Apart : List Extent → Type 0
Apart [] = Unit
Apart (e ∷ es) = All (Disjoint e) es × Apart es

pub Disjoint-sym : (a b : Extent) → Disjoint a b → Disjoint b a
Disjoint-sym a b (inl h) = inr h
Disjoint-sym a b (inr h) = inl h

pub Takes-All :
    {e : Extent} {es rest : List Extent} (P : Extent → Type 0)
    → Takes e es rest
    → All P es
    → P e × All P rest
Takes-All P here h = (h.0, h.1)
Takes-All P (there t) h = let (p, q) = Takes-All P t h.1 in (p, (h.0, q))

pub Takes-Apart :
    {e : Extent} {es rest : List Extent}
    → Takes e es rest
    → Apart es
    → All (Disjoint e) rest × Apart rest
Takes-Apart here h = (h.0, h.1)
Takes-Apart {e} (there {x} t) h =
    let (p, q) = Takes-Apart t h.1 in
    let (p', q') = Takes-All (Disjoint x) t h.0 in ((Disjoint-sym x e p', p), (q', q))

pub All-map :
    (es : List Extent) (P Q : Extent → Type 0) → ((e : Extent) → P e → Q e) → All P es → All Q es
All-map [] P Q f h = tt
All-map (x ∷ xs) P Q f h = (f x h.0, All-map xs P Q f h.1)

pub All-zip :
    (es : List Extent) (P Q R : Extent → Type 0)
    → ((e : Extent) → P e → Q e → R e)
    → All P es
    → All Q es
    → All R es
All-zip [] P Q R f g h = tt
All-zip (x ∷ xs) P Q R f g h = (f x g.0 h.0, All-zip xs P Q R f g.1 h.1)

-- A run of free blocks has none in common with a live extent.
pub free-Disjoint :
    (bm : Bitmap) (a e : Extent)
    → IsFreeRun bm e.start_block e.block_count
    → 0 < e.block_count
    → IsLive bm a
    → Disjoint e a
free-Disjoint bm a e run pos l = elim (dec_lt a.start_block (e.start_block + e.block_count)) [
  | no ge ↦ inl (omega arith)
  | yes lt ↦ elim (dec_lt e.start_block (a.start_block + a.block_count)) [
    | no ge ↦ inr (omega arith)
    | yes lt' ↦
        let j = max a.start_block e.start_block in
        let x : a.start_block + (j - a.start_block) ≡ j = ground arith in
        let y : e.start_block + (j - e.start_block) ≡ j = ground arith in
        let on : bit bm.bytes j ≡ true = rw x at (l.used.used (j - a.start_block) (ground arith)) in
        let off : bit bm.bytes j ≡ false = rw y at (run.free (j - e.start_block) (ground arith)) in
        absurd (ground arith)
  ]
]

module _ (bm bm' : Bitmap) (size : bm'.total_bits ≡ bm.total_bits) (e a : Extent) where
  -- A live extent stays one when other blocks are marked or cleared.
  pub IsLive-marked :
      ((j : ℕ)
        → bit bm'.bytes j ≡ (
            if between e.start_block (e.start_block + e.block_count) j
            then true
            else bit bm.bytes j))
      → IsLive bm a
      → IsLive bm' a
  IsLive-marked bits l = record {
    used = record {
      used = λ i lt. ground (arith, bits (a.start_block + i), l.used.used i lt);
      inside = λ pos. omega (arith, l.used.inside pos, size);
    };
    some_block = l.some_block;
    count_small = l.count_small;
  }

  pub IsLive-cleared :
      ((j : ℕ)
        → bit bm'.bytes j ≡ (
            if between e.start_block (e.start_block + e.block_count) j
            then false
            else bit bm.bytes j))
      → Disjoint e a
      → IsLive bm a
      → IsLive bm' a
  IsLive-cleared bits apart l = record {
    used = record {
      used = λ i lt. ground (arith, bits (a.start_block + i), l.used.used i lt);
      inside = λ pos. omega (arith, l.used.inside pos, size);
    };
    some_block = l.some_block;
    count_small = l.count_small;
  }

  -- A run that was marked is live.
  pub IsLive-new :
      ((j : ℕ)
        → bit bm'.bytes j ≡ (
            if between e.start_block (e.start_block + e.block_count) j
            then true
            else bit bm.bytes j))
      → e.start_block + e.block_count ≤ bm.total_bits
      → 0 < e.block_count
      → e.block_count < 2 ^ 32
      → IsLive bm' e
  IsLive-new bits le pos small = record {
    used = record {
      used = λ i lt. ground (arith, bits (e.start_block + i));
      inside = λ pos. omega (arith, size);
    };
    some_block = pos;
    count_small = small;
  }
