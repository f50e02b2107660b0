-- ===== src/Cache/Shape.antt =====
-- The representation of the cache in src/kes_cache.c: every entry is in the LRU list and in the
-- chain of its bucket, and no two entries have equal identifiers.
pub mod Moves
pub mod Table
pub mod Insert
use kanek_extents_storage.Common.{ℕ, true, ◌&&◌, ◌==◌, List, none, ◌≡◌}
use kanek_extents_storage.Cache.{Cache, kes_extent_equal, bucket_idx}
use kanek_extents_storage.Cache.Chain.{has, Distinct, Linked, last}
use kanek_extents_storage.Cache.Links.{list_next_of, list_prev_of, hash_next_of, hash_prev_of}

-- The addresses of the entries, from the most to the least recently used.
pub record Shape {D : Type 0} (c : Cache D) (xs : List ℕ) : Type 0 where
  pub distinct : Distinct xs
  pub lru : Linked (list_next_of c) (list_prev_of c) none xs c.mru_head
  pub tail : c.lru_tail ≡ last none xs
  pub chains : ℕ → List ℕ
  pub chain_distinct : (b : ℕ) → Distinct (chains b)
  pub chain : (b : ℕ) → Linked (hash_next_of c) (hash_prev_of c) none (chains b) (c.buckets b)
  pub chain_has : (b q : ℕ) → has (chains b) q ≡ (has xs q && (bucket_idx c (c.heap q).id == b))
  pub unique :
      (p q : ℕ)
      → has xs p ≡ true
      → has xs q ≡ true
      → kes_extent_equal (c.heap p).id (c.heap q).id ≡ true
      → p ≡ q
