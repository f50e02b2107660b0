-- ===== src/Cache/Find.antt =====
-- The lookups of src/kes_cache.c: hash_find and hash_find_or_insert on a well-formed cache.
use kanek_extents_storage.Common.{
  bit_and, ℕ, zero, suc, ◌≤◌, true, false, ◌==◌, ==_iff, if◌then◌else◌, List, [], ◌∷◌, length,
  Option, none, some, ◌≡◌, refl, sym, ap, ◌∙◌, subst, arith, ◌⊎◌, inl, inr, Bool-cases,
}
use kanek_extents_storage.Cache.{
  ExtentId, Entry, Cache, kes_extent_equal, kes_extent_hash, bucket_idx, store,
}
use kanek_extents_storage.Cache.Lists.{
  find_in_chain, hash_find, hash_find_or_insert, hash_insert, pin_lookup,
}
use kanek_extents_storage.Cache.Chain.{has, Linked, length_sub}
use kanek_extents_storage.Cache.Links.{hash_prev_of}
use kanek_extents_storage.Cache.Shape.{Shape}
use kanek_extents_storage.Cache.Shape.Insert.{Absent}

-- Equal identifiers have equal fields, so they are in the same bucket.
pub kes_extent_hash-equal :
    (a b : ExtentId) → kes_extent_equal a b ≡ true → kes_extent_hash a ≡ kes_extent_hash b
unfolding kes_extent_equal kes_extent_hash
kes_extent_hash-equal a b e =
    let start : (a.start_block == b.start_block) ≡ true = ground arith in
    let count : (a.block_count == b.block_count) ≡ true = ground arith in
    let size : (a.block_size == b.block_size) ≡ true = ground arith in
    rw ((==_iff _ _).0 start, (==_iff _ _).0 count, (==_iff _ _).0 size) refl

-- The first entry of a list with the identifier.
abbrev pub find_id : (ℕ → Entry) → ExtentId → List ℕ → Option ℕ
find_id heap id [] = none
find_id heap id (x ∷ xs) = if kes_extent_equal (heap x).id id then some x else find_id heap id xs

pub find_in_chain_lem :
    (fuel : ℕ) (heap : ℕ → Entry) (id : ExtentId) (prev : ℕ → Option ℕ) (before : Option ℕ)
    (ys : List ℕ) (first : Option ℕ)
    → Linked (λ q. (heap q).hash_next) prev before ys first
    → length ys ≤ fuel
    → find_in_chain fuel heap id first ≡ find_id heap id ys
unfolding find_in_chain
find_in_chain_lem fuel heap id prev before [] first l n = rw l refl
find_in_chain_lem zero heap id prev before (y ∷ ys) first l n = absurd (omega arith)
find_in_chain_lem (suc fuel) heap id prev before (y ∷ ys) first l n =
    rw (l.0, find_in_chain_lem fuel heap id prev (some y) ys (heap y).hash_next l.2 (omega arith))
      refl

pub find_id-cases :
    (heap : ℕ → Entry) (id : ExtentId) (ys : List ℕ)
    → ((p : ℕ) × (find_id heap id ys ≡ some p)
        × (has ys p ≡ true)
        × (kes_extent_equal (heap p).id id ≡ true))
      ⊎ ((find_id heap id ys ≡ none)
          × ((q : ℕ) → has ys q ≡ true → kes_extent_equal (heap q).id id ≡ false))
find_id-cases heap id [] = inr (refl, λ q i. absurd (ground arith))
find_id-cases heap id (y ∷ ys) = elim (Bool-cases (kes_extent_equal (heap y).id id)) [
  | inl e ↦ inl (y, rw e refl, rw ((==_iff y y).1 refl) refl, e)
  | inr e ↦ elim (find_id-cases heap id ys) [
    | inl z ↦ inl (z.0, rw e z.1, ground (arith, z.2), z.3)
    | inr z ↦ inr (
      rw e z.0,
      λ q i. elim (Bool-cases (y == q)) [
        | inl f ↦ subst (λ q. kes_extent_equal (heap q).id id ≡ false) ((==_iff y q).0 f) e
        | inr f ↦ z.1 q (ground arith)
      ],
    )
  ]
]

module _ {D : Type 0} where
  abbrev pub found : Cache D → ExtentId → Option ℕ
  found c id = find_in_chain c.stats.entries_cached c.heap id (c.buckets (bucket_idx c id))

  pub found-cases :
      (c : Cache D) (xs : List ℕ) (id : ExtentId)
      → Shape c xs
      → c.stats.entries_cached ≡ length xs
      → ((p : ℕ) × (found c id ≡ some p)
          × (has xs p ≡ true)
          × (kes_extent_equal (c.heap p).id id ≡ true))
        ⊎ ((found c id ≡ none) × Absent c xs id)
  found-cases c xs id h n =
      let ys = h.chains (bucket_idx c id) in
      let inside : (q : ℕ) → has ys q ≡ true → has xs q ≡ true =
        λ q i. ground (arith, sym (h.chain_has (bucket_idx c id) q) ∙ i) in
      let enough = length_sub ys xs (h.chain_distinct (bucket_idx c id)) (λ q i. inside q i) in
      let same : found c id ≡ find_id c.heap id ys =
        find_in_chain_lem c.stats.entries_cached c.heap id (hash_prev_of c) none ys
          (c.buckets (bucket_idx c id)) (h.chain (bucket_idx c id)) (omega (arith, n, enough)) in
      elim (find_id-cases c.heap id ys) [
        | inl z ↦ inl (z.0, same ∙ z.1, inside z.0 z.2, z.3)
        | inr z ↦ inr (
          same ∙ z.0,
          λ q i. elim (Bool-cases (kes_extent_equal (c.heap q).id id)) [
            | inl e ↦
                let b =
                  ap (λ n. bit_and n c.bucket_mask) (kes_extent_hash-equal (c.heap q).id id e) in
                let j : has ys q ≡ true =
                  rw (h.chain_has (bucket_idx c id) q, i, b) ((==_iff _ _).1 refl) in
                z.1 q j
            | inr e ↦ e
          ],
        )
      ]

  -- On a well-formed hash table, hash_find returns an entry with the identifier and pins it; or
  -- no entry of the cache has the identifier, it returns NULL and changes nothing.
  pub hash_find-cases :
      (c : Cache D) (xs : List ℕ) (id : ExtentId)
      → Shape c xs
      → c.stats.entries_cached ≡ length xs
      → ((p : ℕ) × (hash_find c id ≡ (pin_lookup (some p) c, some p))
          × (has xs p ≡ true)
          × (kes_extent_equal (c.heap p).id id ≡ true))
        ⊎ ((hash_find c id ≡ (c, none)) × Absent c xs id)
  unfolding hash_find store
  hash_find-cases c xs id h n = elim (found-cases c xs id h n) [
    | inl z ↦ inl (z.0, rw z.1 refl, z.2, z.3)
    | inr z ↦ inr (rw z.0 refl, z.1)
  ]

  pub hash_find_or_insert-cases :
      (c : Cache D) (xs : List ℕ) (p : ℕ)
      → Shape c xs
      → c.stats.entries_cached ≡ length xs
      → ((q : ℕ) × (hash_find_or_insert p c ≡ (pin_lookup (some q) c, some q))
          × (has xs q ≡ true)
          × (kes_extent_equal (c.heap q).id (c.heap p).id ≡ true))
        ⊎ ((hash_find_or_insert p c ≡ (hash_insert p c, none)) × Absent c xs (c.heap p).id)
  unfolding hash_find_or_insert store
  hash_find_or_insert-cases c xs p h n = elim (found-cases c xs (c.heap p).id h n) [
    | inl z ↦ inl (z.0, rw z.1 refl, z.2, z.3)
    | inr z ↦ inr (rw z.0 refl, z.1)
  ]
