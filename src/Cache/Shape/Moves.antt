-- ===== src/Cache/Shape/Moves.antt =====
-- What keeps the representation of the cache in src/kes_cache.c: writes that spare the links, and
-- the moves of lru_touch.
use kanek_extents_storage.Common.{
  ℕ, true, false, ◌==◌, ==_iff, List, [], ◌∷◌, Option, none, ◌≡◌, refl, sym, ap, ◌∙◌, subst, arith,
  inl, inr, Bool-cases,
}
use kanek_extents_storage.Cache.{ExtentId, Entry, Cache, kes_extent_equal, points}
use kanek_extents_storage.Cache.Lists.{lru_add_head, lru_remove, lru_touch}
use kanek_extents_storage.Cache.Chain.{
  has, Distinct, delete, Linked, last, Linked-agree, has-delete, Distinct-delete, unlinked,
}
use kanek_extents_storage.Cache.Chain.Unlink.{Linked-unlinked}
use kanek_extents_storage.Cache.Chain.Ends.{
  Linked-cons, last-cons, last-delete, head-delete, linked_next, linked_prev,
}
use kanek_extents_storage.Cache.Links
use kanek_extents_storage.Cache.Links.{
  list_next_of, list_prev_of, hash_next_of, hash_prev_of, payload,
}
use kanek_extents_storage.Cache.Shape.{Shape}

-- The part of an entry that the lists depend on.
abbrev pub skeleton : Entry → ExtentId × Option ℕ × Option ℕ × Option ℕ × Option ℕ
skeleton e = (e.id, e.list_next, e.list_prev, e.hash_next, e.hash_prev)

module _ {D : Type 0} where
  -- The links of the LRU list, with its two ends.
  abbrev pub IsLru : Cache D → List ℕ → Type 0
  IsLru c xs =
      Linked (list_next_of c) (list_prev_of c) none xs c.mru_head × (c.lru_tail ≡ last none xs)

  pub Shape-agree :
      (c c' : Cache D) (xs : List ℕ)
      → c'.mru_head ≡ c.mru_head
      → c'.lru_tail ≡ c.lru_tail
      → c'.buckets ≡ c.buckets
      → c'.bucket_mask ≡ c.bucket_mask
      → ((q : ℕ) → has xs q ≡ true → skeleton (c'.heap q) ≡ skeleton (c.heap q))
      → Shape c xs
      → Shape c' xs
  Shape-agree c c' xs m t b k same h =
      let inside : (i q : ℕ) → has (h.chains i) q ≡ true → has xs q ≡ true =
        λ i q j. ground (arith, sym (h.chain_has i q) ∙ j) in
      record {
        distinct = h.distinct;
        lru = rw m (
            Linked-agree (list_next_of c) (list_prev_of c) (list_next_of c') (list_prev_of c') none
              xs c.mru_head (λ q i. ap (λ s. s.1) (same q i)) (λ q i. ap (λ s. s.2) (same q i))
              h.lru);
        tail = t ∙ h.tail;
        chains = h.chains;
        chain_distinct = h.chain_distinct;
        chain = λ i. rw b (
            Linked-agree (hash_next_of c) (hash_prev_of c) (hash_next_of c') (hash_prev_of c') none
              (h.chains i) (c.buckets i) (λ q j. ap (λ s. s.3) (same q (inside i q j)))
              (λ q j. ap (λ s. s.4) (same q (inside i q j))) (h.chain i));
        chain_has = λ i q. elim (Bool-cases (has xs q)) [
          | inl j ↦ rw (ap (λ s. s.0) (same q j), k) (h.chain_has i q)
          | inr j ↦ rw j (h.chain_has i q ∙ rw j refl)
        ];
        unique = λ p q ip iq e. h.unique p q ip iq (
            subst (λ x. kes_extent_equal x (c.heap q).id ≡ true) (ap (λ s. s.0) (same p ip))
              (subst (λ x. kes_extent_equal (c'.heap p).id x ≡ true) (ap (λ s. s.0) (same q iq))
                e));
      }

  pub Shape-same :
      (c c' : Cache D) (xs : List ℕ)
      → c'.mru_head ≡ c.mru_head
      → c'.lru_tail ≡ c.lru_tail
      → c'.buckets ≡ c.buckets
      → c'.bucket_mask ≡ c.bucket_mask
      → ((q : ℕ) → skeleton (c'.heap q) ≡ skeleton (c.heap q))
      → Shape c xs
      → Shape c' xs
  Shape-same c c' xs m t b k same h = Shape-agree c c' xs m t b k (λ q i. same q) h

  pub IsLru-lru_remove :
      (c : Cache D) (xs : List ℕ) (p : ℕ)
      → Distinct xs
      → has xs p ≡ true
      → IsLru c xs
      → IsLru (lru_remove p c) (delete p xs)
  unfolding lru_remove
  IsLru-lru_remove c xs p d i h = (
    rw
        (head-delete (list_next_of c) (list_prev_of c) xs c.mru_head p (list_next_of c p) c.mru_head
          h.0 i)
        (Linked-agree (unlinked (list_next_of c) (list_prev_of c) p)
          (unlinked (list_prev_of c) (list_next_of c) p) (list_next_of (lru_remove p c))
          (list_prev_of (lru_remove p c)) none (delete p xs) _
          (λ q _. Links.list_next-lru_remove c p q) (λ q _. Links.list_prev-lru_remove c p q)
          (Linked-unlinked (list_next_of c) (list_prev_of c) none xs c.mru_head p d (λ q _. refl)
            h.0 i)),
    rw h.1 (sym (last-delete (list_next_of c) (list_prev_of c) none xs c.mru_head p h.0 i)),
  )

  pub IsLru-lru_add_head :
      (c : Cache D) (xs : List ℕ) (p : ℕ)
      → Distinct (p ∷ xs)
      → IsLru c xs
      → IsLru (lru_add_head p c) (p ∷ xs)
  unfolding lru_add_head
  IsLru-lru_add_head c xs p d h = (
    Linked-agree (linked_next (list_next_of c) p c.mru_head)
        (linked_prev (list_prev_of c) p c.mru_head) (list_next_of (lru_add_head p c))
        (list_prev_of (lru_add_head p c)) none (p ∷ xs) _
        (λ q _. Links.list_next-lru_add_head c p q) (λ q _. Links.list_prev-lru_add_head c p q)
        (Linked-cons (list_next_of c) (list_prev_of c) xs c.mru_head p d h.0),
    rw h.1 (last-cons p xs),
  )

  pub lru_touch_head : (c : Cache D) (p : ℕ) → points c.mru_head p ≡ true → lru_touch p c ≡ c
  unfolding lru_touch
  lru_touch_head c p e = rw e refl

  pub lru_touch_other :
      (c : Cache D) (p : ℕ)
      → points c.mru_head p ≡ false
      → lru_touch p c ≡ lru_add_head p (lru_remove p c)
  unfolding lru_touch
  lru_touch_other c p e = rw e refl

  pub IsLru-lru_touch :
      (c : Cache D) (xs : List ℕ) (p : ℕ)
      → Distinct xs
      → has xs p ≡ true
      → IsLru c xs
      → IsLru (lru_touch p c) (p ∷ delete p xs)
  IsLru-lru_touch c [] p d i h = absurd (ground arith)
  IsLru-lru_touch c (x ∷ xs) p d i h = elim (Bool-cases (x == p)) [
    | inl e ↦
        let list : x ∷ xs ≡ p ∷ delete p (x ∷ xs) = rw e (ap (λ q. q ∷ xs) ((==_iff x p).0 e)) in
        subst (IsLru (lru_touch p c)) list
          (subst (λ z. IsLru z (x ∷ xs)) (sym (lru_touch_head c p (rw h.0.0 e))) h)
    | inr e ↦
        subst (λ z. IsLru z (p ∷ delete p (x ∷ xs))) (sym (lru_touch_other c p (rw h.0.0 e)))
          (IsLru-lru_add_head (lru_remove p c) (delete p (x ∷ xs)) p
            (
              rw (has-delete (x ∷ xs) p p d, i, (==_iff p p).1 refl) refl,
              Distinct-delete (x ∷ xs) p d,
            )
            (IsLru-lru_remove c (x ∷ xs) p d i h))
  ]
