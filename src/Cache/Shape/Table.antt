-- ===== src/Cache/Shape/Table.antt =====
-- What keeps the representation of the cache in src/kes_cache.c: the eviction of an entry and the
-- insertion of a candidate.
use kanek_extents_storage.Common.{
  ℕ, Bool, true, false, not, ◌&&◌, ◌==◌, ==_iff, List, none, ◌≡◌, refl, sym, ap, ◌∙◌, subst, arith,
  inl, inr, Bool-cases,
}
use kanek_extents_storage.Cache.{Cache, kes_extent_equal, bucket_idx}
use kanek_extents_storage.Cache.Lists.{lru_remove, hash_remove, drop_entry, extent_free_data}
use kanek_extents_storage.Cache.Chain.{
  has, delete, Linked, Linked-agree, has-delete, Distinct-delete, unlinked, delete_absent,
}
use kanek_extents_storage.Cache.Chain.Unlink.{Linked-unlinked, Linked-elsewhere}
use kanek_extents_storage.Cache.Chain.Ends.{head-delete}
use kanek_extents_storage.Cache.Links
use kanek_extents_storage.Cache.Links.{
  list_next_of, list_prev_of, hash_next_of, hash_prev_of, payload,
}
use kanek_extents_storage.Cache.Shape.{Shape}
use kanek_extents_storage.Cache.Shape.Moves.{IsLru, IsLru-lru_remove}

and_swap : (a b c : Bool) → ((a && b) && c) ≡ ((a && c) && b)
and_swap a b c = ground arith

one_bucket :
    (u : Bool) (x y b : ℕ) → (u && (x == b)) ≡ true → (y == b) ≡ false → (u && (x == y)) ≡ false
one_bucket u x y b h e = ground arith

module _ {D : Type 0} where
  abbrev pub bucket_of : Cache D → ℕ → ℕ
  bucket_of c p = bucket_idx c (c.heap p).id

  -- An address is in the chain of one bucket.
  pub other :
      (c : Cache D) (xs : List ℕ) (h : Shape c xs) (p q b : ℕ)
      → (bucket_of c p == b) ≡ false
      → has (h.chains b) q ≡ true
      → has (h.chains (bucket_of c p)) q ≡ false
  other c xs h p q b e j =
      let here_b = sym (h.chain_has b q) ∙ j in
      let there_b = h.chain_has (bucket_of c p) q in
      rw there_b (one_bucket (has xs q) (bucket_of c q) (bucket_of c p) b here_b e)

  chain-hash_remove :
      (c : Cache D) (xs : List ℕ) (p b : ℕ) (h : Shape c xs)
      → has xs p ≡ true
      → Linked
          (hash_next_of (hash_remove p c))
          (hash_prev_of (hash_remove p c))
          none
          (delete p (h.chains b))
          ((hash_remove p c).buckets b)
  chain-hash_remove c xs p b h i =
      Linked-agree (unlinked (hash_next_of c) (hash_prev_of c) p)
        (unlinked (hash_prev_of c) (hash_next_of c) p) (hash_next_of (hash_remove p c))
        (hash_prev_of (hash_remove p c)) none (delete p (h.chains b)) _
        (λ q _. Links.hash_next-hash_remove c p q) (λ q _. Links.hash_prev-hash_remove c p q)
        (elim (Bool-cases (bucket_of c p == b)) [
          | inl e ↦
              let at_p : has (h.chains b) p ≡ true = rw (h.chain_has b p, i, e) refl in
              rw
                (
                  e,
                  head-delete (hash_next_of c) (hash_prev_of c) (h.chains b) (c.buckets b) p
                      (hash_next_of c p) (c.buckets b) (h.chain b) at_p,
                )
                (Linked-unlinked (hash_next_of c) (hash_prev_of c) none (h.chains b) (c.buckets b) p
                  (h.chain_distinct b) (λ q _. refl) (h.chain b) at_p)
          | inr e ↦
              let off : has (h.chains b) p ≡ false = rw (h.chain_has b p, i, e) refl in
              rw (e, delete_absent (h.chains b) p off)
                (Linked-elsewhere (hash_next_of c) (hash_prev_of c) (h.chains b)
                  (h.chains (bucket_of c p)) (c.buckets b) (c.buckets (bucket_of c p)) p
                  (h.chain (bucket_of c p))
                  (rw (h.chain_has (bucket_of c p) p, i) ((==_iff _ _).1 refl))
                  (λ q j. other c xs h p q b e j) (h.chain b))
        ])

  pub payload-drop_entry :
      (c : Cache D) (p q : ℕ) → payload ((drop_entry p c).heap q) ≡ payload (c.heap q)
  unfolding extent_free_data
  payload-drop_entry c p q =
      Links.payload-lru_remove (hash_remove p c) p q ∙ Links.payload-hash_remove c p q

  IsLru-hash_remove : (c : Cache D) (xs : List ℕ) (p : ℕ) → IsLru c xs → IsLru (hash_remove p c) xs
  IsLru-hash_remove c xs p l = (
    Linked-agree (list_next_of c) (list_prev_of c) (list_next_of (hash_remove p c))
        (list_prev_of (hash_remove p c)) none xs c.mru_head
        (λ q _. Links.list_next-hash_remove c p q) (λ q _. Links.list_prev-hash_remove c p q) l.0,
    l.1,
  )

  pub Shape-drop_entry :
      (c : Cache D) (xs : List ℕ) (p : ℕ)
      → has xs p ≡ true
      → Shape c xs
      → Shape (drop_entry p c) (delete p xs)
  unfolding extent_free_data lru_remove
  Shape-drop_entry c xs p i h =
      let removed = hash_remove p c in
      let l =
        IsLru-lru_remove removed xs p h.distinct i (IsLru-hash_remove c xs p (h.lru, h.tail)) in
      let same : (q : ℕ) → ((drop_entry p c).heap q).id ≡ (c.heap q).id =
        λ q. ap (λ e. e.id) (payload-drop_entry c p q) in
      let kept : (q : ℕ) → has (delete p xs) q ≡ true → has xs q ≡ true =
        λ q j. ground (arith, sym (has-delete xs p q h.distinct) ∙ j) in
      record {
        distinct = Distinct-delete xs p h.distinct;
        lru = l.0;
        tail = l.1;
        chains = λ b. delete p (h.chains b);
        chain_distinct = λ b. Distinct-delete (h.chains b) p (h.chain_distinct b);
        chain = λ b.
            Linked-agree (hash_next_of removed) (hash_prev_of removed)
              (hash_next_of (drop_entry p c)) (hash_prev_of (drop_entry p c)) none
              (delete p (h.chains b)) _ (λ q _. Links.hash_next-lru_remove removed p q)
              (λ q _. Links.hash_prev-lru_remove removed p q) (chain-hash_remove c xs p b h i);
        chain_has = λ b q.
            rw
              (
                has-delete (h.chains b) p q (h.chain_distinct b),
                same q,
                has-delete xs p q h.distinct,
                h.chain_has b q,
              )
              (and_swap (has xs q) (bucket_of c q == b) (not (p == q)));
        unique = λ r q ir iq e. h.unique r q (kept r ir) (kept q iq) (
            subst (λ x. kes_extent_equal x (c.heap q).id ≡ true) (same r)
              (subst (λ x. kes_extent_equal ((drop_entry p c).heap r).id x ≡ true) (same q) e));
      }
