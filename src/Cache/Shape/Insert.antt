-- ===== src/Cache/Shape/Insert.antt =====
-- The insertion of a candidate into the cache of src/kes_cache.c keeps the representation.
use kanek_extents_storage.Common.{
  ℕ, true, false, ◌&&◌, ◌==◌, ==_iff, if◌then◌else◌, List, ◌∷◌, none, ◌≡◌, refl, sym, ap, ◌∙◌,
  subst, arith, inl, inr, Bool-cases,
}
use kanek_extents_storage.Cache.{ExtentId, Cache, kes_extent_equal}
use kanek_extents_storage.Cache.Lists.{lru_add_head, hash_insert}
use kanek_extents_storage.Cache.Chain.{has, Distinct, Linked, Linked-agree, has_ne, ==_comm}
use kanek_extents_storage.Cache.Chain.Ends.{Linked-cons, linked_next, linked_prev, points_head}
use kanek_extents_storage.Cache.Links
use kanek_extents_storage.Cache.Links.{
  list_next_of, list_prev_of, hash_next_of, hash_prev_of, payload,
}
use kanek_extents_storage.Cache.Shape.{Shape}
use kanek_extents_storage.Cache.Shape.Table.{bucket_of, other}
use kanek_extents_storage.Cache.Shape.Moves.{IsLru, IsLru-lru_add_head}

pub kes_extent_equal_comm : (a b : ExtentId) → kes_extent_equal a b ≡ kes_extent_equal b a
unfolding kes_extent_equal
kes_extent_equal_comm a b =
    rw
      (
        ==_comm a.start_block b.start_block,
        ==_comm a.block_count b.block_count,
        ==_comm a.block_size b.block_size,
      )
      refl

module _ {D : Type 0} where
  -- No entry of the cache has an identifier that is equal to one.
  abbrev pub Absent : Cache D → List ℕ → ExtentId → Type 0
  Absent c xs id = (q : ℕ) → has xs q ≡ true → kes_extent_equal (c.heap q).id id ≡ false

  abbrev pub inserted : ℕ → Cache D → Cache D
  inserted p c = lru_add_head p (hash_insert p c)

  abbrev chains_with : Cache D → ℕ → (ℕ → List ℕ) → ℕ → List ℕ
  chains_with c p chains b = if bucket_of c p == b then p ∷ chains b else chains b

  chain-hash_insert :
      (c : Cache D) (xs : List ℕ) (p b : ℕ) (h : Shape c xs)
      → has xs p ≡ false
      → Linked
          (hash_next_of (hash_insert p c))
          (hash_prev_of (hash_insert p c))
          none
          (chains_with c p h.chains b)
          ((hash_insert p c).buckets b)
  chain-hash_insert c xs p b h i =
      let here = bucket_of c p in
      let off : (b : ℕ) → has (h.chains b) p ≡ false = λ b. rw (h.chain_has b p, i) refl in
      Linked-agree (linked_next (hash_next_of c) p (c.buckets here))
        (linked_prev (hash_prev_of c) p (c.buckets here)) (hash_next_of (hash_insert p c))
        (hash_prev_of (hash_insert p c)) none (chains_with c p h.chains b) _
        (λ q _. Links.hash_next-hash_insert c p q) (λ q _. Links.hash_prev-hash_insert c p q)
        (elim (Bool-cases (here == b)) [
          | inl e ↦
              let e' = sym ((==_iff here b).0 e) in
              rw (e, e')
                (Linked-cons (hash_next_of c) (hash_prev_of c) (h.chains here) (c.buckets here) p
                  (off here, h.chain_distinct here) (h.chain here))
          | inr e ↦ rw e (
              Linked-agree (hash_next_of c) (hash_prev_of c)
                (linked_next (hash_next_of c) p (c.buckets here))
                (linked_prev (hash_prev_of c) p (c.buckets here)) none (h.chains b) (c.buckets b)
                (λ q j. rw (==_comm p q, has_ne (h.chains b) q p j (off b)) refl)
                (λ q j.
                  rw
                    (
                      points_head (hash_next_of c) (hash_prev_of c) (h.chains here) (c.buckets here)
                          q (h.chain here) (other c xs h p q b e j),
                      ==_comm p q,
                      has_ne (h.chains b) q p j (off b),
                    )
                    refl)
                (h.chain b))
        ])

  pub payload-inserted :
      (c : Cache D) (p q : ℕ) → payload ((inserted p c).heap q) ≡ payload (c.heap q)
  payload-inserted c p q =
      Links.payload-lru_add_head (hash_insert p c) p q ∙ Links.payload-hash_insert c p q

  IsLru-hash_insert : (c : Cache D) (xs : List ℕ) (p : ℕ) → IsLru c xs → IsLru (hash_insert p c) xs
  IsLru-hash_insert c xs p l = (
    Linked-agree (list_next_of c) (list_prev_of c) (list_next_of (hash_insert p c))
        (list_prev_of (hash_insert p c)) none xs c.mru_head
        (λ q _. Links.list_next-hash_insert c p q) (λ q _. Links.list_prev-hash_insert c p q) l.0,
    l.1,
  )

  unique_with :
      (c : Cache D) (xs : List ℕ) (p : ℕ)
      → Absent c xs (c.heap p).id
      → Shape c xs
      → (r q : ℕ) → has (p ∷ xs) r ≡ true
      → has (p ∷ xs) q ≡ true
      → kes_extent_equal (c.heap r).id (c.heap q).id ≡ true
      → r ≡ q
  unique_with c xs p absent h r q ir iq e = elim (Bool-cases (p == r)) [
    | inl er ↦ elim (Bool-cases (p == q)) [
      | inl ep ↦ sym ((==_iff p r).0 er) ∙ (==_iff p q).0 ep
      | inr nq ↦ absurd (
          let e' =
            subst (λ z. kes_extent_equal (c.heap z).id (c.heap q).id ≡ true)
              (sym ((==_iff p r).0 er)) e in
          ground
            (arith, kes_extent_equal_comm (c.heap p).id (c.heap q).id, absent q (ground arith)))
    ]
    | inr nr ↦ elim (Bool-cases (p == q)) [
      | inl ep ↦ absurd (
          let e' =
            subst (λ z. kes_extent_equal (c.heap r).id (c.heap z).id ≡ true)
              (sym ((==_iff p q).0 ep)) e in
          ground (arith, absent r (ground arith)))
      | inr nq ↦ h.unique r q (ground arith) (ground arith) e
    ]
  ]

  Distinct-chains_with :
      (c : Cache D) (xs : List ℕ) (p b : ℕ) (h : Shape c xs)
      → has xs p ≡ false
      → Distinct (chains_with c p h.chains b)
  Distinct-chains_with c xs p b h o = elim (Bool-cases (bucket_of c p == b)) [
    | inl e ↦ rw e (rw (h.chain_has b p, o) refl, h.chain_distinct b)
    | inr e ↦ rw e (h.chain_distinct b)
  ]

  has-chains_with :
      (c : Cache D) (xs : List ℕ) (p b q : ℕ) (h : Shape c xs)
      → has xs p ≡ false
      → has (chains_with c p h.chains b) q ≡ (has (p ∷ xs) q && (bucket_of c q == b))
  has-chains_with c xs p b q h o = elim (Bool-cases (p == q)) [
    | inl e ↦
        subst (λ q. has (chains_with c p h.chains b) q ≡ (has (p ∷ xs) q && (bucket_of c q == b)))
          ((==_iff p q).0 e)
          (let self : (p == p) ≡ true = (==_iff p p).1 refl in
            elim (Bool-cases (bucket_of c p == b)) [
              | inl f ↦ rw (f, self) refl
              | inr f ↦ rw (f, h.chain_has b p, o, self) refl
            ])
    | inr e ↦ elim (Bool-cases (bucket_of c p == b)) [
      | inl f ↦ rw (f, e, h.chain_has b q) refl
      | inr f ↦ rw (f, e, h.chain_has b q) refl
    ]
  ]

  pub Shape-inserted :
      (c : Cache D) (xs : List ℕ) (p : ℕ)
      → has xs p ≡ false
      → Absent c xs (c.heap p).id
      → Shape c xs
      → Shape (inserted p c) (p ∷ xs)
  unfolding lru_add_head
  Shape-inserted c xs p o absent h =
      let put = hash_insert p c in
      let l =
        IsLru-lru_add_head put xs p (o, h.distinct) (IsLru-hash_insert c xs p (h.lru, h.tail)) in
      let same : (q : ℕ) → ((inserted p c).heap q).id ≡ (c.heap q).id =
        λ q. ap (λ e. e.id) (payload-inserted c p q) in
      record {
        distinct = (o, h.distinct);
        lru = l.0;
        tail = l.1;
        chains = chains_with c p h.chains;
        chain_distinct = λ b. Distinct-chains_with c xs p b h o;
        chain = λ b.
            Linked-agree (hash_next_of put) (hash_prev_of put) (hash_next_of (inserted p c))
              (hash_prev_of (inserted p c)) none (chains_with c p h.chains b) _
              (λ q _. Links.hash_next-lru_add_head put p q)
              (λ q _. Links.hash_prev-lru_add_head put p q) (chain-hash_insert c xs p b h o);
        chain_has = λ b q. rw (same q) (has-chains_with c xs p b q h o);
        unique = λ r q ir iq e. unique_with c xs p absent h r q ir iq (
            subst (λ x. kes_extent_equal x (c.heap q).id ≡ true) (same r)
              (subst (λ x. kes_extent_equal ((inserted p c).heap r).id x ≡ true) (same q) e));
      }
