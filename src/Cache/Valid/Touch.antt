-- ===== src/Cache/Valid/Touch.antt =====
-- lru_touch of src/kes_cache.c moves an entry to the front and keeps the invariant.
use kanek_extents_storage.Common.{
  ℕ, Bool, true, ◌&&◌, ◌==◌, ==_iff, List, ◌∷◌, none, ◌≡◌, refl, ap, subst, sym, ◌∙◌, arith, inl,
  inr, Bool-cases,
}
use kanek_extents_storage.Cache.{Entry, Cache, points, kes_extent_equal}
use kanek_extents_storage.Cache.Lists.{lru_add_head, lru_remove, lru_touch}
use kanek_extents_storage.Cache.Chain.{
  has, delete, has-delete, length-delete, Distinct, Distinct-delete, Linked-agree,
}
use kanek_extents_storage.Cache.Totals.{total, total-delete, total-agree}
use kanek_extents_storage.Cache.Links
use kanek_extents_storage.Cache.Links.{payload, hash_next_of, hash_prev_of}
use kanek_extents_storage.Cache.Shape.{Shape}
use kanek_extents_storage.Cache.Shape.Moves.{IsLru-lru_touch, lru_touch_head, lru_touch_other}
use kanek_extents_storage.Cache.Valid.{
  Valid, CountsDirty, IsSettled, no_pins, dirt_of, pins_of, memory_of,
}

has-moved :
    (xs : List ℕ) (p q : ℕ) → Distinct xs → has xs p ≡ true → has (p ∷ delete p xs) q ≡ has xs q
has-moved xs p q d i = elim (Bool-cases (p == q)) [
  | inl e ↦ rw e (sym (subst (λ q. has xs q ≡ true) ((==_iff p q).0 e) i))
  | inr e ↦ rw e (has-delete xs p q d ∙ rw e (right_true (has xs q)))
]
  where
    right_true : (b : Bool) → (b && true) ≡ b
    right_true b = ground arith

module _ {D : Type 0} where
  -- A move along the LRU list spares all else.
  abbrev Spared : Cache D → Cache D → Type 0
  Spared c c' =
      ((q : ℕ) → payload (c'.heap q) ≡ payload (c.heap q))
      × ((q : ℕ) → hash_next_of c' q ≡ hash_next_of c q)
      × ((q : ℕ) → hash_prev_of c' q ≡ hash_prev_of c q)
      × (c'.buckets ≡ c.buckets)
      × (c'.bucket_mask ≡ c.bucket_mask)
      × (c'.config ≡ c.config)
      × (c'.next_address ≡ c.next_address)
      × (c'.stats ≡ c.stats)

  Spared-lru_touch : (c : Cache D) (p : ℕ) → Spared c (lru_touch p c)
  unfolding lru_add_head lru_remove
  Spared-lru_touch c p = elim (Bool-cases (points c.mru_head p)) [
    | inl e ↦
        subst (Spared c) (sym (lru_touch_head c p e))
          ((λ q. refl), (λ q. refl), (λ q. refl), refl, refl, refl, refl, refl)
    | inr e ↦ subst (Spared c) (sym (lru_touch_other c p e)) (moved c p)
  ]
    where
      moved : (c : Cache D) (p : ℕ) → Spared c (lru_add_head p (lru_remove p c))
      moved c p =
          let r = lru_remove p c in
          (
            (λ q. Links.payload-lru_add_head r p q ∙ Links.payload-lru_remove c p q),
            (λ q. Links.hash_next-lru_add_head r p q ∙ Links.hash_next-lru_remove c p q),
            (λ q. Links.hash_prev-lru_add_head r p q ∙ Links.hash_prev-lru_remove c p q),
            refl,
            refl,
            refl,
            refl,
            refl,
          )

  -- On a cache whose pointers represent a list of entries in the order of use, lru_touch makes
  -- them represent the list with the entry moved to the front; the hash table represents the same
  -- entries as before.
  pub Shape-lru_touch :
      (c : Cache D) (xs : List ℕ) (p : ℕ)
      → has xs p ≡ true
      → Shape c xs
      → Shape (lru_touch p c) (p ∷ delete p xs)
  Shape-lru_touch c xs p i h =
      let l = IsLru-lru_touch c xs p h.distinct i (h.lru, h.tail) in
      let s = Spared-lru_touch c p in
      let same : (q : ℕ) → ((lru_touch p c).heap q).id ≡ (c.heap q).id =
        λ q. ap (λ e. e.id) (s.0 q) in
      let back : (q : ℕ) → has (p ∷ delete p xs) q ≡ has xs q =
        λ q. has-moved xs p q h.distinct i in
      record {
        distinct = (
          rw (has-delete xs p p h.distinct, i, (==_iff p p).1 refl) refl,
          Distinct-delete xs p h.distinct,
        );
        lru = l.0;
        tail = l.1;
        chains = h.chains;
        chain_distinct = h.chain_distinct;
        chain = λ b. rw s.3 (
            Linked-agree (hash_next_of c) (hash_prev_of c) (hash_next_of (lru_touch p c))
              (hash_prev_of (lru_touch p c)) none (h.chains b) (c.buckets b) (λ q _. s.1 q)
              (λ q _. s.2 q) (h.chain b));
        chain_has = λ b q. rw (back q, same q, s.4) (h.chain_has b q);
        unique = λ r q ir iq e. h.unique r q (sym (back r) ∙ ir) (sym (back q) ∙ iq) (
            subst (λ x. kes_extent_equal x (c.heap q).id ≡ true) (same r)
              (subst (λ x. kes_extent_equal ((lru_touch p c).heap r).id x ≡ true) (same q) e));
      }

  -- Sums over the entries do not see the move.
  total-moved :
      (c : Cache D) (xs : List ℕ) (p : ℕ) (f : Entry → ℕ)
      → ((q : ℕ) → f ((lru_touch p c).heap q) ≡ f (c.heap q))
      → has xs p ≡ true
      → total (λ q. f ((lru_touch p c).heap q)) (p ∷ delete p xs) ≡ total (λ q. f (c.heap q)) xs
  total-moved c xs p f same i =
      let parts = total-delete (λ q. f (c.heap q)) xs p i in
      let agree =
        total-agree (λ q. f (c.heap q)) (λ q. f ((lru_touch p c).heap q)) (delete p xs)
          (λ q _. same q) in
      omega (arith, parts, agree, same p)

  pub Valid-lru_touch :
      (c : Cache D) (xs : List ℕ) (p : ℕ)
      → has xs p ≡ true
      → Valid c xs no_pins
      → Valid (lru_touch p c) (p ∷ delete p xs) no_pins
  Valid-lru_touch c xs p i v =
      let s = Spared-lru_touch c p in
      let back : (q : ℕ) → has (p ∷ delete p xs) q ≡ has xs q =
        λ q. has-moved xs p q v.shape.distinct i in
      let shorter = length-delete xs p i in
      record {
        shape = Shape-lru_touch c xs p i v.shape;
        settled = λ q j. subst (IsSettled no_pins q) (sym (s.0 q)) (v.settled q (sym (back q) ∙ j));
        given = λ q j. rw s.6 (v.given q (sym (back q) ∙ j));
        cached = rw s.7 (omega (arith, v.cached, shorter));
        memory =
            rw s.7 (v.memory ∙ sym (total-moved c xs p memory_of (λ q. ap memory_of (s.0 q)) i));
        pins = rw s.7 (v.pins ∙ sym (total-moved c xs p pins_of (λ q. ap pins_of (s.0 q)) i));
        entries_fit = rw s.5 (omega (arith, v.entries_fit, shorter));
        memory_fits = rw (s.5, s.7) v.memory_fits;
        entries_small = rw s.5 v.entries_small;
        memory_small = rw s.5 v.memory_small;
      }

  pub CountsDirty-lru_touch :
      (c : Cache D) (xs : List ℕ) (p : ℕ)
      → has xs p ≡ true
      → CountsDirty c xs
      → CountsDirty (lru_touch p c) (p ∷ delete p xs)
  unfolding CountsDirty
  CountsDirty-lru_touch c xs p i d =
      let s = Spared-lru_touch c p in
      rw s.7 (d ∙ sym (total-moved c xs p dirt_of (λ q. ap dirt_of (s.0 q)) i))

  pub payload-lru_touch :
      (c : Cache D) (p q : ℕ) → payload ((lru_touch p c).heap q) ≡ payload (c.heap q)
  payload-lru_touch c p q = (Spared-lru_touch c p).0 q
