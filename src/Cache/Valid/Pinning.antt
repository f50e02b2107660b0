-- ===== src/Cache/Valid/Pinning.antt =====
-- The pins with which a walk of src/kes_cache.c holds on to the entry that it goes to next.
use kanek_extents_storage.Common.{
  ℕ, Bool, true, false, not, ◌&&◌, ◌||◌, ◌==◌, ==_iff, List, Option, none, some, ◌≡◌, refl, ◌∙◌,
  arith, ◌⊎◌, inl, inr, Bool-cases,
}
use kanek_extents_storage.Cache.{Cache, points, store}
use kanek_extents_storage.Cache.Lists.{pin_lookup, unpin_lookup}
use kanek_extents_storage.Cache.Chain.{==_comm, has}
use kanek_extents_storage.Cache.Valid.{Valid, no_pins}
use kanek_extents_storage.Cache.Valid.Evict.{Valid-pins, Valid-pin_lookup, Valid-unpin_lookup}
use kanek_extents_storage.Cache.Valid.Visit.{IsKept}
use kanek_extents_storage.Cache.Valid.Walk.{Spares, standing}

no_pin : (b : Bool) → false ≡ (not b && b)
no_pin b = ground arith

right_false : (b : Bool) → b ≡ (b || false)
right_false b = ground arith

moved_pin : (p n q : ℕ) → (p == n) ≡ false → (n == q) ≡ (not (p == q) && ((n == q) || (p == q)))
moved_pin p n q ne = ground arith

module _ {D : Type 0} where
  pub standing-pin :
      (c : Cache D) (o : Option ℕ) (q : ℕ)
      → standing ((pin_lookup o c).heap q) ≡ standing (c.heap q)
  unfolding store
  standing-pin c o q = elim (Bool-cases (points o q)) [ inl e ↦ simp e refl | inr e ↦ simp e refl ]

  standing-unpin :
      (c : Cache D) (o : Option ℕ) (q : ℕ)
      → standing ((unpin_lookup o c).heap q) ≡ standing (c.heap q)
  unfolding store
  standing-unpin c o q = elim (Bool-cases (points o q)) [
    | inl e ↦ simp e refl
    | inr e ↦ simp e refl
  ]

  pub standing-next :
      (c : Cache D) (p next : Option ℕ) (q : ℕ)
      → standing ((unpin_lookup p (pin_lookup next c)).heap q) ≡ standing (c.heap q)
  standing-next c p next q = standing-unpin (pin_lookup next c) p q ∙ standing-pin c next q

  -- The pin moves from the entry at `p` to the next one.
  pub Valid-next :
      (c : Cache D) (xs : List ℕ) (p : ℕ) (next : Option ℕ)
      → has xs p ≡ true
      → (next ≡ none) ⊎ ((n : ℕ) × (next ≡ some n) × (has xs n ≡ true) × ((p == n) ≡ false))
      → Valid c xs (points (some p))
      → Valid (unpin_lookup (some p) (pin_lookup next c)) xs (points next)
  unfolding store
  Valid-next c xs p next i (inl e) v =
      let self : (p == p) ≡ true = (==_iff p p).1 refl in
      rw e (
        Valid-pins (unpin_lookup (some p) c) xs _ (points none) (λ q _. no_pin (p == q))
          (Valid-unpin_lookup c xs (points (some p)) p i self v))
  Valid-next c xs p next i (inr (n, e, j, ne)) v =
      let self : (p == p) ≡ true = (==_iff p p).1 refl in
      rw e (
        Valid-pins (unpin_lookup (some p) (pin_lookup (some n) c)) xs _ (points (some n))
          (λ q _. moved_pin p n q ne)
          (Valid-unpin_lookup (pin_lookup (some n) c) xs
            (λ q. points (some n) q || points (some p) q) p i (rw (self, ==_comm n p, ne) refl)
            (Valid-pin_lookup c xs (points (some p)) n j ne v)))

  pub Spares-next :
      (c : Cache D) (p : ℕ) (next : Option ℕ)
      → Spares c (unpin_lookup (some p) (pin_lookup next c)) p
  unfolding store
  Spares-next c p next = ((λ q. ground arith), (λ q ne. standing-next c (some p) next q))

  -- The first pin of a walk.
  pub Valid-start :
      (c : Cache D) (xs : List ℕ) (start : Option ℕ)
      → (start ≡ none) ⊎ ((n : ℕ) × (start ≡ some n) × (has xs n ≡ true))
      → Valid c xs no_pins
      → Valid (pin_lookup start c) xs (points start)
  unfolding store
  Valid-start c xs start (inl e) v = rw e (Valid-pins c xs no_pins (points none) (λ q _. refl) v)
  Valid-start c xs start (inr (n, e, j)) v = rw e (
      Valid-pins (pin_lookup (some n) c) xs _ (points (some n)) (λ q _. right_false (n == q))
        (Valid-pin_lookup c xs no_pins n j refl v))

  pub IsKept-start : (c : Cache D) (start : Option ℕ) → IsKept c (pin_lookup start c)
  unfolding store
  IsKept-start c start q = ground arith

  -- The last pin of a walk is released.
  pub Valid-stop :
      (c : Cache D) (xs : List ℕ) (stop : Option ℕ)
      → (stop ≡ none) ⊎ ((n : ℕ) × (stop ≡ some n) × (has xs n ≡ true))
      → Valid c xs (points stop)
      → Valid (unpin_lookup stop c) xs no_pins
  unfolding store
  Valid-stop c xs stop (inl e) v = rw e (Valid-pins c xs (points stop) no_pins (λ q _. rw e refl) v)
  Valid-stop c xs stop (inr (n, e, j)) v =
      let self : (n == n) ≡ true = (==_iff n n).1 refl in
      let held = Valid-pins c xs (points stop) (points (some n)) (λ q _. rw e refl) v in
      rw e (
        Valid-pins (unpin_lookup (some n) c) xs _ no_pins (λ q _. no_pin (n == q))
          (Valid-unpin_lookup c xs (points (some n)) n j self held))

  pub IsKept-stop : (c : Cache D) (stop : Option ℕ) → IsKept c (unpin_lookup stop c)
  unfolding store
  IsKept-stop c stop q = ground arith

  -- Pins do not bear on what can be evicted.
  pub Spares-start : (c : Cache D) (p : ℕ) (start : Option ℕ) → Spares c (pin_lookup start c) p
  unfolding store
  Spares-start c p start = ((λ q. ground arith), (λ q ne. standing-pin c start q))

  pub Spares-stop : (c : Cache D) (p : ℕ) (stop : Option ℕ) → Spares c (unpin_lookup stop c) p
  unfolding store
  Spares-stop c p stop = ((λ q. ground arith), (λ q ne. standing-unpin c stop q))
