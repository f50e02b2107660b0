-- ===== src/Cache/Chain.antt =====
-- Doubly linked lists, as the LRU list and the hash chains of src/kes_cache.c are: the addresses
-- that a list runs through, and what its links say of them.
pub mod Unlink
pub mod Ends
pub mod Parts
use kanek_extents_storage.Common.{
  ℕ, zero, suc, ◌+◌, ◌≤◌, Bool, true, false, not, ◌&&◌, ◌||◌, ◌==◌, ==_iff, if◌then◌else◌, List, [],
  ◌∷◌, ◌++◌, length, Option, none, some, ◌≡◌, ◌≢◌, refl, sym, ap, arith, ◌∙◌, subst, ◌⊎◌, inl, inr,
  Bool-cases,
}
use kanek_extents_storage.Cache.{points, if_null}

abbrev pub has : List ℕ → ℕ → Bool
has [] q = false
has (x ∷ xs) q = (x == q) || has xs q

abbrev pub Distinct : List ℕ → Type 0
Distinct [] = Unit
Distinct (x ∷ xs) = (has xs x ≡ false) × Distinct xs

abbrev pub delete : ℕ → List ℕ → List ℕ
delete p [] = []
delete p (x ∷ xs) = if x == p then xs else x ∷ delete p xs

-- From `first` on, `next` leads through the addresses to NULL, and `prev` back to `before`.
abbrev pub Linked : (ℕ → Option ℕ) → (ℕ → Option ℕ) → Option ℕ → List ℕ → Option ℕ → Type 0
Linked next prev before [] first = first ≡ none
Linked next prev before (x ∷ xs) first =
    (first ≡ some x) × (prev x ≡ before) × Linked next prev (some x) xs (next x)

abbrev pub last : Option ℕ → List ℕ → Option ℕ
last before [] = before
last before (x ∷ xs) = last (some x) xs

abbrev pub Outside : Option ℕ → List ℕ → Type 0
Outside p xs = (q : ℕ) → has xs q ≡ true → points p q ≡ false

-- The links after `p` is taken out.
abbrev pub unlinked : (ℕ → Option ℕ) → (ℕ → Option ℕ) → ℕ → ℕ → Option ℕ
unlinked next prev p q = if p == q then none else if points (prev p) q then next p else next q

pub ==_comm : (a b : ℕ) → (a == b) ≡ (b == a)
==_comm a b = ground arith

pub has_ne : (xs : List ℕ) (a b : ℕ) → has xs a ≡ true → has xs b ≡ false → (a == b) ≡ false
has_ne xs a b ha hb = elim (Bool-cases (a == b)) [
  | inl e ↦ absurd (let e' = ap (has xs) ((==_iff a b).0 e) in ground (arith, e'))
  | inr e ↦ e
]

pub has-delete :
    (xs : List ℕ) (p q : ℕ) → Distinct xs → has (delete p xs) q ≡ (has xs q && not (p == q))
has-delete [] p q d = refl
has-delete (x ∷ xs) p q d = elim (Bool-cases (x == p)) [
  | inl e ↦ let e' = (==_iff x p).0 e in ground arith
  | inr e ↦ ground (arith, has-delete xs p q d.1)
]

pub has-delete_other : (xs : List ℕ) (p q : ℕ) → (p == q) ≡ false → has (delete p xs) q ≡ has xs q
has-delete_other [] p q ne = refl
has-delete_other (x ∷ xs) p q ne = elim (Bool-cases (x == p)) [
  | inl e ↦ let e' = (==_iff x p).0 e in ground arith
  | inr e ↦ ground (arith, has-delete_other xs p q ne)
]

pub Distinct-delete : (xs : List ℕ) (p : ℕ) → Distinct xs → Distinct (delete p xs)
Distinct-delete [] p d = tt
Distinct-delete (x ∷ xs) p d = elim (Bool-cases (x == p)) [
  | inl e ↦ rw e d.1
  | inr e ↦ rw e (ground (arith, has-delete xs p x d.1), Distinct-delete xs p d.1)
]

pub length-delete : (xs : List ℕ) (p : ℕ) → has xs p ≡ true → length (delete p xs) + 1 ≡ length xs
length-delete [] p h = absurd (ground arith)
length-delete (x ∷ xs) p h = ground (arith, length-delete xs p)

pub Linked-agree :
    (next prev next' prev' : ℕ → Option ℕ) (before : Option ℕ) (xs : List ℕ) (first : Option ℕ)
    → ((q : ℕ) → has xs q ≡ true → next' q ≡ next q)
    → ((q : ℕ) → has xs q ≡ true → prev' q ≡ prev q)
    → Linked next prev before xs first
    → Linked next' prev' before xs first
Linked-agree next prev next' prev' before [] first n p h = h
Linked-agree next prev next' prev' before (x ∷ xs) first n p h = (
  h.0,
  ground (arith, p x),
  Linked-agree next prev next' prev' (some x) xs (next' x) (λ q i. n q (ground arith))
      (λ q i. p q (ground arith)) (rw (n x (ground arith)) h.2),
)

-- What a link leads to is NULL, the entry before the list, or an entry of the list.
pub Linked-next :
    (next prev : ℕ → Option ℕ) (before : Option ℕ) (xs : List ℕ) (first : Option ℕ) (p : ℕ)
    → Linked next prev before xs first
    → has xs p ≡ true
    → (next p ≡ none) ⊎ ((q : ℕ) × (next p ≡ some q) × (has xs q ≡ true))
Linked-next next prev before [] first p l h = absurd (ground arith)
Linked-next next prev before (x ∷ []) first p l h = inl (ground (arith, l.2))
Linked-next next prev before (x ∷ y ∷ xs) first p l h =
    let step = Linked-next next prev (some x) (y ∷ xs) (next x) p l.2 in
    elim (Bool-cases (x == p)) [
      | inl e ↦ inr (y, ground (arith, l.2.0), ground arith)
      | inr e ↦ elim (step (ground arith)) [
        | inl z ↦ inl z
        | inr z ↦ inr (z.0, z.1, ground (arith, z.2))
      ]
    ]

pub Linked-prev :
    (next prev : ℕ → Option ℕ) (before : Option ℕ) (xs : List ℕ) (first : Option ℕ) (p : ℕ)
    → Linked next prev before xs first
    → has xs p ≡ true
    → (prev p ≡ before) ⊎ ((q : ℕ) × (prev p ≡ some q) × (has xs q ≡ true))
Linked-prev next prev before [] first p l h = absurd (ground arith)
Linked-prev next prev before (x ∷ xs) first p l h = elim (Bool-cases (x == p)) [
  | inl e ↦ inl (ground (arith, l.1))
  | inr e ↦ elim (Linked-prev next prev (some x) xs (next x) p l.2 (ground arith)) [
    | inl z ↦ inr (x, z, ground arith)
    | inr z ↦ inr (z.0, z.1, ground (arith, z.2))
  ]
]

pub delete_absent : (xs : List ℕ) (p : ℕ) → has xs p ≡ false → delete p xs ≡ xs
delete_absent [] p h = refl
delete_absent (x ∷ xs) p h =
    let apart : (x == p) ≡ false = ground arith in
    rw apart (ap (◌∷◌ x) (delete_absent xs p (ground arith)))

-- A list without repetitions is no longer than a list that has all its entries.
pub length_sub :
    (ys xs : List ℕ)
    → Distinct ys
    → ((q : ℕ) → has ys q ≡ true → has xs q ≡ true)
    → length ys ≤ length xs
length_sub [] xs d sub = omega arith
length_sub (y ∷ ys) xs d sub =
    let at_y : has xs y ≡ true = sub y (ground arith) in
    let shorter = length-delete xs y at_y in
    let rest =
      length_sub ys (delete y xs) d.1 (λ q i.
        has-delete_other xs y q (==_comm y q ∙ has_ne ys q y i d.0) ∙ sub q (ground arith)) in
    omega (arith, shorter, rest)
