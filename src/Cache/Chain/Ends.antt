-- ===== src/Cache/Chain/Ends.antt =====
-- The two ends of the doubly linked lists of src/kes_cache.c: an entry put in front, what becomes
-- of head and tail when an entry is taken out, and the neighbours of an entry.
use kanek_extents_storage.Common.{
  ℕ, true, false, ◌==◌, ==_iff, if◌then◌else◌, List, [], ◌∷◌, ◌++◌, Option, none, some, ◌≡◌, refl,
  sym, ap, ◌∙◌, arith, inl, inr, Bool-cases,
}
use kanek_extents_storage.Cache.{points, if_null}
use kanek_extents_storage.Cache.Chain.{
  has, Distinct, delete, Linked, last, ==_comm, has_ne, Linked-agree, Linked-prev,
}

abbrev pub head : List ℕ → Option ℕ
head [] = none
head (x ∷ xs) = some x

-- The links after `p` is put in front of a list that begins at `first`.
abbrev pub linked_next : (ℕ → Option ℕ) → ℕ → Option ℕ → ℕ → Option ℕ
linked_next next p first q = if p == q then first else next q

abbrev pub linked_prev : (ℕ → Option ℕ) → ℕ → Option ℕ → ℕ → Option ℕ
linked_prev prev p first q = if points first q then some p else if p == q then none else prev q

pub Linked-head :
    (next prev : ℕ → Option ℕ) (before : Option ℕ) (xs : List ℕ) (first : Option ℕ)
    → Linked next prev before xs first
    → first ≡ head xs
Linked-head next prev before [] first l = l
Linked-head next prev before (x ∷ xs) first l = l.0

pub points_head :
    (next prev : ℕ → Option ℕ) (xs : List ℕ) (first : Option ℕ) (q : ℕ)
    → Linked next prev none xs first
    → has xs q ≡ false
    → points first q ≡ false
points_head next prev [] first q l h = rw l refl
points_head next prev (x ∷ xs) first q l h = rw l.0 (ground arith)

self : (p : ℕ) → (p == p) ≡ true
self p = (==_iff p p).1 refl

pub Linked-cons :
    (next prev : ℕ → Option ℕ) (xs : List ℕ) (first : Option ℕ) (p : ℕ)
    → Distinct (p ∷ xs)
    → Linked next prev none xs first
    → Linked (linked_next next p first) (linked_prev prev p first) none (p ∷ xs) (some p)
Linked-cons next prev [] first p d l = (refl, rw (l, self p) refl, rw (self p) l)
Linked-cons next prev (x ∷ xs) first p d l =
    let apart : (p == x) ≡ false = ==_comm p x ∙ has_ne (x ∷ xs) x p (ground arith) d.0 in
    (
      refl,
      rw (l.0, ==_comm x p, apart, self p) refl,
      (
        rw (self p) l.0,
        rw (l.0, self x) refl,
        Linked-agree next prev (linked_next next p first) (linked_prev prev p first) (some x) xs
            (linked_next next p first x)
            (λ q i. rw (==_comm p q, has_ne xs q p i (ground (arith, d.0))) refl)
            (λ q i.
              rw
                (
                  l.0,
                  ==_comm x q,
                  has_ne xs q x i d.1.0,
                  ==_comm p q,
                  has_ne xs q p i (ground (arith, d.0)),
                )
                refl)
            (rw apart l.2),
      ),
    )

pub last-some : (x : ℕ) (xs : List ℕ) → (y : ℕ) × (last (some x) xs ≡ some y)
last-some x [] = (x, refl)
last-some x (y ∷ xs) = last-some y xs

pub last-cons :
    (p : ℕ) (xs : List ℕ) → if_null (last none xs) (some p) (last none xs) ≡ last (some p) xs
last-cons p [] = refl
last-cons p (x ∷ xs) = ground (arith, (last-some x xs).1)

pub last-delete :
    (next prev : ℕ → Option ℕ) (before : Option ℕ) (xs : List ℕ) (first : Option ℕ) (p : ℕ)
    → Linked next prev before xs first
    → has xs p ≡ true
    → last before (delete p xs) ≡ if_null (next p) (prev p) (last before xs)
last-delete next prev before [] first p l h = absurd (ground arith)
last-delete next prev before (x ∷ []) first p l h =
    let e : (x == p) ≡ true = ground arith in
    let e' = sym ((==_iff x p).0 e) in rw (e, ap next e' ∙ l.2, ap prev e' ∙ l.1) refl
last-delete next prev before (x ∷ y ∷ xs) first p l h = elim (Bool-cases (x == p)) [
  | inl e ↦ let e' = sym ((==_iff x p).0 e) in rw (e, ap next e' ∙ l.2.0) refl
  | inr e ↦ rw e (last-delete next prev (some x) (y ∷ xs) (next x) p l.2 (ground arith))
]

pub head-delete {ℓ} :
    {A : Type ℓ} (next prev : ℕ → Option ℕ) (xs : List ℕ) (first : Option ℕ) (p : ℕ) (a b : A)
    → Linked next prev none xs first
    → has xs p ≡ true
    → if_null (prev p) a b ≡ (if points first p then a else b)
head-delete next prev [] first p a b l h = absurd (ground arith)
head-delete next prev (x ∷ xs) first p a b l h = elim (Bool-cases (x == p)) [
  | inl e ↦ rw (ap prev (sym ((==_iff x p).0 e)) ∙ l.1, l.0, e) refl
  | inr e ↦ elim (Linked-prev next prev (some x) xs (next x) p l.2 (ground arith)) [
    | inl z ↦ rw (z, l.0, e) refl
    | inr z ↦ rw (z.1, l.0, e) refl
  ]
]

-- The neighbours of an entry inside a list.
pub Linked-around :
    (next prev : ℕ → Option ℕ) (before : Option ℕ) (xs : List ℕ) (first : Option ℕ) (p : ℕ)
    (ys : List ℕ)
    → Linked next prev before (xs ++ p ∷ ys) first
    → (next p ≡ head ys) × (prev p ≡ last before xs)
Linked-around next prev before [] first p ys l =
    (Linked-head next prev (some p) ys (next p) l.2, l.1)
Linked-around next prev before (x ∷ xs) first p ys l =
    Linked-around next prev (some x) xs (next x) p ys l.2
