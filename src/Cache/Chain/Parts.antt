-- ===== src/Cache/Chain/Parts.antt =====
-- A walk along a doubly linked list of src/kes_cache.c splits it into what is done and the rest.
use kanek_extents_storage.Common.{
  ℕ, true, false, not, ◌&&◌, ◌||◌, ◌==◌, ==_iff, List, [], ◌∷◌, ◌++◌, append-nil, length, ◌+◌,
  Option, none, some, ◌≡◌, refl, sym, ap, ◌∙◌, subst, arith, ◌⊎◌, inl, inr,
}
use kanek_extents_storage.Cache.Chain.{last, has, Distinct, delete, has-delete, ==_comm, has_ne}
use kanek_extents_storage.Cache.Chain.Ends.{head}

pub has-append : (xs ys : List ℕ) (q : ℕ) → has (xs ++ ys) q ≡ (has xs q || has ys q)
has-append [] ys q = refl
has-append (x ∷ xs) ys q = ground (arith, has-append xs ys q)

pub append_cons : (xs : List ℕ) (p : ℕ) (ys : List ℕ) → xs ++ p ∷ ys ≡ (xs ++ p ∷ []) ++ ys
append_cons [] p ys = refl
append_cons (x ∷ xs) p ys = ap (◌∷◌ x) (append_cons xs p ys)

pub delete-append :
    (xs : List ℕ) (p : ℕ) (ys : List ℕ)
    → Distinct (xs ++ p ∷ ys)
    → delete p (xs ++ p ∷ ys) ≡ xs ++ ys
delete-append [] p ys d = rw ((==_iff p p).1 refl) refl
delete-append (x ∷ xs) p ys d =
    let apart = ==_comm x p ∙ has_ne (xs ++ p ∷ ys) p x (has_part xs p ys) d.0 in
    rw apart (ap (◌∷◌ x) (delete-append xs p ys d.1))
  where
    has_part : (xs : List ℕ) (p : ℕ) (ys : List ℕ) → has (xs ++ p ∷ ys) p ≡ true
    has_part xs p ys = rw (has-append xs (p ∷ ys) p, (==_iff p p).1 refl) (ground arith)

pub has_middle : (xs : List ℕ) (p : ℕ) (ys : List ℕ) → has (xs ++ p ∷ ys) p ≡ true
has_middle xs p ys =
    let self : (p == p) ≡ true = (==_iff p p).1 refl in ground (arith, has-append xs (p ∷ ys) p)

neighbours_apart :
    (xs : List ℕ) (p y : ℕ) (ys : List ℕ) → Distinct (xs ++ p ∷ y ∷ ys) → (y == p) ≡ false
neighbours_apart [] p y ys d = ground (arith, d.0)
neighbours_apart (x ∷ xs) p y ys d = neighbours_apart xs p y ys d.1

-- The first of the rest is another entry of the list.
pub head_cases :
    (xs : List ℕ) (p : ℕ) (ys : List ℕ)
    → Distinct (xs ++ p ∷ ys)
    → (head ys ≡ none)
      ⊎ ((n : ℕ) × (head ys ≡ some n) × (has (xs ++ p ∷ ys) n ≡ true) × ((p == n) ≡ false))
head_cases xs p [] d = inl refl
head_cases xs p (y ∷ ys) d =
    let self : (y == y) ≡ true = (==_iff y y).1 refl in
    inr (
      y,
      refl,
      ground (arith, has-append xs (p ∷ y ∷ ys) y),
      ==_comm p y ∙ neighbours_apart xs p y ys d,
    )

pub done_apart :
    (xs : List ℕ) (p : ℕ) (ys : List ℕ) (q : ℕ)
    → Distinct (xs ++ p ∷ ys)
    → has (xs ++ ys) q ≡ true
    → (p == q) ≡ false
done_apart xs p ys q d i =
    let gone = has-delete (xs ++ p ∷ ys) p q d in
    let same = ap (λ zs. has zs q) (delete-append xs p ys d) in
    let left : (has (xs ++ p ∷ ys) q && not (p == q)) ≡ true = sym gone ∙ same ∙ i in ground arith

-- A list taken from its end: `us` from the last entry on, in front of `ys`.
abbrev pub onto : List ℕ → List ℕ → List ℕ
onto [] ys = ys
onto (u ∷ us) ys = onto us (u ∷ ys)

pub onto-append : (us ys : List ℕ) → onto us ys ≡ onto us [] ++ ys
onto-append [] ys = refl
onto-append (u ∷ us) ys =
    onto-append us (u ∷ ys)
    ∙ append_cons (onto us []) u ys
    ∙ sym (ap (λ zs. zs ++ ys) (onto-append us (u ∷ [])))

last-append : (before : Option ℕ) (xs : List ℕ) (u : ℕ) → last before (xs ++ u ∷ []) ≡ some u
last-append before [] u = refl
last-append before (x ∷ xs) u = last-append (some x) xs u

pub last-onto : (us : List ℕ) → last none (onto us []) ≡ head us
last-onto [] = refl
last-onto (u ∷ us) = ap (last none) (onto-append us (u ∷ [])) ∙ last-append none (onto us []) u

onto-onto : (xs ys zs : List ℕ) → onto (onto xs ys) zs ≡ onto ys (xs ++ zs)
onto-onto [] ys zs = refl
onto-onto (x ∷ xs) ys zs = onto-onto xs (x ∷ ys) zs

pub onto_back : (xs : List ℕ) → onto (onto xs []) [] ≡ xs
onto_back xs = onto-onto xs [] [] ∙ append-nil xs

pub length-onto : (us ys : List ℕ) → length (onto us ys) ≡ length us + length ys
length-onto [] ys = omega arith
length-onto (u ∷ us) ys = omega (arith, length-onto us (u ∷ ys))

-- The first of a list is in it.
pub head-has : (xs : List ℕ) → (head xs ≡ none) ⊎ ((n : ℕ) × (head xs ≡ some n) × (has xs n ≡ true))
head-has [] = inl refl
head-has (x ∷ xs) = inr (x, refl, rw ((==_iff x x).1 refl) refl)

-- The entry before `p` is another entry of the list.
pub last_cases :
    (us : List ℕ) (p : ℕ) (ys : List ℕ)
    → Distinct (onto us (p ∷ ys))
    → (head us ≡ none)
      ⊎ ((n : ℕ) × (head us ≡ some n) × (has (onto us (p ∷ ys)) n ≡ true) × ((n == p) ≡ false))
last_cases [] p ys d = inl refl
last_cases (u ∷ us) p ys d =
    let list = onto-append us (u ∷ p ∷ ys) in
    let self : (u == u) ≡ true = (==_iff u u).1 refl in
    let i = has-append (onto us []) (u ∷ p ∷ ys) u in
    inr (
      u,
      refl,
      rw list (ground arith),
      ==_comm u p ∙ neighbours_apart (onto us []) u p ys (subst Distinct list d),
    )

pub has-onto : (us ys : List ℕ) (q : ℕ) → has (onto us ys) q ≡ (has us q || has ys q)
has-onto [] ys q = refl
has-onto (u ∷ us) ys q = ground (arith, has-onto us (u ∷ ys) q)
