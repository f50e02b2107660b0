-- ===== src/Cache/Chain/Unlink.antt =====
-- An entry taken out of a doubly linked list, as lru_remove and try_evict_entry_locked of
-- src/kes_cache.c do.
use kanek_extents_storage.Common.{
  ℕ, true, false, ◌==◌, ==_iff, if◌then◌else◌, List, [], ◌∷◌, Option, none, some, ◌≡◌, refl, arith,
  ◌∙◌, subst, ◌⊎◌, inl, inr, Bool-cases,
}
use kanek_extents_storage.Cache.{points}
use kanek_extents_storage.Cache.Chain.{
  has, Distinct, delete, Linked, Outside, unlinked, ==_comm, has_ne, Linked-agree, Linked-next,
  Linked-prev,
}

pub points_outside :
    (p : Option ℕ) (xs : List ℕ) (x : ℕ)
    → (p ≡ none) ⊎ ((q : ℕ) × (p ≡ some q) × (has xs q ≡ true))
    → has xs x ≡ false
    → points p x ≡ false
points_outside p xs x h o = elim h [ inl e ↦ rw e refl | inr e ↦ rw e.1 (has_ne xs e.0 x e.2 o) ]

-- The entry in front of a list is before its first entry only.
pub Linked-first :
    (next prev : ℕ → Option ℕ) (x : ℕ) (xs : List ℕ) (first : Option ℕ) (p : ℕ)
    → Distinct (x ∷ xs)
    → Linked next prev (some x) xs first
    → has xs p ≡ true
    → points (prev p) x ≡ points first p
Linked-first next prev x [] first p d l h = absurd (ground arith)
Linked-first next prev x (y ∷ xs) first p d l h = elim (Bool-cases (y == p)) [
  | inl e ↦ ground (arith, l.0, l.1)
  | inr e ↦ elim (Linked-prev next prev (some y) xs (next y) p l.2 (ground arith)) [
    | inl z ↦ ground (arith, l.0, l.1, d.0)
    | inr z ↦ rw (z.1, l.0, has_ne (y ∷ xs) z.0 x (ground (arith, z.2)) d.0, e) refl
  ]
]

Linked-unlinked_head :
    (next prev : ℕ → Option ℕ) (before : Option ℕ) (x : ℕ) (xs : List ℕ)
    → Distinct (x ∷ xs)
    → Outside before (x ∷ xs)
    → prev x ≡ before
    → Linked next prev (some x) xs (next x)
    → Linked (unlinked next prev x) (unlinked prev next x) before xs (next x)
Linked-unlinked_head next prev before x [] d o e l = l
Linked-unlinked_head next prev before x (y ∷ xs) d o e l =
    let apart : (q : ℕ) → has (y ∷ xs) q ≡ true → (x == q) ≡ false =
      λ q i. ==_comm x q ∙ has_ne (y ∷ xs) q x i d.0 in
    let same : (q : ℕ) → has (y ∷ xs) q ≡ true → unlinked next prev x q ≡ next q =
      λ q i. rw (apart q i, e, o q (ground arith)) refl in
    let at_y : has (y ∷ xs) y ≡ true = ground arith in
    (
      l.0,
      rw (apart y at_y, l.0, (==_iff y y).1 refl) e,
      Linked-agree next prev (unlinked next prev x) (unlinked prev next x) (some y) xs
          (unlinked next prev x y) (λ q i. same q (ground arith))
          (λ q i. rw (apart q (ground arith), l.0, ==_comm y q, has_ne xs q y i d.1.0) refl)
          (rw (same y at_y) l.2),
    )

pub Linked-unlinked :
    (next prev : ℕ → Option ℕ) (before : Option ℕ) (xs : List ℕ) (first : Option ℕ) (p : ℕ)
    → Distinct xs
    → Outside before xs
    → Linked next prev before xs first
    → has xs p ≡ true
    → Linked
        (unlinked next prev p)
        (unlinked prev next p)
        before
        (delete p xs)
        (if points first p then next p else first)
Linked-unlinked next prev before [] first p d o l h = absurd (ground arith)
Linked-unlinked next prev before (x ∷ xs) first p d o l h = elim (Bool-cases (x == p)) [
  | inl e ↦
      rw (e, l.0, e)
        (subst (λ p. Linked (unlinked next prev p) (unlinked prev next p) before xs (next p))
          ((==_iff x p).0 e) (Linked-unlinked_head next prev before x xs d o l.1 l.2))
  | inr e ↦
      let at_p : has xs p ≡ true = ground arith in
      let ahead = Linked-first next prev x xs (next x) p d l.2 at_p in
      rw (e, l.0, e)
        (
          refl,
          rw
              (
                ==_comm p x,
                e,
                points_outside (next p) xs x (Linked-next next prev (some x) xs (next x) p l.2 at_p)
                    d.0,
              )
              l.1,
          rw (==_comm p x, e, ahead)
              (Linked-unlinked next prev (some x) xs (next x) p d.1
                (λ q i. ==_comm x q ∙ has_ne xs q x i d.0) l.2 at_p),
        )
]

-- Taking an entry out of one list spares the lists that have no entry in common with it.
pub Linked-elsewhere :
    (next prev : ℕ → Option ℕ) (xs ys : List ℕ) (first start : Option ℕ) (p : ℕ)
    → Linked next prev none ys start
    → has ys p ≡ true
    → ((q : ℕ) → has xs q ≡ true → has ys q ≡ false)
    → Linked next prev none xs first
    → Linked (unlinked next prev p) (unlinked prev next p) none xs first
Linked-elsewhere next prev xs ys first start p ly at_p apart l =
    Linked-agree next prev (unlinked next prev p) (unlinked prev next p) none xs first
      (λ q i.
        rw
          (
            has_ne ys p q at_p (apart q i),
            points_outside (prev p) ys q (Linked-prev next prev none ys start p ly at_p)
                (apart q i),
          )
          refl)
      (λ q i.
        rw
          (
            has_ne ys p q at_p (apart q i),
            points_outside (next p) ys q (Linked-next next prev none ys start p ly at_p)
                (apart q i),
          )
          refl)
      l
