-- ===== src/Cache/Totals.antt =====
-- Sums over the entries of a list, for the counters of kes_cache_stats_t.
use kanek_extents_storage.Common.{
  ℕ, ◌+◌, ◌≤◌, ◌<◌, Bool, true, false, ◌==◌, ==_iff, List, [], ◌∷◌, length, ◌≡◌, refl, ap, ◌∙◌,
  subst, arith, inl, inr, Bool-cases,
}
use kanek_extents_storage.Cache.Chain.{has, Distinct, delete, has_ne, ==_comm, length-delete}

abbrev pub flag : Bool → ℕ
flag true = 1
flag false = 0

pub flag_le : (b : Bool) → flag b ≤ 1
flag_le b = ground arith

abbrev pub total : (ℕ → ℕ) → List ℕ → ℕ
total weight [] = 0
total weight (x ∷ xs) = weight x + total weight xs

pub total-delete :
    (w : ℕ → ℕ) (xs : List ℕ) (p : ℕ) → has xs p ≡ true → total w (delete p xs) + w p ≡ total w xs
total-delete w [] p i = absurd (ground arith)
total-delete w (x ∷ xs) p i = elim (Bool-cases (x == p)) [
  | inl e ↦ rw (e, (==_iff x p).0 e) (omega arith)
  | inr e ↦ rw e (omega (arith, total-delete w xs p (ground arith)))
]

pub total-agree :
    (w w' : ℕ → ℕ) (xs : List ℕ)
    → ((q : ℕ) → has xs q ≡ true → w' q ≡ w q)
    → total w' xs ≡ total w xs
total-agree w w' [] h = refl
total-agree w w' (x ∷ xs) h =
    omega
      (arith, h x (rw ((==_iff x x).1 refl) refl), total-agree w w' xs (λ q i. h q (ground arith)))

-- A change of one entry's weight.
pub total-change :
    (w w' : ℕ → ℕ) (xs : List ℕ) (p : ℕ)
    → Distinct xs
    → has xs p ≡ true
    → ((q : ℕ) → (p == q) ≡ false → w' q ≡ w q)
    → total w' xs + w p ≡ total w xs + w' p
total-change w w' [] p d i h = absurd (ground arith)
total-change w w' (x ∷ xs) p d i h = elim (Bool-cases (x == p)) [
  | inl e ↦
      let same = (==_iff x p).0 e in
      let rest =
        total-agree w w' xs
          (λ q j. h q (==_comm p q ∙ subst (λ z. (q == z) ≡ false) same (has_ne xs q x j d.0))) in
      omega (arith, ap w same, ap w' same, rest)
  | inr e ↦ omega (arith, h x (==_comm p x ∙ e), total-change w w' xs p d.1 (ground arith) h)
]

pub total_le : (w : ℕ → ℕ) (xs : List ℕ) → ((q : ℕ) → w q ≤ 1) → total w xs ≤ length xs
total_le w [] h = omega arith
total_le w (x ∷ xs) h = omega (arith, h x, total_le w xs h)

pub total_part : (w : ℕ → ℕ) (xs : List ℕ) (p : ℕ) → has xs p ≡ true → w p ≤ total w xs
total_part w xs p i = omega (arith, total-delete w xs p i)

-- An entry without weight leaves room for one more.
pub total_room :
    (w : ℕ → ℕ) (xs : List ℕ) (p : ℕ)
    → ((q : ℕ) → w q ≤ 1)
    → has xs p ≡ true
    → w p ≡ 0
    → total w xs < length xs
total_room w xs p h i e =
    omega (arith, total-delete w xs p i, total_le w (delete p xs) h, length-delete xs p i, e)
