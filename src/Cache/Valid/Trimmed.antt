-- ===== src/Cache/Valid/Trimmed.antt =====
-- What a walk along the LRU list in src/kes_cache.c leaves of the cache.
use kanek_extents_storage.Common.{
  ℕ, true, false, List, Option, ◌≡◌, ap, sym, ◌∙◌, arith, inl, inr, Bool-cases,
}
use kanek_extents_storage.Cache.{Entry, Cache, store}
use kanek_extents_storage.Cache.Lists.{pin_lookup, unpin_lookup}
use kanek_extents_storage.Cache.Chain.{has}
use kanek_extents_storage.Cache.Totals.{total-agree}
use kanek_extents_storage.Cache.Valid.{Valid, CountsDirty, dirt_of, no_pins}
use kanek_extents_storage.Cache.Valid.Visit.{IsKept, users_of}
use kanek_extents_storage.Cache.Valid.Walk.{Unused, Stays}

-- What a walk makes of a cache with the entries `xs`: those of `ys` stay, the others had no user;
-- identifiers, buffers and counts of users are as before.
pub record Trimmed {D : Type 0} (c c' : Cache D) (xs ys : List ℕ) : Type 0 where
  pub valid : Valid c' ys no_pins
  pub counts : CountsDirty c' ys
  pub kept : IsKept c c'
  pub inside : (q : ℕ) → has ys q ≡ true → has xs q ≡ true
  pub gone : (q : ℕ) → has xs q ≡ true → has ys q ≡ false → Unused (c.heap q)

pub Unused-of : (e e' : Entry) → users_of e' ≡ users_of e → Unused e' → Unused e
Unused-of e e' same u = (sym (ap (λ s. s.2) same) ∙ u.0, sym (ap (λ s. s.3) same) ∙ u.1)

module _ {D : Type 0} where
  abbrev pub AllStay : Cache D → List ℕ → Type 0
  AllStay c xs = (q : ℕ) → has xs q ≡ true → Stays (c.heap q)

  -- A walk to the end: what stays, stays for a reason.
  abbrev pub Swept : Cache D → Cache D → List ℕ → List ℕ → Type 0
  Swept c c' xs ys = Trimmed c c' xs ys × AllStay c' ys

  pub CountsDirty-next :
      (c : Cache D) (xs : List ℕ) (p next : Option ℕ)
      → CountsDirty c xs
      → CountsDirty (unpin_lookup p (pin_lookup next c)) xs
  unfolding CountsDirty store
  CountsDirty-next c xs p next d =
      d
      ∙ sym (
          total-agree (λ q. dirt_of (c.heap q))
            (λ q. dirt_of ((unpin_lookup p (pin_lookup next c)).heap q)) xs (λ q _. ground arith))

  -- A walk goes on from `c2`, where the entries `zs` are left.
  pub Trimmed-step :
      (c c2 c' : Cache D) (xs zs ys : List ℕ)
      → IsKept c c2
      → ((q : ℕ) → has zs q ≡ true → has xs q ≡ true)
      → ((q : ℕ) → has xs q ≡ true → has zs q ≡ false → Unused (c.heap q))
      → Trimmed c2 c' zs ys
      → Trimmed c c' xs ys
  Trimmed-step c c2 c' xs zs ys kept inside gone w = record {
    valid = w.valid;
    counts = w.counts;
    kept = λ q. w.kept q ∙ kept q;
    inside = λ q i. inside q (w.inside q i);
    gone = λ q i o. elim (Bool-cases (has zs q)) [
      | inl j ↦ Unused-of (c.heap q) (c2.heap q) (kept q) (w.gone q j o)
      | inr j ↦ gone q i j
    ];
  }
