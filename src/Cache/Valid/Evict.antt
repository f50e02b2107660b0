-- ===== src/Cache/Valid/Evict.antt =====
-- Lookup pins and evictions keep the invariant of the cache of src/kes_cache.c.
use kanek_extents_storage.Common.{
  ℕ, ◌+◌, ◌-◌, ◌%◌, ◌^◌, Bool, true, false, not, ◌&&◌, ◌||◌, ltb, ==_iff, List, some, ◌≡◌, refl, ap,
  subst, sym, ◌∙◌, arith,
}
use kanek_extents_storage.Cache.{Entry, Cache, points}
use kanek_extents_storage.Cache.Lists.{
  pin_lookup, unpin_lookup, drop_entry, extent_free_data, lru_remove,
}
use kanek_extents_storage.Cache.Chain.{has, delete, has-delete, length-delete}
use kanek_extents_storage.Cache.Totals.{flag, total-delete, total-agree}
use kanek_extents_storage.Cache.Links.{payload}
use kanek_extents_storage.Cache.Shape.Table.{Shape-drop_entry, payload-drop_entry}
use kanek_extents_storage.Cache.Valid.{Valid, IsSettled, memory_of, pins_of}
use kanek_extents_storage.Cache.Valid.Update.{Valid-update}

-- Whether an entry is settled does not depend on its links.
pub IsSettled-of :
    (pinned : ℕ → Bool) (q : ℕ) (e e' : Entry)
    → payload e' ≡ payload e
    → IsSettled pinned q e
    → IsSettled pinned q e'
IsSettled-of pinned q e e' same s = subst (IsSettled pinned q) (sym same) s

module _ {D : Type 0} where
  pub Valid-pin_lookup :
      (c : Cache D) (xs : List ℕ) (pinned : ℕ → Bool) (p : ℕ)
      → has xs p ≡ true
      → pinned p ≡ false
      → Valid c xs pinned
      → Valid (pin_lookup (some p) c) xs (λ q. points (some p) q || pinned q)
  Valid-pin_lookup c xs pinned p i free v =
      let s = v.settled p i in
      Valid-update c (pin_lookup (some p) c) xs pinned (λ q. points (some p) q || pinned q) p _ i
        (refl, refl, refl, refl, refl, refl, refl, refl) refl refl refl
        (s.0, s.1, s.2, rw (s.3, free, (==_iff p p).1 refl) refl) refl (λ q ne. rw ne refl) v

  pub Valid-unpin_lookup :
      (c : Cache D) (xs : List ℕ) (pinned : ℕ → Bool) (p : ℕ)
      → has xs p ≡ true
      → pinned p ≡ true
      → Valid c xs pinned
      → Valid (unpin_lookup (some p) c) xs (λ q. not (points (some p) q) && pinned q)
  Valid-unpin_lookup c xs pinned p i held v =
      let s = v.settled p i in
      Valid-update c (unpin_lookup (some p) c) xs pinned (λ q. not (points (some p) q) && pinned q)
        p _ i (refl, refl, refl, refl, refl, refl, refl, refl) refl refl refl
        (s.0, s.1, s.2, rw (s.3, held, (==_iff p p).1 refl) refl) refl (λ q ne. rw ne refl) v

  -- Only what the pins say of the entries matters.
  pub Valid-pins :
      (c : Cache D) (xs : List ℕ) (before after : ℕ → Bool)
      → ((q : ℕ) → has xs q ≡ true → after q ≡ before q)
      → Valid c xs before
      → Valid c xs after
  Valid-pins c xs before after same v = record {
    shape = v.shape;
    settled = λ q j. rw (same q j) (v.settled q j);
    given = v.given;
    cached = v.cached;
    memory = v.memory;
    pins = v.pins;
    entries_fit = v.entries_fit;
    memory_fits = v.memory_fits;
    entries_small = v.entries_small;
    memory_small = v.memory_small;
  }

  pub Valid-drop_entry :
      (c : Cache D) (xs : List ℕ) (pinned : ℕ → Bool) (p : ℕ)
      → has xs p ≡ true
      → (c.heap p).pin_count ≡ 0
      → Valid c xs pinned
      → Valid (drop_entry p c) (delete p xs) pinned
  unfolding extent_free_data lru_remove
  Valid-drop_entry c xs pinned p i unpinned v =
      let c' = drop_entry p c in
      let kept : (q : ℕ) → has (delete p xs) q ≡ true → has xs q ≡ true =
        λ q j. ground (arith, sym (has-delete xs p q v.shape.distinct) ∙ j) in
      let same : (q : ℕ) → payload (c'.heap q) ≡ payload (c.heap q) = payload-drop_entry c p in
      let shorter = length-delete xs p i in
      let sum_memory = total-delete (λ q. memory_of (c.heap q)) xs p i in
      let sum_pins = total-delete (λ q. pins_of (c.heap q)) xs p i in
      let agree_memory =
        total-agree (λ q. memory_of (c.heap q)) (λ q. memory_of (c'.heap q)) (delete p xs)
          (λ q _. ap memory_of (same q)) in
      let agree_pins =
        total-agree (λ q. pins_of (c.heap q)) (λ q. pins_of (c'.heap q)) (delete p xs)
          (λ q _. ap pins_of (same q)) in
      let here = (v.settled p i).0 in
      let used : c'.stats.memory_used
          ≡ (c.stats.memory_used + 2 ^ 64 - memory_of (c.heap p)) % 2 ^ 64 =
        rw here.1 refl in
      record {
        shape = Shape-drop_entry c xs p i v.shape;
        settled =
            λ q j. IsSettled-of pinned q (c.heap q) (c'.heap q) (same q) (v.settled q (kept q j));
        given = λ q j. v.given q (kept q j);
        cached = omega (arith, v.cached, shorter, v.entries_fit, v.entries_small);
        memory =
            omega (arith, used, v.memory, sum_memory, agree_memory, v.memory_fits, v.memory_small);
        pins = omega (arith, v.pins, sum_pins, agree_pins, ap (λ n. flag (ltb 0 n)) unpinned);
        entries_fit = omega (arith, shorter, v.entries_fit);
        memory_fits = omega (arith, used, v.memory, sum_memory, v.memory_fits, v.memory_small);
        entries_small = v.entries_small;
        memory_small = v.memory_small;
      }
