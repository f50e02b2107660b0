-- ===== src/Cache/Valid/Add.antt =====
-- A new entry of the cache of src/kes_cache.c keeps the invariant where there is room for it.
use kanek_extents_storage.Common.{
  ℕ, ◌+◌, ◌^◌, ◌<◌, ◌≤◌, Bool, true, false, ltb, leb, leb→le, ◌==◌, ==_iff, List, ◌∷◌, length, ◌≡◌,
  ap, subst, arith, inl, inr, Bool-cases, u32, u64,
}
use kanek_extents_storage.Cache.{Cache}
use kanek_extents_storage.Cache.Chain.{has}
use kanek_extents_storage.Cache.Totals.{flag, total-agree}
use kanek_extents_storage.Cache.Links.{payload}
use kanek_extents_storage.Cache.Shape.{Shape}
use kanek_extents_storage.Cache.Sweep.{has_room}
use kanek_extents_storage.Cache.Valid.{
  Valid, CountsDirty, IsSettled, no_pins, dirt_of, pins_of, memory_of,
}
use kanek_extents_storage.Cache.Valid.Evict.{IsSettled-of}

-- What has_room says, where its sums do not wrap.
pub has_room-true :
    {D : Type 0} (aligned : ℕ) (c : Cache D) (xs : List ℕ) (pinned : ℕ → Bool)
    → Valid c xs pinned
    → aligned < 2 ^ 62
    → has_room aligned c ≡ true
    → (length xs + 1 ≤ c.config.max_entries) × (c.stats.memory_used + aligned ≤ c.config.max_memory)
unfolding has_room
has_room-true aligned c xs pinned v small h =
    let counted : leb (u32 (c.stats.entries_cached + 1)) c.config.max_entries ≡ true =
      ground arith in
    let sized : leb (u64 (c.stats.memory_used + aligned)) c.config.max_memory ≡ true =
      ground arith in
    let n = leb→le _ _ counted in
    let m = leb→le _ _ sized in
    (
      omega (arith, n, v.cached, v.entries_fit, v.entries_small),
      omega (arith, m, v.memory_fits, v.memory_small),
    )

module _ {D : Type 0} where
  pub Valid-add :
      (c c' : Cache D) (xs : List ℕ) (p : ℕ)
      → Valid c xs no_pins
      → Shape c' (p ∷ xs)
      → ((q : ℕ) → has xs q ≡ true → payload (c'.heap q) ≡ payload (c.heap q))
      → IsSettled no_pins p (c'.heap p)
      → (c'.heap p).pin_count ≡ 0
      → c'.config ≡ c.config
      → p < c'.next_address
      → c.next_address ≤ c'.next_address
      → c'.stats.entries_cached ≡ u32 (c.stats.entries_cached + 1)
      → c'.stats.memory_used ≡ u64 (c.stats.memory_used + memory_of (c'.heap p))
      → c'.stats.entries_pinned ≡ c.stats.entries_pinned
      → length xs + 1 ≤ c.config.max_entries
      → c.stats.memory_used + memory_of (c'.heap p) ≤ c.config.max_memory
      → Valid c' (p ∷ xs) no_pins
  Valid-add c c' xs p v shape same s unpinned conf given more cached memory pins room fits =
      let agree_memory =
        total-agree (λ q. memory_of (c.heap q)) (λ q. memory_of (c'.heap q)) xs
          (λ q j. ap memory_of (same q j)) in
      let agree_pins =
        total-agree (λ q. pins_of (c.heap q)) (λ q. pins_of (c'.heap q)) xs
          (λ q j. ap pins_of (same q j)) in
      let no_pin = ap (λ n. flag (ltb 0 n)) unpinned in
      record {
        shape = shape;
        settled = λ q j. elim (Bool-cases (p == q)) [
          | inl e ↦ subst (λ q. IsSettled no_pins q (c'.heap q)) ((==_iff p q).0 e) s
          | inr e ↦
              let k : has xs q ≡ true = ground arith in
              IsSettled-of no_pins q (c.heap q) (c'.heap q) (same q k) (v.settled q k)
        ];
        given = λ q j. elim (Bool-cases (p == q)) [
          | inl e ↦ subst (λ q. q < c'.next_address) ((==_iff p q).0 e) given
          | inr e ↦ omega (arith, v.given q (ground arith), more)
        ];
        cached = omega (arith, cached, v.cached, room, v.entries_small);
        memory = omega (arith, memory, v.memory, agree_memory, fits, v.memory_small);
        pins = omega (arith, pins, v.pins, agree_pins, no_pin);
        entries_fit = rw conf (omega (arith, room));
        memory_fits = rw conf (omega (arith, memory, fits, v.memory_small));
        entries_small = rw conf v.entries_small;
        memory_small = rw conf v.memory_small;
      }

  pub CountsDirty-add :
      (c c' : Cache D) (xs : List ℕ) (p : ℕ)
      → ((q : ℕ) → has xs q ≡ true → payload (c'.heap q) ≡ payload (c.heap q))
      → (c'.heap p).state.dirty ≡ false
      → c'.stats.entries_dirty ≡ c.stats.entries_dirty
      → CountsDirty c xs
      → CountsDirty c' (p ∷ xs)
  unfolding CountsDirty
  CountsDirty-add c c' xs p same clean m d =
      let agree =
        total-agree (λ q. dirt_of (c.heap q)) (λ q. dirt_of (c'.heap q)) xs
          (λ q j. ap dirt_of (same q j)) in
      omega (arith, agree, m, d, ap flag clean)
