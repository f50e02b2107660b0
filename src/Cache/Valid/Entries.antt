-- ===== src/Cache/Valid/Entries.antt =====
-- The operations of src/kes_cache.c on one entry keep the invariant of the cache.
use kanek_extents_storage.Common.{
  ℕ, ◌+◌, true, ltb, ◌==◌, ==_iff, List, some, Status, err, notfound, ◌≡◌, refl, ap, subst, arith,
  ◌⊎◌, inl, inr, Bool-cases, u32, u32_sub,
}
use kanek_extents_storage.Cache.{ExtentId, Cache, store, kes_extent_equal, update}
use kanek_extents_storage.Cache.Lists.{hash_find, pin_lookup, unpin_lookup}
use kanek_extents_storage.Cache.Chain.{has}
use kanek_extents_storage.Cache.Totals.{flag, total_room, flag_le}
use kanek_extents_storage.Cache.Shape.Insert.{Absent}
use kanek_extents_storage.Cache.Find.{hash_find-cases}
use kanek_extents_storage.Cache.Operations.{with_found, put_entry, mark_entry, released, dirtied}
use kanek_extents_storage.Cache.Valid.{Valid, CountsDirty, no_pins, dirt_of}
use kanek_extents_storage.Cache.Valid.Update.{Valid-update, CountsDirty-update}

pub unpin-pin_lookup :
    {D : Type 0} (c : Cache D) (p : ℕ)
    → (c.heap p).lookup_pins ≡ 0
    → unpin_lookup (some p) (pin_lookup (some p) c) ≡ c
unfolding store
unpin-pin_lookup c p free = ap (λ heap. record c { heap = heap }) (λ i q. same q i)
  where
    same : (q : ℕ) → (unpin_lookup (some p) (pin_lookup (some p) c)).heap q ≡ c.heap q
    same q = elim (Bool-cases (p == q)) [
      | inl e ↦ rw e (ap (λ n. record (c.heap q) { lookup_pins = n }) (back q e))
      | inr e ↦ rw e refl
    ]
      where
        back :
            (q : ℕ)
            → (p == q) ≡ true
            → u32_sub (u32 ((c.heap q).lookup_pins + 1)) 1 ≡ (c.heap q).lookup_pins
        back q e =
            subst (λ q. u32_sub (u32 ((c.heap q).lookup_pins + 1)) 1 ≡ (c.heap q).lookup_pins)
              ((==_iff p q).0 e) (rw free refl)

module _ {D : Type 0} where
  -- An operation on an identifier acts on the entry that has it, or finds none.
  pub with_found-cases :
      (use_entry : ℕ → Cache D → Cache D × Status) (c : Cache D) (xs : List ℕ) (id : ExtentId)
      → Valid c xs no_pins
      → ((p : ℕ) × (with_found use_entry (hash_find c id) ≡ use_entry p c)
          × (has xs p ≡ true)
          × (kes_extent_equal (c.heap p).id id ≡ true))
        ⊎ ((with_found use_entry (hash_find c id) ≡ (c, err notfound)) × Absent c xs id)
  unfolding with_found
  with_found-cases use_entry c xs id v = elim (hash_find-cases c xs id v.shape v.cached) [
    | inl z ↦
        inl (
          z.0,
          rw z.1 (ap (use_entry z.0) (unpin-pin_lookup c z.0 (v.settled z.0 z.2).3)),
          z.2,
          z.3,
        )
    | inr z ↦ inr (rw z.0 refl, z.1)
  ]

  -- The invariant, with all its counters.
  abbrev pub Sound : Cache D → List ℕ → Type 0
  Sound c xs = Valid c xs no_pins × CountsDirty c xs

  pub Sound-put_entry :
      (c : Cache D) (xs : List ℕ) (p : ℕ)
      → has xs p ≡ true
      → Sound c xs
      → Sound (put_entry p c).0 xs
  unfolding put_entry
  Sound-put_entry c xs p i (v, d) = elim (Bool-cases (ltb 0 (c.heap p).ref_count)) [
    | inl e ↦ simp e (
      Valid-update c (update (some p) released c) xs no_pins no_pins p released i
          (refl, refl, refl, refl, refl, refl, refl, refl) refl refl refl (v.settled p i) refl
          (λ q ne. refl) v,
      CountsDirty-update c (update (some p) released c) xs no_pins p released i v refl refl d,
    )
    | inr e ↦ simp e (v, d)
  ]

  pub Sound-mark_entry :
      (c : Cache D) (xs : List ℕ) (p : ℕ)
      → has xs p ≡ true
      → Sound c xs
      → Sound (mark_entry p c).0 xs
  unfolding mark_entry CountsDirty
  Sound-mark_entry c xs p i (v, d) = elim (Bool-cases (c.heap p).state.dirty) [
    | inl e ↦ simp e (v, d)
    | inr e ↦
        let c' = record (update (some p) dirtied c) {
          stats = record c.stats { entries_dirty = u32 (c.stats.entries_dirty + 1) };
        } in
        let room =
          total_room (λ q. dirt_of (c.heap q)) xs p (λ q. flag_le (c.heap q).state.dirty) i
            (ap flag e) in
        simp e (
          Valid-update c c' xs no_pins no_pins p dirtied i
              (refl, refl, refl, refl, refl, refl, refl, refl) refl refl refl (v.settled p i) refl
              (λ q ne. refl) v,
          CountsDirty-update c c' xs no_pins p dirtied i v refl
              (omega (arith, ap flag e, room, d, v.entries_fit, v.entries_small)) d,
        )
  ]
