-- ===== src/Cache/Valid/Writes.antt =====
-- kes_cache_flush_extent and kes_cache_invalidate of src/kes_cache.c keep the invariant.
use kanek_extents_storage.Common.{
  ℕ, zero, suc, true, false, ◌||◌, ltb, if◌then◌else◌, List, Option, none, some, err, busy, success,
  notfound, ◌≡◌, refl, ap, arith, ◌⊎◌, inl, inr, Bool-cases,
}
use kanek_extents_storage.Cache.{ExtentId, Entry, Cache, WriteExtent, kes_extent_equal}
use kanek_extents_storage.Cache.Lists.{drop_entry, extent_free_data, lru_remove, is_evictable}
use kanek_extents_storage.Cache.Chain.{has, delete}
use kanek_extents_storage.Cache.Shape.Table.{payload-drop_entry}
use kanek_extents_storage.Cache.Valid.Evict.{Valid-drop_entry}
use kanek_extents_storage.Cache.Valid.Walk.{Unused}
use kanek_extents_storage.Cache.Totals.{flag, total-delete, total-agree}
use kanek_extents_storage.Cache.Shape.Insert.{Absent}
use kanek_extents_storage.Cache.Operations.{
  flush_entry, write_registered_or_fail, invalidate_entry, kes_cache_invalidate, count_off,
}
use kanek_extents_storage.Cache.Valid.{CountsDirty, no_pins, dirt_of}
use kanek_extents_storage.Cache.Sweep.{write_entry}
use kanek_extents_storage.Cache.Valid.Visit.{
  Flushes-write_result, CountsDirty-bound, CountsDirty-drop_entry, try_evict-cases,
}
use kanek_extents_storage.Cache.Valid.Update.{Valid-frame}
use kanek_extents_storage.Cache.Valid.Entries.{Sound, with_found-cases}

in_use-cases :
    (r n : ℕ)
    → (((ltb 0 r || ltb 0 n) ≡ true) × ¬ ((r ≡ 0) × (n ≡ 0)))
      ⊎ (((ltb 0 r || ltb 0 n) ≡ false) × (r ≡ 0) × (n ≡ 0))
in_use-cases zero zero = inr (refl, refl, refl)
in_use-cases zero (suc n) = inl (ground arith, λ h. absurd (omega (arith, h.1)))
in_use-cases (suc r) n = inl (ground arith, λ h. absurd (omega (arith, h.0)))

pub is_evictable_discard :
    (e : Entry)
    → e.ref_count ≡ 0
    → e.pin_count ≡ 0
    → e.cond_waiters ≡ 0
    → is_evictable e true ≡ true
unfolding is_evictable
is_evictable_discard e r n w = rw (r, n, w) refl

module _ {D : Type 0} where
  Sound-registered :
      (id : ExtentId) (c : Cache D) (xs : List ℕ) (p : ℕ) (write : Option (WriteExtent D))
      → has xs p ≡ true
      → (c.heap p).state.dirty ≡ true
      → Sound c xs
      → Sound (write_registered_or_fail p id write c).0 xs
  unfolding write_registered_or_fail write_entry
  Sound-registered id c xs p none i e h = h
  Sound-registered id c xs p (some write) i e (v, d) =
      let f = Flushes-write_result c xs no_pins p _ _ i e v d in (f.0, f.1)

  pub Sound-flush_entry :
      (id : ExtentId) (c : Cache D) (xs : List ℕ) (p : ℕ)
      → has xs p ≡ true
      → Sound c xs
      → Sound (flush_entry id p c).0 xs
  unfolding flush_entry
  Sound-flush_entry id c xs p i (v, d) = elim (Bool-cases (c.heap p).state.dirty) [
    | inl e ↦ simp e (Sound-registered id c xs p c.write_extent i e (v, d))
    | inr e ↦ simp e (v, d)
  ]

  -- The changes of an entry that is dropped are counted off where there were any.
  Sound-discard :
      (c : Cache D) (xs : List ℕ) (p : ℕ)
      → has xs p ≡ true
      → (c.heap p).pin_count ≡ 0
      → Sound c xs
      → Sound
          (if (c.heap p).state.dirty then count_off (drop_entry p c) else drop_entry p c)
          (delete p xs)
  unfolding CountsDirty extent_free_data lru_remove
  Sound-discard c xs p i unpinned (v, d) =
      let v' = Valid-drop_entry c xs no_pins p i unpinned v in
      let c' = drop_entry p c in
      elim (Bool-cases (c.heap p).state.dirty) [
        | inl e ↦
            let parts = total-delete (λ q. dirt_of (c.heap q)) xs p i in
            let agree =
              total-agree (λ q. dirt_of (c.heap q)) (λ q. dirt_of (c'.heap q)) (delete p xs)
                (λ q _. ap dirt_of (payload-drop_entry c p q)) in
            let small = CountsDirty-bound c xs no_pins v d in
            simp e (
              Valid-frame c' (count_off c') (delete p xs) no_pins
                  (refl, refl, refl, refl, refl, refl, refl, refl) refl refl v',
              omega (arith, parts, agree, d, small, ap flag e),
            )
        | inr e ↦ simp e (v', CountsDirty-drop_entry c xs p i e d)
      ]

  device-discard :
      (c : Cache D) (p : ℕ)
      → (if (c.heap p).state.dirty then count_off (drop_entry p c) else drop_entry p c).device
        ≡ c.device
  unfolding extent_free_data lru_remove
  device-discard c p = elim (Bool-cases (c.heap p).state.dirty) [
    | inl e ↦ simp e refl
    | inr e ↦ simp e refl
  ]

  pub invalidate_entry-cases :
      (c : Cache D) (xs : List ℕ) (p : ℕ)
      → has xs p ≡ true
      → Sound c xs
      → (Unused (c.heap p)
          × ((invalidate_entry p c).1 ≡ success)
          × ((invalidate_entry p c).0.device ≡ c.device)
          × Sound (invalidate_entry p c).0 (delete p xs))
        ⊎ (¬ Unused (c.heap p) × (invalidate_entry p c ≡ (c, err busy)))
  unfolding invalidate_entry
  invalidate_entry-cases c xs p i (v, d) =
      let e = c.heap p in
      let s = v.settled p i in
      elim (in_use-cases e.ref_count e.pin_count) [
        | inl used ↦ inr (used.1, simp used.0 refl)
        | inr free ↦ elim (try_evict-cases p true c s.3) [
          | inl z ↦ inl (
            (free.1, free.2),
            simp (free.0, z.0) refl,
            simp (free.0, z.0) (device-discard c p),
            simp (free.0, z.0) (Sound-discard c xs p i free.2 (v, d)),
          )
          | inr z ↦ absurd (ground (arith, is_evictable_discard e free.1 free.2 s.2, z.1))
        ]
      ]

  -- kes_cache_invalidate on a well-formed cache: where no entry has the identifier, the result is
  -- KES_ERROR_NOTFOUND and nothing changes; where the entry is referenced or pinned, it is
  -- KES_ERROR_BUSY and nothing changes; otherwise it succeeds, the entry is gone from the list and
  -- its bucket, with counters that are right, and the device is as before, also if it was dirty.
  pub kes_cache_invalidate-cases :
      (id : ExtentId) (c : Cache D) (xs : List ℕ)
      → Sound c xs
      → ((kes_cache_invalidate id c ≡ (c, err notfound)) × Absent c xs id)
        ⊎ ((p : ℕ) × (has xs p ≡ true)
            × (kes_extent_equal (c.heap p).id id ≡ true)
            × ((Unused (c.heap p)
                  × ((kes_cache_invalidate id c).1 ≡ success)
                  × ((kes_cache_invalidate id c).0.device ≡ c.device)
                  × Sound (kes_cache_invalidate id c).0 (delete p xs))
                ⊎ (¬ Unused (c.heap p) × (kes_cache_invalidate id c ≡ (c, err busy)))))
  unfolding kes_cache_invalidate
  kes_cache_invalidate-cases id c xs h = elim (with_found-cases invalidate_entry c xs id h.0) [
    | inl z ↦ inr (z.0, z.2, z.3, rw z.1 (invalidate_entry-cases c xs z.0 z.2 h))
    | inr z ↦ inl z
  ]
