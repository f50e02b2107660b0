-- ===== src/Cache/Valid/Writer.antt =====
-- What a round of a walk in src/kes_cache.c writes to the device, and that the registered write_extent
-- stays.
use kanek_extents_storage.Common.{
  ℕ, true, ◌||◌, if◌then◌else◌, List, [], ◌∷◌, ap, sym, ◌∙◌, ==_iff, arith, not, ◌&&◌, Option, ok,
  err, Status, false, ◌==◌, none, some, ◌≡◌, refl, inl, inr, Bool-cases,
}
use kanek_extents_storage.Cache.{Entry, Cache, WriteExtent}
use kanek_extents_storage.Cache.Chain.{has}
use kanek_extents_storage.Cache.Valid.Walk.{standing}
use kanek_extents_storage.Cache.Lists.{
  extent_free_data, lru_remove, is_evictable, try_evict_entry_locked,
}
use kanek_extents_storage.Cache.Sweep.{write_result, write_entry, write_registered, flush_dirty}

module _ {D : Type 0} where
  -- The device after an entry was written to it, if it is dirty.
  abbrev pub written : Option (WriteExtent D) → Entry → D → D
  written none e device = device
  written (some write) e device =
      if e.state.dirty then (write device e.id e.buffer e.data_size).0 else device

  -- The device after every dirty entry of a list was written to it, once and in this order.
  unfoldable pub write_dirty : Option (WriteExtent D) → (ℕ → Entry) → List ℕ → D → D
  write_dirty write heap [] device = device
  write_dirty write heap (p ∷ xs) device = write_dirty write heap xs (written write (heap p) device)

  pub written-standing :
      (write : Option (WriteExtent D)) (e e' : Entry) (device : D)
      → standing e' ≡ standing e
      → written write e' device ≡ written write e device
  written-standing none e e' device same = refl
  written-standing (some write) e e' device same = ap (λ e. written (some write) e device) same

  pub write_dirty-agree :
      (write : Option (WriteExtent D)) (heap heap' : ℕ → Entry) (xs : List ℕ) (device : D)
      → ((q : ℕ) → has xs q ≡ true → standing (heap' q) ≡ standing (heap q))
      → write_dirty write heap' xs device ≡ write_dirty write heap xs device
  unfolding write_dirty
  write_dirty-agree write heap heap' [] device same = refl
  write_dirty-agree write heap heap' (p ∷ xs) device same =
      let first =
        written-standing write (heap p) (heap' p) device
          (same p (ap (λ b. b || has xs p) ((==_iff p p).1 refl))) in
      ap (write_dirty write heap' xs) first
      ∙ write_dirty-agree write heap heap' xs (written write (heap p) device)
          (λ q j. same q (ground arith))

  device-write_result :
      (c : Cache D) (p : ℕ) (result : Status) → (write_result p result c).device ≡ c.device
  unfolding write_result
  device-write_result c p (ok tt) = refl
  device-write_result c p (err e) = refl

  device-write_registered :
      (c : Cache D) (p : ℕ) (write : Option (WriteExtent D))
      → (c.heap p).state.dirty ≡ true
      → (write_registered p write c).device ≡ written write (c.heap p) c.device
  unfolding write_registered write_entry
  device-write_registered c p none e = refl
  device-write_registered c p (some write) e =
      device-write_result _ p _
      ∙ sym (
          ap
            (λ b.
              if b
              then (write c.device (c.heap p).id (c.heap p).buffer (c.heap p).data_size).0
              else c.device)
            e)

  not_written :
      (write : Option (WriteExtent D)) (e : Entry) (device : D)
      → e.state.dirty ≡ false
      → device ≡ written write e device
  not_written none e device clean = refl
  not_written (some write) e device clean =
      sym (ap (λ b. if b then (write device e.id e.buffer e.data_size).0 else device) clean)

  pub device-visit :
      (c : Cache D) (p : ℕ)
      → (c.heap p).state.loading ≡ false
      → (try_evict_entry_locked p false (flush_dirty p c)).0.device
        ≡ written c.write_extent (c.heap p) c.device
  unfolding try_evict_entry_locked flush_dirty extent_free_data lru_remove
  device-visit c p l =
      let flushed : (flush_dirty p c).device ≡ written c.write_extent (c.heap p) c.device =
        elim (Bool-cases (c.heap p).state.dirty) [
          | inl e ↦ simp (e, l) (device-write_registered c p c.write_extent e)
          | inr e ↦ simp e (not_written c.write_extent (c.heap p) c.device e)
        ] in
      let c1 = flush_dirty p c in
      elim (Bool-cases (is_evictable (c1.heap p) false && ((c1.heap p).lookup_pins == 0))) [
        | inl e ↦ simp e flushed
        | inr e ↦ simp e flushed
      ]

  write_extent-write_result :
      (c : Cache D) (p : ℕ) (result : Status)
      → (write_result p result c).write_extent ≡ c.write_extent
  unfolding write_result
  write_extent-write_result c p (ok tt) = refl
  write_extent-write_result c p (err e) = refl

  write_extent-write_registered :
      (c : Cache D) (p : ℕ) (write : Option (WriteExtent D))
      → (write_registered p write c).write_extent ≡ c.write_extent
  unfolding write_registered write_entry
  write_extent-write_registered c p none = refl
  write_extent-write_registered c p (some write) = write_extent-write_result _ p _

  pub write_extent-visit :
      (c : Cache D) (p : ℕ)
      → (try_evict_entry_locked p false (flush_dirty p c)).0.write_extent ≡ c.write_extent
  unfolding try_evict_entry_locked flush_dirty extent_free_data lru_remove
  write_extent-visit c p =
      let flushed : (flush_dirty p c).write_extent ≡ c.write_extent =
        elim (Bool-cases ((c.heap p).state.dirty && not (c.heap p).state.loading)) [
          | inl e ↦ simp e (write_extent-write_registered c p c.write_extent)
          | inr e ↦ simp e refl
        ] in
      let c1 = flush_dirty p c in
      elim (Bool-cases (is_evictable (c1.heap p) false && ((c1.heap p).lookup_pins == 0))) [
        | inl e ↦ simp e flushed
        | inr e ↦ simp e flushed
      ]
