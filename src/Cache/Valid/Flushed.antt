-- ===== src/Cache/Valid/Flushed.antt =====
-- kes_cache_sync of src/kes_cache.c on a device that takes every write.
use kanek_extents_storage.Common.{
  ℕ, Bool, true, false, ◌==◌, ==_iff, ◌&&◌, if◌then◌else◌, List, [], ◌∷◌, Option, some, Status,
  success, ◌≡◌, refl, ap, subst, sym, ◌∙◌, arith, inl, inr, Bool-cases,
}
use kanek_extents_storage.Cache.{ExtentId, Entry, Cache, WriteExtent, store}
use kanek_extents_storage.Cache.Chain.{has}
use kanek_extents_storage.Cache.Lists.{drop_entry, is_evictable, try_evict_entry_locked}
use kanek_extents_storage.Cache.Operations.{kes_cache_sync}
use kanek_extents_storage.Cache.Sweep.{
  write_result, write_entry, write_registered, flush_dirty, cache_sweep,
}
use kanek_extents_storage.Cache.Totals.{flag, total}
use kanek_extents_storage.Cache.Valid.{dirt_of, CountsDirty}
use kanek_extents_storage.Cache.Valid.Entries.{Sound}
use kanek_extents_storage.Cache.Valid.Walk.{Unused, Stays, Stays-of}
use kanek_extents_storage.Cache.Valid.Writer.{write_dirty}
use kanek_extents_storage.Cache.Valid.Sweeps.{Leaves, cache_sweep-Left}

-- Nothing is left to write, and the entry is in use or its load failed.
abbrev pub Flushed : Entry → Type 0
Flushed e = (e.state.dirty ≡ false) × (Unused e → e.state.error ≡ true)

Flushed-of : (e : Entry) → Stays e → e.state.dirty ≡ false → e.cond_waiters ≡ 0 → Flushed e
unfolding is_evictable
Flushed-of e s d w = (d, λ u. ground (arith, s, d, w, u.0, u.1))

-- A sum in which every summand is 0.
total-none : (f : ℕ → ℕ) (xs : List ℕ) → ((q : ℕ) → has xs q ≡ true → f q ≡ 0) → total f xs ≡ 0
total-none f [] z = refl
total-none f (x ∷ xs) z =
    let rest = total-none f xs (λ q j. z q (ground (arith, j))) in
    let self : (x == x) ≡ true = (==_iff x x).1 refl in omega (arith, z x (ground arith), rest)

module _ {D : Type 0} where
  abbrev pub TakesAll : WriteExtent D → Type 0
  TakesAll write =
      (device : D) (id : ExtentId) (buffer : Option (List ℕ)) (size : ℕ)
      → (write device id buffer size).1 ≡ success

  clean-write_result :
      (c : Cache D) (p : ℕ) (result : Status)
      → result ≡ success
      → ((write_result p result c).heap p).state.dirty ≡ false
  unfolding write_result store
  clean-write_result c p result e = rw (e, (==_iff p p).1 refl) refl

  clean-flush_dirty :
      (write : WriteExtent D) (c : Cache D) (p : ℕ)
      → TakesAll write
      → c.write_extent ≡ some write
      → (c.heap p).state.loading ≡ false
      → ((flush_dirty p c).heap p).state.dirty ≡ false
  unfolding flush_dirty write_registered write_entry
  clean-flush_dirty write c p takes e l = elim (Bool-cases (c.heap p).state.dirty) [
    | inl d ↦
        simp (d, l)
          (subst (λ o. ((write_registered p o c).heap p).state.dirty ≡ false) (sym e)
            (clean-write_result _ p _
              (takes c.device (c.heap p).id (c.heap p).buffer (c.heap p).data_size)))
    | inr d ↦ simp d refl
  ]

  Leaves-clean :
      (write : WriteExtent D)
      → TakesAll write
      → Leaves (λ e. Stays e × (e.state.dirty ≡ false)) (some write)
  unfolding try_evict_entry_locked is_evictable
  Leaves-clean write takes c p e l s o =
      let c1 = flush_dirty p c in
      let clean_in : Cache D × Bool → Type 0 = λ r. (r.0.heap p).state.dirty ≡ false in
      let clean : (c1.heap p).state.dirty ≡ false = clean-flush_dirty write c p takes e l in
      elim (Bool-cases (is_evictable (c1.heap p) false && ((c1.heap p).lookup_pins == 0))) [
        | inl z ↦ absurd (ground (arith, sym (ap (λ b. (if b then true else false)) z), o))
        | inr z ↦ (
          s,
          subst (λ b. clean_in (if b then (drop_entry p c1, true) else (c1, false))) (sym z) clean,
        )
      ]

  -- kes_cache_sync on a well-formed cache whose write_extent takes every write: the device is the
  -- one that write_extent makes of it, called once for each dirty entry with its identifier, its
  -- buffer and its size, in the order of the LRU list. No entry is dirty afterwards and the counter
  -- of dirty entries is 0, and the cache is well-formed. An entry that is left and that nobody uses
  -- is one whose load failed.
  pub kes_cache_sync-Flushed :
      (write : WriteExtent D) (c : Cache D) (xs : List ℕ)
      → TakesAll write
      → c.write_extent ≡ some write
      → Sound c xs
      → (ys : List ℕ) × Sound (kes_cache_sync c).0 ys
        × ((kes_cache_sync c).0.stats.entries_dirty ≡ 0)
        × ((q : ℕ) → has ys q ≡ true → Flushed ((kes_cache_sync c).0.heap q))
        × ((kes_cache_sync c).0.device ≡ write_dirty (some write) c.heap xs c.device)
  unfolding kes_cache_sync CountsDirty
  kes_cache_sync-Flushed write c xs takes e (v, d) =
      let (ys, w, left, wrote) =
        cache_sweep-Left (λ e. Stays e × (e.state.dirty ≡ false)) c xs
          (subst (Leaves (λ e. Stays e × (e.state.dirty ≡ false))) (sym e)
            (Leaves-clean write takes))
          v d in
      let c' = cache_sweep c in
      (
        ys,
        (w.valid, w.counts),
        w.counts ∙ total-none (λ q. dirt_of (c'.heap q)) ys (λ q j. ap flag (left q j).1),
        (λ q j.
            Flushed-of (c'.heap q) (Stays-of _ _ refl (left q j).0) (left q j).1
              (w.valid.settled q j).2),
        wrote ∙ ap (λ o. write_dirty o c.heap xs c.device) e,
      )
