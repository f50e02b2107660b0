-- ===== src/Cache/Valid/Sweeps.antt =====
-- cache_sweep of src/kes_cache.c goes through the whole LRU list and keeps the invariant.
use kanek_extents_storage.Common.{
  ℕ, zero, suc, true, Option, ◌≤◌, false, ◌==◌, ==_iff, List, [], ◌∷◌, ◌++◌, length, none, some,
  ◌≡◌, refl, ap, subst, sym, ◌∙◌, arith, inl, inr, Bool-cases, append-nil,
}
use kanek_extents_storage.Cache.{Entry, Cache, WriteExtent, points, store}
use kanek_extents_storage.Cache.Lists.{try_evict_entry_locked, pin_lookup, unpin_lookup}
use kanek_extents_storage.Cache.Chain.{has, ==_comm}
use kanek_extents_storage.Cache.Chain.Ends.{head, Linked-around, Linked-head}
use kanek_extents_storage.Cache.Chain.Parts.{
  has-append, append_cons, delete-append, has_middle, head_cases, head-has, done_apart,
}
use kanek_extents_storage.Cache.Links.{list_next_of, list_prev_of}
use kanek_extents_storage.Cache.Sweep.{
  flush_dirty, sweep_from, cache_sweep, sweep_flush_and_maybe_evict,
}
use kanek_extents_storage.Cache.Valid.{Valid, CountsDirty, no_pins}
use kanek_extents_storage.Cache.Valid.Evict.{Valid-pins}
use kanek_extents_storage.Cache.Valid.Visit.{IsKept}
use kanek_extents_storage.Cache.Valid.Walk.{Unused, Stays, Stays-of, standing, Visited-try_evict}
use kanek_extents_storage.Cache.Valid.Pinning.{
  standing-next, standing-pin, Valid-next, Spares-next, Valid-start, IsKept-start,
}
use kanek_extents_storage.Cache.Valid.Trimmed.{
  Trimmed, AllStay, Swept, Unused-of, CountsDirty-next, Trimmed-step,
}
use kanek_extents_storage.Cache.Valid.Writer.{
  write_extent-visit, written, write_dirty, written-standing, write_dirty-agree, device-visit,
}

module _ {D : Type 0} where
  -- What holds of each entry that is left.
  abbrev pub AllLeft : (Entry → Type 0) → Cache D → List ℕ → Type 0
  AllLeft Left c xs = (q : ℕ) → has xs q ≡ true → Left (standing (c.heap q))

  -- The entry that a round comes to, with this write_extent, is left so.
  abbrev pub Leaves : (Entry → Type 0) → Option (WriteExtent D) → Type 0
  Leaves Left write =
      (c : Cache D) (p : ℕ)
      → c.write_extent ≡ write
      → (c.heap p).state.loading ≡ false
      → Stays ((try_evict_entry_locked p false (flush_dirty p c)).0.heap p)
      → (try_evict_entry_locked p false (flush_dirty p c)).1 ≡ false
      → Left (standing ((try_evict_entry_locked p false (flush_dirty p c)).0.heap p))

  -- A walk over the entries `rest` of `xs` is at its end.
  abbrev pub Walked :
      (Entry → Type 0) → Option (WriteExtent D) → Cache D → Cache D → List ℕ → List ℕ → Type 0
  Walked Left write c c' xs rest =
      (ys : List ℕ) × Trimmed c c' xs ys
      × AllLeft Left c' ys
      × (c'.device ≡ write_dirty write c.heap rest c.device)

  sweep_from-Left :
      (Left : Entry → Type 0) (write : Option (WriteExtent D)) (fuel : ℕ) (c : Cache D)
      (done rest : List ℕ)
      → Leaves Left write
      → c.write_extent ≡ write
      → length rest ≤ fuel
      → Valid c (done ++ rest) (points (head rest))
      → CountsDirty c (done ++ rest)
      → AllLeft Left c done
      → Walked Left write c (sweep_from fuel (head rest) c) (done ++ rest) rest
  unfolding sweep_from sweep_flush_and_maybe_evict write_dirty
  sweep_from-Left Left write fuel c done [] leaves wr n v d a = (
    done,
    record {
      valid =
          subst (λ xs. Valid c xs no_pins) (append-nil done)
            (Valid-pins c _ (points none) no_pins (λ q _. refl) v);
      counts = subst (CountsDirty c) (append-nil done) d;
      kept = λ q. refl;
      inside = λ q i. rw (append-nil done) i;
      gone = λ q i o. absurd (ground (arith, sym (ap (λ l. has l q) (append-nil done)) ∙ i));
    },
    a,
    refl,
  )
  sweep_from-Left Left write zero c done (p ∷ rest) leaves wr n v d a = absurd (omega arith)
  sweep_from-Left Left write (suc fuel) c done (p ∷ rest) leaves wr n v d a =
      let xs = done ++ p ∷ rest in
      let next : list_next_of c p ≡ head rest =
        (Linked-around (list_next_of c) (list_prev_of c) none done c.mru_head p rest
          v.shape.lru).0 in
      let i = has_middle done p rest in
      let c1 = unpin_lookup (some p) (pin_lookup (head rest) c) in
      let v1 = Valid-next c xs p (head rest) i (head_cases done p rest v.shape.distinct) v in
      let free : points (head rest) p ≡ false = elim (head_cases done p rest v.shape.distinct) [
        | inl e ↦ rw e refl
        | inr z ↦ rw z.1 (==_comm z.0 p ∙ z.3)
      ] in
      let step =
        Visited-try_evict c1 xs (points (head rest)) p i free v1
          (CountsDirty-next c xs (some p) (head rest) d) in
      let c2 = (try_evict_entry_locked p false (flush_dirty p c1)).0 in
      let spares = Spares-next c p (head rest) in
      let kept : IsKept c c2 = λ q. step.1.0 q ∙ spares.0 q in
      let wr2 : c2.write_extent ≡ write = write_extent-visit c1 p ∙ wr in
      let before : AllLeft Left c2 done = λ q j.
        let ne =
          done_apart done p rest q v.shape.distinct (ground (arith, has-append done rest q)) in
        subst Left (sym (step.1.1 q ne ∙ spares.1 q ne)) (a q j) in
      let first : c2.device ≡ written write (c.heap p) c.device =
        device-visit c1 p (v1.settled p i).1
        ∙ ap (λ w. written w (c1.heap p) c.device) wr
        ∙ written-standing write (c.heap p) (c1.heap p) c.device
            (standing-next c (some p) (head rest) p) in
      let later : write_dirty write c2.heap rest c2.device
          ≡ write_dirty write c.heap rest (written write (c.heap p) c.device) =
        write_dirty-agree write c.heap c2.heap rest c2.device (λ q j.
          let ne =
            done_apart done p rest q v.shape.distinct (ground (arith, has-append done rest q)) in
          step.1.1 q ne ∙ spares.1 q ne)
        ∙ ap (write_dirty write c.heap rest) first in
      subst
        (λ o.
          Walked Left write c (sweep_from fuel o (sweep_flush_and_maybe_evict p (pin_lookup o c)))
            xs (p ∷ rest))
        (sym next)
        (elim step.0 [
          | inl z ↦
              let list = delete-append done p rest v.shape.distinct in
              let (ys, w, left, wrote) =
                sweep_from-Left Left write fuel c2 done rest leaves wr2 (omega arith)
                  (subst (λ zs. Valid c2 zs (points (head rest))) list z.1)
                  (subst (CountsDirty c2) list z.2) before in
              (
                ys,
                Trimmed-step c c2 _ xs (done ++ rest) ys kept
                    (λ q j. ground (arith, has-append done rest q, has-append done (p ∷ rest) q))
                    (λ q j o. elim (Bool-cases (p == q)) [
                      | inl e ↦
                          subst (λ q. Unused (c.heap q)) ((==_iff p q).0 e)
                            (Unused-of (c.heap p) (c1.heap p) (spares.0 p) z.3)
                      | inr e ↦
                          absurd
                            (ground (arith, has-append done rest q, has-append done (p ∷ rest) q))
                    ])
                    w,
                left,
                wrote ∙ later,
              )
          | inr z ↦
              let list = append_cons done p rest in
              let (ys, w, left, wrote) =
                sweep_from-Left Left write fuel c2 (done ++ p ∷ []) rest leaves wr2 (omega arith)
                  (subst (λ zs. Valid c2 zs (points (head rest))) list z.1)
                  (subst (CountsDirty c2) list z.2)
                  (λ q j. elim (Bool-cases (p == q)) [
                    | inl e ↦
                        subst (λ q. Left (standing (c2.heap q))) ((==_iff p q).0 e)
                          (leaves c1 p wr (v1.settled p i).1 z.3 z.0)
                    | inr e ↦ before q (ground (arith, has-append done (p ∷ []) q))
                  ]) in
              (
                ys,
                Trimmed-step c c2 _ xs xs ys kept (λ q j. j) (λ q j o. absurd (ground arith))
                    (subst (λ zs. Trimmed c2 (sweep_from fuel (head rest) c2) zs ys) (sym list) w),
                left,
                wrote ∙ later,
              )
        ])

  pub cache_sweep-Left :
      (Left : Entry → Type 0) (c : Cache D) (xs : List ℕ)
      → Leaves Left c.write_extent
      → Valid c xs no_pins
      → CountsDirty c xs
      → Walked Left c.write_extent c (cache_sweep c) xs xs
  unfolding cache_sweep store
  cache_sweep-Left Left c xs leaves v d =
      let first = Linked-head (list_next_of c) (list_prev_of c) none xs c.mru_head v.shape.lru in
      let (ys, w, left, wrote) =
        sweep_from-Left Left c.write_extent c.stats.entries_cached (pin_lookup (head xs) c) [] xs
          leaves refl (omega (arith, v.cached)) (Valid-start c xs (head xs) (head-has xs) v)
          (CountsDirty-next c xs none (head xs) d) (λ q j. absurd (ground arith)) in
      let walk : Option ℕ → Cache D =
        λ start. sweep_from c.stats.entries_cached start (pin_lookup start c) in
      let same =
        write_dirty-agree c.write_extent c.heap (pin_lookup (head xs) c).heap xs c.device
          (λ q _. standing-pin c (head xs) q) in
      subst (λ start. Walked Left c.write_extent c (walk start) xs xs) (sym first)
        (
          ys,
          Trimmed-step c (pin_lookup (head xs) c) _ xs xs ys (IsKept-start c (head xs)) (λ q j. j)
              (λ q j o. absurd (ground arith)) w,
          left,
          wrote ∙ same,
        )

  -- A sweep of a well-formed cache comes to the end of the list within its rounds, whatever
  -- write_extent returns: the cache is well-formed and no pin of the walk is left, only entries
  -- without a reference or a pin are gone, identifiers, buffers and counts of users of all others
  -- are as before, and each of them is referenced, pinned, dirty or in error.
  pub cache_sweep-Swept :
      (c : Cache D) (xs : List ℕ)
      → Valid c xs no_pins
      → CountsDirty c xs
      → (ys : List ℕ) × Swept c (cache_sweep c) xs ys
  cache_sweep-Swept c xs v d =
      let (ys, w, left, wrote) =
        cache_sweep-Left Stays c xs (λ c1 p e l s o. Stays-of _ _ refl s) v d in
      let staying : AllStay (cache_sweep c) ys =
        λ q j. Stays-of _ ((cache_sweep c).heap q) refl (left q j) in
      (ys, (w, staying))
