-- ===== src/Cache/Valid/Destroy.antt =====
-- kes_cache_destroy of src/kes_cache.c: its walk evicts every entry that nobody uses.
use kanek_extents_storage.Common.{
  ℕ, zero, suc, ◌≤◌, true, false, ◌==◌, ==_iff, List, [], ◌∷◌, ◌++◌, length, if◌then◌else◌, Option,
  none, some, Status, err, busy, ◌≡◌, refl, ap, subst, sym, ◌∙◌, arith, ◌⊎◌, inl, inr, Bool-cases,
  append-nil,
}
use kanek_extents_storage.Cache.{Cache, points, store}
use kanek_extents_storage.Cache.Lists.{try_evict_entry_locked, pin_lookup, unpin_lookup}
use kanek_extents_storage.Cache.Chain.{has, ==_comm}
use kanek_extents_storage.Cache.Chain.Ends.{head, Linked-around, Linked-head}
use kanek_extents_storage.Cache.Chain.Parts.{
  has-append, append_cons, delete-append, has_middle, head_cases, head-has,
}
use kanek_extents_storage.Cache.Links.{list_next_of, list_prev_of}
use kanek_extents_storage.Cache.Lifecycle.{
  kes_cache_stop, destroy_from, finish_destroy, kes_cache_destroy,
}
use kanek_extents_storage.Cache.Valid.{Valid, no_pins}
use kanek_extents_storage.Cache.Valid.Drained.{
  Drained, Same, discard-cases, Drained-step, Same-trans, Outcome, finish_destroy-Emptied,
}
use kanek_extents_storage.Cache.Valid.Update.{Valid-frame}
use kanek_extents_storage.Cache.Valid.Evict.{Valid-pins}
use kanek_extents_storage.Cache.Valid.Walk.{Unused}
use kanek_extents_storage.Cache.Valid.Pinning.{Valid-next, Spares-next, Valid-start, IsKept-start}
use kanek_extents_storage.Cache.Valid.Trimmed.{Unused-of}

module _ {D : Type 0} where
  abbrev AllUsed : Cache D → List ℕ → Type 0
  AllUsed c xs = (q : ℕ) → has xs q ≡ true → ¬ Unused (c.heap q)

  destroy_from-Drained :
      (fuel : ℕ) (c : Cache D) (done rest : List ℕ)
      → length rest ≤ fuel
      → Valid c (done ++ rest) (points (head rest))
      → AllUsed c done
      → (ys : List ℕ) × Drained c (destroy_from fuel (head rest) c) (done ++ rest) ys
  unfolding destroy_from
  destroy_from-Drained fuel c done [] n v a = (
    done,
    record {
      valid =
          subst (λ xs. Valid c xs no_pins) (append-nil done)
            (Valid-pins c _ (points none) no_pins (λ q _. refl) v);
      kept = λ q. refl;
      inside = λ q i. rw (append-nil done) i;
      gone = λ q i o. absurd (ground (arith, sym (ap (λ l. has l q) (append-nil done)) ∙ i));
      in_use = a;
      dirty_count = refl;
      lookups = refl;
    },
  )
  destroy_from-Drained zero c done (p ∷ rest) n v a = absurd (omega arith)
  destroy_from-Drained (suc fuel) c done (p ∷ rest) n v a =
      let xs = done ++ p ∷ rest in
      let next : list_next_of c p ≡ head rest =
        (Linked-around (list_next_of c) (list_prev_of c) none done c.mru_head p rest
          v.shape.lru).0 in
      let i = has_middle done p rest in
      let c1 = unpin_lookup (some p) (pin_lookup (head rest) c) in
      let v1 = Valid-next c xs p (head rest) i (head_cases done p rest v.shape.distinct) v in
      let free : points (head rest) p ≡ false = elim (head_cases done p rest v.shape.distinct) [
        | inl e ↦ rw e refl
        | inr z ↦ rw z.1 (==_comm z.0 p ∙ z.3)
      ] in
      let step = discard-cases c1 xs (points (head rest)) p i free v1 in
      let c2 = (try_evict_entry_locked p true c1).0 in
      let same : Same c c2 =
        Same-trans c c1 c2 ((Spares-next c p (head rest)).0, refl, refl) step.0 in
      let before : AllUsed c2 done =
        λ q j u. a q j (Unused-of (c.heap q) (c2.heap q) (same.0 q) u) in
      let here = (Spares-next c p (head rest)).0 p in
      rw next (elim step.1 [
        | inl z ↦
            let list = delete-append done p rest v.shape.distinct in
            let (ys, w) =
              destroy_from-Drained fuel c2 done rest (omega arith)
                (subst (λ zs. Valid c2 zs (points (head rest))) list z.1) before in
            (
              ys,
              Drained-step c c2 _ xs (done ++ rest) ys same
                  (λ q j. ground (arith, has-append done rest q, has-append done (p ∷ rest) q))
                  (λ q j o. elim (Bool-cases (p == q)) [
                    | inl e ↦
                        subst (λ q. Unused (c.heap q)) ((==_iff p q).0 e)
                          (Unused-of (c.heap p) (c1.heap p) here z.0)
                    | inr e ↦
                        absurd
                          (ground (arith, has-append done rest q, has-append done (p ∷ rest) q))
                  ])
                  w,
            )
        | inr z ↦
            let list = append_cons done p rest in
            let (ys, w) =
              destroy_from-Drained fuel c2 (done ++ p ∷ []) rest (omega arith)
                (subst (λ zs. Valid c2 zs (points (head rest))) list z.1)
                (λ q j. elim (Bool-cases (p == q)) [
                  | inl e ↦
                      subst (λ q. ¬ Unused (c2.heap q)) ((==_iff p q).0 e)
                        (λ u. z.0 (Unused-of (c1.heap p) (c2.heap p) (step.0.0 p) u))
                  | inr e ↦ before q (ground (arith, has-append done (p ∷ []) q))
                ]) in
            (
              ys,
              Drained-step c c2 _ xs xs ys same (λ q j. j) (λ q j o. absurd (ground arith))
                  (subst (λ zs. Drained c2 (destroy_from fuel (head rest) c2) zs ys) (sym list) w),
            )
      ])

  abbrev locked_out : Cache D → Cache D
  locked_out c = record (kes_cache_stop c).0 { destroying = true }

  -- kes_cache_destroy on a well-formed cache: with a lookup in progress it stops the threads and
  -- returns KES_ERROR_BUSY. Otherwise exactly the entries with a reference or a pin are left, in a
  -- well-formed cache, where the counter of dirty entries is as before, also when dirty ones are
  -- gone. It succeeds where no entry is left; where one is, it returns KES_ERROR_BUSY and the cache
  -- can be used again.
  pub kes_cache_destroy-cases :
      (c : Cache D) (xs : List ℕ)
      → Valid c xs no_pins
      → (¬ (c.inflight_lookups ≡ 0) × (kes_cache_destroy c ≡ ((kes_cache_stop c).0, err busy)))
        ⊎ ((ys : List ℕ) × Outcome c (kes_cache_destroy c) xs ys)
  unfolding kes_cache_destroy kes_cache_stop store
  kes_cache_destroy-cases c xs v =
      let c2 = locked_out c in
      let walk : Option ℕ → Cache D =
        λ start. destroy_from c.stats.entries_cached start (pin_lookup start c2) in
      let ends : Option ℕ → Cache D × Status =
        λ start. finish_destroy (walk start).mru_head (walk start) in
      let stopped : Cache D × Status = ((kes_cache_stop c).0, err busy) in
      elim (Bool-cases (c.inflight_lookups == 0)) [
        | inr e ↦ inl (
          (λ n. absurd (ground (arith, (==_iff _ _).1 n, e))),
          ap (λ b. if b then ends c.mru_head else stopped) e,
        )
        | inl e ↦
            let v2 =
              Valid-frame c c2 xs no_pins (refl, refl, refl, refl, refl, refl, refl, refl) refl refl
                v in
            let c3 = pin_lookup (head xs) c2 in
            let first =
              Linked-head (list_next_of c) (list_prev_of c) none xs c.mru_head v.shape.lru in
            let (ys, w) =
              destroy_from-Drained c.stats.entries_cached c3 [] xs (omega (arith, v.cached))
                (Valid-start c2 xs (head xs) (head-has xs) v2) (λ q j. absurd (ground arith)) in
            let c4 = walk (head xs) in
            let drained =
              Drained-step c c3 c4 xs xs ys (IsKept-start c2 (head xs), refl, refl) (λ q j. j)
                (λ q j o. absurd (ground arith)) w in
            let last =
              Linked-head (list_next_of c4) (list_prev_of c4) none ys c4.mru_head
                w.valid.shape.lru in
            let finished =
              subst (λ front. Outcome c (finish_destroy front c4) xs ys) (sym last)
                (finish_destroy-Emptied c c4 xs ys ((==_iff _ _).0 e) drained) in
            inr (
              ys,
              subst (λ b. Outcome c (if b then ends c.mru_head else stopped) xs ys) (sym e)
                  (subst (λ start. Outcome c (ends start) xs ys) (sym first) finished),
            )
      ]
