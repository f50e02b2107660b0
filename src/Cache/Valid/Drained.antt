-- ===== src/Cache/Valid/Drained.antt =====
-- What kes_cache_destroy of src/kes_cache.c leaves of a cache, and one step of its walk.
use kanek_extents_storage.Common.{
  ℕ, Bool, true, false, ◌==◌, ==_iff, List, [], ◌∷◌, if◌then◌else◌, Status, err, busy, success, ◌≡◌,
  refl, ap, subst, sym, ◌∙◌, arith, ◌⊎◌, inl, inr, Bool-cases,
}
use kanek_extents_storage.Cache.{Entry, Cache}
use kanek_extents_storage.Cache.Lists.{
  extent_free_data, lru_remove, is_evictable, try_evict_entry_locked,
}
use kanek_extents_storage.Cache.Chain.{has, delete}
use kanek_extents_storage.Cache.Chain.Ends.{head}
use kanek_extents_storage.Cache.Lifecycle.{finish_destroy}
use kanek_extents_storage.Cache.Shape.Table.{payload-drop_entry}
use kanek_extents_storage.Cache.Totals.{flag}
use kanek_extents_storage.Cache.Valid.{Valid, no_pins}
use kanek_extents_storage.Cache.Valid.Update.{Valid-frame}
use kanek_extents_storage.Cache.Valid.Evict.{Valid-drop_entry}
use kanek_extents_storage.Cache.Valid.Visit.{IsKept, users_of, try_evict-cases}
use kanek_extents_storage.Cache.Valid.Walk.{Unused}
use kanek_extents_storage.Cache.Valid.Trimmed.{Unused-of}
use kanek_extents_storage.Cache.Valid.Writes.{is_evictable_discard}

-- The entries of `ys`, each in use, are left of `xs`; the others had no user. The counter of dirty
-- entries is as it was, whether or not dirty entries are gone.
pub record Drained {D : Type 0} (c c' : Cache D) (xs ys : List ℕ) : Type 0 where
  pub valid : Valid c' ys no_pins
  pub kept : IsKept c c'
  pub inside : (q : ℕ) → has ys q ≡ true → has xs q ≡ true
  pub gone : (q : ℕ) → has xs q ≡ true → has ys q ≡ false → Unused (c.heap q)
  pub in_use : (q : ℕ) → has ys q ≡ true → ¬ Unused (c'.heap q)
  pub dirty_count : c'.stats.entries_dirty ≡ c.stats.entries_dirty
  pub lookups : c'.inflight_lookups ≡ c.inflight_lookups

is_evictable-Unused : (e : Entry) → is_evictable e true ≡ true → Unused e
unfolding is_evictable
is_evictable-Unused e h =
    let r : (e.ref_count == 0) ≡ true = ground arith in
    let p : (e.pin_count == 0) ≡ true = ground arith in ((==_iff _ _).0 r, (==_iff _ _).0 p)

module _ {D : Type 0} where
  -- What the attempt on one entry changes besides the list.
  abbrev pub Same : Cache D → Cache D → Type 0
  Same c c' =
      IsKept c c'
      × (c'.stats.entries_dirty ≡ c.stats.entries_dirty)
      × (c'.inflight_lookups ≡ c.inflight_lookups)

  pub discard-cases :
      (c : Cache D) (xs : List ℕ) (pinned : ℕ → Bool) (p : ℕ)
      → has xs p ≡ true
      → pinned p ≡ false
      → Valid c xs pinned
      → Same c (try_evict_entry_locked p true c).0
        × ((Unused (c.heap p) × Valid (try_evict_entry_locked p true c).0 (delete p xs) pinned)
            ⊎ (¬ Unused (c.heap p) × Valid (try_evict_entry_locked p true c).0 xs pinned))
  unfolding extent_free_data lru_remove
  discard-cases c xs pinned p i free v =
      let s = v.settled p i in
      elim (try_evict-cases p true c (s.3 ∙ ap flag free)) [
        | inl z ↦
            let u = is_evictable-Unused (c.heap p) z.1 in
            rw z.0 (
              ((λ q. ap users_of (payload-drop_entry c p q)), refl, refl),
              inl (u, Valid-drop_entry c xs pinned p i u.1 v),
            )
        | inr z ↦ rw z.0 (
          ((λ q. refl), refl, refl),
          inr ((λ u. absurd (ground (arith, is_evictable_discard (c.heap p) u.0 u.1 s.2, z.1))), v),
        )
      ]

  pub Drained-step :
      (c c2 c' : Cache D) (xs zs ys : List ℕ)
      → Same c c2
      → ((q : ℕ) → has zs q ≡ true → has xs q ≡ true)
      → ((q : ℕ) → has xs q ≡ true → has zs q ≡ false → Unused (c.heap q))
      → Drained c2 c' zs ys
      → Drained c c' xs ys
  Drained-step c c2 c' xs zs ys same inside gone w = record {
    valid = w.valid;
    kept = λ q. w.kept q ∙ same.0 q;
    inside = λ q i. inside q (w.inside q i);
    gone = λ q i o. elim (Bool-cases (has zs q)) [
      | inl j ↦ Unused-of (c.heap q) (c2.heap q) (same.0 q) (w.gone q j o)
      | inr j ↦ gone q i j
    ];
    in_use = w.in_use;
    dirty_count = w.dirty_count ∙ same.1;
    lookups = w.lookups ∙ same.2;
  }

  pub Same-trans : (c c1 c2 : Cache D) → Same c c1 → Same c1 c2 → Same c c2
  Same-trans c c1 c2 s t = ((λ q. t.0 q ∙ s.0 q), t.1 ∙ s.1, t.2 ∙ s.2)

  -- Success means that the cache is empty; otherwise it can be used again.
  abbrev pub Emptied : Cache D × Status → List ℕ → Type 0
  Emptied r ys =
      ((r.1 ≡ success) × (ys ≡ []))
      ⊎ ((r.1 ≡ err busy) × ((q : ℕ) × (has ys q ≡ true)) × (r.0.destroying ≡ false))

  abbrev pub Outcome : Cache D → Cache D × Status → List ℕ → List ℕ → Type 0
  Outcome c r xs ys = Drained c r.0 xs ys × Emptied r ys

  pub finish_destroy-Emptied :
      (c c' : Cache D) (xs ys : List ℕ)
      → c.inflight_lookups ≡ 0
      → Drained c c' xs ys
      → Outcome c (finish_destroy (head ys) c') xs ys
  unfolding finish_destroy
  finish_destroy-Emptied c c' xs [] n w =
      subst
        (λ b.
          Outcome c (if b then (c', success) else (record c' { destroying = false }, err busy)) xs
            [])
        (sym ((==_iff _ _).1 (w.lookups ∙ n))) (w, inl (refl, refl))
  finish_destroy-Emptied c c' xs (y ∷ ys) n w = (
    record {
      valid =
          Valid-frame c' (record c' { destroying = false }) (y ∷ ys) no_pins
            (refl, refl, refl, refl, refl, refl, refl, refl) refl refl w.valid;
      kept = w.kept;
      inside = w.inside;
      gone = w.gone;
      in_use = w.in_use;
      dirty_count = w.dirty_count;
      lookups = w.lookups;
    },
    inr (refl, (y, rw ((==_iff y y).1 refl) refl), refl),
  )
