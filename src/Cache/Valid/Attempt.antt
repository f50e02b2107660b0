-- ===== src/Cache/Valid/Attempt.antt =====
-- One round of make_room_for_new_entry of src/kes_cache.c.
use kanek_extents_storage.Common.{
  ℕ, Bool, true, false, List, [], ◌∷◌, none, some, ◌≡◌, refl, subst, sym, ◌∙◌, inl, inr,
}
use kanek_extents_storage.Cache.{Cache, points, store}
use kanek_extents_storage.Cache.Lists.{try_evict_entry_locked, pin_lookup, unpin_lookup}
use kanek_extents_storage.Cache.Chain.{Linked, has}
use kanek_extents_storage.Cache.Chain.Ends.{head, Linked-around}
use kanek_extents_storage.Cache.Chain.Parts.{has_middle, onto, onto-append, last-onto, last_cases}
use kanek_extents_storage.Cache.Links.{list_next_of, list_prev_of}
use kanek_extents_storage.Cache.Sweep.{flush_dirty}
use kanek_extents_storage.Cache.Valid.{Valid, CountsDirty, no_pins}
use kanek_extents_storage.Cache.Valid.Visit.{Flushes-flush_dirty}
use kanek_extents_storage.Cache.Valid.Walk.{
  Visited, Spares, Visited-evict, Spares-trans, Spares-flush_dirty,
}
use kanek_extents_storage.Cache.Valid.Pinning.{Valid-start, Valid-stop, Spares-start, Spares-stop}
use kanek_extents_storage.Cache.Valid.Trimmed.{CountsDirty-next}

module _ {D : Type 0} where
  -- What the walk does at the entry `p`, before it goes on to `prev`.
  abbrev pub tried : ℕ → Cache D → Cache D × Bool
  tried p c =
      let c1 = flush_dirty p (unpin_lookup (some p) c) in
      try_evict_entry_locked p false (pin_lookup (c1.heap p).list_prev c1)

  pub Visited-tried :
      (c : Cache D) (us done : List ℕ) (p : ℕ)
      → Valid c (onto us (p ∷ done)) (points (some p))
      → CountsDirty c (onto us (p ∷ done))
      → (((flush_dirty p (unpin_lookup (some p) c)).heap p).list_prev ≡ head us)
        × Visited c (tried p c) (onto us (p ∷ done)) (points (head us)) p
        × Spares c (tried p c).0 p
  unfolding store
  Visited-tried c us done p v d =
      let xs = onto us (p ∷ done) in
      let list = onto-append us (p ∷ done) in
      let i : has xs p ≡ true = rw list (has_middle (onto us []) p done) in
      let c0 = unpin_lookup (some p) c in
      let v0 = Valid-stop c xs (some p) (inr (p, refl, i)) v in
      let d0 = CountsDirty-next c xs (some p) none d in
      let f = Flushes-flush_dirty c0 xs no_pins p i v0 d0 in
      let c1 = flush_dirty p c0 in
      let prev : list_prev_of c1 p ≡ head us =
        (Linked-around (list_next_of c1) (list_prev_of c1) none (onto us []) c1.mru_head p done (
          subst (λ zs. Linked (list_next_of c1) (list_prev_of c1) none zs c1.mru_head) list
            f.0.shape.lru)).1
        ∙ last-onto us in
      let ahead = last_cases us p done v.shape.distinct in
      let v2 =
        Valid-start c1 xs (head us) (elim ahead [ inl e ↦ inl e | inr z ↦ inr (z.0, z.1, z.2) ])
          f.0 in
      let free : points (head us) p ≡ false = elim ahead [
        | inl e ↦ rw e refl
        | inr z ↦ rw z.1 z.3
      ] in
      let spares = Spares-trans c c0 (pin_lookup (head us) c1) p (Spares-stop c p (some p)) (
        Spares-trans c0 c1 (pin_lookup (head us) c1) p (Spares-flush_dirty c0 xs no_pins p f)
          (Spares-start c1 p (head us))) in
      let both =
        Visited-evict c (pin_lookup (head us) c1) xs (points (head us)) p i free v2
          (CountsDirty-next c1 xs none (head us) f.1) spares in
      let moved : (Visited c (tried p c) xs (points (head us)) p) × Spares c (tried p c).0 p =
        subst
          (λ o.
            Visited c (try_evict_entry_locked p false (pin_lookup o c1)) xs (points (head us)) p
            × Spares c (try_evict_entry_locked p false (pin_lookup o c1)).0 p)
          (sym prev) both in
      (prev, moved.0, moved.1)
