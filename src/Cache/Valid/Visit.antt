-- ===== src/Cache/Valid/Visit.antt =====
-- What the walks of src/kes_cache.c do to the entry that they are at: it is written back if it is
-- dirty, and evicted if it can be.
use kanek_extents_storage.Common.{
  ℕ, ◌^◌, ◌<◌, Bool, true, false, ◌==◌, ==_iff, List, Option, none, some, ok, err, Status, ◌≡◌,
  refl, ap, arith, ◌⊎◌, inl, inr, Bool-cases,
}
use kanek_extents_storage.Cache.{ExtentId, Entry, Cache, WriteExtent, store}
use kanek_extents_storage.Cache.Lists.{
  lru_remove, drop_entry, extent_free_data, is_evictable, try_evict_entry_locked,
}
use kanek_extents_storage.Cache.Chain.{has, delete}
use kanek_extents_storage.Cache.Totals.{
  flag, total-delete, total-agree, total_part, total_le, flag_le,
}
use kanek_extents_storage.Cache.Shape.Table.{payload-drop_entry}
use kanek_extents_storage.Cache.Sweep.{
  cleaned, failed, write_result, write_entry, write_registered, flush_dirty,
}
use kanek_extents_storage.Cache.Valid.{Valid, dirt_of, CountsDirty}
use kanek_extents_storage.Cache.Valid.Update.{Valid-update, CountsDirty-update}

-- What the users of an entry see of it.
abbrev pub users_of : Entry → ExtentId × Option (List ℕ) × ℕ × ℕ × ℕ
users_of e = (e.id, e.buffer, e.ref_count, e.pin_count, e.data_size)

module _ {D : Type 0} where
  abbrev pub IsKept : Cache D → Cache D → Type 0
  IsKept c c' = (q : ℕ) → users_of (c'.heap q) ≡ users_of (c.heap q)

  pub CountsDirty-bound :
      (c : Cache D) (xs : List ℕ) (pinned : ℕ → Bool)
      → Valid c xs pinned
      → CountsDirty c xs
      → c.stats.entries_dirty < 2 ^ 32
  unfolding CountsDirty
  CountsDirty-bound c xs pinned v d = omega (
    arith,
    d,
    total_le (λ q. dirt_of (c.heap q)) xs (λ q. flag_le (c.heap q).state.dirty),
    v.entries_fit,
    v.entries_small,
  )

  -- What a write back of the entry at `p`, on a device that is then `device`, comes to.
  abbrev pub Flushes : Cache D → Cache D → List ℕ → (ℕ → Bool) → ℕ → Type 0
  Flushes c c' xs pinned p =
      Valid c' xs pinned
      × CountsDirty c' xs
      × ((q : ℕ) → (p == q) ≡ false → c'.heap q ≡ c.heap q)
      × (users_of (c'.heap p) ≡ users_of (c.heap p))

  pub Flushes-write_result :
      (c : Cache D) (xs : List ℕ) (pinned : ℕ → Bool) (p : ℕ) (device : D) (result : Status)
      → has xs p ≡ true
      → (c.heap p).state.dirty ≡ true
      → Valid c xs pinned
      → CountsDirty c xs
      → Flushes c (write_result p result (record c { device = device })) xs pinned p
  unfolding write_result store CountsDirty
  Flushes-write_result c xs pinned p device (ok tt) i dirty v d =
      let s = v.settled p i in
      let c' = write_result p (ok tt) (record c { device = device }) in
      let small = CountsDirty-bound c xs pinned v d in
      let part = total_part (λ q. dirt_of (c.heap q)) xs p i in
      (
        Valid-update c c' xs pinned pinned p cleaned i
            (refl, refl, refl, refl, refl, refl, refl, refl) refl refl refl s refl (λ q ne. refl) v,
        CountsDirty-update c c' xs pinned p cleaned i v refl
            (omega (arith, ap flag dirty, small, part, d)) d,
        (λ q ne. rw ne refl),
        rw ((==_iff p p).1 refl) refl,
      )
  Flushes-write_result c xs pinned p device (err e) i dirty v d =
      let s = v.settled p i in
      let c' = write_result p (err e) (record c { device = device }) in
      (
        Valid-update c c' xs pinned pinned p failed i
            (refl, refl, refl, refl, refl, refl, refl, refl) refl refl refl s refl (λ q ne. refl) v,
        CountsDirty-update c c' xs pinned p failed i v refl refl d,
        (λ q ne. rw ne refl),
        rw ((==_iff p p).1 refl) refl,
      )

  Flushes-write_registered :
      (c : Cache D) (xs : List ℕ) (pinned : ℕ → Bool) (p : ℕ) (write : Option (WriteExtent D))
      → has xs p ≡ true
      → (c.heap p).state.dirty ≡ true
      → Valid c xs pinned
      → CountsDirty c xs
      → Flushes c (write_registered p write c) xs pinned p
  unfolding write_registered write_entry
  Flushes-write_registered c xs pinned p none i dirty v d = (v, d, (λ q ne. refl), refl)
  Flushes-write_registered c xs pinned p (some write) i dirty v d =
      Flushes-write_result c xs pinned p _ _ i dirty v d

  pub Flushes-flush_dirty :
      (c : Cache D) (xs : List ℕ) (pinned : ℕ → Bool) (p : ℕ)
      → has xs p ≡ true
      → Valid c xs pinned
      → CountsDirty c xs
      → Flushes c (flush_dirty p c) xs pinned p
  unfolding flush_dirty
  Flushes-flush_dirty c xs pinned p i v d =
      let still : Flushes c c xs pinned p = (v, d, (λ q ne. refl), refl) in
      elim (Bool-cases (c.heap p).state.dirty) [
        | inl dirty ↦
            simp (dirty, (v.settled p i).1)
              (Flushes-write_registered c xs pinned p c.write_extent i dirty v d)
        | inr dirty ↦ simp dirty still
      ]

  pub try_evict-cases :
      (p : ℕ) (discard_dirty : Bool) (c : Cache D)
      → (c.heap p).lookup_pins ≡ 0
      → ((try_evict_entry_locked p discard_dirty c ≡ (drop_entry p c, true))
          × (is_evictable (c.heap p) discard_dirty ≡ true))
        ⊎ ((try_evict_entry_locked p discard_dirty c ≡ (c, false))
            × (is_evictable (c.heap p) discard_dirty ≡ false))
  unfolding try_evict_entry_locked
  try_evict-cases p discard_dirty c free =
      elim (Bool-cases (is_evictable (c.heap p) discard_dirty)) [
        | inl e ↦ inl (rw (e, free) refl, e)
        | inr e ↦ inr (rw e refl, e)
      ]

  -- What is evicted without its changes is clean.
  pub CountsDirty-drop_entry :
      (c : Cache D) (xs : List ℕ) (p : ℕ)
      → has xs p ≡ true
      → (c.heap p).state.dirty ≡ false
      → CountsDirty c xs
      → CountsDirty (drop_entry p c) (delete p xs)
  unfolding CountsDirty extent_free_data lru_remove
  CountsDirty-drop_entry c xs p i clean d =
      let parts = total-delete (λ q. dirt_of (c.heap q)) xs p i in
      let agree =
        total-agree (λ q. dirt_of (c.heap q)) (λ q. dirt_of ((drop_entry p c).heap q)) (delete p xs)
          (λ q _. ap dirt_of (payload-drop_entry c p q)) in
      omega (arith, parts, agree, d, ap flag clean)
