-- ===== src/Cache/Valid/Miss.antt =====
-- kes_cache_get_extent of src/kes_cache.c on an extent that is not in the cache.
use kanek_extents_storage.Common.{
  ℕ, ◌+◌, ◌*◌, ◌^◌, ◌<◌, ◌≤◌, true, false, List, ◌∷◌, some, ◌≡◌, refl, ap, subst₂, sym, ◌∙◌, arith,
  inl, inr, Bool-cases, u32, u64,
}
use native.Mathlib.Nat.{mul-le-mul_right}
use kanek_extents_storage.Cache.{
  ExtentId, Cache, kes_align, extent_data_size, update, kes_extent_equal,
}
use kanek_extents_storage.Cache.Lists.{hash_insert, lru_add_head}
use kanek_extents_storage.Cache.Chain.{has, has_ne, ==_comm}
use kanek_extents_storage.Cache.Links.{payload}
use kanek_extents_storage.Cache.Shape.{Shape}
use kanek_extents_storage.Cache.Shape.Moves.{Shape-agree, Shape-same, skeleton}
use kanek_extents_storage.Cache.Shape.Insert.{Absent, Shape-inserted, inserted, payload-inserted}
use kanek_extents_storage.Cache.Sweep.{has_room}
use kanek_extents_storage.Cache.Access.{
  Environment, candidate, init_extent_entry, is_valid_id, build, loaded, leave,
}
use kanek_extents_storage.Cache.Valid.{Valid, no_pins, memory_of}
use kanek_extents_storage.Cache.Valid.Update.{everywhere}
use kanek_extents_storage.Cache.Valid.Evict.{IsSettled-of}
use kanek_extents_storage.Cache.Valid.Add.{Valid-add, CountsDirty-add, has_room-true}
use kanek_extents_storage.Cache.Valid.Entries.{Sound}
use kanek_extents_storage.Cache.Valid.Pins.{store_here, store_there}
use kanek_extents_storage.Cache.Operations.{set_stats}

-- The size of a valid extent is far from the limits of size_t.
pub kes_align-small :
    (id : ExtentId)
    → id.block_count < 2 ^ 32
    → is_valid_id id ≡ true
    → kes_align (extent_data_size id) < 2 ^ 62
unfolding kes_align extent_data_size is_valid_id
kes_align-small id n h =
    let block : id.block_size ≤ 65536 = ground arith in
    let size : id.block_count * id.block_size ≤ 2 ^ 32 * id.block_size =
      mul-le-mul_right id.block_size (omega arith) in
    omega (arith, size, block)

module _ {D : Type 0} where
  -- The state in which a new entry is loaded, but for its flags.
  abbrev pub published : ℕ → Cache D → Cache D
  published p c =
      let c1 = lru_add_head p (set_stats (λ s. record s { misses = u64 (s.misses + 1) }) c) in
      leave (
        set_stats
          (λ s. record s {
            entries_cached = u32 (s.entries_cached + 1);
            memory_used = u64 (s.memory_used + kes_align (c1.heap p).data_size);
          })
          c1)

  -- The candidate is at an address of its own, and no entry has its identifier.
  abbrev pub Built : Environment → ExtentId → Cache D → List ℕ → Type 0
  Built env id c xs =
      (has xs c.next_address ≡ false)
      × ((q : ℕ) → has xs q ≡ true → (build env id c).heap q ≡ c.heap q)
      × ((build env id c).heap c.next_address ≡ candidate env id)
      × Shape (build env id c) xs
      × Absent (build env id c) xs ((build env id c).heap c.next_address).id

  pub Built-build :
      (env : Environment) (id : ExtentId) (c : Cache D) (xs : List ℕ)
      → Absent c xs id
      → Valid c xs no_pins
      → Built env id c xs
  unfolding candidate init_extent_entry
  Built-build env id c xs absent v =
      let p = c.next_address in
      let cb = build env id c in
      let off : has xs p ≡ false = elim (Bool-cases (has xs p)) [
        | inl j ↦ absurd (omega (arith, v.given p j))
        | inr j ↦ j
      ] in
      let kept : (q : ℕ) → has xs q ≡ true → cb.heap q ≡ c.heap q =
        λ q j. store_there p q (λ e. candidate env id) c.heap (==_comm p q ∙ has_ne xs q p j off) in
      let here : cb.heap p ≡ candidate env id = store_here p (λ e. candidate env id) c.heap in
      let shape0 =
        Shape-agree c cb xs refl refl refl refl (λ q j. ap skeleton (kept q j)) v.shape in
      let absent0 : Absent cb xs (cb.heap p).id = λ q j.
        subst₂ (λ x y. kes_extent_equal x y ≡ false) (sym (ap (λ e. e.id) (kept q j)))
          (sym (ap (λ e. e.id) here)) (absent q j) in
      (off, kept, here, shape0, absent0)

  pub Sound-published :
      (env : Environment) (id : ExtentId) (c : Cache D) (xs : List ℕ)
      → Absent c xs id
      → kes_align (extent_data_size id) < 2 ^ 62
      → has_room (kes_align (extent_data_size id)) c ≡ true
      → Sound c xs
      → Sound
          (update
            (some c.next_address)
            loaded
            (published c.next_address (hash_insert c.next_address (build env id c))))
          (c.next_address ∷ xs)
  unfolding lru_add_head candidate init_extent_entry
  Sound-published env id c xs absent small room (v, d) =
      let p = c.next_address in
      let cb = build env id c in
      let cv = update (some p) loaded (published p (hash_insert p cb)) in
      let (off, kept, here, shape0, absent0) = Built-build env id c xs absent v in
      let shape1 = Shape-inserted cb xs p off absent0 shape0 in
      let shape2 =
        Shape-same (inserted p cb) cv (p ∷ xs) refl refl refl refl
          (everywhere skeleton (inserted p cb).heap cv.heap p
            (λ q ne. store_there p q loaded (inserted p cb).heap ne)
            (ap skeleton (store_here p loaded (inserted p cb).heap)))
          shape1 in
      let same : (q : ℕ) → has xs q ≡ true → payload (cv.heap q) ≡ payload (c.heap q) = λ q j.
        ap payload (store_there p q loaded (inserted p cb).heap (==_comm p q ∙ has_ne xs q p j off))
        ∙ payload-inserted cb p q
        ∙ ap payload (kept q j) in
      let mine : payload (cv.heap p) ≡ payload (loaded (candidate env id)) =
        ap payload (store_here p loaded (inserted p cb).heap)
        ∙ ap (λ e. loaded e) (payload-inserted cb p p)
        ∙ ap (λ e. payload (loaded e)) here in
      let bounds = has_room-true (kes_align (extent_data_size id)) c xs no_pins v small room in
      let settled =
        IsSettled-of no_pins p (loaded (candidate env id)) (cv.heap p) mine
          ((env.junk, refl), refl, refl, refl) in
      let size : memory_of (cv.heap p) ≡ kes_align (extent_data_size id) = ap memory_of mine in
      let used : cv.stats.memory_used ≡ u64 (c.stats.memory_used + memory_of (cv.heap p)) =
        ap (λ m. u64 (c.stats.memory_used + m))
          (sym (ap memory_of (store_here p loaded (inserted p cb).heap))) in
      (
        Valid-add c cv xs p v shape2 same settled (ap (λ e. e.pin_count) mine) refl (omega arith)
            (omega arith) refl used refl bounds.0 (rw size bounds.1),
        CountsDirty-add c cv xs p same (ap (λ e. e.state.dirty) mine) refl d,
      )
