-- ===== src/Cache/Valid/Fresh.antt =====
-- A new entry in kes_cache_get_extent of src/kes_cache.c, and the whole call.
use kanek_extents_storage.Common.{
  ℕ, ◌+◌, ◌^◌, ◌<◌, true, false, ◌&&◌, if_false, List, busy, invalid, nomem, ◌≡◌, ◌≢◌, refl, ap,
  subst, sym, ◌∙◌, arith, inl, inr, Bool-cases, u32,
}
use kanek_extents_storage.Os.Outcomes.{Ends, fails}
use kanek_extents_storage.Cache.{ExtentId, Cache, kes_align, extent_data_size, kes_extent_equal}
use kanek_extents_storage.Cache.Lists.{hash_insert, lru_add_head, hash_find, hash_find_or_insert}
use kanek_extents_storage.Cache.Links.{payload}
use kanek_extents_storage.Cache.Shape.Insert.{Absent, payload-inserted}
use kanek_extents_storage.Cache.Find.{hash_find-cases, hash_find_or_insert-cases}
use kanek_extents_storage.Cache.Sweep.{has_room, make_room_for_new_entry}
use kanek_extents_storage.Cache.Valid.Room.{make_room-Trimmed}
use kanek_extents_storage.Cache.Access.{
  looked_up, kes_cache_get_extent, Environment, candidate, init_extent_entry, is_valid_id, build,
  leave, load_new, publish, miss,
}
use kanek_extents_storage.Cache.Valid.{CountsDirty, no_pins}
use kanek_extents_storage.Cache.Valid.Update.{Valid-frame}
use kanek_extents_storage.Cache.Valid.Entries.{Sound}
use kanek_extents_storage.Cache.Valid.Visit.{IsKept, users_of}
use kanek_extents_storage.Cache.Valid.Held.{NotTaken}
use kanek_extents_storage.Cache.Valid.Pins.{store_there}
use kanek_extents_storage.Cache.Valid.Hit.{Served, Refused, Sound-leave, Ends-attach}
use kanek_extents_storage.Cache.Valid.Miss.{
  kes_align-small, published, Built-build, Sound-published,
}
use kanek_extents_storage.Cache.Valid.Loading.{IsNew, Ends-load}

nomem_busy : nomem ≢ busy
nomem_busy e = cc

invalid_busy : invalid ≢ busy
invalid_busy e = cc

module _ {D : Type 0} where
  Ends-publish :
      (env : Environment) (id : ExtentId) (c0 c : Cache D) (xs0 xs : List ℕ)
      → Absent c0 xs0 id
      → IsKept c0 c
      → Absent c xs id
      → kes_align (extent_data_size id) < 2 ^ 62
      → has_room (kes_align (extent_data_size id)) c ≡ true
      → Sound c xs
      → Ends
          (Served id c0 xs0)
          (Refused id c0 xs0)
          (publish env id c.next_address (hash_find_or_insert c.next_address (build env id c)))
  unfolding publish load_new candidate init_extent_entry lru_add_head
  Ends-publish env id c0 c xs0 xs none_before still absent small room h =
      let p = c.next_address in
      let cb = build env id c in
      let (off, kept, here, shape0, absent0) = Built-build env id c xs absent h.0 in
      let made = payload-inserted cb p p ∙ ap payload here in
      let fresh : IsNew id c0 xs0 (published p (hash_insert p cb)) p = (
        none_before,
        (λ q ne.
            ap users_of (payload-inserted cb p q)
            ∙ ap users_of (store_there p q (λ e. candidate env id) c.heap ne)
            ∙ still q),
        ap (λ e. e.ref_count) made,
        ap (λ e. e.pin_count) made,
        ap (λ e. e.data_size) made,
        (env.junk, ap (λ e. e.buffer) made),
      ) in
      elim (hash_find_or_insert-cases cb xs p shape0 h.0.cached) [
        | inl z ↦ absurd (ground (arith, absent0 z.0 z.2, z.3))
        | inr z ↦ rw z.0 (
            Ends-load id c0 (published p (hash_insert p cb)) xs0 xs p _ (ap (λ e. e.id) made) fresh
              refl (Sound-published env id c xs absent small room h))
      ]

  -- The outcome of make_room_for_new_entry decides between KES_ERROR_BUSY and a load.
  Ends-miss :
      (env : Environment) (id : ExtentId) (c : Cache D) (xs : List ℕ)
      → Absent c xs id
      → kes_align (extent_data_size id) < 2 ^ 62
      → Sound c xs
      → Ends
          (Served id c xs)
          (Refused id c xs)
          (miss env id (make_room_for_new_entry (extent_data_size id) c))
  unfolding miss
  Ends-miss env id c xs absent small (v, d) =
      let (ys, t, roomy) = make_room-Trimmed (extent_data_size id) c xs v d in
      let r = make_room_for_new_entry (extent_data_size id) c in
      let gone : Absent r.0 ys id = λ q j.
        subst (λ x. kes_extent_equal x id ≡ false) (sym (ap (λ s. s.0) (t.kept q)))
          (absent q (t.inside q j)) in
      let untaken : NotTaken id c xs (leave r.0) = λ q. inl (ap (λ s. (s.2, s.3)) (t.kept q)) in
      elim roomy [
        | inl z ↦
            subst (λ b. Ends (Served id c xs) (Refused id c xs) (miss env id (r.0, b))) (sym z.0)
              (elim (Bool-cases (env.entry_allocated && env.data_allocated)) [
                | inl e ↦ simp e (
                    Ends-publish env id c r.0 xs ys absent t.kept gone small z.1
                      (t.valid, t.counts))
                | inr e ↦ simp e (
                    fails (
                      ys,
                      Sound-leave r.0 ys (t.valid, t.counts),
                      (λ b. absurd (nomem_busy b)),
                      untaken,
                    ))
              ])
        | inr z ↦
            subst (λ b. Ends (Served id c xs) (Refused id c xs) (miss env id (r.0, b))) (sym z.0)
              (fails (ys, Sound-leave r.0 ys (t.valid, t.counts), (λ _. z.1), untaken))
      ]

  abbrev entered : Cache D → Cache D
  entered c = record c { inflight_lookups = u32 (c.inflight_lookups + 1) }

  Sound-entered : (c : Cache D) (xs : List ℕ) → Sound c xs → Sound (entered c) xs
  unfolding CountsDirty
  Sound-entered c xs (v, d) = (
    Valid-frame c (entered c) xs no_pins (refl, refl, refl, refl, refl, refl, refl, refl) refl refl
        v,
    d,
  )

  Ends-looked_up :
      (env : Environment) (id : ExtentId) (c : Cache D) (xs : List ℕ)
      → kes_align (extent_data_size id) < 2 ^ 62
      → Sound c xs
      → Ends (Served id c xs) (Refused id c xs) (looked_up env id (hash_find c id))
  unfolding looked_up
  Ends-looked_up env id c xs small h = elim (hash_find-cases c xs id h.0.shape h.0.cached) [
    | inl z ↦ rw z.1 (Ends-attach env id c xs z.0 z.2 z.3 h)
    | inr z ↦ rw z.0 (Ends-miss env id c xs z.1 small h)
  ]

  -- On a well-formed cache, kes_cache_get_extent for fewer than 2 ^ 32 blocks leaves a well-formed
  -- cache. If it succeeds, the buffer belongs to the entry with the identifier, which is the most
  -- recently used one and not in error. An entry that was in the cache then has one reference more,
  -- modulo 2 ^ 32, and as many pins as before; its bytes and the device are as before, or, where it
  -- was in error, its bytes are those that a successful call of read_extent delivered. A new entry,
  -- made where no entry had the identifier, has one reference, no pin, and the bytes that a successful
  -- call of read_extent delivered. Identifiers, buffers and counts of users of all other entries are
  -- as before. If the call fails, no entry has a reference or a pin more or less than before, but for
  -- a new entry that nobody uses; if it returns KES_ERROR_BUSY, every entry that is left is
  -- referenced, pinned, dirty or in error.
  pub Ends-kes_cache_get_extent :
      (env : Environment) (id : ExtentId) (c : Cache D) (xs : List ℕ)
      → id.block_count < 2 ^ 32
      → Sound c xs
      → Ends (Served id c xs) (Refused id c xs) (kes_cache_get_extent env id c)
  unfolding kes_cache_get_extent
  Ends-kes_cache_get_extent env id c xs n h = elim (Bool-cases (is_valid_id id)) [
    | inl e ↦ elim (Bool-cases c.destroying) [
      | inl f ↦ simp (e, f) (fails (xs, h, (λ b. absurd (invalid_busy b)), λ q. inl refl))
      | inr f ↦ simp e (
          subst (Ends (Served id c xs) (Refused id c xs)) (sym (if_false _ _ c.destroying f))
            (Ends-looked_up env id (entered c) xs (kes_align-small id n e) (Sound-entered c xs h)))
    ]
    | inr e ↦ simp e (fails (xs, h, (λ b. absurd (invalid_busy b)), λ q. inl refl))
  ]
