-- ===== src/Cache/Valid/Loading.antt =====
-- The load of a new entry by kes_cache_get_extent of src/kes_cache.c.
use kanek_extents_storage.Common.{
  ℕ, true, ==_iff, ◌==◌, inl, inr, Bool-cases, List, ◌∷◌, Option, none, some, Status, Error, ok,
  err, busy, invalid, ◌≡◌, ◌≢◌, refl, ap, subst, sym, ◌∙◌, arith,
}
use kanek_extents_storage.Os.Outcomes.{Ends, returns, fails}
use kanek_extents_storage.Cache.{
  ExtentId, Entry, Cache, ReadExtent, extent_data_size, store, update, kes_extent_equal,
}
use kanek_extents_storage.Cache.Chain.{has}
use kanek_extents_storage.Cache.Access.{
  load_error, count_read, loaded, filled, load_failed, finish_load, read_registered,
}
use kanek_extents_storage.Cache.Valid.{dirt_of}
use kanek_extents_storage.Cache.Valid.Entries.{Sound}
use kanek_extents_storage.Cache.Valid.Pins.{store-store, store_here}
use kanek_extents_storage.Cache.Valid.Load.{Sound-update, filled_settled}
use kanek_extents_storage.Cache.Valid.Hit.{Served, Refused}
use kanek_extents_storage.Cache.Shape.Insert.{Absent}
use kanek_extents_storage.Cache.Valid.Walk.{Unused}
use kanek_extents_storage.Cache.Valid.Held.{NotTaken, Others, Others-store, IsLoaded-read}

kes_extent_equal_refl : (id : ExtentId) → kes_extent_equal id id ≡ true
unfolding kes_extent_equal
kes_extent_equal_refl id =
    rw
      (
        (==_iff id.start_block id.start_block).1 refl,
        (==_iff id.block_count id.block_count).1 refl,
        (==_iff id.block_size id.block_size).1 refl,
      )
      refl

load_error_busy : (e : Error) → load_error e ≢ busy
unfolding load_error
load_error_busy e h = ground arith

load_failed-Unused : (e : Entry) → e.ref_count ≡ 1 → e.pin_count ≡ 0 → Unused (load_failed e)
load_failed-Unused e r p = (rw r refl, p)

module _ {D : Type 0} where
  -- Since the call began on `c0`, an entry was made for an extent that had none.
  abbrev pub IsNew : ExtentId → Cache D → List ℕ → Cache D → ℕ → Type 0
  IsNew id c0 xs0 c p =
      Absent c0 xs0 id
      × Others c0 c p
      × ((c.heap p).ref_count ≡ 1)
      × ((c.heap p).pin_count ≡ 0)
      × ((c.heap p).data_size ≡ extent_data_size id)
      × ((had : List ℕ) × ((c.heap p).buffer ≡ some had))

  -- Whoever made it gives it up.
  NotTaken-new :
      (id : ExtentId) (c0 c c' : Cache D) (xs0 : List ℕ) (p : ℕ) (f : Entry → Entry)
      → IsNew id c0 xs0 c p
      → c'.heap ≡ store (some p) f c.heap
      → Unused (f (c.heap p))
      → (f (c.heap p)).id ≡ id
      → NotTaken id c0 xs0 c'
  NotTaken-new id c0 c c' xs0 p f n h u same q = elim (Bool-cases (p == q)) [
    | inl e ↦
        let here : c'.heap q ≡ f (c.heap p) =
          ap c'.heap (sym ((==_iff p q).0 e)) ∙ ap (λ heap. heap p) h ∙ store_here p f c.heap in
        inr (
          subst Unused (sym here) u,
          subst (λ x. kes_extent_equal x id ≡ true) (sym (ap (λ e. e.id) here ∙ same))
              (kes_extent_equal_refl id),
          n.0,
        )
    | inr e ↦ inl (ap (λ s. (s.2, s.3)) (Others-store c c' p f h q e ∙ n.1 q e))
  ]

  Ends-finish_load :
      (id : ExtentId) (c0 c : Cache D) (xs0 xs : List ℕ) (p : ℕ) (read : ReadExtent D)
      (before device : D) (old : Option (List ℕ)) (bytes : List ℕ) (result : Status)
      → (c.heap p).id ≡ id
      → IsNew id c0 xs0 c p
      → c.read_extent ≡ some read
      → read before id old (c.heap p).data_size ≡ (device, bytes, result)
      → Sound (update (some p) loaded c) (p ∷ xs)
      → Ends
          (Served id c0 xs0)
          (Refused id c0 xs0)
          (finish_load p (update (some p) (filled bytes) (record c { device = device }), result))
  unfolding finish_load
  Ends-finish_load id c0 c xs0 xs p read before device old bytes (ok tt) same n r called (v, d) =
      let cv = update (some p) loaded c in
      let filling = update (some p) (filled bytes) (record c { device = device }) in
      let c' = count_read p (update (some p) loaded filling) in
      let i : has (p ∷ xs) p ≡ true = rw ((==_iff p p).1 refl) refl in
      let s = v.settled p i in
      let h : c'.heap ≡ store (some p) (filled bytes) cv.heap =
        store-store (some p) (filled bytes) loaded c.heap
        ∙ sym (store-store (some p) loaded (filled bytes) c.heap) in
      let f : Entry → Entry = λ e. loaded (filled bytes e) in
      let stored = store-store (some p) (filled bytes) loaded c.heap in
      let mine : c'.heap p ≡ loaded (filled bytes (c.heap p)) =
        store_here p loaded filling.heap ∙ ap loaded (store_here p (filled bytes) c.heap) in
      returns (
        p ∷ xs,
        Sound-update cv c' (p ∷ xs) p (filled bytes) i
            (refl, refl, refl, refl, refl, refl, refl, refl) h refl refl refl refl refl refl
            (filled_settled (cv.heap p) bytes s.0, s.1, s.2, s.3) (v, d),
        refl,
        subst (λ x. kes_extent_equal x id ≡ true) (sym (ap (λ e. e.id) mine ∙ same))
            (kes_extent_equal_refl id),
        ap (λ e. e.state.error) mine,
        (λ q ne. Others-store c c' p f stored q ne ∙ n.1 q ne),
        inr (
          n.0,
          ap (λ e. e.ref_count) mine ∙ n.2,
          ap (λ e. e.pin_count) mine ∙ n.3,
          ap (λ e. e.data_size) mine ∙ n.4,
          IsLoaded-read id c c' p f read before old bytes (c.heap p).data_size stored r called refl
              n.5 refl,
        ),
      )
  Ends-finish_load id c0 c xs0 xs p read before device old bytes (err e) same n r called (v, d) =
      let cv = update (some p) loaded c in
      let filling = update (some p) (filled bytes) (record c { device = device }) in
      let c' = update (some p) load_failed filling in
      let i : has (p ∷ xs) p ≡ true = rw ((==_iff p p).1 refl) refl in
      let s = v.settled p i in
      let f : Entry → Entry = λ x. load_failed (filled bytes x) in
      let h : c'.heap ≡ store (some p) f cv.heap =
        store-store (some p) (filled bytes) load_failed c.heap
        ∙ sym (store-store (some p) loaded f c.heap) in
      fails (
        p ∷ xs,
        Sound-update cv c' (p ∷ xs) p f i (refl, refl, refl, refl, refl, refl, refl, refl) h refl
            refl refl refl refl (sym (ap dirt_of (store_here p loaded c.heap)))
            (filled_settled (cv.heap p) bytes s.0, refl, s.2, s.3) (v, d),
        (λ b. absurd (load_error_busy e b)),
        NotTaken-new id c0 c c' xs0 p f n (store-store (some p) (filled bytes) load_failed c.heap)
            (load_failed-Unused (filled bytes (c.heap p)) n.2 n.3) same,
      )

  Ends-unread :
      (id : ExtentId) (c0 c : Cache D) (xs0 xs : List ℕ) (p : ℕ)
      → (c.heap p).id ≡ id
      → IsNew id c0 xs0 c p
      → Sound (update (some p) loaded c) (p ∷ xs)
      → Ends (Served id c0 xs0) (Refused id c0 xs0) (finish_load p (c, err invalid))
  unfolding finish_load
  Ends-unread id c0 c xs0 xs p same n (v, d) =
      let cv = update (some p) loaded c in
      let c' = update (some p) load_failed c in
      let i : has (p ∷ xs) p ≡ true = rw ((==_iff p p).1 refl) refl in
      let s = v.settled p i in
      fails (
        p ∷ xs,
        Sound-update cv c' (p ∷ xs) p load_failed i (refl, refl, refl, refl, refl, refl, refl, refl)
            (sym (store-store (some p) loaded load_failed c.heap)) refl refl refl refl refl
            (sym (ap dirt_of (store_here p loaded c.heap))) (s.0, refl, s.2, s.3) (v, d),
        (λ b. absurd (load_error_busy invalid b)),
        NotTaken-new id c0 c c' xs0 p load_failed n refl (load_failed-Unused (c.heap p) n.2 n.3)
            same,
      )

  pub Ends-load :
      (id : ExtentId) (c0 c : Cache D) (xs0 xs : List ℕ) (p : ℕ) (read : Option (ReadExtent D))
      → (c.heap p).id ≡ id
      → IsNew id c0 xs0 c p
      → c.read_extent ≡ read
      → Sound (update (some p) loaded c) (p ∷ xs)
      → Ends (Served id c0 xs0) (Refused id c0 xs0) (finish_load p (read_registered p id read c))
  unfolding read_registered
  Ends-load id c0 c xs0 xs p none same n r h = Ends-unread id c0 c xs0 xs p same n h
  Ends-load id c0 c xs0 xs p (some read) same n r h =
      Ends-finish_load id c0 c xs0 xs p read _ _ _ _ _ same n r refl h
