-- ===== src/Cache/Valid/Held.antt =====
-- What kes_cache_get_extent of src/kes_cache.c gives to its caller: a reference to one entry, and the
-- bytes in its buffer. No other entry changes for those who use it.
use kanek_extents_storage.Common.{
  ℕ, ◌+◌, Bool, true, false, not, ◌&&◌, ◌==◌, if◌then◌else◌, subst, List, Option, none, some,
  Status, ok, err, invalid, success, ◌≡◌, refl, ap, sym, ◌∙◌, arith, ◌⊎◌, inl, inr, Bool-cases, u32,
}
use kanek_extents_storage.Cache.{
  ExtentId, Entry, Cache, ReadExtent, fill, store, update, points, extent_data_size,
  kes_extent_equal,
}
use kanek_extents_storage.Cache.Lists.{lru_touch, lru_add_head, lru_remove}
use kanek_extents_storage.Cache.Chain.{has}
use kanek_extents_storage.Cache.Shape.Insert.{Absent}
use kanek_extents_storage.Cache.Access.{
  filled, loaded, reloading, still_failed, read_registered, finish_retry, retry_load,
}
use kanek_extents_storage.Cache.Valid.Visit.{users_of}
use kanek_extents_storage.Cache.Valid.Walk.{Unused}
use kanek_extents_storage.Cache.Valid.Pins.{store-store, store_here, store_there}
use kanek_extents_storage.Cache.Valid.Load.{store_thrice}

abbrev pub counts_of : Entry → ℕ × ℕ
counts_of e = (e.ref_count, e.pin_count)

-- A call of the registered read_extent for the extent succeeded: it left this device, and the bytes
-- that it delivered are in the buffer.
abbrev pub Loaded :
    {D : Type 0} → ExtentId → Option (ReadExtent D) → D → Option (List ℕ) → ℕ → Type 0
Loaded {D} id registered device buffer size =
    (read : ReadExtent D) × (before : D) × (old : Option (List ℕ)) × (bytes : List ℕ) × (registered
      ≡ some read)
    × (read before id old size ≡ (device, bytes, success))
    × (buffer ≡ some bytes)

both : {error dirty d : Bool} → error ≡ true → dirty ≡ d → (error && not dirty) ≡ not d
both e f = ground arith

none_wrong : {error : Bool} (dirty : Bool) → error ≡ false → (error && not dirty) ≡ false
none_wrong dirty e = ground arith

module _ {D : Type 0} where
  abbrev pub IsLoaded : ExtentId → Cache D → ℕ → Type 0
  IsLoaded id c p = Loaded id c.read_extent c.device (c.heap p).buffer (c.heap p).data_size

  -- Identifiers, buffers and counts of users of all other entries are as before.
  abbrev pub Others : Cache D → Cache D → ℕ → Type 0
  Others c c' p = (q : ℕ) → (p == q) ≡ false → users_of (c'.heap q) ≡ users_of (c.heap q)

  -- An entry that was in the cache has a reference more, and its bytes are those that it had, or they
  -- were loaded because it was in error. A new entry has one reference, no pin and loaded bytes.
  abbrev pub Taken : ExtentId → Cache D → List ℕ → Cache D → ℕ → Type 0
  Taken id c xs c' p =
      ((has xs p ≡ true)
        × ((c'.heap p).ref_count ≡ u32 ((c.heap p).ref_count + 1))
        × ((c'.heap p).pin_count ≡ (c.heap p).pin_count)
        × ((((c.heap p).state.error ≡ false)
              × ((c'.heap p).buffer ≡ (c.heap p).buffer)
              × (c'.device ≡ c.device))
            ⊎ (((c.heap p).state.error ≡ true) × IsLoaded id c' p)))
      ⊎ (Absent c xs id
          × ((c'.heap p).ref_count ≡ 1)
          × ((c'.heap p).pin_count ≡ 0)
          × ((c'.heap p).data_size ≡ extent_data_size id)
          × IsLoaded id c' p)

  -- No entry has a reference more: the counts are as before, but for a new entry that nobody uses.
  abbrev pub NotTaken : ExtentId → Cache D → List ℕ → Cache D → Type 0
  NotTaken id c xs c' =
      (q : ℕ)
      → (counts_of (c'.heap q) ≡ counts_of (c.heap q))
        ⊎ (Unused (c'.heap q) × (kes_extent_equal (c'.heap q).id id ≡ true) × Absent c xs id)

  -- The entry after the one retry that an entry in error gets.
  abbrev pub Retried : ExtentId → Cache D → Cache D → ℕ → Type 0
  Retried id c c' p =
      Others c c' p
      × (counts_of (c'.heap p) ≡ counts_of (c.heap p))
      × (((c'.heap p).state.error ≡ true)
          ⊎ ((((c.heap p).state.error ≡ false)
                × ((c'.heap p).buffer ≡ (c.heap p).buffer)
                × (c'.device ≡ c.device))
              ⊎ (((c.heap p).state.error ≡ true) × IsLoaded id c' p)))

  pub Others-store :
      (c c' : Cache D) (p : ℕ) (f : Entry → Entry)
      → c'.heap ≡ store (some p) f c.heap
      → Others c c' p
  Others-store c c' p f h q ne = ap users_of (ap (λ heap. heap q) h ∙ store_there p q f c.heap ne)

  -- A read of the entry at `p` succeeded, and its bytes went where `f` says.
  pub IsLoaded-read :
      (id : ExtentId) (c c' : Cache D) (p : ℕ) (f : Entry → Entry) (read : ReadExtent D)
      (before : D) (old : Option (List ℕ)) (bytes : List ℕ) (size : ℕ)
      → c'.heap ≡ store (some p) f c.heap
      → c'.read_extent ≡ some read
      → read before id old size ≡ (c'.device, bytes, success)
      → size ≡ (f (c.heap p)).data_size
      → ((had : List ℕ) × ((c.heap p).buffer ≡ some had))
      → (f (c.heap p)).buffer ≡ fill (c.heap p).buffer bytes
      → IsLoaded id c' p
  IsLoaded-read id c c' p f read before old bytes size h r e z (had, b) g =
      let here : c'.heap p ≡ f (c.heap p) = ap (λ heap. heap p) h ∙ store_here p f c.heap in
      (
        read,
        before,
        old,
        bytes,
        r,
        ap (read before id old) (sym (z ∙ sym (ap (λ e. e.data_size) here))) ∙ e,
        ap (λ e. e.buffer) here ∙ g ∙ ap (λ b. fill b bytes) b,
      )

  pub lru_touch-io :
      (c : Cache D) (p : ℕ)
      → ((lru_touch p c).device ≡ c.device) × ((lru_touch p c).read_extent ≡ c.read_extent)
  unfolding lru_touch lru_add_head lru_remove
  lru_touch-io c p = elim (Bool-cases (points c.mru_head p)) [
    | inl e ↦ simp e (refl, refl)
    | inr e ↦ simp e (refl, refl)
  ]

  Retried-finish_retry :
      (id : ExtentId) (c : Cache D) (p : ℕ) (read : ReadExtent D) (before device : D)
      (old : Option (List ℕ)) (bytes : List ℕ) (size : ℕ) (result : Status)
      → c.read_extent ≡ some read
      → (c.heap p).state.error ≡ true
      → ((had : List ℕ) × ((c.heap p).buffer ≡ some had))
      → size ≡ (c.heap p).data_size
      → read before id old size ≡ (device, bytes, result)
      → Retried id c
          (finish_retry p (
            update
                (some p)
                (filled bytes)
                (record (update (some p) reloading c) { device = device }),
            result,
          ))
          p
  unfolding finish_retry
  Retried-finish_retry id c p read before device old bytes size (ok tt) r e b z called =
      let f : Entry → Entry = λ e. loaded (filled bytes (reloading e)) in
      let h = store_thrice (some p) reloading (filled bytes) loaded c.heap in
      let c1 =
        update (some p) (filled bytes) (record (update (some p) reloading c) { device = device }) in
      let c' = finish_retry p (c1, ok tt) in
      (
        Others-store c c' p f h,
        ap counts_of (ap (λ heap. heap p) h ∙ store_here p f c.heap),
        inr (inr (e, IsLoaded-read id c c' p f read before old bytes size h r called z b refl)),
      )
  Retried-finish_retry id c p read before device old bytes size (err x) r e b z called =
      let f : Entry → Entry = λ e. still_failed (filled bytes (reloading e)) in
      let h = store_thrice (some p) reloading (filled bytes) still_failed c.heap in
      let c1 =
        update (some p) (filled bytes) (record (update (some p) reloading c) { device = device }) in
      let here = ap (λ heap. heap p) h ∙ store_here p f c.heap in
      (
        Others-store c (finish_retry p (c1, err x)) p f h,
        ap counts_of here,
        inl (ap (λ e. e.state.error) here),
      )

  Retried-read :
      (id : ExtentId) (c : Cache D) (p : ℕ) (registered : Option (ReadExtent D))
      → c.read_extent ≡ registered
      → (c.heap p).state.error ≡ true
      → ((had : List ℕ) × ((c.heap p).buffer ≡ some had))
      → Retried id c
          (finish_retry p (read_registered p id registered (update (some p) reloading c)))
          p
  unfolding read_registered finish_retry
  Retried-read id c p none r e b =
      let f : Entry → Entry = λ e. still_failed (reloading e) in
      let h = store-store (some p) reloading still_failed c.heap in
      let here = ap (λ heap. heap p) h ∙ store_here p f c.heap in
      (
        Others-store c (finish_retry p (update (some p) reloading c, err invalid)) p f h,
        ap counts_of here,
        inl (ap (λ e. e.state.error) here),
      )
  Retried-read id c p (some read) r e b =
      let size = ap (λ e. e.data_size) (store_here p reloading c.heap) in
      Retried-finish_retry id c p read _ _ _ _ _ _ r e b size refl

  pub Retried-retry_load :
      (id : ExtentId) (c : Cache D) (p : ℕ)
      → ((had : List ℕ) × ((c.heap p).buffer ≡ some had))
      → Retried id c (retry_load p id c) p
  unfolding retry_load
  Retried-retry_load id c p b =
      let again : Cache D =
        finish_retry p (read_registered p id c.read_extent (update (some p) reloading c)) in
      let after : Bool → Type 0 = λ t. Retried id c (if t then again else c) p in
      elim (Bool-cases (c.heap p).state.error) [
        | inl e ↦ elim (Bool-cases (c.heap p).state.dirty) [
          | inl d ↦ subst after (sym (both e d)) ((λ q ne. refl), refl, inl e)
          | inr d ↦ subst after (sym (both e d)) (Retried-read id c p c.read_extent refl e b)
        ]
        | inr e ↦
            subst after (sym (none_wrong (c.heap p).state.dirty e))
              ((λ q ne. refl), refl, inr (inl (e, refl, refl)))
      ]
