-- ===== src/Cache/Valid/Hit.antt =====
-- kes_cache_get_extent of src/kes_cache.c on an extent that is in the cache.
use kanek_extents_storage.Common.{
  ℕ, ◌+◌, true, false, not, ◌&&◌, List, ◌∷◌, Option, none, some, Status, Error, ok, err, io, busy,
  ◌≡◌, ◌≢◌, refl, ap, subst, sym, ◌∙◌, arith, inl, inr, Bool-cases, u32, u64, ◌==◌, ==_iff, success,
}
use kanek_extents_storage.Os.Outcomes.{Ends, returns, fails}
use kanek_extents_storage.Cache.{ExtentId, Cache, ReadExtent, store, update, kes_extent_equal}
use kanek_extents_storage.Cache.Lists.{lru_touch, pin_lookup}
use kanek_extents_storage.Cache.Chain.{has, delete}
use kanek_extents_storage.Cache.Chain.Ends.{head}
use kanek_extents_storage.Cache.Access.{
  Environment, accessed, finish_retry, read_registered, retry_load, hit, attach, leave, reloading,
}
use kanek_extents_storage.Cache.Links.{payload}
use kanek_extents_storage.Cache.Operations.{set_stats}
use kanek_extents_storage.Cache.Valid.{Valid, CountsDirty, no_pins}
use kanek_extents_storage.Cache.Valid.Update.{Valid-frame}
use kanek_extents_storage.Cache.Valid.Trimmed.{AllStay}
use kanek_extents_storage.Cache.Valid.Entries.{Sound, unpin-pin_lookup}
use kanek_extents_storage.Cache.Valid.Touch.{
  Valid-lru_touch, CountsDirty-lru_touch, payload-lru_touch,
}
use kanek_extents_storage.Cache.Valid.Pins.{store_here, store_there}
use kanek_extents_storage.Cache.Valid.Visit.{users_of}
use kanek_extents_storage.Cache.Valid.Held.{
  counts_of, Others, Taken, NotTaken, Retried, Retried-retry_load, lru_touch-io,
}
use kanek_extents_storage.Cache.Valid.Load.{Sound-update, Sound-retry_load}

io_busy : io ≢ busy
io_busy e = cc

module _ {D : Type 0} where
  -- What kes_cache_get_extent, called on `c` with the entries `xs`, promises with the address of an
  -- entry: it is the most recently used one, it has the identifier, it is not in error, and the
  -- caller has a reference to it.
  abbrev pub Served : ExtentId → Cache D → List ℕ → Cache D → ℕ → Type 0
  Served id c xs c' p =
      (ys : List ℕ) × Sound c' ys
      × (head ys ≡ some p)
      × (kes_extent_equal (c'.heap p).id id ≡ true)
      × ((c'.heap p).state.error ≡ false)
      × Others c c' p
      × Taken id c xs c' p

  -- What it promises with an error: KES_ERROR_BUSY says that no entry can be evicted.
  abbrev pub Refused : ExtentId → Cache D → List ℕ → Cache D → Error → Type 0
  Refused id c xs c' e =
      (ys : List ℕ) × Sound c' ys × (e ≡ busy → AllStay c' ys) × NotTaken id c xs c'

  -- No reference is taken where the counts of all entries stay.
  pub NotTaken-Retried :
      (id : ExtentId) (c c' : Cache D) (xs : List ℕ) (p : ℕ)
      → Retried id c c' p
      → NotTaken id c xs c'
  NotTaken-Retried id c c' xs p r q = elim (Bool-cases (p == q)) [
    | inl e ↦ inl (subst (λ q. counts_of (c'.heap q) ≡ counts_of (c.heap q)) ((==_iff p q).0 e) r.1)
    | inr e ↦ inl (ap (λ s. (s.2, s.3)) (r.0 q e))
  ]

  -- The retried entry gets its reference, and keeps what is in its buffer.
  Taken-touched :
      (id : ExtentId) (c c1 c' : Cache D) (xs : List ℕ) (p now : ℕ)
      → has xs p ≡ true
      → (c1.heap p).state.error ≡ false
      → Retried id c c1 p
      → payload (c'.heap p) ≡ payload (accessed now (c1.heap p))
      → c'.device ≡ c1.device
      → c'.read_extent ≡ c1.read_extent
      → Taken id c xs c' p
  Taken-touched id c c1 c' xs p now i fine r same dev reads =
      let buffer : (c'.heap p).buffer ≡ (c1.heap p).buffer = ap (λ e. e.buffer) same in
      let size : (c'.heap p).data_size ≡ (c1.heap p).data_size = ap (λ e. e.data_size) same in
      inl (
        i,
        ap (λ e. e.ref_count) same ∙ ap (λ s. u32 (s.0 + 1)) r.1,
        ap (λ e. e.pin_count) same ∙ ap (λ s. s.1) r.1,
        elim r.2 [
          | inl e ↦ absurd (ground (arith, fine, e))
          | inr z ↦ elim z [
            | inl k ↦ inl (k.0, buffer ∙ k.1, dev ∙ k.2)
            | inr k ↦
                let (read, before, old, bytes, at, called, got) = k.1 in
                inr (
                  k.0,
                  (
                    read,
                    before,
                    old,
                    bytes,
                    reads ∙ at,
                    ap (read before id old) size ∙ called ∙ ap (λ d. (d, bytes, success)) (sym dev),
                    buffer ∙ got,
                  ),
                )
          ]
        ],
      )

  pub Sound-frame :
      (c c' : Cache D) (xs : List ℕ)
      → (c'.stats.entries_dirty ≡ c.stats.entries_dirty)
      → (c'.heap ≡ c.heap)
      → (Valid c xs no_pins → Valid c' xs no_pins)
      → Sound c xs
      → Sound c' xs
  unfolding CountsDirty
  Sound-frame c c' xs m h f (v, d) = (f v, rw h (m ∙ d))

  pub Sound-leave : (c : Cache D) (xs : List ℕ) → Sound c xs → Sound (leave c) xs
  unfolding CountsDirty
  Sound-leave c xs (v, d) = (
    Valid-frame c (leave c) xs no_pins (refl, refl, refl, refl, refl, refl, refl, refl) refl refl v,
    d,
  )

  id-finish_retry :
      (p q : ℕ) (r : Cache D × Status) → ((finish_retry p r).heap q).id ≡ (r.0.heap q).id
  unfolding finish_retry store
  id-finish_retry p q (c, ok tt) = ground arith
  id-finish_retry p q (c, err e) = ground arith

  id-read_registered :
      (p q : ℕ) (id : ExtentId) (read : Option (ReadExtent D)) (c : Cache D)
      → ((read_registered p id read c).0.heap q).id ≡ (c.heap q).id
  unfolding read_registered store
  id-read_registered p q id none c = refl
  id-read_registered p q id (some read) c = ground arith

  pub id-retry_load :
      (c : Cache D) (p q : ℕ) (id : ExtentId) → ((retry_load p id c).heap q).id ≡ (c.heap q).id
  unfolding retry_load store
  id-retry_load c p q id =
      let c0 = update (some p) reloading c in
      let first : (c0.heap q).id ≡ (c.heap q).id = ground arith in
      let whole =
        id-finish_retry p q (read_registered p id c.read_extent c0)
        ∙ id-read_registered p q id c.read_extent c0
        ∙ first in
      elim (Bool-cases ((c.heap p).state.error && not (c.heap p).state.dirty)) [
        | inl e ↦ simp e whole
        | inr e ↦ simp e refl
      ]

  Ends-hit :
      (env : Environment) (id : ExtentId) (c0 c : Cache D) (xs : List ℕ) (p : ℕ)
      → has xs p ≡ true
      → kes_extent_equal (c.heap p).id id ≡ true
      → Retried id c0 c p
      → Sound c xs
      → Ends (Served id c0 xs) (Refused id c0 xs) (hit env p c)
  unfolding hit CountsDirty
  Ends-hit env id c0 c xs p i same r (v, d) = elim (Bool-cases (c.heap p).state.error) [
    | inl e ↦ simp e (
        fails
          (xs, Sound-leave c xs (v, d), (λ b. absurd (io_busy b)), NotTaken-Retried id c0 c xs p r))
    | inr e ↦
        let c1 = update (some p) (accessed env.now) c in
        let s1 =
          Sound-update c c1 xs p (accessed env.now) i
            (refl, refl, refl, refl, refl, refl, refl, refl) refl refl refl refl refl refl refl
            (v.settled p i) (v, d) in
        let v2 = Valid-lru_touch c1 xs p i s1.0 in
        let d2 = CountsDirty-lru_touch c1 xs p i s1.1 in
        let here = ap payload (store_here p (accessed env.now) c.heap) in
        let there : payload ((lru_touch p c1).heap p) ≡ payload (accessed env.now (c.heap p)) =
          payload-lru_touch c1 p p ∙ here in
        let touched = lru_touch p c1 in
        let v3 =
          Valid-frame touched
            (leave (set_stats (λ s. record s { hits = u64 (s.hits + 1) }) touched))
            (p ∷ delete p xs) no_pins (refl, refl, refl, refl, refl, refl, refl, refl) refl refl
            v2 in
        simp e (
          returns (
            p ∷ delete p xs,
            (v3, d2),
            refl,
            subst (λ e. kes_extent_equal e id ≡ true) (sym (ap (λ e. e.id) there)) same,
            ap (λ e. e.state.error) there ∙ e,
            (λ q ne.
                ap users_of (
                  payload-lru_touch c1 p q
                  ∙ ap payload (store_there p q (accessed env.now) c.heap ne))
                ∙ r.0 q ne),
            Taken-touched id c0 c
                (leave (set_stats (λ s. record s { hits = u64 (s.hits + 1) }) touched)) xs p env.now
                i e r there (lru_touch-io c1 p).0 (lru_touch-io c1 p).1,
          ))
  ]

  -- An entry that a lookup has found and pinned.
  pub Ends-attach :
      (env : Environment) (id : ExtentId) (c : Cache D) (xs : List ℕ) (p : ℕ)
      → has xs p ≡ true
      → kes_extent_equal (c.heap p).id id ≡ true
      → Sound c xs
      → Ends (Served id c xs) (Refused id c xs) (attach env id p (pin_lookup (some p) c))
  unfolding attach
  Ends-attach env id c xs p i same h =
      let free = (h.0.settled p i).3 in
      subst (λ z. Ends (Served id c xs) (Refused id c xs) (hit env p (retry_load p id z)))
        (sym (unpin-pin_lookup c p free))
        (Ends-hit env id c (retry_load p id c) xs p i
          (subst (λ e. kes_extent_equal e id ≡ true) (sym (id-retry_load c p p id)) same)
          (Retried-retry_load id c p (h.0.settled p i).0) (Sound-retry_load c xs p id i h))
