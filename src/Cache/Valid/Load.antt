-- ===== src/Cache/Valid/Load.antt =====
-- The loads of kes_cache_get_extent in src/kes_cache.c: the first one of a new entry, and the retry.
use kanek_extents_storage.Common.{
  ℕ, true, false, not, ◌&&◌, ltb, List, Option, none, some, Status, ok, err, invalid, ◌≡◌, refl, ap,
  sym, ◌∙◌, arith, inl, inr, Bool-cases,
}
use kanek_extents_storage.Cache.{ExtentId, Entry, Cache, ReadExtent, fill, store, update}
use kanek_extents_storage.Cache.Chain.{has}
use kanek_extents_storage.Cache.Totals.{flag}
use kanek_extents_storage.Cache.Shape.Moves.{skeleton}
use kanek_extents_storage.Cache.Access.{
  filled, loaded, reloading, still_failed, read_registered, finish_retry, retry_load,
}
use kanek_extents_storage.Cache.Valid.{IsSettled, no_pins, dirt_of}
use kanek_extents_storage.Cache.Valid.Update.{Valid-update, CountsDirty-update, SameFrame}
use kanek_extents_storage.Cache.Valid.Entries.{Sound}
use kanek_extents_storage.Cache.Valid.Pins.{store-store}

pub filled_settled :
    (e : Entry) (bytes : List ℕ)
    → ((old : List ℕ) × (e.buffer ≡ some old))
    → (new : List ℕ) × (fill e.buffer bytes ≡ some new)
filled_settled e bytes (old, h) = (bytes, rw h refl)

-- Three writes to one entry are one.
pub store_thrice :
    (p : Option ℕ) (f g h : Entry → Entry) (heap : ℕ → Entry)
    → store p h (store p g (store p f heap)) ≡ store p (λ e. h (g (f e))) heap
store_thrice p f g h heap =
    ap (store p h) (store-store p f g heap) ∙ store-store p (λ e. g (f e)) h heap

module _ {D : Type 0} where
  -- A write to one entry that changes neither pins nor the dirty flag.
  pub Sound-update :
      (c c' : Cache D) (xs : List ℕ) (p : ℕ) (f : Entry → Entry)
      → has xs p ≡ true
      → SameFrame c c'
      → c'.heap ≡ store (some p) f c.heap
      → c'.stats.entries_pinned ≡ c.stats.entries_pinned
      → c'.stats.entries_dirty ≡ c.stats.entries_dirty
      → skeleton (f (c.heap p)) ≡ skeleton (c.heap p)
      → (f (c.heap p)).data_size ≡ (c.heap p).data_size
      → (f (c.heap p)).pin_count ≡ (c.heap p).pin_count
      → dirt_of (f (c.heap p)) ≡ dirt_of (c.heap p)
      → IsSettled no_pins p (f (c.heap p))
      → Sound c xs
      → Sound c' xs
  Sound-update c c' xs p f i frame h n m k z pins dirt s (v, d) = (
    Valid-update c c' xs no_pins no_pins p f i frame h k z s
        (omega (arith, n, ap (λ n. flag (ltb 0 n)) pins)) (λ q ne. refl) v,
    CountsDirty-update c c' xs no_pins p f i v h (omega (arith, m, dirt)) d,
  )

  -- The entry is no longer in error if the retry succeeds; its identifier stays.
  Sound-finish_retry :
      (c : Cache D) (xs : List ℕ) (p : ℕ) (device : D) (bytes : List ℕ) (result : Status)
      → has xs p ≡ true
      → (c.heap p).state.dirty ≡ false
      → Sound c xs
      → Sound
          (finish_retry p (
            update
                (some p)
                (filled bytes)
                (record (update (some p) reloading c) { device = device }),
            result,
          ))
          xs
  unfolding finish_retry
  Sound-finish_retry c xs p device bytes (ok tt) i clean (v, d) =
      let s = v.settled p i in
      let read =
        update (some p) (filled bytes) (record (update (some p) reloading c) { device = device }) in
      Sound-update c (finish_retry p (read, ok tt)) xs p (λ e. loaded (filled bytes (reloading e)))
        i (refl, refl, refl, refl, refl, refl, refl, refl)
        (store_thrice (some p) reloading (filled bytes) loaded c.heap) refl refl refl refl refl
        (ap flag (sym clean)) (filled_settled (c.heap p) bytes s.0, refl, s.2, s.3) (v, d)
  Sound-finish_retry c xs p device bytes (err e) i clean (v, d) =
      let s = v.settled p i in
      let read =
        update (some p) (filled bytes) (record (update (some p) reloading c) { device = device }) in
      Sound-update c (finish_retry p (read, err e)) xs p
        (λ x. still_failed (filled bytes (reloading x))) i
        (refl, refl, refl, refl, refl, refl, refl, refl)
        (store_thrice (some p) reloading (filled bytes) still_failed c.heap) refl refl refl refl
        refl (ap flag (sym clean)) (filled_settled (c.heap p) bytes s.0, refl, s.2, s.3) (v, d)

  Sound-retry_read :
      (c : Cache D) (xs : List ℕ) (p : ℕ) (id : ExtentId) (read : Option (ReadExtent D))
      → has xs p ≡ true
      → (c.heap p).state.dirty ≡ false
      → Sound c xs
      → Sound (finish_retry p (read_registered p id read (update (some p) reloading c))) xs
  unfolding read_registered finish_retry
  Sound-retry_read c xs p id none i clean (v, d) =
      let s = v.settled p i in
      Sound-update c (finish_retry p (update (some p) reloading c, err invalid)) xs p
        (λ x. still_failed (reloading x)) i (refl, refl, refl, refl, refl, refl, refl, refl)
        (store-store (some p) reloading still_failed c.heap) refl refl refl refl refl
        (ap flag (sym clean)) (s.0, refl, s.2, s.3) (v, d)
  Sound-retry_read c xs p id (some read) i clean h = Sound-finish_retry c xs p _ _ _ i clean h

  pub Sound-retry_load :
      (c : Cache D) (xs : List ℕ) (p : ℕ) (id : ExtentId)
      → has xs p ≡ true
      → Sound c xs
      → Sound (retry_load p id c) xs
  unfolding retry_load
  Sound-retry_load c xs p id i h =
      elim (Bool-cases ((c.heap p).state.error && not (c.heap p).state.dirty)) [
        | inl e ↦
            let clean : (c.heap p).state.dirty ≡ false = ground arith in
            simp e (Sound-retry_read c xs p id c.read_extent i clean h)
        | inr e ↦ simp e h
      ]
