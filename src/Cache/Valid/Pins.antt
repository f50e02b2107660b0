-- ===== src/Cache/Valid/Pins.antt =====
-- The pins of src/kes_cache.c keep the invariant of the cache.
use kanek_extents_storage.Common.{
  ℕ, ◌+◌, ◌^◌, ◌<◌, true, false, ltb, ltb→lt, ◌==◌, ==_iff, List, Option, some, ◌≡◌, refl, ap,
  arith, inl, inr, Bool-cases, u32, u32_sub,
}
use kanek_extents_storage.Cache.{Entry, Cache, points, store, update}
use kanek_extents_storage.Cache.Chain.{has}
use kanek_extents_storage.Cache.Totals.{flag, total_part, total_le, total_room, flag_le}
use kanek_extents_storage.Cache.Operations.{pin_entry, unpin_entry, pinned_more, pinned_less}
use kanek_extents_storage.Cache.Valid.{no_pins, pins_of}
use kanek_extents_storage.Cache.Valid.Update.{Valid-update, CountsDirty-update}
use kanek_extents_storage.Cache.Valid.Entries.{Sound}

-- Two writes to one entry are one.
pub store-store :
    (p : Option ℕ) (f g : Entry → Entry) (heap : ℕ → Entry)
    → store p g (store p f heap) ≡ store p (λ e. g (f e)) heap
unfolding store
store-store p f g heap = λ i q. at q i
  where
    at : (q : ℕ) → store p g (store p f heap) q ≡ store p (λ e. g (f e)) heap q
    at q = elim (Bool-cases (points p q)) [ inl e ↦ rw e refl | inr e ↦ rw e refl ]

pub store_here :
    (p : ℕ) (f : Entry → Entry) (heap : ℕ → Entry) → store (some p) f heap p ≡ f (heap p)
unfolding store
store_here p f heap = rw ((==_iff p p).1 refl) refl

pub store_there :
    (p q : ℕ) (f : Entry → Entry) (heap : ℕ → Entry)
    → (p == q) ≡ false
    → store (some p) f heap q ≡ heap q
unfolding store
store_there p q f heap ne = rw ne refl

pins_zero : (n : ℕ) → (n == 0) ≡ true → flag (ltb 0 n) ≡ 0
pins_zero n e = ground arith

pins_first : (n : ℕ) → (n == 0) ≡ true → flag (ltb 0 (u32 (n + 1))) ≡ 1
pins_first n e = ap (λ n. flag (ltb 0 (u32 (n + 1)))) ((==_iff n 0).0 e)

pins_some : (n : ℕ) → 0 < n → flag (ltb 0 n) ≡ 1
pins_some n h = ground arith

pins_more :
    (k n : ℕ)
    → (n == 0) ≡ false
    → n + 1 < 2 ^ 32
    → k + flag (ltb 0 n) ≡ k + flag (ltb 0 (u32 (n + 1)))
pins_more k n e small =
    let some_now = pins_some n (ground arith) in
    let some_then = pins_some (u32 (n + 1)) (omega arith) in rw (some_now, some_then) refl

module _ {D : Type 0} where
  -- A pin that would wrap the 32-bit count is left out.
  pub Sound-pin_entry :
      (c : Cache D) (xs : List ℕ) (p : ℕ)
      → (c.heap p).pin_count + 1 < 2 ^ 32
      → has xs p ≡ true
      → Sound c xs
      → Sound (pin_entry p c).0 xs
  unfolding pin_entry
  Sound-pin_entry c xs p small i (v, d) = elim (Bool-cases ((c.heap p).pin_count == 0)) [
    | inl e ↦
        let both : Entry → Entry =
          λ x. pinned_more (record x { state = record x.state { pinned = true } }) in
        let c' = record c {
          heap = store (some p) both c.heap;
          stats = record c.stats { entries_pinned = u32 (c.stats.entries_pinned + 1) };
        } in
        let old : pins_of (c.heap p) ≡ 0 = pins_zero (c.heap p).pin_count e in
        let now : pins_of (both (c.heap p)) ≡ 1 = pins_first (c.heap p).pin_count e in
        let room =
          total_room (λ q. pins_of (c.heap q)) xs p (λ q. flag_le (ltb 0 (c.heap q).pin_count)) i
            old in
        simp (e, store-store)
          (
            Valid-update c c' xs no_pins no_pins p both i
                (refl, refl, refl, refl, refl, refl, refl, refl) refl refl refl (v.settled p i)
                (omega (arith, old, now, room, v.pins, v.entries_fit, v.entries_small))
                (λ q ne. refl) v,
            CountsDirty-update c c' xs no_pins p both i v refl refl d,
          )
    | inr e ↦
        let c' = update (some p) pinned_more c in
        simp e (
          Valid-update c c' xs no_pins no_pins p pinned_more i
              (refl, refl, refl, refl, refl, refl, refl, refl) refl refl refl (v.settled p i)
              (pins_more c.stats.entries_pinned (c.heap p).pin_count e small) (λ q ne. refl) v,
          CountsDirty-update c c' xs no_pins p pinned_more i v refl refl d,
        )
  ]

  pub Sound-unpin_entry :
      (c : Cache D) (xs : List ℕ) (p : ℕ)
      → (c.heap p).pin_count < 2 ^ 32
      → has xs p ≡ true
      → Sound c xs
      → Sound (unpin_entry p c).0 xs
  unfolding unpin_entry
  Sound-unpin_entry c xs p small i (v, d) =
      let n = (c.heap p).pin_count in
      let here = ap (λ e. e.pin_count == 0) (store_here p pinned_less c.heap) in
      elim (Bool-cases (ltb 0 n)) [
        | inl e ↦ elim (Bool-cases (u32_sub n 1 == 0)) [
          | inl f ↦
              let both : Entry → Entry =
                λ x. record (pinned_less x) { state = record x.state { pinned = false } } in
              let c' = record c {
                heap = store (some p) both c.heap;
                stats = record c.stats { entries_pinned = u32_sub c.stats.entries_pinned 1 };
              } in
              let old = pins_some n (ltb→lt 0 n e) in
              let now = pins_zero (u32_sub n 1) f in
              let part = total_part (λ q. pins_of (c.heap q)) xs p i in
              let most =
                total_le (λ q. pins_of (c.heap q)) xs (λ q. flag_le (ltb 0 (c.heap q).pin_count)) in
              simp (e, here, f, store-store)
                (
                  Valid-update c c' xs no_pins no_pins p both i
                      (refl, refl, refl, refl, refl, refl, refl, refl) refl refl refl
                      (v.settled p i)
                      (omega (arith, old, now, part, most, v.pins, v.entries_fit, v.entries_small))
                      (λ q ne. refl) v,
                  CountsDirty-update c c' xs no_pins p both i v refl refl d,
                )
          | inr f ↦
              let c' = update (some p) pinned_less c in
              let old = pins_some n (ltb→lt 0 n e) in
              let now = pins_some (u32_sub n 1) (ground arith) in
              simp (e, here, f)
                (
                  Valid-update c c' xs no_pins no_pins p pinned_less i
                      (refl, refl, refl, refl, refl, refl, refl, refl) refl refl refl
                      (v.settled p i) (omega (arith, old, now)) (λ q ne. refl) v,
                  CountsDirty-update c c' xs no_pins p pinned_less i v refl refl d,
                )
        ]
        | inr e ↦ simp e (v, d)
      ]
