-- ===== src/Cache/Valid/Room.antt =====
-- make_room_for_new_entry of src/kes_cache.c: it evicts from the tail on until one more entry fits,
-- or has tried every entry.
use kanek_extents_storage.Common.{
  ℕ, zero, suc, ◌≤◌, Bool, true, false, not, ◌&&◌, ◌==◌, ==_iff, List, [], ◌∷◌, ◌++◌, length,
  Option, none, some, ◌≡◌, refl, ap, subst, sym, ◌∙◌, arith, ◌⊎◌, inl, inr, Bool-cases,
}
use kanek_extents_storage.Cache.{Cache, points, store, kes_align}
use kanek_extents_storage.Cache.Lists.{pin_lookup, unpin_lookup}
use kanek_extents_storage.Cache.Chain.{has, delete, has-delete, Distinct, ==_comm, last}
use kanek_extents_storage.Cache.Chain.Ends.{head}
use kanek_extents_storage.Cache.Chain.Parts.{
  has-append, delete-append, done_apart, onto, onto-append, last-onto, onto_back, length-onto,
  has-onto, head-has, last_cases,
}
use kanek_extents_storage.Cache.Sweep.{
  count_eviction, after_attempt, has_room, room_from, make_room_for_new_entry,
}
use kanek_extents_storage.Cache.Valid.{Valid, CountsDirty, no_pins}
use kanek_extents_storage.Cache.Valid.Update.{Valid-frame}
use kanek_extents_storage.Cache.Valid.Evict.{Valid-pins}
use kanek_extents_storage.Cache.Valid.Visit.{IsKept}
use kanek_extents_storage.Cache.Valid.Walk.{Unused, Stays, Stays-of}
use kanek_extents_storage.Cache.Valid.Pinning.{Valid-start, IsKept-start, IsKept-stop, Valid-stop}
use kanek_extents_storage.Cache.Valid.Trimmed.{Trimmed, AllStay, CountsDirty-next, Trimmed-step}
use kanek_extents_storage.Cache.Valid.Attempt.{tried, Visited-tried}

module _ {D : Type 0} where
  -- One more entry fits, or it does not and every entry that is left stays.
  abbrev pub Roomy : ℕ → Cache D × Bool → List ℕ → Type 0
  Roomy aligned r ys =
      ((r.1 ≡ true) × (has_room aligned r.0 ≡ true)) ⊎ ((r.1 ≡ false) × AllStay r.0 ys)

  -- The walk from a state of `after_attempt` on.
  abbrev walk : ℕ → ℕ → Bool × Option ℕ × Cache D → Cache D × Bool
  walk fuel aligned s = room_from fuel aligned s.0 s.1 s.2

  -- A walk from `c` comes to an end with room, or with nothing more to evict.
  abbrev Succeeds : ℕ → Cache D → List ℕ → Cache D × Bool → Type 0
  Succeeds aligned c xs r = (ys : List ℕ) × Trimmed c r.0 xs ys × Roomy aligned r ys

  -- Where there is room, the walk stops and releases its pin.
  Succeeds-stop :
      (fuel aligned : ℕ) (c c3 : Cache D) (xs ys : List ℕ) (prev : Option ℕ)
      → (prev ≡ none) ⊎ ((n : ℕ) × (prev ≡ some n) × (has ys n ≡ true))
      → Valid c3 ys (points prev)
      → CountsDirty c3 ys
      → IsKept c c3
      → ((q : ℕ) → has ys q ≡ true → has xs q ≡ true)
      → ((q : ℕ) → has xs q ≡ true → has ys q ≡ false → Unused (c.heap q))
      → has_room aligned c3 ≡ true
      → Succeeds aligned c xs (room_from fuel aligned true none (unpin_lookup prev c3))
  unfolding room_from store has_room
  Succeeds-stop fuel aligned c c3 xs ys prev at v d kept inside gone room = (
    ys,
    record {
      valid = Valid-stop c3 ys prev at v;
      counts = CountsDirty-next c3 ys prev none d;
      kept = λ q. IsKept-stop c3 prev q ∙ kept q;
      inside = inside;
      gone = gone;
    },
    inl (refl, room),
  )

  Succeeds-step :
      (aligned : ℕ) (c c2 : Cache D) (xs zs : List ℕ) (r : Cache D × Bool)
      → IsKept c c2
      → ((q : ℕ) → has zs q ≡ true → has xs q ≡ true)
      → ((q : ℕ) → has xs q ≡ true → has zs q ≡ false → Unused (c.heap q))
      → Succeeds aligned c2 zs r
      → Succeeds aligned c xs r
  Succeeds-step aligned c c2 xs zs r kept inside gone (ys, w, o) =
      (ys, Trimmed-step c c2 r.0 xs zs ys kept inside gone w, o)

  room_from-Trimmed :
      (fuel aligned : ℕ) (c : Cache D) (us done : List ℕ)
      → length us ≤ fuel
      → Valid c (onto us done) (points (head us))
      → CountsDirty c (onto us done)
      → AllStay c done
      → Succeeds aligned c (onto us done) (room_from fuel aligned false (head us) c)
  unfolding room_from after_attempt CountsDirty
  room_from-Trimmed fuel aligned c [] done n v d a = (
    done,
    record {
      valid = Valid-pins c done (points none) no_pins (λ q _. refl) v;
      counts = d;
      kept = λ q. refl;
      inside = λ q i. i;
      gone = λ q i o. absurd (ground arith);
    },
    inr (refl, a),
  )
  room_from-Trimmed zero aligned c (p ∷ us) done n v d a = absurd (omega arith)
  room_from-Trimmed (suc fuel) aligned c (p ∷ us) done n v d a =
      let xs = onto us (p ∷ done) in
      let (prev, visited, spares) = Visited-tried c us done p v d in
      let c3 = (tried p c).0 in
      let kept = spares.0 in
      let list = onto-append us (p ∷ done) in
      let d' : Distinct (onto us [] ++ p ∷ done) = subst Distinct list v.shape.distinct in
      let rest : delete p xs ≡ onto us done =
        ap (delete p) list ∙ delete-append (onto us []) p done d' ∙ sym (onto-append us done) in
      let staying : AllStay c3 done = λ q j.
        Stays-of (c.heap q) (c3.heap q)
          (spares.1 q
            (done_apart (onto us []) p done q d' (ground (arith, has-append (onto us []) done q))))
          (a q j) in
      let dropped : (q : ℕ) → has (onto us done) q ≡ (has xs q && not (p == q)) =
        λ q. ap (λ l. has l q) (sym rest) ∙ has-delete xs p q v.shape.distinct in
      subst
        (λ o. Succeeds aligned c xs (walk fuel aligned (after_attempt aligned false o (tried p c))))
        (sym prev)
        (elim visited [
          | inl z ↦
              subst
                (λ b.
                  Succeeds aligned c xs
                    (walk fuel aligned (after_attempt aligned false (head us) (c3, b))))
                (sym z.0)
                (let c4 = count_eviction c3 in
                  let v4 =
                    Valid-frame c3 c4 (onto us done) (points (head us))
                      (refl, refl, refl, refl, refl, refl, refl, refl) refl refl
                      (subst (λ l. Valid c3 l (points (head us))) rest z.1) in
                  let d4 = subst (CountsDirty c3) rest z.2 in
                  let inside : (q : ℕ) → has (onto us done) q ≡ true → has xs q ≡ true =
                    λ q j. ground (arith, sym (dropped q) ∙ j) in
                  let gone : (q : ℕ)
                      → has xs q ≡ true
                      → has (onto us done) q ≡ false
                      → Unused (c.heap q) =
                    λ q j o. elim (Bool-cases (p == q)) [
                      | inl e ↦ subst (λ q. Unused (c.heap q)) ((==_iff p q).0 e) z.3
                      | inr e ↦ absurd (ground (arith, dropped q))
                    ] in
                  let ahead : (head us ≡ none)
                      ⊎ ((n : ℕ) × (head us ≡ some n) × (has (onto us done) n ≡ true)) =
                    elim (last_cases us p done v.shape.distinct) [
                      | inl e ↦ inl e
                      | inr y ↦ inr (y.0, y.1, dropped y.0 ∙ rw (y.2, ==_comm p y.0, y.3) refl)
                    ] in
                  elim (Bool-cases (has_room aligned c4)) [
                    | inl e ↦ rw e (
                        Succeeds-stop fuel aligned c c4 xs (onto us done) (head us) ahead v4 d4 kept
                          inside gone e)
                    | inr e ↦ rw e (
                        Succeeds-step aligned c c4 xs (onto us done) _ kept inside gone
                          (room_from-Trimmed fuel aligned c4 us done (omega arith) v4 d4 staying))
                  ])
          | inr z ↦
              subst
                (λ b.
                  Succeeds aligned c xs
                    (walk fuel aligned (after_attempt aligned false (head us) (c3, b))))
                (sym z.0)
                (let stay : AllStay c3 (p ∷ done) = λ q j. elim (Bool-cases (p == q)) [
                  | inl e ↦ subst (λ q. Stays (c3.heap q)) ((==_iff p q).0 e) z.3
                  | inr e ↦ staying q (ground arith)
                ] in
                  Succeeds-step aligned c c3 xs xs _ kept (λ q j. j)
                    (λ q j o. absurd (ground arith))
                    (room_from-Trimmed fuel aligned c3 us (p ∷ done) (omega arith) z.1 z.2 stay))
        ])

  -- On a well-formed cache, make_room_for_new_entry ends with a well-formed cache, from which
  -- only entries without a reference or a pin are gone, and identifiers, buffers and counts of
  -- users of all others are as before. It returns true where one more entry is then within both
  -- limits, and false where every entry that is left is referenced, pinned, dirty or in error.
  pub make_room-Trimmed :
      (size : ℕ) (c : Cache D) (xs : List ℕ)
      → Valid c xs no_pins
      → CountsDirty c xs
      → Succeeds (kes_align size) c xs (make_room_for_new_entry size c)
  unfolding make_room_for_new_entry room_from store
  make_room-Trimmed size c xs v d =
      let still : Trimmed c c xs xs = record {
        valid = v;
        counts = d;
        kept = λ q. refl;
        inside = λ q i. i;
        gone = λ q i o. absurd (ground arith);
      } in
      let us = onto xs [] in
      let back = onto_back xs in
      let tail : c.lru_tail ≡ head us = v.shape.tail ∙ ap (last none) (sym back) ∙ last-onto us in
      let ahead : (head us ≡ none) ⊎ ((n : ℕ) × (head us ≡ some n) × (has xs n ≡ true)) =
        elim (head-has us) [
          | inl e ↦ inl e
          | inr z ↦
              inr
                (z.0, z.1, ground (arith, sym (ap (λ l. has l z.0) back) ∙ has-onto us [] z.0, z.2))
        ] in
      let c0 = pin_lookup (head us) c in
      let v0 =
        subst (λ l. Valid c0 l (points (head us))) (sym back)
          (Valid-start c xs (head us) ahead v) in
      let d0 = subst (CountsDirty c0) (sym back) (CountsDirty-next c xs none (head us) d) in
      let counted : length us ≤ c.stats.entries_cached =
        omega (arith, length-onto xs [], v.cached) in
      let walked =
        room_from-Trimmed c.stats.entries_cached (kes_align size) c0 us [] counted v0 d0
          (λ q j. absurd (ground arith)) in
      elim (Bool-cases (has_room (kes_align size) c)) [
        | inl e ↦ rw e (xs, still, inl (refl, e))
        | inr e ↦ rw e (
            subst
              (λ o.
                Succeeds (kes_align size) c xs
                  (room_from c.stats.entries_cached (kes_align size) false o (pin_lookup o c)))
              (sym tail)
              (Succeeds-step (kes_align size) c c0 xs (onto us []) _ (IsKept-start c (head us))
                (λ q j. sym (ap (λ l. has l q) back) ∙ j)
                (λ q j o. absurd (ground (arith, ap (λ l. has l q) back))) walked))
      ]
