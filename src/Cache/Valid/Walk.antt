-- ===== src/Cache/Valid/Walk.antt =====
-- One step of the walks of src/kes_cache.c: the flush and the attempt to evict, together.
use kanek_extents_storage.Common.{
  ℕ, Bool, true, false, ◌==◌, ==_iff, List, ◌≡◌, refl, ap, sym, ◌∙◌, arith, ◌⊎◌, inl, inr,
}
use kanek_extents_storage.Cache.{Entry, Cache}
use kanek_extents_storage.Cache.Lists.{is_evictable, try_evict_entry_locked}
use kanek_extents_storage.Cache.Chain.{has, delete}
use kanek_extents_storage.Cache.Totals.{flag}
use kanek_extents_storage.Cache.Links.{payload}
use kanek_extents_storage.Cache.Shape.Table.{payload-drop_entry}
use kanek_extents_storage.Cache.Sweep.{flush_dirty}
use kanek_extents_storage.Cache.Valid.{Valid, CountsDirty}
use kanek_extents_storage.Cache.Valid.Update.{everywhere}
use kanek_extents_storage.Cache.Valid.Evict.{Valid-drop_entry}
use kanek_extents_storage.Cache.Valid.Visit.{
  IsKept, users_of, Flushes, Flushes-flush_dirty, try_evict-cases, CountsDirty-drop_entry,
}

-- What lets an entry go without a loss: no user, no pin, and neither dirty nor failed.
pub is_evictable-true :
    (e : Entry)
    → is_evictable e false ≡ true
    → (e.ref_count ≡ 0) × (e.pin_count ≡ 0) × (e.state.dirty ≡ false)
unfolding is_evictable
is_evictable-true e h =
    let r : (e.ref_count == 0) ≡ true = ground arith in
    let p : (e.pin_count == 0) ≡ true = ground arith in
    ((==_iff _ _).0 r, (==_iff _ _).0 p, ground arith)

abbrev pub Unused : Entry → Type 0
Unused e = (e.ref_count ≡ 0) × (e.pin_count ≡ 0)

-- An entry without its links and the pins of lookups: what decides whether a walk evicts it.
abbrev pub standing : Entry → Entry
standing e = record (payload e) { lookup_pins = 0 }

-- An entry that a walk leaves in the cache: it is in use, dirty or failed.
abbrev pub Stays : Entry → Type 0
Stays e = is_evictable e false ≡ false

pub Stays-of : (e e' : Entry) → standing e' ≡ standing e → Stays e → Stays e'
unfolding is_evictable
Stays-of e e' same s = ap (λ e. is_evictable e false) same ∙ s

module _ {D : Type 0} where
  -- The entry at `p` is gone, or it stays because it is in use, dirty or failed.
  abbrev pub Visited : Cache D → Cache D × Bool → List ℕ → (ℕ → Bool) → ℕ → Type 0
  Visited c r xs pinned p =
      ((r.1 ≡ true)
        × Valid r.0 (delete p xs) pinned
        × CountsDirty r.0 (delete p xs)
        × Unused (c.heap p))
      ⊎ ((r.1 ≡ false) × Valid r.0 xs pinned × CountsDirty r.0 xs × Stays (r.0.heap p))

  abbrev pub Spares : Cache D → Cache D → ℕ → Type 0
  Spares c c' p =
      IsKept c c' × ((q : ℕ) → (p == q) ≡ false → standing (c'.heap q) ≡ standing (c.heap q))

  -- The attempt to evict, in a cache `c1` that has changed nothing else since `c`.
  pub Visited-evict :
      (c c1 : Cache D) (xs : List ℕ) (pinned : ℕ → Bool) (p : ℕ)
      → has xs p ≡ true
      → pinned p ≡ false
      → Valid c1 xs pinned
      → CountsDirty c1 xs
      → Spares c c1 p
      → Visited c (try_evict_entry_locked p false c1) xs pinned p
        × Spares c (try_evict_entry_locked p false c1).0 p
  Visited-evict c c1 xs pinned p i free v d (kept, rest) =
      elim (try_evict-cases p false c1 ((v.settled p i).3 ∙ ap flag free)) [
        | inl z ↦
            let u = is_evictable-true (c1.heap p) z.1 in
            let same = payload-drop_entry c1 p in
            rw z.0 (
              inl (
                refl,
                Valid-drop_entry c1 xs pinned p i u.1 v,
                CountsDirty-drop_entry c1 xs p i u.2 d,
                (sym (ap (λ s. s.2) (kept p)) ∙ u.0, sym (ap (λ s. s.3) (kept p)) ∙ u.1),
              ),
              ((λ q. ap users_of (same q) ∙ kept q), (λ q ne. ap standing (same q) ∙ rest q ne)),
            )
        | inr z ↦ rw z.0 (inr (refl, v, d, z.1), (kept, rest))
      ]

  pub Spares-flush_dirty :
      (c : Cache D) (xs : List ℕ) (pinned : ℕ → Bool) (p : ℕ)
      → Flushes c (flush_dirty p c) xs pinned p
      → Spares c (flush_dirty p c) p
  Spares-flush_dirty c xs pinned p f = (
    everywhere users_of c.heap (flush_dirty p c).heap p f.2 f.3,
    (λ q ne. ap standing (f.2 q ne)),
  )

  pub Visited-try_evict :
      (c : Cache D) (xs : List ℕ) (pinned : ℕ → Bool) (p : ℕ)
      → has xs p ≡ true
      → pinned p ≡ false
      → Valid c xs pinned
      → CountsDirty c xs
      → Visited c (try_evict_entry_locked p false (flush_dirty p c)) xs pinned p
        × Spares c (try_evict_entry_locked p false (flush_dirty p c)).0 p
  Visited-try_evict c xs pinned p i free v d =
      let f = Flushes-flush_dirty c xs pinned p i v d in
      Visited-evict c (flush_dirty p c) xs pinned p i free f.0 f.1
        (Spares-flush_dirty c xs pinned p f)

  pub Spares-trans : (c c1 c2 : Cache D) (p : ℕ) → Spares c c1 p → Spares c1 c2 p → Spares c c2 p
  Spares-trans c c1 c2 p s t = ((λ q. t.0 q ∙ s.0 q), (λ q ne. t.1 q ne ∙ s.1 q ne))
