-- ===== src/Cache/Valid/Update.antt =====
-- Writes to one entry of the cache of src/kes_cache.c keep its invariant.
use kanek_extents_storage.Common.{
  ℕ, ◌+◌, Bool, true, false, ◌==◌, ==_iff, List, some, ◌≡◌, refl, ap, subst, sym, ◌∙◌, arith, inl,
  inr, Bool-cases,
}
use kanek_extents_storage.Cache.{Entry, Cache, kes_align, store}
use kanek_extents_storage.Cache.Chain.{has}
use kanek_extents_storage.Cache.Totals.{total-change, total-agree}
use kanek_extents_storage.Cache.Shape.Moves.{skeleton, Shape-same}
use kanek_extents_storage.Cache.Valid.{Valid, IsSettled, memory_of, pins_of, dirt_of, CountsDirty}

-- A lookup pin on one entry may come or go with the write.
abbrev pub SamePins : (ℕ → Bool) → (ℕ → Bool) → ℕ → Type 0
SamePins before after p = (q : ℕ) → (p == q) ≡ false → after q ≡ before q

-- Heaps that agree but for one address agree in what that address keeps.
pub everywhere {ℓ} :
    {A : Type ℓ} (f : Entry → A) (heap heap' : ℕ → Entry) (p : ℕ)
    → ((q : ℕ) → (p == q) ≡ false → heap' q ≡ heap q)
    → f (heap' p) ≡ f (heap p)
    → (q : ℕ) → f (heap' q) ≡ f (heap q)
everywhere f heap heap' p rest here q = elim (Bool-cases (p == q)) [
  | inl e ↦ subst (λ q. f (heap' q) ≡ f (heap q)) ((==_iff p q).0 e) here
  | inr e ↦ ap f (rest q e)
]

module _ {D : Type 0} where
  -- What no write to an entry touches.
  abbrev pub SameFrame : Cache D → Cache D → Type 0
  SameFrame c c' =
      (c'.mru_head ≡ c.mru_head)
      × (c'.lru_tail ≡ c.lru_tail)
      × (c'.buckets ≡ c.buckets)
      × (c'.bucket_mask ≡ c.bucket_mask)
      × (c'.config ≡ c.config)
      × (c'.next_address ≡ c.next_address)
      × (c'.stats.entries_cached ≡ c.stats.entries_cached)
      × (c'.stats.memory_used ≡ c.stats.memory_used)

  -- The entry keeps its identifier, links and size, and becomes settled.
  abbrev pub Rewrites : Cache D → Cache D → (ℕ → Bool) → ℕ → Type 0
  Rewrites c c' pinned p =
      ((q : ℕ) → (p == q) ≡ false → c'.heap q ≡ c.heap q)
      × (skeleton (c'.heap p) ≡ skeleton (c.heap p))
      × ((c'.heap p).data_size ≡ (c.heap p).data_size)
      × IsSettled pinned p (c'.heap p)
      × (c'.stats.entries_pinned + pins_of (c.heap p)
          ≡ c.stats.entries_pinned + pins_of (c'.heap p))

  pub Valid-Rewrites :
      (c c' : Cache D) (xs : List ℕ) (before after : ℕ → Bool) (p : ℕ)
      → has xs p ≡ true
      → SameFrame c c'
      → Rewrites c c' after p
      → SamePins before after p
      → Valid c xs before
      → Valid c' xs after
  Valid-Rewrites c c' xs before after p i f r s v =
      let change =
        total-change (λ q. pins_of (c.heap q)) (λ q. pins_of (c'.heap q)) xs p v.shape.distinct i
          (λ q ne. ap pins_of (r.0 q ne)) in
      let skel : (q : ℕ) → skeleton (c'.heap q) ≡ skeleton (c.heap q) =
        everywhere skeleton c.heap c'.heap p r.0 r.1 in
      let size : (q : ℕ) → memory_of (c'.heap q) ≡ memory_of (c.heap q) =
        everywhere memory_of c.heap c'.heap p r.0 (ap kes_align r.2) in
      record {
        shape = Shape-same c c' xs f.0 f.1 f.2 f.3 skel v.shape;
        settled = λ q j. elim (Bool-cases (p == q)) [
          | inl e ↦ subst (λ q. IsSettled after q (c'.heap q)) ((==_iff p q).0 e) r.3
          | inr e ↦ rw (r.0 q e, s q e) (v.settled q j)
        ];
        given = λ q j. rw f.5 (v.given q j);
        cached = f.6 ∙ v.cached;
        memory =
            f.7
            ∙ v.memory
            ∙ sym (
                total-agree (λ q. memory_of (c.heap q)) (λ q. memory_of (c'.heap q)) xs
                  (λ q _. size q));
        pins = omega (arith, change, v.pins, r.4);
        entries_fit = rw f.4 v.entries_fit;
        memory_fits = rw (f.4, f.7) v.memory_fits;
        entries_small = rw f.4 v.entries_small;
        memory_small = rw f.4 v.memory_small;
      }

  pub CountsDirty-rewrites :
      (c c' : Cache D) (xs : List ℕ) (pinned : ℕ → Bool) (p : ℕ)
      → has xs p ≡ true
      → Valid c xs pinned
      → ((q : ℕ) → (p == q) ≡ false → c'.heap q ≡ c.heap q)
      → c'.stats.entries_dirty + dirt_of (c.heap p) ≡ c.stats.entries_dirty + dirt_of (c'.heap p)
      → CountsDirty c xs
      → CountsDirty c' xs
  unfolding CountsDirty
  CountsDirty-rewrites c c' xs pinned p i v r e d =
      let change =
        total-change (λ q. dirt_of (c.heap q)) (λ q. dirt_of (c'.heap q)) xs p v.shape.distinct i
          (λ q ne. ap dirt_of (r q ne)) in
      omega (arith, change, d, e)

  -- The write `f` to the entry at `p`, with whatever else the frame leaves free.
  pub Valid-update :
      (c c' : Cache D) (xs : List ℕ) (before after : ℕ → Bool) (p : ℕ) (f : Entry → Entry)
      → has xs p ≡ true
      → SameFrame c c'
      → c'.heap ≡ store (some p) f c.heap
      → skeleton (f (c.heap p)) ≡ skeleton (c.heap p)
      → (f (c.heap p)).data_size ≡ (c.heap p).data_size
      → IsSettled after p (f (c.heap p))
      → c'.stats.entries_pinned + pins_of (c.heap p)
        ≡ c.stats.entries_pinned + pins_of (f (c.heap p))
      → SamePins before after p
      → Valid c xs before
      → Valid c' xs after
  unfolding store
  Valid-update c c' xs before after p f i frame h k d s n pins v =
      let here : c'.heap p ≡ f (c.heap p) = rw (h, (==_iff p p).1 refl) refl in
      let there : (q : ℕ) → (p == q) ≡ false → c'.heap q ≡ c.heap q = λ q ne. rw (h, ne) refl in
      Valid-Rewrites c c' xs before after p i frame
        (there, rw here k, rw here d, rw here s, rw here n) pins v

  pub CountsDirty-update :
      (c c' : Cache D) (xs : List ℕ) (pinned : ℕ → Bool) (p : ℕ) (f : Entry → Entry)
      → has xs p ≡ true
      → Valid c xs pinned
      → c'.heap ≡ store (some p) f c.heap
      → c'.stats.entries_dirty + dirt_of (c.heap p) ≡ c.stats.entries_dirty + dirt_of (f (c.heap p))
      → CountsDirty c xs
      → CountsDirty c' xs
  unfolding store
  CountsDirty-update c c' xs pinned p f i v h n d =
      let here : c'.heap p ≡ f (c.heap p) = rw (h, (==_iff p p).1 refl) refl in
      CountsDirty-rewrites c c' xs pinned p i v (λ q ne. rw (h, ne) refl) (rw here n) d

  -- A write that spares the heap.
  pub Valid-frame :
      (c c' : Cache D) (xs : List ℕ) (pinned : ℕ → Bool)
      → SameFrame c c'
      → c'.heap ≡ c.heap
      → c'.stats.entries_pinned ≡ c.stats.entries_pinned
      → Valid c xs pinned
      → Valid c' xs pinned
  Valid-frame c c' xs pinned f h n v = record {
    shape = Shape-same c c' xs f.0 f.1 f.2 f.3 (λ q. ap (λ heap. skeleton (heap q)) h) v.shape;
    settled = λ q j. rw h (v.settled q j);
    given = λ q j. rw f.5 (v.given q j);
    cached = f.6 ∙ v.cached;
    memory = rw h (f.7 ∙ v.memory);
    pins = rw h (n ∙ v.pins);
    entries_fit = rw f.4 v.entries_fit;
    memory_fits = rw (f.4, f.7) v.memory_fits;
    entries_small = rw f.4 v.entries_small;
    memory_small = rw f.4 v.memory_small;
  }
