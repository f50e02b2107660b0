-- ===== src/Cache/Valid/Steps.antt =====
-- The calls of src/kes_cache.c, each by itself, keep the invariant of the cache.
use kanek_extents_storage.Common.{
  ℕ, Bool, true, false, if◌then◌else◌, Result, List, Option, none, some, Status, ◌≡◌, ◌≢◌, refl, ap,
  subst, sym, ◌∙◌, inl, inr, Bool-cases,
}
use kanek_extents_storage.Os.Outcomes.{Ends, returns, fails}
use kanek_extents_storage.Cache.{ExtentId, Cache, update}
use kanek_extents_storage.Cache.Lists.{hash_find}
use kanek_extents_storage.Cache.Chain.{has, delete}
use kanek_extents_storage.Cache.Find.{found, found-cases}
use kanek_extents_storage.Cache.Sweep.{cache_sweep}
use kanek_extents_storage.Cache.Operations.{with_found, invalidate_entry}
use kanek_extents_storage.Cache.Access.{filled}
use kanek_extents_storage.Cache.Lifecycle.{start_threads, all_created, bg_thread_round}
use kanek_extents_storage.Cache.Valid.{CountsDirty, no_pins}
use kanek_extents_storage.Cache.Valid.Update.{Valid-frame, SameFrame}
use kanek_extents_storage.Cache.Valid.Sweeps.{cache_sweep-Swept}
use kanek_extents_storage.Cache.Valid.Entries.{Sound, with_found-cases}
use kanek_extents_storage.Cache.Valid.Writes.{invalidate_entry-cases}
use kanek_extents_storage.Cache.Valid.Load.{Sound-update, filled_settled}
use kanek_extents_storage.Cache.Valid.Hit.{Served, Refused}

pub none-some {ℓ} : {A : Type ℓ} {a : A} → none ≢ some a
none-some e = cc

unfoldable pub or_else {ℓ} : {A : Type ℓ} → Option A → A → A
or_else none a = a
or_else (some x) a = x

pub some-injective {ℓ} : {A : Type ℓ} {a b : A} → some a ≡ some b → a ≡ b
unfolding or_else
some-injective {a} e = ap (λ o. or_else o a) e

module _ {D : Type 0} where
  -- An operation that keeps the invariant on the entry it finds keeps it.
  pub Sound-with_found :
      (use_entry : ℕ → Cache D → Cache D × Status) (c : Cache D) (xs : List ℕ) (id : ExtentId)
      → ((p : ℕ) → has xs p ≡ true → (ys : List ℕ) × Sound (use_entry p c).0 ys)
      → Sound c xs
      → (ys : List ℕ) × Sound (with_found use_entry (hash_find c id)).0 ys
  Sound-with_found use_entry c xs id keeps h = elim (with_found-cases use_entry c xs id h.0) [
    | inl z ↦ rw z.1 (keeps z.0 z.2)
    | inr z ↦ rw z.0 (xs, h)
  ]

  -- What touches neither heap nor lists nor the counters of the present state.
  pub Sound-frame :
      (c c' : Cache D) (xs : List ℕ)
      → SameFrame c c'
      → c'.heap ≡ c.heap
      → c'.stats.entries_pinned ≡ c.stats.entries_pinned
      → c'.stats.entries_dirty ≡ c.stats.entries_dirty
      → Sound c xs
      → (ys : List ℕ) × Sound c' ys
  unfolding CountsDirty
  Sound-frame c c' xs f h n m (v, d) = (xs, (Valid-frame c c' xs no_pins f h n v, rw h (m ∙ d)))

  pub Sound-start_threads :
      (a : Bool) (created : ℕ → Bool) (running : Option ℕ) (c : Cache D) (xs : List ℕ)
      → Sound c xs
      → (ys : List ℕ) × Sound (start_threads a created running c).0 ys
  unfolding start_threads
  Sound-start_threads a created (some running) c xs h = (xs, h)
  Sound-start_threads a created none c xs h =
      let c' = record c { bg_threads = some c.config.background_threads; shutdown = false } in
      let c'' = record c { shutdown = false } in
      elim (Bool-cases a) [
        | inl e ↦ elim (Bool-cases (all_created c.config.background_threads created)) [
          | inl f ↦
              simp (e, f)
                (Sound-frame c c' xs (refl, refl, refl, refl, refl, refl, refl, refl) refl refl refl
                  h)
          | inr f ↦
              simp (e, f)
                (Sound-frame c c'' xs (refl, refl, refl, refl, refl, refl, refl, refl) refl refl
                  refl h)
        ]
        | inr e ↦ simp e (xs, h)
      ]

  pub Sound-invalidated :
      (c : Cache D) (xs : List ℕ) (p : ℕ)
      → has xs p ≡ true
      → Sound c xs
      → (ys : List ℕ) × Sound (invalidate_entry p c).0 ys
  Sound-invalidated c xs p i h = elim (invalidate_entry-cases c xs p i h) [
    | inl z ↦ (delete p xs, z.3)
    | inr z ↦ (xs, rw z.1 h)
  ]

  pub Sound-written :
      (c : Cache D) (xs : List ℕ) (id : ExtentId) (p : ℕ) (bytes : List ℕ)
      → found c id ≡ some p
      → Sound c xs
      → (ys : List ℕ) × Sound (update (some p) (filled bytes) c) ys
  Sound-written c xs id p bytes e h =
      let i : has xs p ≡ true = elim (found-cases c xs id h.0.shape h.0.cached) [
        | inl z ↦ subst (λ q. has xs q ≡ true) (some-injective (sym z.1 ∙ e)) z.2
        | inr z ↦ absurd (none-some (sym z.0 ∙ e))
      ] in
      let s = h.0.settled p i in
      (
        xs,
        Sound-update c (update (some p) (filled bytes) c) xs p (filled bytes) i
            (refl, refl, refl, refl, refl, refl, refl, refl) refl refl refl refl refl refl refl
            (filled_settled (c.heap p) bytes s.0, s.1, s.2, s.3) h,
      )

  pub Sound-got :
      (id : ExtentId) (c : Cache D) (xs : List ℕ) (r : Cache D × Result ℕ)
      → Ends (Served id c xs) (Refused id c xs) r
      → (ys : List ℕ) × Sound r.0 ys
  Sound-got id c xs _ (returns s) = (s.0, s.1)
  Sound-got id c xs _ (fails s) = (s.0, s.1)

  pub Sound-round :
      (c c' : Cache D) (xs : List ℕ)
      → bg_thread_round c ≡ some c'
      → Sound c xs
      → (ys : List ℕ) × Sound c' ys
  unfolding bg_thread_round
  Sound-round c c' xs e (v, d) =
      let (ys, w) = cache_sweep-Swept c xs v d in
      elim (Bool-cases c.shutdown) [
        | inl s ↦
            absurd
              (none-some (subst (λ b. (if b then none else some (cache_sweep c)) ≡ some c') s e))
        | inr s ↦
            let same : cache_sweep c ≡ c' =
              some-injective
                (subst (λ b. (if b then none else some (cache_sweep c)) ≡ some c') s e) in
            subst (λ z. (ys : List ℕ) × Sound z ys) same (ys, (w.0.valid, w.0.counts))
      ]
