-- ===== src/Os/Calls.antt =====
-- Each system call either does all its work or fails; it fails only if the plan has an event that
-- is no completion, and then it keeps every byte outside the region that it was to write.
use kanek_extents_storage.Common.{
  ℕ, zero, suc, ◌+◌, ◌-◌, ◌^◌, ◌≤◌, ◌<◌, min, ◌≡◌, refl, ap, ◌⊎◌, inl, inr, Bool, true, false, ◌==◌,
  lt→ltb, List, [], ◌∷◌, ◌++◌, length, take, drop, arith, ==_iff, Bool-cases, length-append,
  length-drop,
}
use kanek_extents_storage.Os.{
  Os, Event, completes, stops_at, attempt, lseek, read, write, read_into, write_all,
}
use kanek_extents_storage.Os.Files.{
  File, window, write_at, length-window, byte-write_at_ne, size-write_at,
}

-- The file, and that under the condition `C` nothing fails any more.
pub record OsAt (C : Type 0) (f : File) (os : Os) : Type 0 where
  pub file : os.file ≡ f
  pub calm : C → os.plan ≡ []

-- `g` has the bytes of `f` outside `n` bytes from `offset` on.
pub record Keeps (offset n : ℕ) (f g : File) : Type 0 where
  pub grown : f.size ≤ g.size
  pub kept : (i : ℕ) → (i < offset) ⊎ (offset + n ≤ i) → i < f.size → g.byte i ≡ f.byte i

pub Keeps-refl : (offset n : ℕ) (f : File) → Keeps offset n f f
Keeps-refl offset n f = record { grown = omega arith; kept = λ i h lt. refl }

length-take-le {ℓ} : {A : Type ℓ} (n : ℕ) (xs : List A) → length (take n xs) ≤ length xs
length-take-le zero xs = omega arith
length-take-le (suc n) [] = omega arith
length-take-le (suc n) (x ∷ xs) = omega (arith, length-take-le n xs)

length-take-eq {ℓ} :
    {A : Type ℓ} (n : ℕ) (xs : List A) → length (take n xs) ≡ length xs → take n xs ≡ xs
length-take-eq zero [] h = refl
length-take-eq zero (x ∷ xs) h = absurd (omega arith)
length-take-eq (suc n) [] h = refl
length-take-eq (suc n) (x ∷ xs) h = ap (◌∷◌ x) (length-take-eq n xs (omega arith))

pub Keeps-write_at :
    (offset : ℕ) (bytes : List ℕ) (k : ℕ) (f : File)
    → Keeps offset (length bytes) f (write_at offset (take k bytes) f)
Keeps-write_at offset bytes k f = record {
  grown = (size-write_at f offset (take k bytes)).0;
  kept = λ i h lt.
      byte-write_at_ne f offset i (take k bytes) (ground (arith, length-take-le k bytes)) lt;
}

-- A call passed, or something was bound to fail; the file is as it was.
abbrev pub Tried : Type 0 → File → Os × Bool → Type 0
Tried C f r = ((r.1 ≡ true) ⊎ ((r.1 ≡ false) × (¬ C))) × OsAt C f r.0

module _ (C : Type 0) (f : File) where
  abbrev os_of : File → ℕ → List Event → Os
  os_of g pos plan = record { file = g; pos = pos; plan = plan }

  -- An event that is planned ahead shows that something may fail.
  planned : {e : Event} {rest : List Event} → (C → e ∷ rest ≡ []) → ¬ C
  planned h c = cc (h c)

  attempt_plan :
      (g : File) (pos : ℕ) (plan : List Event)
      → OsAt C f (os_of g pos plan)
      → Tried C f (attempt (os_of g pos plan))
  unfolding attempt
  attempt_plan g pos [] at = (inl refl, record { file = at.file; calm = λ c. refl })
  attempt_plan g pos (completes ∷ rest) at =
      (inl refl, record { file = at.file; calm = λ c. absurd (planned at.calm c) })
  attempt_plan g pos (e ∷ rest) at = (
    inr (refl, planned at.calm),
    record { file = at.file; calm = λ c. absurd (planned at.calm c) },
  )

  pub attempt_cases : (os : Os) → OsAt C f os → Tried C f (attempt os)
  attempt_cases os at = attempt_plan os.file os.pos os.plan at

  -- A seek to an offset that an off_t can hold; if it passes, the position is the offset.
  abbrev pub Sought : ℕ → Os × Bool → Type 0
  Sought offset r = (((r.1 ≡ true) × (r.0.pos ≡ offset)) ⊎ ((r.1 ≡ false) × (¬ C))) × OsAt C f r.0

  lseek_plan :
      (g : File) (pos : ℕ) (plan : List Event) (offset : ℕ)
      → OsAt C f (os_of g pos plan)
      → offset < 2 ^ 63
      → Sought offset (lseek offset (os_of g pos plan))
  unfolding lseek
  lseek_plan g pos [] offset at lt =
      rw (lt→ltb _ _ lt) (inl (refl, refl), record { file = at.file; calm = λ c. refl })
  lseek_plan g pos (completes ∷ rest) offset at lt =
      rw (lt→ltb _ _ lt)
        (inl (refl, refl), record { file = at.file; calm = λ c. absurd (planned at.calm c) })
  lseek_plan g pos (e ∷ rest) offset at lt = (
    inr (ground arith, planned at.calm),
    record { file = at.file; calm = λ c. absurd (planned at.calm c) },
  )

  pub lseek_cases :
      (os : Os) (offset : ℕ) → OsAt C f os → offset < 2 ^ 63 → Sought offset (lseek offset os)
  lseek_cases os offset at lt = lseek_plan os.file os.pos os.plan offset at lt

  -- A read of `n` bytes inside the file: the memory is the window, or the read fell short.
  abbrev pub DidRead : ℕ → ℕ → List ℕ → Os × List ℕ × Bool → Type 0
  DidRead pos n old r =
      (((r.2 ≡ true) × (r.1 ≡ window f pos n ++ drop n old)) ⊎ ((r.2 ≡ false) × (¬ C)))
      × OsAt C f r.0

  abbrev got : File → ℕ → ℕ → ℕ → ℕ
  got g pos n k = min (min n k) (g.size - pos)

  abbrev Came : File → ℕ → ℕ → ℕ → List ℕ → Type 0
  Came g pos n k old =
      ((length (window g pos (got g pos n k)) == n) ≡ true)
      × (window g pos (got g pos n k) ++ drop (length (window g pos (got g pos n k))) old
          ≡ window f pos n ++ drop n old)

  came : (g : File) (pos n k : ℕ) (old : List ℕ) → g ≡ f → got g pos n k ≡ n → Came g pos n k old
  came g pos n k old e h = rw (h, length-window g pos n, e) ((==_iff n n).1 refl, refl)

  Came-or_less :
      (g : File) (pos n k : ℕ) (old : List ℕ)
      → g ≡ f
      → Came g pos n k old ⊎ ((length (window g pos (got g pos n k)) == n) ≡ false)
  Came-or_less g pos n k old e = elim (Bool-cases (got g pos n k == n)) [
    | inl h ↦ inl (came g pos n k old e ((==_iff _ _).0 h))
    | inr h ↦ inr (rw (length-window g pos (got g pos n k)) h)
  ]

  read_plan :
      (g : File) (pos : ℕ) (plan : List Event) (n : ℕ) (old : List ℕ)
      → OsAt C f (os_of g pos plan)
      → pos + n ≤ f.size
      → DidRead pos n old (read_into n old (os_of g pos plan))
  unfolding read_into read
  read_plan g pos [] n old at le = (
    inl (came g pos n n old at.file (fits g at.file)),
    record { file = at.file; calm = λ c. refl },
  )
    where
      fits : (g : File) → g ≡ f → got g pos n n ≡ n
      fits g e = rw e (omega arith)
  read_plan g pos (completes ∷ rest) n old at le = (
    inl (came g pos n n old at.file (fits g at.file)),
    record { file = at.file; calm = λ c. absurd (planned at.calm c) },
  )
    where
      fits : (g : File) → g ≡ f → got g pos n n ≡ n
      fits g e = rw e (omega arith)
  read_plan g pos (Event.fails ∷ rest) n old at le = (
    inr (refl, planned at.calm),
    record { file = at.file; calm = λ c. absurd (planned at.calm c) },
  )
  read_plan g pos (stops_at k ∷ rest) n old at le = (
    elim (Came-or_less g pos n k old at.file) [ inl h ↦ inl h | inr h ↦ inr (h, planned at.calm) ],
    record { file = at.file; calm = λ c. absurd (planned at.calm c) },
  )

  pub read_into_cases :
      (os : Os) (n : ℕ) (old : List ℕ)
      → OsAt C f os
      → os.pos + n ≤ f.size
      → DidRead os.pos n old (read_into n old os)
  read_into_cases os n old at le = read_plan os.file os.pos os.plan n old at le

  -- A write: all the bytes are in the file, or it fell short and changed nothing else.
  abbrev pub DidWrite : ℕ → List ℕ → Os × Bool → Type 0
  DidWrite pos bytes r =
      ((r.1 ≡ true) × OsAt C (write_at pos bytes f) r.0)
      ⊎ ((r.1 ≡ false) × (¬ C) × Keeps pos (length bytes) f r.0.file)

  write_plan :
      (g : File) (pos : ℕ) (plan : List Event) (bytes : List ℕ)
      → OsAt C f (os_of g pos plan)
      → DidWrite pos bytes (write_all bytes (os_of g pos plan))
  unfolding write_all write
  write_plan g pos [] bytes at =
      inl ((==_iff _ _).1 refl, record { file = ap (write_at pos bytes) at.file; calm = λ c. refl })
  write_plan g pos (completes ∷ rest) bytes at = inl (
    (==_iff _ _).1 refl,
    record { file = ap (write_at pos bytes) at.file; calm = λ c. absurd (planned at.calm c) },
  )
  write_plan g pos (Event.fails ∷ rest) bytes at =
      inr (refl, planned at.calm, rw at.file (Keeps-refl pos (length bytes) f))
  write_plan g pos (stops_at k ∷ rest) bytes at =
      elim (Bool-cases (length (take k bytes) == length bytes)) [
        | inl h ↦
            let e : take k bytes ≡ bytes = length-take-eq k bytes ((==_iff _ _).0 h) in
            inl (h, record { file = rw (e, at.file) refl; calm = λ c. absurd (planned at.calm c) })
        | inr h ↦ inr (h, planned at.calm, rw at.file (Keeps-write_at pos bytes k f))
      ]

  pub write_all_cases :
      (os : Os) (bytes : List ℕ) → OsAt C f os → DidWrite os.pos bytes (write_all bytes os)
  write_all_cases os bytes at = write_plan os.file os.pos os.plan bytes at

-- A read into memory of `n` bytes or more does not change its length.
length-overlay :
    (f : File) (pos g n : ℕ) (old : List ℕ)
    → g ≤ n
    → n ≤ length old
    → length (window f pos g ++ drop (length (window f pos g)) old) ≡ length old
length-overlay f pos g n old le h = rw (length-window f pos g) (
    omega (
      arith,
      length-append (window f pos g) (drop g old),
      length-drop g old,
      length-window f pos g,
    ))

pub length-read_into :
    (n : ℕ) (old : List ℕ) (os : Os) → n ≤ length old → length (read_into n old os).1 ≡ length old
length-read_into n old os = by_plan os.file os.pos os.plan
  where
    by_plan :
        (f : File) (pos : ℕ) (plan : List Event)
        → n ≤ length old
        → length (read_into n old (record { file = f; pos = pos; plan = plan })).1 ≡ length old
    by_plan f pos [] h =
        unfold read_into read in
        length-overlay f pos (min (min n n) (f.size - pos)) n old (omega arith) h
    by_plan f pos (completes ∷ rest) h =
        unfold read_into read in
        length-overlay f pos (min (min n n) (f.size - pos)) n old (omega arith) h
    by_plan f pos (Event.fails ∷ rest) h = unfold read_into read in refl
    by_plan f pos (stops_at k ∷ rest) h =
        unfold read_into read in
        length-overlay f pos (min (min n k) (f.size - pos)) n old (omega arith) h
