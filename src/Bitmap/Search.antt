-- ===== src/Bitmap/Search.antt =====
-- kes_bitmap_find_free against its specification: the first free run from the hint on, else the
-- first free run before it, else none exists.
use kanek_extents_storage.Common.{
  ℕ, zero, suc, ◌+◌, ◌-◌, ◌≤◌, ◌<◌, min, ◌≡◌, refl, subst, true, false, ltb, leb, ◌==◌,
  if◌then◌else◌, arith, u64, u64_sub, Option, none, some, inl, inr, ◌⊎◌, Bool-cases, Result, ok,
  err, nospace, leb→le, ltb→lt,
}
use kanek_extents_storage.Bitmap.{
  Bitmap, kes_bitmap_test, is_run_free, scan, search_start, found_at, search_wrapped, search_from,
  kes_bitmap_find_free,
}
use kanek_extents_storage.Bitmap.Bits.{bit}
use kanek_extents_storage.Bitmap.Invariant.{IsValid, kes_bitmap_test-eq-bit, free_run-le}

-- `n` free blocks from `s` on, inside the bitmap.
pub record IsFreeRun (bm : Bitmap) (s n : ℕ) : Type 0 where
  pub inside : s + n ≤ bm.total_bits
  pub free : (i : ℕ) → i < n → bit bm.bytes (s + i) ≡ false

module _ (bm : Bitmap) (n : ℕ) (v : IsValid bm) where
  -- The inner loop decides whether the run is free.
  is_run_free-true :
      (s i left : ℕ)
      → s + i + left ≤ bm.total_bits
      → is_run_free bm s i left ≡ true
      → (j : ℕ) → j < left
      → bit bm.bytes (s + i + j) ≡ false
  unfolding is_run_free
  is_run_free-true s i zero le h j lt = absurd (omega arith)
  is_run_free-true s i (suc left) le h zero lt =
      let e : u64 (s + i) ≡ s + i = omega (arith, v.small) in
      let e' : s + i + 0 ≡ s + i = omega arith in
      rw e' (ground (arith, e, kes_bitmap_test-eq-bit bm (s + i) v))
  is_run_free-true s i (suc left) le h (suc j) lt =
      let e : s + i + suc j ≡ s + (i + 1) + j = omega arith in
      rw e (is_run_free-true s (i + 1) left (omega arith) (ground arith) j (omega arith))

  is_run_free-false :
      (s i left : ℕ)
      → s + i + left ≤ bm.total_bits
      → is_run_free bm s i left ≡ false
      → (j : ℕ) × (j < left) × (bit bm.bytes (s + i + j) ≡ true)
  unfolding is_run_free
  is_run_free-false s i zero le h = cc
  is_run_free-false s i (suc left) le h =
      let e : u64 (s + i) ≡ s + i = omega (arith, v.small) in
      elim (Bool-cases (kes_bitmap_test bm (u64 (s + i)))) [
        | inl t ↦
            let e' : s + i + 0 ≡ s + i = omega arith in
            (0, omega arith, rw e' (ground (arith, e, kes_bitmap_test-eq-bit bm (s + i) v)))
        | inr f ↦
            let (j, lt, b) = is_run_free-false s (i + 1) left (omega arith) (ground arith) in
            let e' : s + i + suc j ≡ s + (i + 1) + j = omega arith in (suc j, omega arith, rw e' b)
      ]

  -- The inner loop decides whether the candidate is a free run.
  run_cases :
      (s : ℕ)
      → s + n ≤ bm.total_bits
      → ((is_run_free bm s 0 n ≡ true) × IsFreeRun bm s n)
        ⊎ ((is_run_free bm s 0 n ≡ false) × ¬ IsFreeRun bm s n)
  run_cases s le = elim (Bool-cases (is_run_free bm s 0 n)) [
    | inl t ↦ inl (
      t,
      record {
        inside = le;
        free = λ j lt.
            let e : s + 0 + j ≡ s + j = omega arith in
            rw e at (is_run_free-true s 0 n (omega arith) t j lt);
      },
    )
    | inr f ↦ inr (
      f,
      λ r.
          let (j, lt, b) = is_run_free-false s 0 n (omega arith) f in
          let e : s + 0 + j ≡ s + j = omega arith in
          let b' : bit bm.bytes (s + j) ≡ true = rw e at b in ground (arith, r.free j lt),
    )
  ]

  -- The outer loop finds the first free run among its candidates.
  abbrev Scanned : ℕ → ℕ → Option ℕ → Type 0
  Scanned start left r =
      ((r ≡ none) × ((t : ℕ) → start ≤ t → t < start + left → ¬ IsFreeRun bm t n))
      ⊎ ((s : ℕ) × (r ≡ some s)
          × (start ≤ s)
          × (s < start + left)
          × IsFreeRun bm s n
          × ((t : ℕ) → start ≤ t → t < s → ¬ IsFreeRun bm t n))

  scan-Scanned :
      (start left : ℕ)
      → start + left + n ≤ bm.total_bits + 1
      → Scanned start left (scan bm n start left)
  unfolding scan
  scan-Scanned start zero le = inl (refl, λ t h k. absurd (omega arith))
  scan-Scanned start (suc left) le = elim (run_cases start (omega arith)) [
    | inl (t, run) ↦
        inr (start, rw t refl, omega arith, omega arith, run, λ u h k. absurd (omega arith))
    | inr (f, not_run) ↦ elim (scan-Scanned (start + 1) left (omega arith)) [
      | inl (e, no_run) ↦ inl (
        rw (f, e) refl,
        λ u h k r. elim (Bool-cases (u == start)) [
          | inl same ↦ not_run (subst (λ x. IsFreeRun bm x n) (ground arith) r)
          | inr other ↦ no_run u (ground arith) (omega arith) r
        ],
      )
      | inr (s, e, lo, hi, run, first) ↦ inr (
        s,
        rw (f, e) refl,
        omega arith,
        omega arith,
        run,
        λ u h k r. elim (Bool-cases (u == start)) [
          | inl same ↦ not_run (subst (λ x. IsFreeRun bm x n) (ground arith) r)
          | inr other ↦ first u (ground arith) k r
        ],
      )
    ]
  ]

-- How far the search walks from the hint, round the end of the bitmap, until it tries block `t`.
pub distance : Bitmap → ℕ → ℕ → ℕ
distance bm hint t =
    let from = if leb bm.total_bits hint then 0 else hint in
    if leb from t then t - from else bm.total_bits + t - from

-- A free run, and no free run is nearer.
pub record IsFirstFit (bm : Bitmap) (n hint s : ℕ) : Type 0 where
  pub run : IsFreeRun bm s n
  pub nearest : (t : ℕ) → IsFreeRun bm t n → distance bm hint s ≤ distance bm hint t

-- The search hint does not matter to either.
module _ (bm : Bitmap) (h : ℕ) where
  abbrev other : Bitmap
  other = record bm { search_hint = h }

  pub IsFreeRun-search_hint : {s n : ℕ} → IsFreeRun bm s n → IsFreeRun other s n
  IsFreeRun-search_hint r = record { inside = r.inside; free = r.free }

  pub IsFirstFit-search_hint : {n hint s : ℕ} → IsFirstFit other n hint s → IsFirstFit bm n hint s
  unfolding distance
  IsFirstFit-search_hint fit = record {
    run = record { inside = fit.run.inside; free = fit.run.free };
    nearest = λ t r. fit.nearest t (IsFreeRun-search_hint r);
  }

-- What a search for `n` blocks from `hint` gives.
unfoldable pub Found : Bitmap → ℕ → ℕ → Bitmap × Result ℕ → Type 0
Found bm n hint r =
    ((s : ℕ) × (r ≡ (record bm { search_hint = s + n }, ok s)) × IsFirstFit bm n hint s)
    ⊎ ((r ≡ (bm, err nospace)) × ((t : ℕ) → ¬ IsFreeRun bm t n))

module _ (bm : Bitmap) (n hint : ℕ) (v : IsValid bm) (le : n ≤ bm.total_bits) where
  abbrev from : ℕ
  from = search_start bm hint

  abbrev last : ℕ
  last = bm.total_bits - n

  hinted-Scanned : Scanned bm n v from (last + 1 - from) (scan bm n from (last + 1 - from))
  hinted-Scanned = elim (Bool-cases (leb from (last + 1))) [
    | inl h ↦
        scan-Scanned bm n v from (last + 1 - from) (omega (arith, leb→le from (last + 1) h, le))
    | inr gt ↦
        let e : last + 1 - from ≡ 0 = ground arith in
        rw e (inl (unfold scan in refl, λ t h k. absurd (omega arith)))
  ]

  found_lem :
      (s : ℕ) → IsFreeRun bm s n → found_at n s bm ≡ (record bm { search_hint = s + n }, ok s)
  found_lem s r = let e : u64 (s + n) ≡ s + n = omega (arith, v.small, r.inside) in rw e refl

  search_wrapped-Found :
      ((t : ℕ) → from ≤ t → ¬ IsFreeRun bm t n) → Found bm n hint (search_wrapped n from last bm)
  unfolding Found
  search_wrapped-Found none_later = elim (Bool-cases (from == 0)) [
    | inl start ↦ inr (unfold search_wrapped in rw start refl, λ t r. none_later t (ground arith) r)
    | inr more ↦ elim (scan-Scanned bm n v 0 (min from (last + 1)) (omega (arith, le))) [
      | inl (e, no_run) ↦ inr (
        unfold search_wrapped in rw (more, e) refl,
        λ t r. elim (Bool-cases (leb from t)) [
          | inl later ↦ none_later t (leb→le from t later) r
          | inr before ↦ no_run t (omega arith) (ground (arith, r.inside)) r
        ],
      )
      | inr (s, e, lo, hi, run, first) ↦ inl (
        s,
        unfold search_wrapped in rw (more, e) (found_lem s run),
        record {
          run = run;
          nearest = λ t r.
              unfold distance in
              ground (
                arith,
                λ (h : from ≤ t). none_later t h r,
                λ (h : t < s). first t (omega arith) h r,
              );
        },
      )
    ]
  ]

  no_hinted :
      scan bm n from (last + 1 - from) ≡ none
      → search_from n from last bm ≡ search_wrapped n from last bm
  unfolding search_from
  no_hinted e = rw (e, search_from) refl

  search_from-Found : Found bm n hint (search_from n from last bm)
  unfolding Found
  search_from-Found = elim hinted-Scanned [
    | inl (e, no_run) ↦
        rw (no_hinted e)
          (search_wrapped-Found (λ t h r. no_run t h (omega (arith, r.inside, le)) r))
    | inr (s, e, lo, hi, run, first) ↦ inl (
      s,
      unfold search_from in rw (e, search_from) (found_lem s run),
      record {
        run = run;
        nearest = λ t r.
            unfold distance in
            ground (arith, run.inside, λ (h : from ≤ t). λ (k : t < s). first t h k r);
      },
    )
  ]

-- On a well-formed bitmap, a search for at least one block finds the free run of that length that is
-- nearest from the hint on, round the end, and moves only the search hint, to just behind the run; or
-- there is no free run of that length, it returns KES_ERROR_NOSPACE and changes nothing.
pub kes_bitmap_find_free-Found :
    (bm : Bitmap) (n hint : ℕ)
    → IsValid bm
    → 0 < n
    → Found bm n hint (kes_bitmap_find_free n hint bm)
kes_bitmap_find_free-Found bm n hint v pos = elim (Bool-cases (ltb bm.free_bits n)) [
  | inl few ↦
      unfold Found kes_bitmap_find_free in
      inr (
        rw (positive, few) refl,
        λ t r. absurd (omega (arith, ltb→lt _ _ few, free_run-le bm t n v r.free r.inside)),
      )
  | inr enough ↦
      let e : u64_sub bm.total_bits n ≡ bm.total_bits - n = ground (arith, v.small, v.counted) in
      unfold kes_bitmap_find_free in
      rw (positive, enough, e) (search_from-Found bm n hint v (ground (arith, v.counted)))
]
  where
    positive : (n == 0) ≡ false
    positive = ground arith
