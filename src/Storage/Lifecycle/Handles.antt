-- ===== src/Storage/Lifecycle/Handles.antt =====
-- The steps that kes_storage_create and kes_storage_open share: what may fail before the handle is
-- there, its bitmap, and giving it out.
use kanek_extents_storage.Common.{
  ◌+◌, ◌^◌, ◌<◌, ◌≡◌, refl, inl, inr, false, ◌==◌, arith, Result, ok, err, nomem, Error, Call,
}
use kanek_extents_storage.Os.{Os, attempt}
use kanek_extents_storage.Os.Files.{File}
use kanek_extents_storage.Os.Calls.{OsAt, attempt_cases}
use kanek_extents_storage.Os.Outcomes.{Ends, returns, fails}
use kanek_extents_storage.Bitmap.{kes_bitmap_create}
use kanek_extents_storage.Bitmap.Creation.{new_bitmap, kes_bitmap_create-eq}
use kanek_extents_storage.Storage.{Storage, World}
use kanek_extents_storage.Storage.Steps.{Running}
use kanek_extents_storage.Storage.Lifecycle.{demand, as_handle, create_bitmap}

-- A call that may only fail with one code, and then because something was bound to fail.
pub demand-Ends :
    (C : Type 0) (f : File) (e : Error) (os : Os)
    → OsAt C f os
    → Ends (λ os' _. OsAt C f os') (λ os' e'. (¬ C) × (e' ≡ e) × (os'.file ≡ f)) (demand e os)
demand-Ends C f e os at =
    let (passed, at') = attempt_cases C f os at in
    elim passed [ inl t ↦ rw t (returns at') | inr (t, may) ↦ rw t (fails (may, refl, at'.file)) ]

-- Both parts of the bitmap are allocated, or the call fails with KES_ERROR_NOMEM.
pub create_bitmap-Ends :
    (C : Type 0) (f : File) (s : Storage) (os : Os)
    → OsAt C f os
    → 0 < s.desc.user_blocks
    → s.desc.user_blocks + 8 < 2 ^ 64
    → Ends
        (λ w _. Running C (record s { bitmap = new_bitmap s.desc.user_blocks }) f w)
        (λ w e. (¬ C) × (e ≡ nomem) × (w.os.file ≡ f))
        (create_bitmap (record { storage = s; os = os }))
unfolding create_bitmap
create_bitmap-Ends C f s os at pos small =
    let (first, at1) = attempt_cases C f os at in
    let os1 = (attempt os).0 in
    let (second, at2) = attempt_cases C f os1 at1 in
    let zero_blocks : (s.desc.user_blocks == 0) ≡ false = ground arith in
    elim first [
      | inl t ↦ elim second [
        | inl t' ↦
            rw (t, t', kes_bitmap_create-eq s.desc.user_blocks pos small)
              (returns (record { storage = refl; os = at2 }))
        | inr (t', may) ↦
            rw (t, t') (unfold kes_bitmap_create in rw zero_blocks (fails (may, refl, at2.file)))
      ]
      | inr (t, may) ↦
          rw t (unfold kes_bitmap_create in rw zero_blocks (fails (may, refl, at2.file)))
    ]

-- The steps on a new handle, as a call that gives the handle out.
handle_out :
    {P : World → Unit {0} → Type 0} {Q : World → Error → Type 0} {P' : Os → Storage → Type 0}
    {Q' : Os → Error → Type 0} (r : World × Result (Unit {0}))
    → Ends P Q r
    → ((w : World) (a : Unit {0}) → P w a → P' w.os w.storage)
    → ((w : World) (e : Error) → Q w e → Q' w.os e)
    → Ends P' Q'
        (r.0.os, (elim r.1 as (λ x. Result Storage) [ ok _ ↦ ok r.0.storage | err e ↦ err e ]))
handle_out (w, ok a) (returns p) f g = returns (f w a p)
handle_out (w, err e) (fails q) f g = fails (g w e q)

pub as_handle-Ends :
    {P : World → Unit {0} → Type 0} {Q : World → Error → Type 0} {P' : Os → Storage → Type 0}
    {Q' : Os → Error → Type 0} (s : Storage) (m : Call World (Unit {0})) (os : Os)
    → Ends P Q (m (record { storage = s; os = os }))
    → ((w : World) (a : Unit {0}) → P w a → P' w.os w.storage)
    → ((w : World) (e : Error) → Q w e → Q' w.os e)
    → Ends P' Q' (as_handle s m os)
as_handle-Ends s m os h f g = handle_out (m (record { storage = s; os = os })) h f g
