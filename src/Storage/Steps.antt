-- ===== src/Storage/Steps.antt =====
-- The steps that the operations share, when the file holds a well-formed storage: each does its
-- work, or an I/O error is returned because a system call failed.
mod State
unfoldable pub use State.{fresh}
pub use State.*
use kanek_extents_storage.Common.{
  ℕ, ◌+◌, ◌*◌, ◌^◌, ◌≤◌, ◌<◌, ◌≡◌, refl, sym, ap, ap₂, subst, ◌∙◌, ◌⊎◌, inl, inr, length, arith,
  Result, io, Error, drop_all, append-nil,
}
use kanek_extents_storage.Os.{Os, lseek, read_into}
use kanek_extents_storage.Os.Files.{File, window}
use kanek_extents_storage.Os.Calls.{OsAt, attempt_cases, lseek_cases, read_into_cases}
use kanek_extents_storage.Os.Outcomes.{Ends, returns, fails, Ends-and_then}
use kanek_extents_storage.Bitmap.{Bitmap}
use kanek_extents_storage.Bitmap.Invariant.{IsValid, search_hint-IsValid}
use kanek_extents_storage.Bitmap.Disk.{SameShape, kes_bitmap_load-Ends}
use kanek_extents_storage.Bitmap.Stored.{stored-eq}
use kanek_extents_storage.Descriptor.{Descriptor, Fits, encode, kes_magic_number, kes_version_major}
use kanek_extents_storage.Descriptor.Codec.{decode-encode, length-encode}
use kanek_extents_storage.Storage.{
  Storage, World, attempt_io, load_storage_descriptor, bitmap_offset, load_bitmap, reload,
}

-- A call on the handle's bitmap as a call on the handle.
abbrev pub lift : Storage → (Bitmap × Os) × Result (Unit {0}) → World × Result (Unit {0})
lift s (t, r) = (record { storage = record s { bitmap = t.0 }; os = t.1 }, r)

pub Ends-lift :
    {P : Bitmap × Os → Unit {0} → Type 0} {Q : Bitmap × Os → Error → Type 0}
    {P' : World → Unit {0} → Type 0} {Q' : World → Error → Type 0}
    {r : (Bitmap × Os) × Result (Unit {0})} (s : Storage)
    → Ends P Q r
    → ((t : Bitmap × Os) (a : Unit {0})
        → P t a
        → P' (record { storage = record s { bitmap = t.0 }; os = t.1 }) a)
    → ((t : Bitmap × Os) (e : Error)
        → Q t e
        → Q' (record { storage = record s { bitmap = t.0 }; os = t.1 }) e)
    → Ends P' Q' (lift s r)
Ends-lift s (returns {s = t} {a} p) f g = returns (f t a p)
Ends-lift s (fails {s = t} {e} q) f g = fails (g t e q)

module _ (C : Type 0) (offset n : ℕ) (s0 : Storage) (f0 : File) where
  -- The work of a step is `s'` and `f'`; a failure counts from the start of the operation.
  abbrev pub Leads : Storage → File → World × Result (Unit {0}) → Type 0
  Leads s' f' = Ends (λ w _. Running C s' f' w) (Failed C offset n s0 f0)

  pub failure :
      (f : File) (w : World)
      → KeepsUser offset n f0 f
      → SameShape w.storage.bitmap s0.bitmap
      → ¬ C
      → OsAt C f w.os
      → Failed C offset n s0 f0 w io
  failure f w kept same may at = record {
    may = may;
    code = refl;
    shape = same;
    kept = rw at.file kept;
  }

  -- The handle still has the bitmap size of the start, and no user byte has changed since.
  pub record Sound (s : Storage) (f : File) : Type 0 where
    pub shape : SameShape s.bitmap s0.bitmap
    pub kept : KeepsUser offset n f0 f

  pub Running-shape :
      {s : Storage} {f : File} {w : World}
      → Sound s f
      → Running C s f w
      → SameShape w.storage.bitmap s0.bitmap
  Running-shape so r = rw r.storage so.shape

  pub attempt_io-Leads :
      (s : Storage) (f : File) (w : World) → Sound s f → Running C s f w → Leads s f (attempt_io w)
  unfolding attempt_io
  attempt_io-Leads s f w so r =
      let (passed, at) = attempt_cases C f w.os r.os in
      elim passed [
        | inl e ↦ rw e (returns (record { storage = r.storage; os = at }))
        | inr (e, may) ↦ rw e (fails (failure f _ so.kept (Running-shape so r) may at))
      ]

  module _ (d : Descriptor) (bm : Bitmap) (f : File) (disk : OnDisk d bm f) where
    head_in_file : 112 ≤ f.size
    head_in_file = omega (arith, Coherent-head disk.coherent, disk.in_file)

    pub load_storage_descriptor-Leads :
        (s : Storage) (w : World)
        → Sound s f
        → Running C s f w
        → Leads (record s { desc = d }) f (load_storage_descriptor w)
    unfolding load_storage_descriptor
    load_storage_descriptor-Leads s w so r =
        let old = encode w.storage.desc in
        let os1 = (lseek 0 w.os).0 in
        let (sought, at1) = lseek_cases C f w.os 0 r.os (omega arith) in
        elim sought [
          | inr (e, may) ↦ rw e (fails (failure f _ so.kept (Running-shape so r) may at1))
          | inl (e, p) ↦
              let (came, at2) =
                read_into_cases C f os1 112 old at1 (rw p (omega (arith, head_in_file))) in
              elim came [
                | inr (e', may) ↦
                    rw (e, e') (fails (failure f _ so.kept (Running-shape so r) may at2))
                | inl (e', m) ↦
                    let m' : (read_into 112 old os1).1 ≡ encode d =
                      m
                      ∙ rw (p, drop_all 112 old (omega (arith, length-encode w.storage.desc)))
                          (append-nil _ ∙ disk.desc) in
                    rw (e, e', m', decode-encode d disk.fits)
                      (simp (disk.magic, disk.version)
                        (returns (record {
                          storage = ap (λ (t : Storage). record t { desc = d }) r.storage;
                          os = at2;
                        })))
              ]
        ]

    pub load_bitmap_at :
        (s : Storage) (os : Os)
        → Sound s f
        → Attached s bm
        → s.desc ≡ d
        → OsAt C f os
        → Leads (fresh d bm s) f (load_bitmap (record { storage = s; os = os }))
    unfolding fresh
    load_bitmap_at s os so att e at =
        Ends-lift s
          (kes_bitmap_load-Ends C f s.bitmap os (bitmap_offset s.desc) at (rw e disk.offset_small)
            (att.allocated ∙ sym att.bytes) (rw (e, att.bytes) disk.in_file))
          (λ t _ p. record {
            storage =
                ap₂ (λ (c : Descriptor) (b : Bitmap). record s { desc = c; bitmap = b }) e
                  (p.0
                    ∙ stored-eq s.bitmap bm f (bitmap_offset s.desc) disk.valid att.bits att.bytes
                        (rw e disk.bytes));
            os = p.1;
          })
          (λ t er q. record {
            may = q.0;
            code = q.1;
            shape = SameShape-trans q.2 so.shape;
            kept = rw q.3.file so.kept;
          })

    -- After a reload the handle holds what is in the file.
    pub reload-Leads :
        (s : Storage) (w : World)
        → Sound s f
        → Attached s bm
        → Running C s f w
        → Leads (fresh d bm s) f (reload w)
    unfolding reload fresh
    reload-Leads s w so att r = Ends-and_then (load_storage_descriptor-Leads s w so r) λ w' _ r'.
        subst (λ t. Leads (fresh d bm s) f (load_bitmap (record { storage = t; os = w'.os })))
          (sym r'.storage)
          (load_bitmap_at (record s { desc = d }) w'.os
            (record { shape = so.shape; kept = so.kept })
            (record { bits = att.bits; bytes = att.bytes; allocated = att.allocated }) refl r'.os)
