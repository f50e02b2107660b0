-- ===== src/Storage/Extents/Allocation.antt =====
-- kes_extent_allocate on a file that holds a well-formed storage, through any handle, however stale.
use kanek_extents_storage.Common.{
  ℕ, ◌+◌, ◌^◌, ◌<◌, ◌≡◌, refl, sym, ap, ◌∙◌, subst, subst₂, ◌⊎◌, inl, inr, true, false, ◌==◌,
  if◌then◌else◌, List, [], length, arith, Result, nospace, Error, Call, ◌>>◌, ◌>>=◌, u64, return,
}
use kanek_extents_storage.Os.{Os, Event}
use kanek_extents_storage.Os.Files.{File}
use kanek_extents_storage.Os.Calls.{OsAt}
use kanek_extents_storage.Os.Outcomes.{Ends, returns, fails, Ends-and_then, Ends-mono}
use kanek_extents_storage.Bitmap.{Bitmap, kes_bitmap_set_range}
use kanek_extents_storage.Bitmap.Bits.{bit}
use kanek_extents_storage.Bitmap.Invariant.{Marks, search_hint-IsValid, free_run-le}
use kanek_extents_storage.Bitmap.Ranges.{between, kes_bitmap_set_range-Marks}
use kanek_extents_storage.Bitmap.Search.{
  IsFreeRun, IsFirstFit, Found, kes_bitmap_find_free-Found, IsFreeRun-search_hint,
  IsFirstFit-search_hint,
}
use kanek_extents_storage.Bitmap.Disk.{SameShape, kes_bitmap_checksum}
use kanek_extents_storage.Descriptor.{Descriptor}
use kanek_extents_storage.Storage.{Storage, World, Extent, Request, bitmap_offset, persist}
use kanek_extents_storage.Storage.Steps.{
  Coherent, OnDisk, SameLayout, Attached, Running, KeepsUser, Failed, SameShape-refl,
  KeepsUser-refl, Sound, attempt_io-Leads, reload-Leads, fresh, fresh-Coherent,
}
use kanek_extents_storage.Storage.Persist.{
  persisted, written, persist-Leads, written-OnDisk, written-KeepsUser,
}
use kanek_extents_storage.Storage.Extents.{
  allocate_extent_first_fit, count_allocation, allocate_locked, kes_extent_allocate,
}
use kanek_extents_storage.Storage.Extents.Allocate.{
  hinted, marked, extent_at, first_fit-eq, no_fit-eq, counted, new_extent, count-eq,
  counted-Coherent,
}

-- A successful allocation: a run that was free, the first fit from the hint, is marked on the disk,
-- and nothing else changes there but the descriptor's counts, checksum and next identifier.
pub record Allocated (crc : List ℕ → ℕ) (d : Descriptor) (bm : Bitmap) (f : File) (s : Storage)
    (request : Request) (w : World) (e : Extent) : Type 0 where
  pub first_fit : IsFirstFit bm request.block_count request.hint_block e.start_block
  pub block_count : e.block_count ≡ request.block_count
  pub flags : e.flags ≡ request.flags
  pub new_id : e.extent_id ≡ u64 (d.next_extent_id + 1)
  pub last_id : w.storage.desc.next_extent_id ≡ e.extent_id
  pub disk : OnDisk w.storage.desc w.storage.bitmap w.os.file
  pub checksum : w.storage.desc.bitmap_checksum ≡ crc w.storage.bitmap.bytes
  pub bits :
      (j : ℕ)
      → bit w.storage.bitmap.bytes j
        ≡ (if between e.start_block (e.start_block + e.block_count) j then true else bit bm.bytes j)
  pub same_layout : SameLayout w.storage.desc d
  pub readonly : w.storage.readonly ≡ s.readonly
  pub extents : w.storage.stats.allocated_extents ≡ u64 (s.stats.allocated_extents + 1)
  pub free : w.storage.desc.free_blocks + request.block_count ≡ d.free_blocks
  pub user_data : KeepsUser (bitmap_offset d) bm.total_bytes f w.os.file

-- How an allocation can fail: there is no free run, and the file is as it was; or a system call
-- failed.
unfoldable pub NotAllocated :
    Type 0 → Descriptor → Bitmap → File → Storage → Request → World → Error → Type 0
NotAllocated C d bm f s request w e =
    ((e ≡ nospace)
      × (w.os.file ≡ f)
      × SameShape w.storage.bitmap s.bitmap
      × ((t : ℕ) → ¬ IsFreeRun bm t request.block_count))
    ⊎ Failed C (bitmap_offset d) bm.total_bytes s f w e

module _ (crc : List ℕ → ℕ) (crc_lt : (bytes : List ℕ) → crc bytes < 2 ^ 32) (C : Type 0)
    (d : Descriptor) (bm : Bitmap) (f : File) (disk : OnDisk d bm f) (s : Storage)
    (att : Attached s bm) (request : Request) (pos : 0 < request.block_count) where
  abbrev Outcome : World × Result Extent → Type 0
  Outcome =
      Ends (λ w e. Allocated crc d bm f s request w e × (C → w.os.plan ≡ []))
        (NotAllocated C d bm f s request)

  start_Sound : Sound C (bitmap_offset d) bm.total_bytes s f s f
  start_Sound = record {
    shape = SameShape-refl s.bitmap;
    kept = KeepsUser-refl (bitmap_offset d) bm.total_bytes f;
  }

  -- After the run is marked: counting, writing out, and the result.
  rest : Extent → Call World Extent
  rest extent = do extent' ← count_allocation extent; persist crc; return extent'

  abbrev seen : Storage
  seen = fresh d bm s

  seen_Coherent : Coherent seen.desc seen.bitmap
  seen_Coherent = fresh-Coherent d bm s disk.coherent

  module _ (os : Os) (start : ℕ) (at : OsAt C f os)
      (fit : IsFirstFit bm request.block_count request.hint_block start) where
    abbrev after_mark : Storage
    after_mark = marked request seen os start

    abbrev after_count : Storage
    after_count = counted request seen os start

    seen_run : IsFreeRun seen.bitmap start request.block_count
    unfolding fresh
    seen_run = record { inside = fit.run.inside; free = fit.run.free }

    marks :
        Marks
          (between start (start + request.block_count))
          true
          (hinted request seen os start)
          (kes_bitmap_set_range start request.block_count (hinted request seen os start))
    unfolding fresh
    marks =
        kes_bitmap_set_range-Marks (hinted request seen os start) start request.block_count
          (search_hint-IsValid bm (start + request.block_count) disk.valid)
          (omega (arith, fit.run.inside)) fit.run.inside

    coherent : Coherent after_count.desc after_count.bitmap
    unfolding fresh
    coherent = counted-Coherent request seen os start seen_Coherent seen_run marks

    total : after_count.bitmap.total_bytes ≡ bm.total_bytes
    unfolding counted count_allocation marked fresh
    total = omega (arith, coherent.valid.enough, disk.valid.enough, marks.same_size)

    sound : Sound C (bitmap_offset d) bm.total_bytes s f after_count f
    unfolding counted count_allocation marked fresh
    sound = record {
      shape = record {
        total_bits = marks.same_size ∙ sym att.bits;
        total_bytes = total ∙ sym att.bytes;
        allocated = coherent.valid.allocated ∙ total ∙ sym att.allocated;
      };
      kept = KeepsUser-refl (bitmap_offset d) bm.total_bytes f;
    }

    place : bitmap_offset after_count.desc ≡ bitmap_offset d
    unfolding counted count_allocation marked fresh
    place = refl

    size : length after_count.bitmap.bytes ≡ bm.total_bytes
    size = coherent.valid.allocated ∙ total

    -- What the handle and the file are after the allocation.
    allocated :
        (plan : List Event) (p : ℕ)
        → Allocated crc d bm f s request
            (record {
              storage = persisted crc after_count;
              os = record {
                file = written crc (bitmap_offset d) after_count f;
                pos = p;
                plan = plan;
              };
            })
            (new_extent request seen os start)
    unfolding counted count_allocation marked fresh new_extent persisted kes_bitmap_checksum
    allocated plan p = record {
      first_fit = fit;
      block_count = refl;
      flags = refl;
      new_id = refl;
      last_id = refl;
      disk =
          written-OnDisk C (bitmap_offset d) bm.total_bytes s f crc after_count f crc_lt coherent
            place total;
      checksum = refl;
      bits = marks.bits;
      same_layout = record {
        block_size = refl;
        total_blocks = refl;
        bitmap_start_block = refl;
        user_start_block = refl;
        user_blocks = refl;
      };
      readonly = refl;
      extents = refl;
      free = omega (
        arith,
        free_run-le bm start request.block_count disk.valid fit.run.free fit.run.inside,
        disk.free_counted,
        disk.fits.free_blocks,
      );
      user_data =
          written-KeepsUser C (bitmap_offset d) bm.total_bytes s f crc after_count f sound place
            size disk.offset_small;
    }

    rest_marked :
        Outcome (rest (extent_at request seen os start) (record { storage = after_mark; os = os }))
    unfolding rest NotAllocated
    rest_marked = rw (count-eq request seen os start) (
        Ends-and_then
          (Ends-mono
            (persist-Leads C (bitmap_offset d) bm.total_bytes s f crc after_count f
              (record { storage = after_count; os = os }) sound place size total disk.offset_small
              (record { storage = refl; os = at }))
            (λ w e q. inr q))
          λ w _ r. returns (
            subst₂
                (λ t g.
                  Allocated crc d bm f s request
                    (record {
                      storage = t;
                      os = record { file = g; pos = w.os.pos; plan = w.os.plan };
                    })
                    (new_extent request seen os start))
                (sym r.storage) (sym r.os.file) (allocated w.os.plan w.os.pos),
            r.os.calm,
          ))

  -- First fit on the refreshed handle, and the rest.
  place_and_rest : Call World Extent
  place_and_rest = do extent ← allocate_extent_first_fit request; rest extent

  place_and_rest-Ends :
      (os : Os) → OsAt C f os → Outcome (place_and_rest (record { storage = seen; os = os }))
  unfolding place_and_rest Found fresh NotAllocated
  place_and_rest-Ends os at =
      elim (kes_bitmap_find_free-Found seen.bitmap request.block_count request.hint_block
        seen_Coherent.valid pos) [
          | inl (start, e, fit) ↦
              let fit' = IsFirstFit-search_hint bm s.bitmap.search_hint fit in
              rw (first_fit-eq request seen os start e (marks os start at fit').succeeds)
                (rest_marked os start at fit')
          | inr (e, nothing) ↦ rw (no_fit-eq request seen os e) (
              fails (
                inl (
                  refl,
                  at.file,
                  record {
                    total_bits = sym att.bits;
                    total_bytes = sym att.bytes;
                    allocated = disk.valid.allocated ∙ sym att.allocated;
                  },
                  λ t r. nothing t (IsFreeRun-search_hint bm s.bitmap.search_hint r),
                )))
        ]

  allocate_locked-Ends : (w : World) → Running C s f w → Outcome (allocate_locked crc request w)
  unfolding allocate_locked place_and_rest rest NotAllocated
  allocate_locked-Ends w r =
      Ends-and_then
        (Ends-mono (attempt_io-Leads C (bitmap_offset d) bm.total_bytes s f s f w start_Sound r)
          (λ w' e q. inr q))
        λ w1 _ r1.
          Ends-and_then
            (Ends-mono
              (reload-Leads C (bitmap_offset d) bm.total_bytes s f d bm f disk s w1 start_Sound att
                r1)
              (λ w' e q. inr q))
            λ w2 _ r2.
              subst (λ t. Outcome (place_and_rest (record { storage = t; os = w2.os })))
                (sym r2.storage) (place_and_rest-Ends w2.os r2.os)

-- On a file that holds a well-formed storage, an allocation of at least one block through any
-- writable handle of the right size, whatever that handle last saw, ends in one of three ways. It
-- succeeds as `Allocated` says; or there is no free run of that length and the file is as it was; or
-- it returns an I/O error, which no call does unless a system call failed, and no user byte has
-- changed.
pub kes_extent_allocate-Ends :
    (crc : List ℕ → ℕ) (crc_lt : (bytes : List ℕ) → crc bytes < 2 ^ 32) (C : Type 0)
    (d : Descriptor) (bm : Bitmap) (f : File) (s : Storage) (request : Request) (w : World)
    → OnDisk d bm f
    → Attached s bm
    → 0 < request.block_count
    → s.readonly ≡ false
    → Running C s f w
    → Ends
        (λ w' e. Allocated crc d bm f s request w' e × (C → w'.os.plan ≡ []))
        (NotAllocated C d bm f s request)
        (kes_extent_allocate crc request w)
unfolding kes_extent_allocate allocate_locked
kes_extent_allocate-Ends crc crc_lt C d bm f s request w disk att pos writable r =
    let writable' : w.storage.readonly ≡ false =
      ap (λ (t : Storage). t.readonly) r.storage ∙ writable in
    let some_block : (request.block_count == 0) ≡ false = ground arith in
    simp (writable', some_block)
      (allocate_locked-Ends crc crc_lt C d bm f disk s att request pos w r)
