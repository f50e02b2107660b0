-- ===== src/Storage/Extents/Freeing.antt =====
-- kes_extent_free on a file that holds a well-formed storage, through any handle, however stale.
use kanek_extents_storage.Common.{
  u64_sub, ℕ, ◌+◌, ◌^◌, ◌<◌, ◌≡◌, refl, sym, ap, ◌∙◌, subst, subst₂, ◌⊎◌, inl, inr, true, false,
  if◌then◌else◌, List, [], length, arith, Result, notfound, Error, Call, ◌>>◌,
}
use kanek_extents_storage.Os.{Os, Event}
use kanek_extents_storage.Os.Files.{File}
use kanek_extents_storage.Os.Calls.{OsAt}
use kanek_extents_storage.Os.Outcomes.{Ends, fails, Ends-and_then, Ends-mono, Ends-map}
use kanek_extents_storage.Bitmap.{Bitmap, kes_bitmap_clear_range}
use kanek_extents_storage.Bitmap.Bits.{bit}
use kanek_extents_storage.Bitmap.Invariant.{Marks, search_hint-IsValid}
use kanek_extents_storage.Bitmap.Counting.{Marks-free_given}
use kanek_extents_storage.Bitmap.Ranges.{between, kes_bitmap_clear_range-Marks}
use kanek_extents_storage.Bitmap.Disk.{SameShape, kes_bitmap_checksum}
use kanek_extents_storage.Descriptor.{Descriptor}
use kanek_extents_storage.Storage.{Storage, World, Extent, bitmap_offset, persist}
use kanek_extents_storage.Storage.Steps.{
  Coherent, OnDisk, SameLayout, Attached, Running, KeepsUser, Failed, SameShape-refl,
  KeepsUser-refl, Sound, attempt_io-Leads, reload-Leads, fresh, fresh-Coherent, fresh-SameShape,
  Coherent-small,
}
use kanek_extents_storage.Storage.Persist.{
  persisted, written, persist-Leads, written-OnDisk, written-KeepsUser,
}
use kanek_extents_storage.Storage.Extents.{
  in_bitmap, all_allocated, check_allocated, count_free, free_locked, kes_extent_free,
}
use kanek_extents_storage.Storage.Extents.Release.{
  IsUsedRun, all_allocated_cases, cleared, uncounted, count_free-eq, uncounted-Coherent,
}

-- A successful free: every block of the extent was used and is now free on the disk, and nothing
-- else changes there but the descriptor's counts and checksum.
pub record Freed (crc : List ℕ → ℕ) (d : Descriptor) (bm : Bitmap) (f : File) (s : Storage)
    (extent : Extent) (w : World) : Type 0 where
  pub was_used : IsUsedRun bm extent.start_block extent.block_count
  pub disk : OnDisk w.storage.desc w.storage.bitmap w.os.file
  pub checksum : w.storage.desc.bitmap_checksum ≡ crc w.storage.bitmap.bytes
  pub bits :
      (j : ℕ)
      → bit w.storage.bitmap.bytes j ≡ (
          if between extent.start_block (extent.start_block + extent.block_count) j
          then false
          else bit bm.bytes j)
  pub same_layout : SameLayout w.storage.desc d
  pub readonly : w.storage.readonly ≡ s.readonly
  pub extents : w.storage.stats.allocated_extents ≡ u64_sub s.stats.allocated_extents 1
  pub free : w.storage.desc.free_blocks ≡ d.free_blocks + extent.block_count
  pub user_data : KeepsUser (bitmap_offset d) bm.total_bytes f w.os.file

-- How a free can fail: a block of the extent is free already, and the file is as it was; or a system
-- call failed.
pub NotFreed : Type 0 → Descriptor → Bitmap → File → Storage → Extent → World → Error → Type 0
NotFreed C d bm f s extent w e =
    ((e ≡ notfound)
      × (w.os.file ≡ f)
      × SameShape w.storage.bitmap s.bitmap
      × ((i : ℕ) × (i < extent.block_count) × (bit bm.bytes (extent.start_block + i) ≡ false)))
    ⊎ Failed C (bitmap_offset d) bm.total_bytes s f w e

module _ (crc : List ℕ → ℕ) (crc_lt : (bytes : List ℕ) → crc bytes < 2 ^ 32) (C : Type 0)
    (d : Descriptor) (bm : Bitmap) (f : File) (disk : OnDisk d bm f) (s : Storage)
    (att : Attached s bm) (extent : Extent) (pos : 0 < extent.block_count)
    (block_count_lt : extent.block_count < 2 ^ 32)
    (start_block_lt : extent.start_block < 2 ^ 64) where
  abbrev Outcome : World × Result (Unit {0}) → Type 0
  Outcome =
      Ends (λ w e. Freed crc d bm f s extent w × (C → w.os.plan ≡ [])) (NotFreed C d bm f s extent)

  start_Sound : Sound C (bitmap_offset d) bm.total_bytes s f s f
  start_Sound = record {
    shape = SameShape-refl s.bitmap;
    kept = KeepsUser-refl (bitmap_offset d) bm.total_bytes f;
  }

  abbrev seen : Storage
  seen = fresh d bm s

  abbrev range : Bitmap → Bitmap × Result (Unit {0})
  range = kes_bitmap_clear_range extent.start_block extent.block_count

  -- After the blocks are cleared: counting and writing out.
  rest : Call World (Unit {0})
  rest = do count_free extent; persist crc

  module _ (os : Os) (at : OsAt C f os)
      (run : IsUsedRun bm extent.start_block extent.block_count) where
    abbrev after_count : Storage
    after_count = uncounted extent seen os

    seen_run : IsUsedRun seen.bitmap extent.start_block extent.block_count
    unfolding fresh
    seen_run = record { used = run.used; inside = run.inside }

    marks :
        Marks
          (between extent.start_block (extent.start_block + extent.block_count))
          false
          seen.bitmap
          (range seen.bitmap)
    unfolding fresh
    marks =
        kes_bitmap_clear_range-Marks seen.bitmap extent.start_block extent.block_count
          (search_hint-IsValid bm s.bitmap.search_hint disk.valid) (omega (arith, run.inside pos))
          (run.inside pos)

    coherent : Coherent after_count.desc after_count.bitmap
    unfolding fresh
    coherent =
        uncounted-Coherent extent seen os (fresh-Coherent d bm s disk.coherent) seen_run
          (run.inside pos) marks

    total : after_count.bitmap.total_bytes ≡ bm.total_bytes
    unfolding uncounted count_free cleared fresh
    total = omega (arith, coherent.valid.enough, disk.valid.enough, marks.same_size)

    sound : Sound C (bitmap_offset d) bm.total_bytes s f after_count f
    unfolding uncounted count_free cleared fresh
    sound = record {
      shape = record {
        total_bits = marks.same_size ∙ sym att.bits;
        total_bytes = total ∙ sym att.bytes;
        allocated = coherent.valid.allocated ∙ total ∙ sym att.allocated;
      };
      kept = KeepsUser-refl (bitmap_offset d) bm.total_bytes f;
    }

    place : bitmap_offset after_count.desc ≡ bitmap_offset d
    unfolding uncounted count_free cleared fresh
    place = refl

    size : length after_count.bitmap.bytes ≡ bm.total_bytes
    size = coherent.valid.allocated ∙ total

    -- What the handle and the file are after the free.
    freed :
        (plan : List Event) (p : ℕ)
        → Freed crc d bm f s extent (record {
          storage = persisted crc after_count;
          os = record { file = written crc (bitmap_offset d) after_count f; pos = p; plan = plan };
        })
    unfolding uncounted count_free cleared fresh persisted kes_bitmap_checksum
    freed plan p = record {
      was_used = run;
      disk =
          written-OnDisk C (bitmap_offset d) bm.total_bytes s f crc after_count f crc_lt coherent
            place total;
      checksum = refl;
      bits = marks.bits;
      same_layout = record {
        block_size = refl;
        total_blocks = refl;
        bitmap_start_block = refl;
        user_start_block = refl;
        user_blocks = refl;
      };
      readonly = refl;
      extents = refl;
      free =
          coherent.free_counted
          ∙ omega (
            arith,
            Marks-free_given seen.bitmap (range seen.bitmap) extent.start_block extent.block_count
                (search_hint-IsValid bm s.bitmap.search_hint disk.valid) (run.inside pos) marks
                run.used,
            disk.free_counted,
          );
      user_data =
          written-KeepsUser C (bitmap_offset d) bm.total_bytes s f crc after_count f sound place
            size disk.offset_small;
    }

    after_cleared : Outcome (rest (record { storage = cleared extent seen os; os = os }))
    unfolding rest NotFreed
    after_cleared = rw (count_free-eq extent seen os) (
        Ends-map
          (persist-Leads C (bitmap_offset d) bm.total_bytes s f crc after_count f
            (record { storage = after_count; os = os }) sound place size total disk.offset_small
            (record { storage = refl; os = at }))
          (λ w _ r. (
            subst₂
                (λ t g. Freed crc d bm f s extent (record {
                  storage = t;
                  os = record { file = g; pos = w.os.pos; plan = w.os.plan };
                }))
                (sym r.storage) (sym r.os.file) (freed w.os.plan w.os.pos),
            r.os.calm,
          ))
          (λ w e q. inr q))

  -- The check passes on a run of used blocks, and on no other, wherever the extent lies.
  check_cases :
      ((all_allocated seen.bitmap extent.start_block 0 extent.block_count ≡ true)
        × IsUsedRun bm extent.start_block extent.block_count)
      ⊎ ((all_allocated seen.bitmap extent.start_block 0 extent.block_count ≡ false)
          × ((i : ℕ) × (i < extent.block_count) × (bit bm.bytes (extent.start_block + i) ≡ false)))
  unfolding fresh
  check_cases =
      elim (all_allocated_cases seen.bitmap (search_hint-IsValid bm s.bitmap.search_hint disk.valid)
        extent.start_block extent.block_count pos start_block_lt block_count_lt
        (Coherent-small disk.coherent)) [
          | inl (t, run) ↦ inl (t, record { used = run.used; inside = run.inside })
          | inr r ↦ inr r
        ]

  -- What follows the refresh of the handle.
  check_and_rest : Call World (Unit {0})
  check_and_rest = do check_allocated extent; in_bitmap range; rest

  check_and_rest-Ends :
      (os : Os) → OsAt C f os → Outcome (check_and_rest (record { storage = seen; os = os }))
  unfolding check_and_rest check_allocated cleared NotFreed
  check_and_rest-Ends os at = elim check_cases [
    | inl (t, run) ↦ rw (t, (marks os at run).succeeds) (after_cleared os at run)
    | inr (e, nothing) ↦
        rw e (fails (inl (refl, at.file, fresh-SameShape d bm s disk.coherent att, nothing)))
  ]

  free_locked-Ends : (w : World) → Running C s f w → Outcome (free_locked crc extent w)
  unfolding free_locked check_and_rest rest NotFreed
  free_locked-Ends w r =
      Ends-and_then
        (Ends-mono (attempt_io-Leads C (bitmap_offset d) bm.total_bytes s f s f w start_Sound r)
          (λ w' e q. inr q))
        λ w1 _ r1.
          Ends-and_then
            (Ends-mono
              (reload-Leads C (bitmap_offset d) bm.total_bytes s f d bm f disk s w1 start_Sound att
                r1)
              (λ w' e q. inr q))
            λ w2 _ r2.
              subst (λ t. Outcome (check_and_rest (record { storage = t; os = w2.os })))
                (sym r2.storage) (check_and_rest-Ends w2.os r2.os)

-- On a file that holds a well-formed storage, a free of at least one block through any writable
-- handle of the right size, whatever that handle last saw, ends in one of three ways. It succeeds as
-- `Freed` says; or some block of the extent was not in use, it returns KES_ERROR_NOTFOUND and the
-- file is as it was; or it returns an I/O error, which no call does unless a system call failed, and
-- no user byte has changed.
pub kes_extent_free-Ends :
    (crc : List ℕ → ℕ) (crc_lt : (bytes : List ℕ) → crc bytes < 2 ^ 32) (C : Type 0)
    (d : Descriptor) (bm : Bitmap) (f : File) (s : Storage) (extent : Extent) (w : World)
    → OnDisk d bm f
    → Attached s bm
    → 0 < extent.block_count
    → extent.block_count < 2 ^ 32
    → extent.start_block < 2 ^ 64
    → s.readonly ≡ false
    → Running C s f w
    → Ends
        (λ w' e. Freed crc d bm f s extent w' × (C → w'.os.plan ≡ []))
        (NotFreed C d bm f s extent)
        (kes_extent_free crc extent w)
unfolding kes_extent_free free_locked
kes_extent_free-Ends crc crc_lt C d bm f s extent w disk att pos lt lt' writable r =
    let writable' : w.storage.readonly ≡ false =
      ap (λ (t : Storage). t.readonly) r.storage ∙ writable in
    simp writable' (free_locked-Ends crc crc_lt C d bm f disk s att extent pos lt lt' w r)
