-- ===== src/Storage/Extents/Allocate.antt =====
-- What first fit and the counts make of a handle in kes_extent_allocate.
use kanek_extents_storage.Common.{
  ℕ, ◌+◌, ◌≡◌, refl, ◌∙◌, true, arith, ok, err, nospace, success, u64,
}
use kanek_extents_storage.Os.{Os}
use kanek_extents_storage.Bitmap.{Bitmap, kes_bitmap_find_free, kes_bitmap_set_range}
use kanek_extents_storage.Bitmap.Invariant.{Marks, search_hint-IsValid}
use kanek_extents_storage.Bitmap.Counting.{Marks-free_taken}
use kanek_extents_storage.Bitmap.Ranges.{between}
use kanek_extents_storage.Bitmap.Search.{IsFreeRun}
use kanek_extents_storage.Storage.{Storage, Extent, Request}
use kanek_extents_storage.Storage.Steps.{Coherent}
use kanek_extents_storage.Storage.Extents.{allocate_extent_first_fit, count_allocation}

pub no_fit-eq :
    (request : Request) (s : Storage) (os : Os)
    → kes_bitmap_find_free request.block_count request.hint_block s.bitmap ≡ (s.bitmap, err nospace)
    → allocate_extent_first_fit request (record { storage = s; os = os })
      ≡ (record { storage = s; os = os }, err nospace)
unfolding allocate_extent_first_fit
no_fit-eq request s os e = rw e refl

-- The handle after first fit has marked the run from `start` on.
module _ (request : Request) (s : Storage) (os : Os) (start : ℕ) where
  abbrev pub hinted : Bitmap
  hinted = record s.bitmap { search_hint = start + request.block_count }

  unfoldable pub marked : Storage
  marked = record s { bitmap = (kes_bitmap_set_range start request.block_count hinted).0 }

  abbrev pub extent_at : Extent
  extent_at = record {
    start_block = start;
    block_count = request.block_count;
    flags = request.flags;
    extent_id = 0;
  }

  pub first_fit-eq :
      kes_bitmap_find_free request.block_count request.hint_block s.bitmap ≡ (hinted, ok start)
      → (kes_bitmap_set_range start request.block_count hinted).1 ≡ success
      → allocate_extent_first_fit request (record { storage = s; os = os })
        ≡ (record { storage = marked; os = os }, ok extent_at)
  unfolding allocate_extent_first_fit marked
  first_fit-eq found set = rw (found, set) refl

  unfoldable pub counted : Storage
  counted = (count_allocation extent_at (record { storage = marked; os = os })).0.storage

  unfoldable pub new_extent : Extent
  new_extent = record extent_at { extent_id = u64 (s.desc.next_extent_id + 1) }

  pub count-eq :
      count_allocation extent_at (record { storage = marked; os = os })
      ≡ (record { storage = counted; os = os }, ok new_extent)
  unfolding counted new_extent count_allocation marked
  count-eq = refl

  -- The handle after the allocation belongs together again.
  pub counted-Coherent :
      Coherent s.desc s.bitmap
      → IsFreeRun s.bitmap start request.block_count
      → Marks
          (between start (start + request.block_count))
          true
          hinted
          (kes_bitmap_set_range start request.block_count hinted)
      → Coherent counted.desc counted.bitmap
  unfolding counted count_allocation marked
  counted-Coherent c run m =
      let less =
        Marks-free_taken hinted (kes_bitmap_set_range start request.block_count hinted) start
          request.block_count (search_hint-IsValid s.bitmap (start + request.block_count) c.valid)
          run.inside m run.free in
      record {
        fits = record {
          magic = c.fits.magic;
          version_major = c.fits.version_major;
          version_minor = c.fits.version_minor;
          block_size = c.fits.block_size;
          padding = c.fits.padding;
          total_blocks = c.fits.total_blocks;
          bitmap_start_block = c.fits.bitmap_start_block;
          bitmap_blocks = c.fits.bitmap_blocks;
          user_start_block = c.fits.user_start_block;
          user_blocks = c.fits.user_blocks;
          free_blocks = omega arith;
          used_blocks = omega arith;
          next_extent_id = omega arith;
          bitmap_checksum = c.fits.bitmap_checksum;
          reserved = c.fits.reserved;
        };
        magic = c.magic;
        version = c.version;
        valid = m.valid;
        sized = m.same_size ∙ c.sized;
        offset_small = c.offset_small;
        user_start = c.user_start;
        user_end = c.user_end;
        free_counted = omega (arith, less, c.free_counted, c.fits.free_blocks);
        used_counted = omega (arith, less, c.free_counted, c.used_counted, c.fits.user_blocks);
      }
