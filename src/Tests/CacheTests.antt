-- ===== src/Tests/CacheTests.antt =====
-- A small cache of src/kes_cache.c on a device that logs its writes, and the theorems applied to it.
use kanek_extents_storage.Common.{
  ℕ, true, List, [], ◌∷◌, none, some, success, err, notfound, busy, ◌≡◌, refl, subst, sym, ◌∙◌,
  arith, ◌⊎◌, inl, inr,
}
use kanek_extents_storage.Os.Outcomes.{Ends}
use kanek_extents_storage.Cache.{
  extent_data_size, kes_extent_hash, store, ExtentId, Cache, ReadExtent, WriteExtent, kes_align,
  kes_extent_equal,
}
use kanek_extents_storage.Cache.Lists.{
  find_in_chain, extent_free_data, hash_find_or_insert, is_evictable, lru_add_head, lru_remove,
  try_evict_entry_locked, hash_find, pin_lookup, lru_touch,
}
use kanek_extents_storage.Cache.Chain.{has, delete}
use kanek_extents_storage.Cache.Shape.{Shape}
use kanek_extents_storage.Cache.Shape.Insert.{Absent}
use kanek_extents_storage.Cache.Find.{hash_find-cases, found, found-cases}
use kanek_extents_storage.Cache.Valid.Steps.{some-injective, none-some}
use kanek_extents_storage.Cache.Sweep.{
  sweep_from, room_from, has_room, flush_dirty, sweep_flush_and_maybe_evict, write_entry,
  write_registered, write_result, cache_sweep, make_room_for_new_entry,
}
use kanek_extents_storage.Cache.Operations.{
  with_found, mark_entry, put_entry, kes_cache_mark_dirty, kes_cache_put_extent,
  kes_cache_invalidate, kes_cache_sync,
}
use kanek_extents_storage.Cache.Access.{
  is_valid_id, looked_up, miss, attach, candidate, finish_load, hit, init_extent_entry, load_new,
  publish, read_registered, retry_load, Environment, kes_cache_get_extent,
}
use kanek_extents_storage.Cache.Lifecycle.{
  is_lru, kes_cache_get_default_config, new_cache, kes_cache_set_io_callbacks, kes_cache_create,
  kes_cache_destroy, kes_cache_stop,
}
use kanek_extents_storage.Cache.Valid.Entries.{Sound}
use kanek_extents_storage.Cache.Valid.Trimmed.{Swept, Trimmed}
use kanek_extents_storage.Cache.Valid.Walk.{Unused}
use kanek_extents_storage.Cache.Valid.Room.{Roomy, make_room-Trimmed}
use kanek_extents_storage.Cache.Valid.Writes.{kes_cache_invalidate-cases}
use kanek_extents_storage.Cache.Valid.Drained.{Outcome}
use kanek_extents_storage.Cache.Valid.Destroy.{kes_cache_destroy-cases}
use kanek_extents_storage.Cache.Valid.Flushed.{Flushed, kes_cache_sync-Flushed}
use kanek_extents_storage.Cache.Valid.Writer.{write_dirty}
use kanek_extents_storage.Cache.Valid.Sweeps.{cache_sweep-Swept}
use kanek_extents_storage.Cache.Valid.Touch.{Shape-lru_touch}
use kanek_extents_storage.Cache.Valid.Hit.{Served, Refused}
use kanek_extents_storage.Cache.Valid.Fresh.{Ends-kes_cache_get_extent}
use kanek_extents_storage.Cache.Valid.Reachable.{
  Reaches, stay, go, gets, marks, puts, registers, Reaches-Sound,
}

abbrev logging_read : ReadExtent (List ℕ)
logging_read log id buffer size = (log, id.start_block ∷ [], success)

abbrev logging_write : WriteExtent (List ℕ)
logging_write log id buffer size = (id.start_block ∷ log, success)

abbrev an_extent : ℕ → ExtentId
an_extent start = record { start_block = start; block_count = 2; block_size = 4096; reserved = 0 }

abbrev plain : Environment
plain = record { entry_allocated = true; data_allocated = true; junk = 7 ∷ []; now = 3 }

abbrev empty_cache : Cache (List ℕ)
empty_cache = new_cache [] (kes_cache_get_default_config true)

abbrev ready_cache : Cache (List ℕ)
ready_cache =
    (kes_cache_set_io_callbacks (some logging_read) (some logging_write) none empty_cache).0

-- One extent is in use, another is dirty and has been put back.
abbrev first_got : Cache (List ℕ)
first_got = (kes_cache_get_extent plain (an_extent 5) ready_cache).0

abbrev second_got : Cache (List ℕ)
second_got = (kes_cache_get_extent plain (an_extent 9) first_got).0

abbrev second_dirty : Cache (List ℕ)
second_dirty = (kes_cache_mark_dirty (an_extent 9) second_got).0

abbrev second_put : Cache (List ℕ)
second_put = (kes_cache_put_extent (an_extent 9) second_dirty).0

-- The first call makes an entry at address 0, where it is still found after the second one; a sweep
-- writes the dirty extent to the device.
ran :
    (first_got.mru_head ≡ some 0)
    × ((cache_sweep second_put).device ≡ 9 ∷ [])
    × (found second_put (an_extent 5) ≡ some 0)
    × (second_put.write_extent ≡ some logging_write)
unfolding kes_cache_get_extent cache_sweep sweep_from kes_cache_put_extent with_found hash_find
    find_in_chain kes_cache_mark_dirty is_valid_id kes_cache_set_io_callbacks looked_up miss
    make_room_for_new_entry room_from has_room kes_cache_get_default_config kes_align
    extent_data_size attach candidate finish_load hit init_extent_entry load_new publish
    read_registered retry_load extent_free_data hash_find_or_insert is_evictable lru_add_head
    lru_remove lru_touch try_evict_entry_locked mark_entry put_entry flush_dirty
    sweep_flush_and_maybe_evict write_entry write_registered write_result kes_extent_equal
    kes_extent_hash store
ran = (refl, refl, refl, refl)

created : kes_cache_create true true [] (kes_cache_get_default_config true) ≡ some empty_cache
unfolding kes_cache_create kes_cache_get_default_config is_lru
created = refl

reached : Reaches empty_cache second_put
reached =
    go
      (go
        (go
          (go
            (go (stay empty_cache)
              (registers (some logging_read) (some logging_write) none empty_cache))
            (gets plain (an_extent 5) ready_cache (omega arith)))
          (gets plain (an_extent 9) first_got (omega arith)))
        (marks (an_extent 9) second_got))
      (puts (an_extent 9) second_dirty)

Reaches-Sound_example : (xs : List ℕ) × Sound second_put xs
unfolding kes_cache_get_default_config
Reaches-Sound_example =
    Reaches-Sound true true [] (kes_cache_get_default_config true) empty_cache second_put created
      (omega arith) (omega arith) reached

sound_cache : (xs : List ℕ) × Sound second_put xs
unfolding kes_cache_get_default_config
sound_cache =
    Reaches-Sound true true [] (kes_cache_get_default_config true) empty_cache second_put created
      (omega arith) (omega arith) reached

Ends-kes_cache_get_extent_example :
    Ends
      (Served (an_extent 14) second_put sound_cache.0)
      (Refused (an_extent 14) second_put sound_cache.0)
      (kes_cache_get_extent plain (an_extent 14) second_put)
Ends-kes_cache_get_extent_example =
    Ends-kes_cache_get_extent plain (an_extent 14) second_put sound_cache.0 (omega arith)
      sound_cache.1

make_room-Trimmed_example :
    (ys : List ℕ) × Trimmed second_put (make_room_for_new_entry 8192 second_put).0 sound_cache.0 ys
    × Roomy (kes_align 8192) (make_room_for_new_entry 8192 second_put) ys
make_room-Trimmed_example =
    make_room-Trimmed 8192 second_put sound_cache.0 sound_cache.1.0 sound_cache.1.1

cache_sweep-Swept_example :
    (ys : List ℕ) × Swept second_put (cache_sweep second_put) sound_cache.0 ys
cache_sweep-Swept_example =
    cache_sweep-Swept second_put sound_cache.0 sound_cache.1.0 sound_cache.1.1

hash_find-cases_example :
    ((p : ℕ) × (hash_find second_put (an_extent 5) ≡ (pin_lookup (some p) second_put, some p))
      × (has sound_cache.0 p ≡ true)
      × (kes_extent_equal (second_put.heap p).id (an_extent 5) ≡ true))
    ⊎ ((hash_find second_put (an_extent 5) ≡ (second_put, none))
        × Absent second_put sound_cache.0 (an_extent 5))
hash_find-cases_example =
    hash_find-cases second_put sound_cache.0 (an_extent 5) sound_cache.1.0.shape
      sound_cache.1.0.cached

kes_cache_invalidate-cases_example :
    ((kes_cache_invalidate (an_extent 9) second_put ≡ (second_put, err notfound))
      × Absent second_put sound_cache.0 (an_extent 9))
    ⊎ ((p : ℕ) × (has sound_cache.0 p ≡ true)
        × (kes_extent_equal (second_put.heap p).id (an_extent 9) ≡ true)
        × ((Unused (second_put.heap p)
              × ((kes_cache_invalidate (an_extent 9) second_put).1 ≡ success)
              × ((kes_cache_invalidate (an_extent 9) second_put).0.device ≡ second_put.device)
              × Sound (kes_cache_invalidate (an_extent 9) second_put).0 (delete p sound_cache.0))
            ⊎ (¬ Unused (second_put.heap p)
                × (kes_cache_invalidate (an_extent 9) second_put ≡ (second_put, err busy)))))
kes_cache_invalidate-cases_example =
    kes_cache_invalidate-cases (an_extent 9) second_put sound_cache.0 sound_cache.1

first_in : has sound_cache.0 0 ≡ true
first_in =
    elim (found-cases second_put sound_cache.0 (an_extent 5) sound_cache.1.0.shape
      sound_cache.1.0.cached) [
        | inl z ↦ subst (λ q. has sound_cache.0 q ≡ true) (some-injective (sym z.1 ∙ ran.2)) z.2
        | inr z ↦ absurd (none-some (sym z.0 ∙ ran.2))
      ]

Shape-lru_touch_example : Shape (lru_touch 0 second_put) (0 ∷ delete 0 sound_cache.0)
Shape-lru_touch_example = Shape-lru_touch second_put sound_cache.0 0 first_in sound_cache.1.0.shape

kes_cache_destroy-cases_example :
    (¬ (second_put.inflight_lookups ≡ 0)
      × (kes_cache_destroy second_put ≡ ((kes_cache_stop second_put).0, err busy)))
    ⊎ ((ys : List ℕ) × Outcome second_put (kes_cache_destroy second_put) sound_cache.0 ys)
kes_cache_destroy-cases_example = kes_cache_destroy-cases second_put sound_cache.0 sound_cache.1.0

kes_cache_sync-Flushed_example :
    (ys : List ℕ) × Sound (kes_cache_sync second_put).0 ys
    × ((kes_cache_sync second_put).0.stats.entries_dirty ≡ 0)
    × ((q : ℕ) → has ys q ≡ true → Flushed ((kes_cache_sync second_put).0.heap q))
    × ((kes_cache_sync second_put).0.device
        ≡ write_dirty (some logging_write) second_put.heap sound_cache.0 second_put.device)
kes_cache_sync-Flushed_example =
    kes_cache_sync-Flushed logging_write second_put sound_cache.0 (λ log id buffer size. refl) ran.3
      sound_cache.1
