-- ===== src/Cache/Valid.antt =====
-- The invariant of a cache of src/kes_cache.c between calls, and within the walks, which pin the
-- entry that they go to next.
pub mod Update
pub mod Evict
pub mod Visit
pub mod Walk
pub mod Pinning
pub mod Writer
pub mod Trimmed
pub mod Sweeps
pub mod Flushed
pub mod Attempt
pub mod Room
pub mod Touch
pub mod Load
pub mod Held
pub mod Hit
pub mod Add
pub mod Miss
pub mod Loading
pub mod Fresh
pub mod Steps
pub mod Reachable
pub mod Entries
pub mod Pins
pub mod Writes
pub mod Drained
pub mod Destroy
use kanek_extents_storage.Common.{
  ℕ, ◌+◌, ◌^◌, ◌<◌, ◌≤◌, Bool, true, false, ltb, List, length, Option, none, some, ◌≡◌, refl,
}
use kanek_extents_storage.Cache.{Entry, Cache, kes_align, points}
use kanek_extents_storage.Cache.Chain.{has}
use kanek_extents_storage.Cache.Totals.{flag, total}
use kanek_extents_storage.Cache.Shape.{Shape}

-- No load is under way, and `pinned` says which entries are pinned, once, by a lookup or a walk.
abbrev pub IsSettled : (ℕ → Bool) → ℕ → Entry → Type 0
IsSettled pinned q e =
    ((bytes : List ℕ) × (e.buffer ≡ some bytes))
    × (e.state.loading ≡ false)
    × (e.cond_waiters ≡ 0)
    × (e.lookup_pins ≡ flag (pinned q))

abbrev pub memory_of : Entry → ℕ
memory_of e = kes_align e.data_size

abbrev pub pins_of : Entry → ℕ
pins_of e = flag (ltb 0 e.pin_count)

abbrev pub dirt_of : Entry → ℕ
dirt_of e = flag e.state.dirty

abbrev pub no_pins : ℕ → Bool
no_pins q = false

-- The limits hold, and the counters for entries, memory and pins are right.
pub record Valid {D : Type 0} (c : Cache D) (xs : List ℕ) (pinned : ℕ → Bool) : Type 0 where
  pub shape : Shape c xs
  pub settled : (q : ℕ) → has xs q ≡ true → IsSettled pinned q (c.heap q)
  pub given : (q : ℕ) → has xs q ≡ true → q < c.next_address
  pub cached : c.stats.entries_cached ≡ length xs
  pub memory : c.stats.memory_used ≡ total (λ q. memory_of (c.heap q)) xs
  pub pins : c.stats.entries_pinned ≡ total (λ q. pins_of (c.heap q)) xs
  pub entries_fit : length xs ≤ c.config.max_entries
  pub memory_fits : c.stats.memory_used ≤ c.config.max_memory
  pub entries_small : c.config.max_entries + 1 < 2 ^ 32
  pub memory_small : c.config.max_memory < 2 ^ 63

-- The counter for dirty entries is right.
pub CountsDirty : {D : Type 0} → Cache D → List ℕ → Type 0
CountsDirty c xs = c.stats.entries_dirty ≡ total (λ q. dirt_of (c.heap q)) xs
