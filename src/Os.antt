-- ===== src/Os.antt =====
-- The operating system as the library sees it: one backing file, the offset of the descriptor in
-- use, and what becomes of each system call. The calls are those of POSIX; their failures are
-- chosen by a plan, so that a theorem over every plan covers every failure.
pub mod Files
pub mod Bytes
pub mod Outcomes
pub mod Calls
use kanek_extents_storage.Common.{
  ℕ, ◌+◌, ◌-◌, ◌^◌, min, Bool, true, false, ltb, if◌then◌else◌, List, [], ◌∷◌, ◌++◌, ◌==◌, length,
  take, drop, Option, none, some,
}
use Files.{File, window, write_at}

-- A call completes, or fails, or (a read or write) stops after so many bytes.
pub data Event : Type 0 where
  completes fails : Event
  stops_at : ℕ → Event

-- Where the plan is at its end, every further call completes.
pub record Os : Type 0 where
  pub file : File
  pub pos : ℕ
  pub plan : List Event

abbrev pub next_event : List Event → Event
next_event [] = completes
next_event (e ∷ rest) = e

abbrev pub rest_of : List Event → List Event
rest_of [] = []
rest_of (e ∷ rest) = rest

-- The system with the event of the present call taken off its plan.
abbrev pub advance : Os → Os
advance os = record os { plan = rest_of os.plan }

-- A call with no effect on the file: flock, fsync, open of a path that is there, an allocation.
unfoldable pub attempt : Os → Os × Bool
attempt os = elim (next_event os.plan) [ completes ↦ (advance os, true) | _ ↦ (advance os, false) ]

-- lseek to an offset that is computed on uint64_t, and whether it returns that offset, the test of
-- its callers. As an off_t the offset is negative from 2 ^ 63 on, and the call fails; but the -1 that
-- a failed call returns is itself the offset 2 ^ 64 - 1, and then the position stays.
unfoldable pub lseek : ℕ → Os → Os × Bool
lseek offset os = elim (next_event os.plan) [
  | completes ↦
      if ltb offset (2 ^ 63)
      then (record os { pos = offset; plan = rest_of os.plan }, true)
      else (advance os, offset == 2 ^ 64 - 1)
  | _ ↦ (advance os, offset == 2 ^ 64 - 1)
]

-- The bytes that a read of `n` bytes delivers, at most `limit`.
abbrev delivered : ℕ → ℕ → Os → Os × Option (List ℕ)
delivered n limit os =
    let got = min (min n limit) (os.file.size - os.pos) in
    (record os { pos = os.pos + got; plan = rest_of os.plan }, some (window os.file os.pos got))

-- `none` is a return value of -1.
unfoldable pub read : ℕ → Os → Os × Option (List ℕ)
read n os = elim (next_event os.plan) [
  | completes ↦ delivered n n os
  | fails ↦ (advance os, none)
  | stops_at k ↦ delivered n k os
]

abbrev accepted : List ℕ → Os → Os × Option ℕ
accepted bytes os = (
  record {
    file = write_at os.pos bytes os.file;
    pos = os.pos + length bytes;
    plan = rest_of os.plan;
  },
  some (length bytes),
)

unfoldable pub write : List ℕ → Os → Os × Option ℕ
write bytes os = elim (next_event os.plan) [
  | completes ↦ accepted bytes os
  | fails ↦ (advance os, none)
  | stops_at k ↦ accepted (take k bytes) os
]

-- A read into memory that holds `old`: the memory after it, and whether `n` bytes came.
unfoldable pub read_into : ℕ → List ℕ → Os → Os × List ℕ × Bool
read_into n old os =
    let (os', got) = read n os in
    elim got [
      | none ↦ (os', old, false)
      | some bytes ↦ (os', bytes ++ drop (length bytes) old, length bytes == n)
    ]

-- A write, and whether all the bytes went.
unfoldable pub write_all : List ℕ → Os → Os × Bool
write_all bytes os =
    let (os', sent) = write bytes os in
    elim sent [ none ↦ (os', false) | some n ↦ (os', n == length bytes) ]
