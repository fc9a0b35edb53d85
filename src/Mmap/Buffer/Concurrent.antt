-- ===== src/Mmap/Buffer/Concurrent.antt =====
-- Write and Seal of mmap/mmap_buffer.cpp where they overlap: any number of writers, an access to
-- shared memory at a time.
--
-- A thread inside Write is known by where it stands and by its locals. `entered` are those that have
-- incremented `writers_`, `admitted` those that have then seen `sealed_` false; both have their
-- payload. `slots` are those that got room by their fetch_add, in the order of these calls, with
-- `old` and how far they are; a slot stays in the list when its Write has returned true. `refused`
-- and `overrun` count the threads that will return false and have not decremented `writers_` yet.
-- All atomics involved are seq_cst or ordered by them, so the accesses have one order. WriteU32LE and
-- the memcpy are one step each: no other thread touches the bytes between.
pub mod Invariant
pub mod Slots
pub mod Moves
pub mod Sealed
use logger_high.Base.{
  ℕ, ◌+◌, ◌-◌, ◌%◌, ◌^◌, ◌<◌, ◌≡◌, Bool, true, false, List, [], ◌∷◌, ◌++◌, length, ltb,
  if◌then◌else◌,
}
use logger_high.Bytes.{encode_le_u32}
use logger_high.Mmap.Buffer.{MmapBuffer, store}
use logger_high.Mmap.Buffer.Fill.{cost, is_oversized}

pub data Stage : Type 0 where
  reserved len_written copied returned : Stage

pub record Slot : Type 0 where
  pub old : ℕ
  pub payload : List ℕ
  pub stage : Stage

pub record Shared : Type 0 where
  pub mem : List ℕ
  pub offset : ℕ
  pub writers : ℕ
  pub sealed : Bool
  pub entered : List (List ℕ)
  pub admitted : List (List ℕ)
  pub refused : ℕ
  pub overrun : ℕ
  pub slots : List Slot

abbrev pub open_shared : List ℕ → Shared
open_shared image = record {
  mem = image;
  offset = 0;
  writers = 0;
  sealed = false;
  entered = [];
  admitted = [];
  refused = 0;
  overrun = 0;
  slots = [];
}

-- What ForEachFrame and Used read.
abbrev pub buffer_of : Shared → MmapBuffer
buffer_of s = record { mem = s.mem; offset = s.offset; writers = s.writers; sealed = s.sealed }

-- `writers_.fetch_add(1)`
unfoldable pub enter : List ℕ → Shared → Shared
enter p s = record s { writers = s.writers + 1; entered = p ∷ s.entered }

-- `sealed_.load()`, by the thread between `before` and `behind`.
unfoldable pub check_sealed : List (List ℕ) → List ℕ → List (List ℕ) → Shared → Shared
check_sealed before p behind s =
    if s.sealed
    then record s { entered = before ++ behind; refused = s.refused + 1 }
    else record s { entered = before ++ behind; admitted = p ∷ s.admitted }

-- `offset_.fetch_add(need)` and the test of the old value.
unfoldable pub reserve : List (List ℕ) → List ℕ → List (List ℕ) → Shared → Shared
reserve before p behind s =
    let end = (s.offset + cost p) % 2 ^ 64 in
    let moved = record s { offset = end; admitted = before ++ behind } in
    if ltb (length s.mem) end then record moved { overrun = s.overrun + 1 } else record moved {
      slots = s.slots ++ record { old = s.offset; payload = p; stage = reserved } ∷ [];
    }

-- The stores into the slot, and `writers_.fetch_sub(1)`.
abbrev pub advanced : List Slot → List Slot → Shared → Slot → Stage → Shared
advanced before behind s w reserved = record s {
  mem = store s.mem w.old (encode_le_u32 (length w.payload));
  slots = before ++ record w { stage = len_written } ∷ behind;
}
advanced before behind s w len_written = record s {
  mem = store s.mem (w.old + 4) w.payload;
  slots = before ++ record w { stage = copied } ∷ behind;
}
advanced before behind s w copied = record s {
  writers = s.writers - 1;
  slots = before ++ record w { stage = returned } ∷ behind;
}
advanced before behind s w returned = s

unfoldable pub advance : List Slot → Slot → List Slot → Shared → Shared
advance before w behind s = advanced before behind s w w.stage

-- The fetch_sub of a thread that returns false.
unfoldable pub leave_refused : Shared → Shared
leave_refused s = record s { writers = s.writers - 1; refused = s.refused - 1 }

unfoldable pub leave_overrun : Shared → Shared
leave_overrun s = record s { writers = s.writers - 1; overrun = s.overrun - 1 }

-- `sealed_.store(true)`; the loop behind it ends when it reads that `writers_` is 0.
unfoldable pub begin_seal : Shared → Shared
begin_seal s = record s { sealed = true }

-- A thread's next access. `offset_` is taken to stay below 2 ^ 64: it grows by each reservation, those
-- past the end of the region included, and is reset with the buffer.
pub data Step (s : Shared) (t : Shared) : Type 0 where
  enters : (p : List ℕ) → is_oversized p ≡ false → t ≡ enter p s → Step s t
  checks :
      (before : List (List ℕ)) (p : List ℕ) (behind : List (List ℕ))
      → s.entered ≡ before ++ p ∷ behind
      → t ≡ check_sealed before p behind s
      → Step s t
  reserves :
      (before : List (List ℕ)) (p : List ℕ) (behind : List (List ℕ))
      → s.admitted ≡ before ++ p ∷ behind
      → s.offset + cost p < 2 ^ 64
      → t ≡ reserve before p behind s
      → Step s t
  advances :
      (before : List Slot) (w : Slot) (behind : List Slot)
      → s.slots ≡ before ++ w ∷ behind
      → t ≡ advance before w behind s
      → Step s t
  gives_up : 0 < s.refused → t ≡ leave_refused s → Step s t
  fails : 0 < s.overrun → t ≡ leave_overrun s → Step s t
  seals : t ≡ begin_seal s → Step s t

pub data Run (s : Shared) : Shared → Type 0 where
  start : Run s s
  next : {t u : Shared} → Run s t → Step t u → Run s u
