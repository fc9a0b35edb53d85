-- ===== src/Mmap/Store/Producers.antt =====
-- Append and Flush of mmap/mmap_store.cpp called from any number of threads, while the strand drains.
--
-- A thread is between two of its steps, with what it holds in its local variables: the payload, and
-- the buffer that it read as the master, which may be another's by now. One step is one read of
-- `master_`, one Write, or one stretch of code with `mtx_` held. The strand is between two steps of
-- DrainOne_: before its Seal, before ForEachFrame, before the two stores of ResetForReuse, before its
-- memset, and before the buffer goes back to the free queue. What on_persist does is seen by the strand
-- alone, so that the frames of a buffer are handed out in one step; `in_flight_` is read by Flush's last
-- wait alone, which changes nothing and is no step. The order of the steps is a list of events.
pub mod Contents
pub mod Draining
pub mod Settled
pub mod Balance
pub mod Steps
pub mod Moves
pub mod Strand
pub mod Whole
pub mod Inside
pub mod Conserved
use logger_high.Base.{
  ℕ, ◌+◌, ◌-◌, ◌^◌, ◌<◌, ◌≢◌, none, some, Bool, true, false, not, ◌&&◌, ◌||◌, List, [], ◌∷◌, ◌++◌,
  Option, length, ltb, ◌==◌, if◌then◌else◌,
}
use logger_high.Mmap.Buffer.{MmapBuffer, used, seal, for_each_frame, reopen, scrub}
use logger_high.Mmap.Buffer.Fill.{cost}
use logger_high.Mmap.Store.{
  MmapStore, update, try_write, retry, resume, Retry, again, give_up, waits, swapped, acquire,
  persist_all, frames_or_none,
}

pub data Thread : Type 0 where
  resting : Thread
  -- In Append: about to read the master, to Write to the buffer that was read, to lock after a Write
  -- to it failed, and in the wait.
  reading : List ℕ → Thread
  writing : List ℕ → ℕ → Thread
  refused_by : List ℕ → ℕ → Thread
  waiting : List ℕ → Thread
  -- In Flush's wait for a buffer.
  flushing : Thread

-- How far the strand is in DrainOne_ on a buffer: sealed, handed out, opened again by ResetForReuse
-- with so many bytes to clear, cleared.
pub data Phase : Type 0 where
  sealed : Phase
  handed : Phase
  reopened : ℕ → Phase
  cleared : Phase

pub data Drain : Type 0 where
  no_drain : Drain
  draining : Phase → ℕ → Drain

pub record World (S : Type 0) : Type 0 where
  pub store : MmapStore S
  pub drain : Drain
  pub threads : ℕ → Thread

pub data Event : Type 0 where
  calls_append : ℕ → List ℕ → Event
  calls_flush : ℕ → Event
  moves : ℕ → Event
  strand_moves : Event

abbrev is_resting : Thread → Bool
is_resting resting = true
is_resting (reading p) = false
is_resting (writing p cur) = false
is_resting (refused_by p cur) = false
is_resting (waiting p) = false
is_resting flushing = false

-- Where a round of Append's loop goes on.
abbrev pub next_round : List ℕ → Retry → Thread
next_round p again = reading p
next_round p give_up = resting
next_round p waits = waiting p

-- The end of a round that has written.
abbrev pub wrote : List ℕ → ℕ → Bool → Thread
wrote p cur true = resting
wrote p cur false = refused_by p cur

abbrev pub accepted_by : List ℕ → Bool → List (List ℕ)
accepted_by p true = p ∷ []
accepted_by p false = []

-- Flush has its buffer, has given up, or waits for one.
abbrev pub flush_round : Retry → Thread
flush_round again = resting
flush_round give_up = resting
flush_round waits = flushing

abbrev is_empty : List ℕ → Bool
is_empty [] = true
is_empty (b ∷ rest) = false

module _ {S : Type 0} (regions : ℕ → Option (List ℕ)) (on_persist : S → List ℕ → S × Bool) where
  abbrev pub put : World S → ℕ → Thread × MmapStore S → World S
  put w k (thread, s) = record w { store = s; threads = update w.threads k thread }

  -- The first stretch of Flush.
  unfoldable pub begin_flush : MmapStore S → Retry × MmapStore S
  begin_flush s =
      if s.stopped
      then (give_up, s)
      else if ltb 0 (used (s.heap s.master))
      then swapped regions on_persist (acquire regions on_persist s)
      else (give_up, s)

  -- The next step of thread `k`, and the payload for which its Append has returned true in it.
  unfoldable pub advance : World S → ℕ → Thread → World S × List (List ℕ)
  advance w k resting = (w, [])
  advance w k (reading p) = (put w k (writing p w.store.master, w.store), [])
  advance w k (writing p cur) =
      let (s, done) = try_write regions on_persist w.store cur p in
      (put w k (wrote p cur done, s), accepted_by p done)
  advance w k (refused_by p cur) =
      let (r, s) = retry regions on_persist w.store cur in (put w k (next_round p r, s), [])
  advance w k (waiting p) =
      let (r, s) = resume regions on_persist w.store in (put w k (next_round p r, s), [])
  advance w k flushing =
      if w.store.stopped || not (is_empty w.store.free)
      then (put w k (resting, (resume regions on_persist w.store).1), [])
      else (w, [])

  -- Seal returns once no writer is left.
  abbrev pub begin_drain : MmapStore S → ℕ → List ℕ → Option MmapBuffer → Drain × MmapStore S
  begin_drain s id rest none = (no_drain, s)
  begin_drain s id rest (some b) =
      (draining sealed id, record s { tasks = rest; heap = update s.heap id b })

  abbrev pub next_drain : MmapStore S → List ℕ → Drain × MmapStore S
  next_drain s [] = (no_drain, s)
  next_drain s (id ∷ rest) = begin_drain s id rest (seal (s.heap id))

  -- The next step of the strand.
  unfoldable pub drain_on : Drain → MmapStore S → Drain × MmapStore S
  drain_on no_drain s = next_drain s s.tasks
  drain_on (draining sealed id) s =
      let (sink, bytes) =
        persist_all regions on_persist (s.sink, s.persisted_bytes)
          (frames_or_none regions on_persist (for_each_frame (s.heap id))) in
      (draining handed id, record s { sink = sink; persisted_bytes = bytes })
  drain_on (draining handed id) s =
      let b = s.heap id in
      (draining (reopened (used b)) id, record s { heap = update s.heap id (reopen b) })
  drain_on (draining (reopened prev_used) id) s =
      (draining cleared id, record s { heap = update s.heap id (scrub prev_used (s.heap id)) })
  drain_on (draining cleared id) s =
      (no_drain, record s { free = s.free ++ id ∷ []; in_flight = s.in_flight - 1 })

  unfoldable pub play : World S → Event → World S × List (List ℕ)
  play w (calls_append k p) =
      if is_resting (w.threads k) && not (length p == 0)
      then (put w k (reading p, w.store), [])
      else (w, [])
  play w (calls_flush k) =
      if is_resting (w.threads k)
      then (let (r, s) = begin_flush w.store in put w k (flush_round r, s), [])
      else (w, [])
  play w (moves k) = advance w k (w.threads k)
  play w strand_moves =
      let (d, s) = drain_on w.drain w.store in (record w { store = s; drain = d }, [])

  -- ResetForReuse is not between its stores and its memset on a buffer.
  abbrev pub Settling : Drain → ℕ → Type 0
  Settling no_drain cur = Unit
  Settling (draining sealed id) cur = Unit
  Settling (draining handed id) cur = Unit
  Settling (draining (reopened prev_used) id) cur = id ≢ cur
  Settling (draining cleared id) cur = Unit

  -- The next offset of the buffer that a Write goes to stays below 2 ^ 64, and the Write does not come
  -- between the stores and the memset of ResetForReuse, where it would be lost.
  abbrev pub Reserves : World S → Thread → Type 0
  Reserves w resting = Unit
  Reserves w (reading p) = Unit
  Reserves w (writing p cur) = ((w.store.heap cur).offset + cost p < 2 ^ 64) × Settling w.drain cur
  Reserves w (refused_by p cur) = Unit
  Reserves w (waiting p) = Unit
  Reserves w flushing = Unit

  abbrev pub Within : World S → Event → Type 0
  Within w (calls_append k p) = Unit
  Within w (calls_flush k) = Unit
  Within w (moves k) = Reserves w (w.threads k)
  Within w strand_moves = Unit

  -- A run of events, with the payloads that it accepted.
  pub data Played (w : World S) : List (List ℕ) → World S → Type 0 where
    none_played : Played w [] w
    one_more :
        {ps : List (List ℕ)} {v : World S} (e : Event)
        → Played w ps v
        → Within v e
        → Played w (ps ++ (play v e).1) (play v e).0
