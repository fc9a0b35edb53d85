-- ===== src/Mmap/Store.antt =====
-- mmap/mmap_store.h and mmap/mmap_store.cpp: the master buffer, the pool, and the drains.
--
-- A buffer's address is a number: `heap` holds the buffers, and those below `pool_size` are the
-- pool. `tasks` are the DrainOne_ tasks that were posted to the strand and have not run; the strand
-- runs them one at a time in the order of posting. `sink` is the state behind `on_persist`.
-- One function here is one stretch of code with `mtx_` held, one Write, or one drain. A drain as one step
-- is for runs of one producer, whose Writes go to the master only; where several threads may Write to a
-- buffer that is being drained, Producers takes the drain step by step. `master_` is never null once the
-- constructor has returned, since the pool starts with one buffer at least.
pub mod Invariant
pub mod Names
pub mod Owners
pub mod Loose
pub mod Operations
pub mod Swaps
pub mod Delivery
pub mod Producers
pub mod Tidy
pub mod Appends
pub mod Start
pub mod Drains
pub mod Handover
pub mod Flush
pub mod Gaps
use logger_high.Base.{
  ℕ, zero, suc, ◌+◌, ◌-◌, ◌*◌, Bool, true, false, not, ◌||◌, List, [], ◌∷◌, ◌++◌, Option, none,
  some, ok, throws, length, ltb, ◌==◌, if◌then◌else◌,
}
use logger_high.Errors.{Throwing, store_strand_null, store_persist_null, region_map_failed}
use logger_high.Mmap.Buffer.{
  MmapBuffer, open_buffer, write, seal, for_each_frame, reset_for_reuse, used,
}
use mathlib.Core.Option

pub record Config : Type 0 where
  pub buffer_bytes : ℕ
  pub min_buffers : ℕ
  pub max_buffers : ℕ

pub record MmapStore (S : Type 0) : Type 0 where
  pub config : Config
  pub heap : ℕ → MmapBuffer
  pub pool_size : ℕ
  pub free : List ℕ
  pub master : ℕ
  pub tasks : List ℕ
  pub in_flight : ℕ
  pub persisted_bytes : ℕ
  pub next_seq : ℕ
  pub stopped : Bool
  pub sink : S

abbrev pub update {ℓ} : {A : Type ℓ} → (ℕ → A) → ℕ → A → ℕ → A
update f i a j = if i == j then a else f j

-- The constructor's defaults.
unfoldable pub normalize : Config → Config
normalize c =
    let lo = if c.min_buffers == 0 then 2 else c.min_buffers in
    let hi = if ltb c.max_buffers lo then lo else c.max_buffers in
    let bytes = if c.buffer_bytes == 0 then 4 * 1024 * 1024 else c.buffer_bytes in
    record { buffer_bytes = bytes; min_buffers = lo; max_buffers = hi }

-- What a swap came to: a buffer, nullptr at once, or a wait on `free_cv_`.
pub data Acquired : Type 0 where
  got : ℕ → Acquired
  refused : Acquired
  must_wait : Acquired

-- What the locked part of Append's loop came to.
pub data Retry : Type 0 where
  again : Retry
  give_up : Retry
  waits : Retry

-- `regions q` is the content of the file for sequence number `q` as MmapRegion::Create maps it, or
-- `none` where that throws. `on_persist` says whether it returned normally.
module _ {S : Type 0} (regions : ℕ → Option (List ℕ)) (on_persist : S → List ℕ → S × Bool) where
  abbrev pub add_buffer : MmapStore S → List ℕ → MmapStore S
  add_buffer s image = record s {
    heap = update s.heap s.pool_size (open_buffer image);
    pool_size = s.pool_size + 1;
    next_seq = s.next_seq + 1;
  }

  -- The constructor's loop after the first buffer.
  unfoldable pub init_loop : ℕ → MmapStore S → Throwing (MmapStore S)
  init_loop zero s = ok s
  init_loop (suc n) s = elim (regions s.next_seq) [
    | none ↦ throws region_map_failed
    | some image ↦ init_loop n (record (add_buffer s image) { free = s.free ++ s.pool_size ∷ [] })
  ]

  abbrev pub first_buffer : Config → S → List ℕ → MmapStore S
  first_buffer c sink image = record {
    config = c;
    heap = λ _. open_buffer image;
    pool_size = 1;
    free = [];
    master = 0;
    tasks = [];
    in_flight = 0;
    persisted_bytes = 0;
    next_seq = 1;
    stopped = false;
    sink = sink;
  }

  unfoldable pub new_store : Bool → Bool → Config → S → Throwing (MmapStore S)
  unfolding init_loop
  new_store has_strand has_persist config sink =
      let c = normalize config in
      if not has_strand
      then throws store_strand_null
      else if not has_persist
      then throws store_persist_null
      else elim (regions 0) [
        | none ↦ throws region_map_failed
        | some image ↦ init_loop (c.min_buffers - 1) (first_buffer c sink image)
      ]

  abbrev pub pop_free : MmapStore S → List ℕ → Acquired × MmapStore S
  pop_free s [] = (refused, s)
  pop_free s (b ∷ rest) = (got b, record s { free = rest })

  abbrev pub create : MmapStore S → Option (List ℕ) → Acquired × MmapStore S
  create s none = (refused, record s { next_seq = s.next_seq + 1 })
  create s (some image) = (got s.pool_size, add_buffer s image)

  abbrev pub grow : MmapStore S → Acquired × MmapStore S
  grow s =
      if ltb s.pool_size s.config.max_buffers then create s (regions s.next_seq) else (must_wait, s)

  -- AcquireFreeBufferLocked_ up to its wait.
  abbrev pub acquire_from : MmapStore S → List ℕ → Acquired × MmapStore S
  acquire_from s [] = grow s
  acquire_from s (b ∷ rest) = pop_free s (b ∷ rest)

  unfoldable pub acquire : MmapStore S → Acquired × MmapStore S
  acquire s = acquire_from s s.free

  -- The same function behind its wait. With a timeout and no buffer the predicate is false.
  unfoldable pub acquire_after_wait : MmapStore S → Acquired × MmapStore S
  acquire_after_wait s = if s.stopped then (refused, s) else pop_free s s.free

  -- SwapMasterLocked_ once it has a buffer.
  unfoldable pub swap_master : MmapStore S → ℕ → MmapStore S
  swap_master s next = record s {
    master = next;
    in_flight = s.in_flight + 1;
    tasks = s.tasks ++ s.master ∷ [];
  }

  abbrev pub swapped : Acquired × MmapStore S → Retry × MmapStore S
  swapped (got b, s) = (again, swap_master s b)
  swapped (refused, s) = (give_up, s)
  swapped (must_wait, s) = (waits, s)

  -- `cur->Write(data, len)` on the master that was read.
  unfoldable pub try_write : MmapStore S → ℕ → List ℕ → MmapStore S × Bool
  try_write s cur payload =
      let (b, done) = write (s.heap cur) payload in (record s { heap = update s.heap cur b }, done)

  -- The locked part of Append's loop, after a Write to `cur` failed.
  unfoldable pub retry : MmapStore S → ℕ → Retry × MmapStore S
  retry s cur =
      if s.stopped
      then (give_up, s)
      else if not (s.master == cur)
      then (again, s)
      else swapped (acquire s)

  unfoldable pub resume : MmapStore S → Retry × MmapStore S
  resume s = swapped (acquire_after_wait s)

  -- The callback of ForEachFrame over the frames of a buffer.
  unfoldable pub persist_all : S × ℕ → List (List ℕ) → S × ℕ
  persist_all (sink, bytes) [] = (sink, bytes)
  persist_all (sink, bytes) (p ∷ ps) =
      let (sink', returned) = on_persist sink p in
      persist_all (sink', if returned then bytes + length p else bytes) ps

  abbrev pub frames_or_none : Option (List (List ℕ)) → List (List ℕ)
  frames_or_none none = []
  frames_or_none (some fs) = fs

  abbrev pub sealed_or_same : MmapBuffer → Option MmapBuffer → MmapBuffer
  sealed_or_same b none = b
  sealed_or_same b (some b') = b'

  -- DrainOne_, once its Seal has returned. Sync writes the pages out and changes no byte.
  unfoldable pub drain_one : MmapStore S → ℕ → MmapStore S
  drain_one s id =
      let b = sealed_or_same (s.heap id) (seal (s.heap id)) in
      let (sink, bytes) =
        persist_all (s.sink, s.persisted_bytes) (frames_or_none (for_each_frame b)) in
      record s {
        heap = update s.heap id (reset_for_reuse b);
        sink = sink;
        persisted_bytes = bytes;
        free = s.free ++ id ∷ [];
        in_flight = s.in_flight - 1;
      }

  abbrev pub drain_first : MmapStore S → List ℕ → MmapStore S
  drain_first s [] = s
  drain_first s (id ∷ rest) = drain_one (record s { tasks = rest }) id

  -- The strand runs its next task.
  unfoldable pub drain_next : MmapStore S → MmapStore S
  drain_next s = drain_first s s.tasks

  unfoldable pub drains : ℕ → MmapStore S → MmapStore S
  drains zero s = s
  drains (suc n) s = drains n (drain_next s)

  abbrev pub resumed :
      (MmapStore S → Option (MmapStore S × Bool))
      → Retry × MmapStore S
      → Option (MmapStore S × Bool)
  resumed continue (again, s) = continue s
  resumed continue (give_up, s) = some (s, false)
  resumed continue (waits, s) = some (s, false)

  abbrev pub retried :
      ℕ
      → (MmapStore S → Option (MmapStore S × Bool))
      → Retry × MmapStore S
      → Option (MmapStore S × Bool)
  retried n continue (again, s) = continue s
  retried n continue (give_up, s) = some (s, false)
  retried n continue (waits, s) = resumed continue (resume (drains n s))

  abbrev pub written :
      ℕ
      → ℕ
      → (MmapStore S → Option (MmapStore S × Bool))
      → MmapStore S × Bool
      → Option (MmapStore S × Bool)
  written n cur continue (s, true) = some (s, true)
  written n cur continue (s, false) = retried n continue (retry s cur)

  -- Append by one producer, while the strand completes `n` tasks during the wait of a round; a round
  -- for each entry of the list. `none`: the loop is still going when the list is used up.
  unfoldable pub append : List ℕ → MmapStore S → List ℕ → Option (MmapStore S × Bool)
  append [] s payload = none
  append (n ∷ rounds) s payload =
      if length payload == 0
      then some (s, false)
      else written n s.master (λ s'. append rounds s' payload) (try_write s s.master payload)

  -- A wait for ever ends only with a buffer, or with the store stopped.
  abbrev pub flush_taken : Acquired × MmapStore S → Option (MmapStore S)
  flush_taken (got b, s) = some (swap_master s b)
  flush_taken (refused, s) = none
  flush_taken (must_wait, s) = none

  abbrev pub flush_swapped : ℕ → Acquired × MmapStore S → Option (MmapStore S)
  flush_swapped n (got b, s) = some (swap_master s b)
  flush_swapped n (refused, s) = some s
  flush_swapped n (must_wait, s) =
      let s' = drains n s in if s'.stopped then some s' else flush_taken (pop_free s' s'.free)

  -- The locked part of Flush; the strand completes `n` tasks if it waits, and `none` says that it
  -- waits still.
  unfoldable pub flush_begin : ℕ → MmapStore S → Option (MmapStore S)
  flush_begin n s =
      if s.stopped
      then some s
      else if ltb 0 (used (s.heap s.master))
      then flush_swapped n (acquire s)
      else some s

  -- Its last wait, over which the strand completes `n` tasks.
  unfoldable pub flush_end : ℕ → MmapStore S → Option (MmapStore S)
  flush_end n s = let s' = drains n s in if s'.in_flight == 0 || s'.stopped then some s' else none

  -- Flush, with the tasks that the strand completes in each of its waits.
  abbrev pub then_end : ℕ → Option (MmapStore S) → Option (MmapStore S)
  then_end n none = none
  then_end n (some s) = flush_end n s

  unfoldable pub flush : ℕ → MmapStore S → Option (MmapStore S)
  flush n s = then_end n (flush_begin n s)

  -- The destructor, up to the unmapping of the buffers.
  unfoldable pub destroy : ℕ → MmapStore S → Option (MmapStore S)
  destroy n s = Option.map {A = MmapStore S} (λ t. record t { stopped = true }) (flush n s)
