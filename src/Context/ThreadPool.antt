-- ===== src/Context/ThreadPool.antt =====
-- context/thread_pool.h and context/thread_pool.cpp: the pool's queue and its workers.
--
-- A step is one stretch of code with `mtx_` held. A worker thread that has not left its loop is one
-- of `worker_count`; `workers` and `reap` count the thread handles in `workers_` and `reap_`. A task
-- is a number; `started` are the tasks that a worker took, `inline_run` those that Enqueue_ ran
-- itself since the pool was stopped. Joins and the bodies of tasks are outside the lock.
pub mod Workers
pub mod Order
use logger_high.Base.{
  ℕ, ◌+◌, ◌-◌, ◌*◌, ◌/◌, max, Bool, true, false, not, ◌&&◌, ◌||◌, List, [], ◌∷◌, ◌++◌, length, ltb,
  ◌==◌, if◌then◌else◌,
}

pub record Config : Type 0 where
  pub min_threads : ℕ
  pub max_threads : ℕ
  pub scale_factor : ℕ

-- Config::Default, for a given hardware_concurrency.
unfoldable pub default_config : ℕ → Config
default_config hw =
    let base = if hw == 0 then 4 else hw in
    let lo = max 1 (base / 4) in
    record { min_threads = lo; max_threads = max (lo + 1) base; scale_factor = 2 }

pub record ThreadPool : Type 0 where
  pub config : Config
  pub tasks : List ℕ
  pub workers : ℕ
  pub reap : ℕ
  pub worker_count : ℕ
  pub stopped : Bool
  pub started : List ℕ
  pub inline_run : List ℕ

unfoldable pub normalize : Config → Config
normalize c =
    let lo = if c.min_threads == 0 then 1 else c.min_threads in
    let hi = if ltb c.max_threads lo then lo else c.max_threads in
    let scale = if c.scale_factor == 0 then 1 else c.scale_factor in
    record { min_threads = lo; max_threads = hi; scale_factor = scale }

-- SpawnLocked_
unfoldable pub spawn : ThreadPool → ThreadPool
spawn s = record s { workers = s.workers + 1; worker_count = s.worker_count + 1 }

-- The constructor; its loop spawns `min_threads` workers.
unfoldable pub new_pool : Config → ThreadPool
new_pool c =
    let c' = normalize c in
    record {
      config = c';
      tasks = [];
      workers = c'.min_threads;
      reap = 0;
      worker_count = c'.min_threads;
      stopped = false;
      started = [];
      inline_run = [];
    }

abbrev pub is_loaded : ThreadPool → Bool
is_loaded s =
    ltb s.worker_count s.config.max_threads
    && ltb (s.worker_count * s.config.scale_factor) (length s.tasks)

-- The first locked part of Enqueue_, with `need_spawn`. A stopped pool runs the task in the caller;
-- the test before the lock comes to the same.
unfoldable pub enqueue : ThreadPool → ℕ → ThreadPool × Bool
enqueue s t =
    if s.stopped
    then (record s { inline_run = s.inline_run ++ t ∷ [] }, false)
    else (let s' = record s { reap = 0; tasks = s.tasks ++ t ∷ [] } in (s', is_loaded s'))

-- The second locked part, which runs if the first said so.
unfoldable pub spawn_if_loaded : ThreadPool → ThreadPool
unfolding spawn
spawn_if_loaded s = if not s.stopped && is_loaded s then spawn s else s

abbrev pub is_empty : List ℕ → Bool
is_empty [] = true
is_empty (t ∷ ts) = false

-- A worker leaves its loop. After Shutdown has taken the handles it finds none of its own.
unfoldable pub leave : ThreadPool → ThreadPool
leave s =
    if s.workers == 0
    then record s { worker_count = s.worker_count - 1 }
    else record s { workers = s.workers - 1; reap = s.reap + 1; worker_count = s.worker_count - 1 }

-- The locked part of WorkerLoop_. The wait ends with its predicate, or by the timeout without it.
unfoldable pub worker_step : List ℕ → ThreadPool → ThreadPool
unfolding leave
worker_step (t ∷ rest) s = record s { tasks = rest; started = s.started ++ t ∷ [] }
worker_step [] s =
    let timed_out = not (s.stopped || not (is_empty s.tasks)) in
    if s.stopped
    then leave s
    else if timed_out
    then (if ltb s.config.min_threads s.worker_count then leave s else s)
    else s

-- Shutdown: the flag, and then the handles.
unfoldable pub stop : ThreadPool → ThreadPool
stop s = record s { stopped = true }

unfoldable pub take_handles : ThreadPool → ThreadPool
take_handles s = record s { workers = 0; reap = 0 }
