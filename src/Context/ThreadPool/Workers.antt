-- ===== src/Context/ThreadPool/Workers.antt =====
-- The number of workers of context/thread_pool.cpp, and the order of its tasks.
use logger_high.Base.{
  ℕ, ◌≤◌, ◌<◌, ◌≡◌, refl, ap, ◌⊎◌, inl, inr, true, List, [], ◌∷◌, ◌++◌, length, arith,
}
use logger_high.Context.ThreadPool.{
  Config, ThreadPool, normalize, new_pool, spawn, enqueue, spawn_if_loaded, worker_step, leave,
  stop, take_handles,
}

pub record Inv (s : ThreadPool) : Type 0 where
  pub some_worker : 0 < s.config.min_threads
  pub at_most : s.worker_count ≤ s.config.max_threads
  pub at_least : (s.stopped ≡ true) ⊎ (s.config.min_threads ≤ s.worker_count)
  pub never_stranded : (length s.tasks ≡ 0) ⊎ (0 < s.worker_count)
  pub handles : s.workers ≤ s.worker_count

pub new_pool-Inv : (c : Config) → Inv (new_pool c)
unfolding new_pool normalize
new_pool-Inv c = record {
  some_worker = ground arith;
  at_most = ground arith;
  at_least = inr (omega arith);
  never_stranded = inl refl;
  handles = omega arith;
}

enqueue-Inv : (s : ThreadPool) (t : ℕ) → Inv s → Inv (enqueue s t).0
unfolding enqueue
enqueue-Inv s t v = ground arith

spawn_if_loaded-Inv : (s : ThreadPool) → Inv s → Inv (spawn_if_loaded s)
unfolding spawn_if_loaded spawn
spawn_if_loaded-Inv s v = ground arith

worker_step-Inv :
    (s : ThreadPool) (tasks : List ℕ)
    → s.tasks ≡ tasks
    → 0 < s.worker_count
    → Inv s
    → Inv (worker_step tasks s)
unfolding worker_step leave
worker_step-Inv s [] e n v = let z : length s.tasks ≡ 0 = ap length e in ground arith
worker_step-Inv s (t ∷ rest) e n v = ground arith

stop-Inv : (s : ThreadPool) → Inv s → Inv (stop s)
unfolding stop
stop-Inv s v = record {
  some_worker = v.some_worker;
  at_most = v.at_most;
  at_least = inl refl;
  never_stranded = v.never_stranded;
  handles = v.handles;
}

take_handles-Inv : (s : ThreadPool) → Inv s → Inv (take_handles s)
unfolding take_handles
take_handles-Inv s v = record {
  some_worker = v.some_worker;
  at_most = v.at_most;
  at_least = v.at_least;
  never_stranded = v.never_stranded;
  handles = omega arith;
}

-- One step of a caller, of a worker or of Shutdown, with the tasks that were handed in.
pub data Step (s : ThreadPool) (ts : List ℕ) (u : ThreadPool) : Type 0 where
  enqueues : (t : ℕ) → u ≡ (enqueue s t).0 → ts ≡ t ∷ [] → Step s ts u
  spawns : u ≡ spawn_if_loaded s → ts ≡ [] → Step s ts u
  works : 0 < s.worker_count → u ≡ worker_step s.tasks s → ts ≡ [] → Step s ts u
  stops : u ≡ stop s → ts ≡ [] → Step s ts u
  takes_handles : u ≡ take_handles s → ts ≡ [] → Step s ts u

pub data Run (c : Config) : List ℕ → ThreadPool → Type 0 where
  begin : Run c [] (new_pool c)
  next : {ts us : List ℕ} {t u : ThreadPool} → Run c ts t → Step t us u → Run c (ts ++ us) u

Step-Inv : {s u : ThreadPool} {ts : List ℕ} → Step s ts u → Inv s → Inv u
Step-Inv {s} (enqueues t e q) v = rw e (enqueue-Inv s t v)
Step-Inv {s} (spawns e q) v = rw e (spawn_if_loaded-Inv s v)
Step-Inv {s} (works n e q) v = rw e (worker_step-Inv s s.tasks refl n v)
Step-Inv {s} (stops e q) v = rw e (stop-Inv s v)
Step-Inv {s} (takes_handles e q) v = rw e (take_handles-Inv s v)

-- Whatever the callers, the workers and Shutdown do, the pool never has more than `max_threads`
-- workers, it has `min_threads` at least until it is stopped, and a task that waits always has a
-- worker left to take it, also while the pool shuts down.
pub Run-Inv : {c : Config} {ts : List ℕ} {u : ThreadPool} → Run c ts u → Inv u
Run-Inv {c} begin = new_pool-Inv c
Run-Inv (next r st) = Step-Inv st (Run-Inv r)
