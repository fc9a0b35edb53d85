-- ===== src/Context/Strand.antt =====
-- context/strand.h and context/strand.cpp: a serial queue of tasks over the thread pool.
--
-- A step is one stretch of code with `mtx_` held, or the end of a task. Enqueue_ posts a Drain_ to
-- the pool; `drains` are the Drain_ calls that were posted and have not returned, each with where it
-- stands. Any of them may move at any time, and tasks may be added at any time, also by a task. A
-- task that throws ends like one that returns, since Drain_ catches everything.
use logger_high.Base.{
  ℕ, ◌+◌, ◌≡◌, refl, ◌∙◌, ap, sym, ◌⊎◌, inl, inr, Bool, true, false, List, [], ◌∷◌, ◌++◌, length,
  arith, append_assoc, append-nil, length-append, if◌then◌else◌, Bool-cases,
}

-- Where a Drain_ stands: before its lock, or inside a task.
pub data Pc : Type 0 where
  at_lock : Pc
  in_task : ℕ → Pc

pub record Strand : Type 0 where
  pub tasks : List ℕ
  pub running : Bool
  pub drains : List Pc
  pub started : List ℕ  -- the tasks whose call has begun, in that order

unfoldable pub enqueue : Strand → ℕ → Strand
enqueue s t =
    if s.running
    then record s { tasks = s.tasks ++ t ∷ [] }
    else record s { tasks = s.tasks ++ t ∷ []; running = true; drains = s.drains ++ at_lock ∷ [] }

-- The locked part of Drain_, for the call that stands between `before` and `behind` in `drains`.
unfoldable pub drain_take : List Pc → List Pc → List ℕ → Strand → Strand
drain_take before behind [] s = record s { running = false; drains = before ++ behind }
drain_take before behind (t ∷ rest) s = record s {
  tasks = rest;
  drains = before ++ in_task t ∷ behind;
  started = s.started ++ t ∷ [];
}

unfoldable pub task_ends : List Pc → List Pc → Strand → Strand
task_ends before behind s = record s { drains = before ++ at_lock ∷ behind }

abbrev pub empty_strand : Strand
empty_strand = record { tasks = []; running = false; drains = []; started = [] }

-- One step, and the tasks that it enqueued.
pub data Step (s : Strand) (ts : List ℕ) (u : Strand) : Type 0 where
  enqueues : (t : ℕ) → u ≡ enqueue s t → ts ≡ t ∷ [] → Step s ts u
  takes :
      (before behind : List Pc)
      → s.drains ≡ before ++ at_lock ∷ behind
      → u ≡ drain_take before behind s.tasks s
      → ts ≡ []
      → Step s ts u
  ends :
      (before behind : List Pc) (t : ℕ)
      → s.drains ≡ before ++ in_task t ∷ behind
      → u ≡ task_ends before behind s
      → ts ≡ []
      → Step s ts u

pub data Run (s : Strand) : List ℕ → Strand → Type 0 where
  start : Run s [] s
  next : {ts us : List ℕ} {t u : Strand} → Run s ts t → Step t us u → Run s (ts ++ us) u

-- Either one Drain_ is on its way, or there is none and nothing to do.
abbrev pub Serial : Strand → Type 0
Serial s =
    ((s.running ≡ true) × (length s.drains ≡ 1))
    ⊎ ((s.running ≡ false) × (length s.drains ≡ 0) × (s.tasks ≡ []))

length-around :
    (before behind : List Pc) (a : Pc)
    → length (before ++ a ∷ behind) ≡ length (before ++ behind) + 1
length-around before behind a =
    omega (arith, length-append before (a ∷ behind), length-append before behind)

pub enqueue-Serial : (s : Strand) (t : ℕ) → Serial s → Serial (enqueue s t)
unfolding enqueue
enqueue-Serial s t (inl (r, d)) = rw r (inl (refl, d))
enqueue-Serial s t (inr (r, d, e)) =
    rw r (inl (refl, omega (arith, length-append s.drains (at_lock ∷ []))))

pub drain_take-Serial :
    (before behind : List Pc) (tasks : List ℕ) (s : Strand)
    → s.tasks ≡ tasks
    → s.drains ≡ before ++ at_lock ∷ behind
    → Serial s
    → Serial (drain_take before behind tasks s)
unfolding drain_take
drain_take-Serial before behind [] s q e (inl (r, d)) =
    inr (refl, omega (arith, ap length e, length-around before behind at_lock), q)
drain_take-Serial before behind (t ∷ rest) s q e (inl (r, d)) = inl (
  r,
  omega (
    arith,
    ap length e,
    length-around before behind at_lock,
    length-around before behind (in_task t),
  ),
)
drain_take-Serial before behind tasks s q e (inr (r, d, n)) =
    absurd (omega (arith, ap length e, length-around before behind at_lock))

pub task_ends-Serial :
    (before behind : List Pc) (t : ℕ) (s : Strand)
    → s.drains ≡ before ++ in_task t ∷ behind
    → Serial s
    → Serial (task_ends before behind s)
unfolding task_ends
task_ends-Serial before behind t s e (inl (r, d)) = inl (
  r,
  omega (
    arith,
    ap length e,
    length-around before behind at_lock,
    length-around before behind (in_task t),
  ),
)
task_ends-Serial before behind t s e (inr (r, d, n)) =
    absurd (omega (arith, ap length e, length-around before behind (in_task t)))

Step-Serial : {s u : Strand} {ts : List ℕ} → Step s ts u → Serial s → Serial u
Step-Serial {s} (enqueues t e q) v = rw e (enqueue-Serial s t v)
Step-Serial {s} (takes before behind d e q) v =
    rw e (drain_take-Serial before behind s.tasks s refl d v)
Step-Serial {s} (ends before behind t d e q) v = rw e (task_ends-Serial before behind t s d v)

-- In every reachable state at most one Drain_ is on its way, so no two tasks run at a time; and
-- whenever a task waits, there is one that will come to it.
pub Run-Serial : {u : Strand} {ts : List ℕ} → Run empty_strand ts u → Serial u
Run-Serial start = inr (refl, refl, refl)
Run-Serial (next r st) = Step-Serial st (Run-Serial r)

enqueue-order :
    (s : Strand) (t : ℕ)
    → (enqueue s t).started ++ (enqueue s t).tasks ≡ (s.started ++ s.tasks) ++ t ∷ []
unfolding enqueue
enqueue-order s t = elim (Bool-cases s.running) [
  | inl e ↦ rw e (sym (append_assoc s.started s.tasks (t ∷ [])))
  | inr e ↦ rw e (sym (append_assoc s.started s.tasks (t ∷ [])))
]

drain_take-order :
    (before behind : List Pc) (tasks : List ℕ) (s : Strand)
    → s.tasks ≡ tasks
    → (drain_take before behind tasks s).started ++ (drain_take before behind tasks s).tasks
      ≡ s.started ++ tasks
unfolding drain_take
drain_take-order before behind [] s q = ap (λ l. s.started ++ l) q
drain_take-order before behind (t ∷ rest) s q = append_assoc s.started (t ∷ []) rest

task_ends-order :
    (before behind : List Pc) (s : Strand)
    → (task_ends before behind s).started ++ (task_ends before behind s).tasks
      ≡ s.started ++ s.tasks
unfolding task_ends
task_ends-order before behind s = refl

Step-order :
    {s u : Strand} {ts : List ℕ} → Step s ts u → u.started ++ u.tasks ≡ (s.started ++ s.tasks) ++ ts
Step-order {s} (enqueues t e q) = rw (e, q) (enqueue-order s t)
Step-order {s} (takes before behind d e q) =
    rw (e, q, append-nil) (drain_take-order before behind s.tasks s refl)
Step-order {s} (ends before behind t d e q) =
    rw (e, q, append-nil) (task_ends-order before behind s)

-- Tasks start in the order in which they were enqueued, and each of them once: those that have
-- started, and behind them those that wait, are all that were enqueued.
pub started_in_order :
    {u : Strand} {ts : List ℕ} → Run empty_strand ts u → u.started ++ u.tasks ≡ ts
started_in_order start = refl
started_in_order (next {us} r st) = Step-order st ∙ ap (λ l. l ++ us) (started_in_order r)
