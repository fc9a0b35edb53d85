-- ===== src/Context/ThreadPool/Order.antt =====
-- The order in which the pool of context/thread_pool.cpp runs its tasks.
use logger_high.Base.{
  ℕ, ◌≡◌, refl, ◌∙◌, ap, sym, ◌⊎◌, inl, inr, true, false, List, [], ◌∷◌, ◌++◌, append_assoc,
  append-nil, Bool-cases, arith, subst,
}
use logger_high.Context.ThreadPool.{
  Config, ThreadPool, new_pool, spawn, enqueue, spawn_if_loaded, worker_step, leave, stop,
  take_handles,
}
use logger_high.Context.ThreadPool.Workers.{
  Step, enqueues, spawns, works, stops, takes_handles, Run, begin, next,
}

-- Every task that was handed in: those a worker took, those that wait, and those run by the caller.
abbrev pub all_tasks : ThreadPool → List ℕ
all_tasks s = (s.started ++ s.tasks) ++ s.inline_run

abbrev pub Split : List ℕ → ThreadPool → Type 0
Split ts s = (all_tasks s ≡ ts) × ((s.inline_run ≡ []) ⊎ (s.stopped ≡ true))

enqueue-Split :
    (s : ThreadPool) (t : ℕ) (ts : List ℕ) → Split ts s → Split (ts ++ t ∷ []) (enqueue s t).0
unfolding enqueue
enqueue-Split s t ts (e, inr stopped) = rw stopped (
  sym (append_assoc (s.started ++ s.tasks) s.inline_run (t ∷ [])) ∙ ap (λ l. l ++ t ∷ []) e,
  inr refl,
)
enqueue-Split s t ts (e, inl none_yet) = elim (Bool-cases s.stopped) [
  | inl stopped ↦ rw stopped (
    sym (append_assoc (s.started ++ s.tasks) s.inline_run (t ∷ [])) ∙ ap (λ l. l ++ t ∷ []) e,
    inr refl,
  )
  | inr open_still ↦
      let all : s.started ++ s.tasks ≡ ts =
        sym (append-nil (s.started ++ s.tasks))
        ∙ ap (λ l. (s.started ++ s.tasks) ++ l) (sym none_yet)
        ∙ e in
      rw open_still (
        ap (λ l. (s.started ++ (s.tasks ++ t ∷ [])) ++ l) none_yet
            ∙ append-nil (s.started ++ (s.tasks ++ t ∷ []))
            ∙ sym (append_assoc s.started s.tasks (t ∷ []))
            ∙ ap (λ l. l ++ t ∷ []) all,
        inl none_yet,
      )
]

worker-Split :
    (s : ThreadPool) (tasks ts : List ℕ)
    → s.tasks ≡ tasks
    → Split ts s
    → Split ts (worker_step tasks s)
unfolding worker_step leave
worker-Split s [] ts e v = ground arith
worker-Split s (t ∷ rest) ts e (q, w) = (
  ap (λ l. l ++ s.inline_run)
        (append_assoc s.started (t ∷ []) rest ∙ ap (λ l. s.started ++ l) (sym e))
      ∙ q,
  w,
)

spawn-Split : (s : ThreadPool) (ts : List ℕ) → Split ts s → Split ts (spawn_if_loaded s)
unfolding spawn_if_loaded spawn
spawn-Split s ts v = ground arith

Step-Split :
    {s u : ThreadPool} {us : List ℕ} (ts : List ℕ) → Step s us u → Split ts s → Split (ts ++ us) u
unfolding stop take_handles
Step-Split {s} ts (enqueues t e q) v = rw (e, q) (enqueue-Split s t ts v)
Step-Split {s} ts (spawns e q) v = rw (e, q, append-nil) (spawn-Split s ts v)
Step-Split {s} ts (works n e q) v = rw (e, q, append-nil) (worker-Split s s.tasks ts refl v)
Step-Split {s} ts (stops e q) v = rw (e, q, append-nil) (v.0, inr refl)
Step-Split {s} ts (takes_handles e q) v = rw (e, q, append-nil) v

Run-Split : {c : Config} {ts : List ℕ} {u : ThreadPool} → Run c ts u → Split ts u
unfolding new_pool
Run-Split begin = (refl, inl refl)
Run-Split (next {ts} r st) = Step-Split ts st (Run-Split r)

-- Steps from a state on, with the tasks that were handed in.
pub data Later (u : ThreadPool) : List ℕ → ThreadPool → Type 0 where
  now : Later u [] u
  step : {us vs : List ℕ} {v w : ThreadPool} → Later u us v → Step v vs w → Later u (us ++ vs) w

Later-Split :
    {u v : ThreadPool} {us : List ℕ} (ts : List ℕ) → Later u us v → Split ts u → Split (ts ++ us) v
Later-Split {v} ts now h = subst (λ l. Split l v) (sym (append-nil ts)) h
Later-Split {v} ts (step {us} {vs} r st) h =
    subst (λ l. Split l v) (append_assoc ts us vs) (Step-Split (ts ++ us) st (Later-Split ts r h))

-- From a stopped pool on, the tasks handed in are run by their callers, and no task is queued.
abbrev pub Inline : ThreadPool → List ℕ → ThreadPool → Type 0
Inline u us v =
    (v.stopped ≡ true)
    × (v.inline_run ≡ u.inline_run ++ us)
    × (v.started ++ v.tasks ≡ u.started ++ u.tasks)

worker-Inline :
    (u v : ThreadPool) (tasks us : List ℕ)
    → v.tasks ≡ tasks
    → Inline u us v
    → Inline u us (worker_step tasks v)
unfolding worker_step leave
worker-Inline u v [] us e h = ground arith
worker-Inline u v (t ∷ rest) us e (s, i, q) =
    (s, i, append_assoc v.started (t ∷ []) rest ∙ ap (λ l. v.started ++ l) (sym e) ∙ q)

spawn-Inline : (u v : ThreadPool) (us : List ℕ) → Inline u us v → Inline u us (spawn_if_loaded v)
unfolding spawn_if_loaded spawn
spawn-Inline u v us h = ground arith

enqueue-Inline :
    (u v : ThreadPool) (us : List ℕ) (t : ℕ)
    → Inline u us v
    → Inline u (us ++ t ∷ []) (enqueue v t).0
unfolding enqueue
enqueue-Inline u v us t (s, i, q) =
    rw s (refl, ap (λ l. l ++ t ∷ []) i ∙ append_assoc u.inline_run us (t ∷ []), q)

Step-Inline :
    {v w : ThreadPool} {vs : List ℕ} (u : ThreadPool) (us : List ℕ)
    → Step v vs w
    → Inline u us v
    → Inline u (us ++ vs) w
unfolding stop take_handles
Step-Inline {v} u us (enqueues t e q) h = rw (e, q) (enqueue-Inline u v us t h)
Step-Inline {v} u us (spawns e q) h = rw (e, q, append-nil) (spawn-Inline u v us h)
Step-Inline {v} u us (works n e q) h = rw (e, q, append-nil) (worker-Inline u v v.tasks us refl h)
Step-Inline {v} u us (stops e q) h = rw (e, q, append-nil) (refl, h.1, h.2)
Step-Inline {v} u us (takes_handles e q) h = rw (e, q, append-nil) h

Later-Inline : {u v : ThreadPool} {us : List ℕ} → u.stopped ≡ true → Later u us v → Inline u us v
Later-Inline {u} s now = (s, sym (append-nil u.inline_run), refl)
Later-Inline {u} s (step {us} r st) = Step-Inline u us st (Later-Inline s r)

-- For a run of the pool, and steps that go on from it. Workers take the tasks in the order in which
-- they were handed in, and no task is dropped: the tasks taken, those that wait, and then those that
-- a caller ran itself, are all that were handed in, in that order. A caller has run one only if the
-- pool is stopped; and if the first run had stopped it, the callers have run the tasks of all the later
-- steps themselves, in order, and none of these was queued.
pub taken_in_order :
    {c : Config} {ts us : List ℕ} {u v : ThreadPool}
    → Run c ts u
    → Later u us v
    → (all_tasks v ≡ ts ++ us)
      × ((v.inline_run ≡ []) ⊎ (v.stopped ≡ true))
      × ((u.stopped ≡ false) ⊎ Inline u us v)
taken_in_order {ts} {u} r more =
    let (all, only) = Later-Split ts more (Run-Split r) in
    (
      all,
      only,
      elim (Bool-cases u.stopped) [
        | inl stopped ↦ inr (Later-Inline stopped more)
        | inr running ↦ inl running
      ],
    )
