-- ===== src/Context/Singleton.antt =====
-- context/context.h and context/context.cpp: the process-wide context, its configuration, and the
-- pool that it makes at the first use.
--
-- `std::call_once` has run if and only if there is a pool. Threads are taken to start, so the pool's
-- constructor returns. One call is one step.
pub mod Once
use logger_high.Base.{ℕ, Bool, true, false, List, [], ◌∷◌, Option, none, some, if◌then◌else◌}
use logger_high.Context.ThreadPool.{
  Config, ThreadPool, new_pool, enqueue, spawn_if_loaded, stop, take_handles,
}

pub record Context : Type 0 where
  pub pending_cfg : Config
  pub configured : Bool
  pub pool : Option ThreadPool

-- The constructor, for what Config::Default returns.
abbrev pub new_context : Config → Context
new_context defaults = record { pending_cfg = defaults; configured = false; pool = none }

unfoldable pub configure : Config → Context → Context
configure cfg c = if c.configured then c else record c { pending_cfg = cfg }

abbrev pub made_once : Context → Option ThreadPool → Context
made_once c none = record c { configured = true; pool = some (new_pool c.pending_cfg) }
made_once c (some p) = c

unfoldable pub ensure_pool : Context → Context
ensure_pool c = made_once c c.pool

-- PostDetached of the pool: Enqueue_, and its second part if the first asked for it.
abbrev pub enqueued : ThreadPool × Bool → ThreadPool
enqueued (p, need_spawn) = if need_spawn then spawn_if_loaded p else p

abbrev pub on_pool : (ThreadPool → ThreadPool) → Option ThreadPool → Option ThreadPool
on_pool f none = none
on_pool f (some p) = some (f p)

unfoldable pub post_detached : ℕ → Context → Context
unfolding ensure_pool
post_detached t c =
    let c' = ensure_pool c in record c' { pool = on_pool (λ p. enqueued (enqueue p t)) c'.pool }

-- Shutdown, which does nothing where there is no pool; ThreadPool::Shutdown may run twice.
unfoldable pub shutdown : Context → Context
shutdown c = record c {
  pool = on_pool (λ p. if p.stopped then p else take_handles (stop p)) c.pool;
}

-- What a program may call. Pool and MakeStrand make the pool and touch nothing else.
pub data Call : Type 0 where
  configures : Config → Call
  takes_pool : Call
  posts : ℕ → Call
  shuts_down : Call

unfoldable pub call : Call → Context → Context
unfolding configure ensure_pool post_detached shutdown
call (configures cfg) c = configure cfg c
call takes_pool c = ensure_pool c
call (posts t) c = post_detached t c
call shuts_down c = shutdown c

unfoldable pub call_all : List Call → Context → Context
unfolding call
call_all [] c = c
call_all (k ∷ ks) c = call_all ks (call k c)
