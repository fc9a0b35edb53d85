-- ===== src/Context/Singleton/Once.antt =====
-- Which configuration the pool of context/context.cpp runs with.
use logger_high.Base.{
  ℕ, ◌≡◌, refl, ◌∙◌, ap, true, List, [], ◌∷◌, Option, none, some, if◌then◌else◌, arith,
}
use logger_high.Context.ThreadPool.{
  Config, ThreadPool, normalize, new_pool, spawn, enqueue, spawn_if_loaded, stop, take_handles,
}
use logger_high.Context.Singleton.{
  Context, new_context, configure, ensure_pool, enqueued, post_detached, shutdown, Call, configures,
  takes_pool, posts, shuts_down, call, call_all,
}

-- The last Configure before the first use of the pool, or `cfg`; `none` where nothing uses the pool.
unfoldable pub chosen : Config → List Call → Option Config
chosen cfg [] = none
chosen cfg (configures cfg' ∷ ks) = chosen cfg' ks
chosen cfg (takes_pool ∷ ks) = some cfg
chosen cfg (posts t ∷ ks) = some cfg
chosen cfg (shuts_down ∷ ks) = chosen cfg ks

abbrev pub normal : Option Config → Option Config
normal none = none
normal (some cfg) = some (normalize cfg)

abbrev pub pool_config : Option ThreadPool → Option Config
pool_config none = none
pool_config (some p) = some p.config

enqueue-config : (p : ThreadPool) (t : ℕ) → (enqueued (enqueue p t)).config ≡ p.config
unfolding enqueue spawn_if_loaded spawn
enqueue-config p t = ground arith

shutdown-config :
    (p : ThreadPool) → (if p.stopped then p else take_handles (stop p)).config ≡ p.config
unfolding stop take_handles
shutdown-config p = ground arith

abbrev made : Config → ThreadPool → Context
made pending p = record { pending_cfg = pending; configured = true; pool = some p }

-- A call on a context that has a pool leaves it one with the same configuration.
call-made :
    (k : Call) (pending : Config) (p : ThreadPool)
    → (p' : ThreadPool) × (call k (made pending p) ≡ made pending p') × (p'.config ≡ p.config)
unfolding call configure ensure_pool post_detached shutdown
call-made (configures cfg) pending p = (p, refl, refl)
call-made takes_pool pending p = (p, refl, refl)
call-made (posts t) pending p = (enqueued (enqueue p t), refl, enqueue-config p t)
call-made shuts_down pending p =
    (if p.stopped then p else take_handles (stop p), refl, shutdown-config p)

call_all-made :
    (ks : List Call) (pending : Config) (p : ThreadPool)
    → pool_config (call_all ks (made pending p)).pool ≡ some p.config
unfolding call_all
call_all-made [] pending p = refl
call_all-made (k ∷ ks) pending p =
    let (p', e, same) = call-made k pending p in
    ap (λ c. pool_config (call_all ks c).pool) e ∙ call_all-made ks pending p' ∙ ap some same

-- After any calls on a fresh context, there is a pool if and only if one of them used it, and its
-- configuration is the normal form of the last Configure before that first use, or of the default
-- where there was none: no later Configure, and no Shutdown, changes it.
pub call_all-chosen :
    (ks : List Call) (defaults : Config)
    → pool_config (call_all ks (new_context defaults)).pool ≡ normal (chosen defaults ks)
unfolding call_all call configure ensure_pool post_detached shutdown chosen new_pool
call_all-chosen [] cfg = refl
call_all-chosen (configures cfg' ∷ ks) cfg = call_all-chosen ks cfg'
call_all-chosen (takes_pool ∷ ks) cfg = call_all-made ks cfg (new_pool cfg)
call_all-chosen (posts t ∷ ks) cfg =
    call_all-made ks cfg (enqueued (enqueue (new_pool cfg) t))
    ∙ ap some (enqueue-config (new_pool cfg) t)
call_all-chosen (shuts_down ∷ ks) cfg = call_all-chosen ks cfg
