-- ===== src/Tests/Services.antt =====
-- The cipher, the key set-up, the strand, the pool, eviction and the handle.
use logger_high.Base.{
  ℕ, ◌+◌, ◌≤◌, ◌≡◌, ◌≢◌, ◌⊎◌, refl, true, false, List, [], ◌∷◌, ◌++◌, Option, none, some, ok,
  throws, length, replicate, arith, All,
}
use logger_high.Crypt.Cipher.{build_nonce, encrypt, decrypt, u32_max}
use logger_high.Crypt.Cipher.Nonce.{calls, nonces_distinct, nonce_reused}
use logger_high.Crypt.Cipher.RoundTrip.{decrypt-encrypt}
use logger_high.Crypt.Keys.{create_keys}
use logger_high.Crypt.Keys.Agreement.{key_file, auditor, create_keys-derive}
use logger_high.Errors.{nonce_counter_exhausted}
use logger_high.Audit.ShardReader.{derive_aes_key}
use logger_high.Utils.{InternalCalls, logs_internal, no_call, then_call, internal_logs}
use logger_high.Utils.Guard.{lines_of, internal_logs-lines_of}
use logger_high.Context.Strand as St
use logger_high.Context.Strand.{Strand, empty_strand, Serial}
use logger_high.Context.ThreadPool as Tp
use logger_high.Context.ThreadPool.{ThreadPool}
use logger_high.Context.ThreadPool.Workers as Tw
use logger_high.Context.ThreadPool.Order as To
use logger_high.Context.Singleton.{new_context, configures, posts, shuts_down, call_all}
use logger_high.Context.Singleton.Once as Once
use logger_high.Context.Singleton.Once.{chosen, call_all-chosen}
use logger_high.Sinks.EvictionRunner.{DirEntry, Entry, Runner, evict, sum_sizes, prefix, suffix}
use logger_high.Sinks.EvictionRunner.Sweep.{evict_total, IsKeeper}
use logger_high.Handle.{LogLevel}
use logger_high.Tests.Values.{
  key32, plain_gcm, plain_gcm-IsGcm, cipher, sum_dh, sum_dh-IsDh, backend, padded, add_bytes,
}

nonces_distinct_example :
    (n : List ℕ) × (m : List ℕ) × ((build_nonce (calls 1 cipher)).1 ≡ ok n)
    × ((build_nonce (calls 2 cipher)).1 ≡ ok m)
    × (n ≢ m)
nonces_distinct_example =
    nonces_distinct cipher 1 2 refl (omega arith) (omega arith) (λ e. absurd (omega (arith, e)))

nonce_reused_example :
    ((build_nonce (calls u32_max cipher)).1 ≡ throws nonce_counter_exhausted)
    × ((build_nonce (build_nonce (calls u32_max cipher)).0).1 ≡ (build_nonce cipher).1)
nonce_reused_example = nonce_reused cipher refl

decrypt-encrypt_example :
    (out : List ℕ) × ((encrypt plain_gcm false cipher (3 ∷ 4 ∷ [])).1 ≡ ok out)
    × (decrypt plain_gcm cipher out ≡ ok (3 ∷ 4 ∷ []))
    × (length out ≡ 2 + 28)
decrypt-encrypt_example =
    decrypt-encrypt plain_gcm cipher cipher (3 ∷ 4 ∷ []) plain_gcm-IsGcm (omega arith) refl refl

abbrev priv : List ℕ
priv = replicate 32 2

abbrev kdf : List ℕ → List ℕ → List ℕ → ℕ → Option (List ℕ)
kdf secret salt info n = some key32

create_keys-derive_example :
    (create_keys sum_dh kdf (key_file (padded priv)) (5 ∷ []) ≡ ok (padded (5 ∷ []), key32))
    × (length (padded (5 ∷ [])) ≡ 32)
    × (derive_aes_key (auditor sum_dh kdf backend) priv (padded (5 ∷ [])) ≡ ok key32)
create_keys-derive_example =
    create_keys-derive sum_dh kdf backend priv (5 ∷ []) (add_bytes (padded (5 ∷ [])) (padded priv))
      key32 sum_dh-IsDh refl refl refl

-- A task is enqueued, and a Drain_ begins it.
abbrev strand_run : St.Run empty_strand ([] ++ 4 ∷ []) (St.enqueue empty_strand 4)
strand_run = St.next St.start (St.enqueues 4 refl refl)

Run-Serial_example : Serial (St.enqueue empty_strand 4)
Run-Serial_example = St.Run-Serial strand_run

started_in_order_example :
    (St.enqueue empty_strand 4).started ++ (St.enqueue empty_strand 4).tasks ≡ 4 ∷ []
started_in_order_example = St.started_in_order strand_run

abbrev pool_config : Tp.Config
pool_config = record { min_threads = 1; max_threads = 2; scale_factor = 2 }

-- A task is handed to the pool, and its one worker takes it.
abbrev pool_run :
    Tw.Run pool_config
      (([] ++ 9 ∷ []) ++ [])
      (Tp.worker_step (9 ∷ []) (Tp.enqueue (Tp.new_pool pool_config) 9).0)
unfolding Tp.new_pool Tp.enqueue Tp.worker_step Tp.normalize
pool_run = Tw.next (Tw.next Tw.begin (Tw.enqueues 9 refl refl)) (Tw.works (omega arith) refl refl)

Run-Inv_example : Tw.Inv (Tp.worker_step (9 ∷ []) (Tp.enqueue (Tp.new_pool pool_config) 9).0)
unfolding Tp.new_pool Tp.enqueue Tp.worker_step Tp.normalize
Run-Inv_example = Tw.Run-Inv pool_run

-- The pool is stopped behind that, and a task that comes then runs in its caller.
abbrev stopped_pool : Tp.ThreadPool
stopped_pool = Tp.stop (Tp.worker_step (9 ∷ []) (Tp.enqueue (Tp.new_pool pool_config) 9).0)

stopped_run : Tw.Run pool_config ((([] ++ 9 ∷ []) ++ []) ++ []) stopped_pool
unfolding Tp.new_pool Tp.enqueue Tp.worker_step Tp.normalize
stopped_run = Tw.next pool_run (Tw.stops refl refl)

taken_in_order_example :
    let late = (Tp.enqueue stopped_pool 8).0 in
    (To.all_tasks late ≡ 9 ∷ 8 ∷ [])
    × ((late.inline_run ≡ []) ⊎ (late.stopped ≡ true))
    × ((stopped_pool.stopped ≡ false) ⊎ To.Inline stopped_pool (8 ∷ []) late)
taken_in_order_example = To.taken_in_order stopped_run (To.step To.now (Tw.enqueues 8 refl refl))

abbrev shard_name : ℕ → List ℕ
shard_name n = prefix ++ n ∷ suffix

abbrev entries : List Entry
entries =
    record { filename = shard_name 1; size = 10; canonical = some 1; removable = true }
    ∷ record { filename = shard_name 2; size = 20; canonical = some 2; removable = true }
    ∷ []

-- Over a cap of 15 the older shard goes, and the active one stays although it is too large.
evict_total_example :
    ((evict 15 (some 2) entries 30).total ≡ 0 + sum_sizes (evict 15 (some 2) entries 30).kept)
    × (((evict 15 (some 2) entries 30).total ≤ 15)
        ⊎ All (IsKeeper (some 2)) (evict 15 (some 2) entries 30).kept)
evict_total_example = evict_total 15 (some 2) entries 0 30 refl

abbrev running : Runner
running = record { started = true; stop_flag = false; joinable = true }

abbrev gone : DirEntry
gone = record {
  filename = shard_name 3;
  regular = some true;
  file_size = none;
  canonical = some 3;
  removable = true;
}

abbrev large : DirEntry
large = record gone { filename = shard_name 4; file_size = some 900 }

abbrev pool_config_2 : Tp.Config
pool_config_2 = record { min_threads = 3; max_threads = 0; scale_factor = 0 }

-- The second Configure comes after the first task and is ignored.
call_all-chosen_example :
    Once.pool_config
      (call_all
        (configures pool_config_2 ∷ posts 7 ∷ configures pool_config ∷ shuts_down ∷ [])
        (new_context pool_config)).pool
    ≡ some (Tp.normalize pool_config_2)
unfolding chosen
call_all-chosen_example =
    call_all-chosen (configures pool_config_2 ∷ posts 7 ∷ configures pool_config ∷ shuts_down ∷ [])
      pool_config

abbrev broken_pipe : InternalCalls
broken_pipe = then_call (logs_internal LogLevel.error (7 ∷ []) (8 ∷ []) true no_call) (
    then_call
      (logs_internal LogLevel.warn (7 ∷ []) (9 ∷ []) false
        (then_call (logs_internal LogLevel.info (7 ∷ []) (10 ∷ []) false no_call) no_call))
      no_call)

internal_logs-lines_of_example :
    internal_logs (record { in_internal_log = false; err = [] }) broken_pipe
    ≡ record { in_internal_log = false; err = [] ++ lines_of broken_pipe }
internal_logs-lines_of_example =
    internal_logs-lines_of (record { in_internal_log = false; err = [] }) broken_pipe refl
