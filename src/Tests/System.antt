-- ===== src/Tests/System.antt =====
-- The store between the sink and the shards, and the whole pipeline.
use logger_high.Base.{
  ℕ, ◌≡◌, refl, sym, true, List, [], ◌∷◌, ◌++◌, Option, some, ok, replicate, arith,
}
use logger_high.Bytes.{encode_le_u32}
use logger_high.Crypt.Cipher.{encrypt, build_nonce}
use logger_high.Mmap.Buffer.{write, reserve_and_copy}
use logger_high.Mmap.Store.{
  Config, MmapStore, try_write, new_store, normalize, first_buffer, retry, drain_next, drain_one,
  acquire, swap_master,
}
use logger_high.Mmap.Store.Start.{Made, new_store-Made, first-Inv, no_frames}
use logger_high.Mmap.Store.Delivery.{
  Run, start, next, writes, retries, drains_one, Accounts, Run-Accounts, progress,
}
use logger_high.Mmap.Store.Invariant.{Loose}
use logger_high.Mmap.Store.Swaps.{Zeroed, Has}
use logger_high.Sinks.ShardWriter.{
  ShardWriter, Io, flush_calls, close_calls, new_shard_writer, open_new_shard, write_header,
}
use logger_high.Sinks.ShardWriter.Faults.{new_shard_writer-Holds}
use logger_high.Sinks.EffectiveSink.{Stages, log_frame, on_persist, flush_sink, destroy_sink}
use logger_high.Sinks.EffectiveSink.Flush.{flush-audit, destroy-audit}
use logger_high.Sinks.EffectiveSink.EndToEnd.{Decodes, in_order, Sealed}
use logger_high.Sinks.EffectiveSink.Pipeline.{pipeline-audit}
use logger_high.Audit.ShardReader.{derive_aes_key}
use mathlib.Core.Option
use logger_high.Tests.Values.{key32, backend, cipher, plain_gcm, plain_gcm-IsGcm}

abbrev pub disk : Io
disk = record { opened = true; header_wrote = 48; wrote = 4096 }

abbrev pub files : ℕ → Option (List ℕ)
files q = some (replicate 64 0)

abbrev pub fresh : ShardWriter
fresh = (new_shard_writer 100 key32 true disk).0

abbrev config : Config
config = record { buffer_bytes = 64; min_buffers = 2; max_buffers = 3 }

new_store-Made_example :
    (s : MmapStore ShardWriter) × (new_store files (on_persist disk) true true config fresh ≡ ok s)
    × Made files (on_persist disk) s fresh
    × (s.pool_size ≡ (normalize config).min_buffers)
new_store-Made_example =
    new_store-Made files (on_persist disk) config fresh (λ q. (64, omega arith, refl))

-- A store of one buffer of 64 bytes.
abbrev pub empty_store : MmapStore ShardWriter
empty_store =
    first_buffer files (on_persist disk)
      (record { buffer_bytes = 64; min_buffers = 1; max_buffers = 3 }) fresh (replicate 64 0)

pub files-Zeroed : Zeroed files (on_persist disk)
files-Zeroed q image e = (64, omega arith, sym (Option.some_inj.0 e))

pub empty_store-Has : Has files (on_persist disk) empty_store []
empty_store-Has = (
  no_frames files (on_persist disk),
  first-Inv files (on_persist disk) (record { buffer_bytes = 64; min_buffers = 1; max_buffers = 3 })
      fresh 64 (omega arith) (omega arith),
  refl,
)

pub empty_store-Loose : Loose empty_store (λ _. [])
empty_store-Loose =
    (first-Inv files (on_persist disk)
      (record { buffer_bytes = 64; min_buffers = 1; max_buffers = 3 }) fresh 64 (omega arith)
      (omega arith)).loose

abbrev pub stages : Stages (List ℕ)
stages = record { format = ok; compress = ok }

-- The frame of the message 3, 4: a length word, a nonce, the message, and the tag.
abbrev pub logged : List ℕ
logged =
    encode_le_u32 30 ++ (replicate 8 1 ++ (0 ∷ 0 ∷ 0 ∷ 0 ∷ [])) ++ ((3 ∷ 4 ∷ []) ++ replicate 16 0)

abbrev pub after_write : MmapStore ShardWriter
after_write = (try_write files (on_persist disk) empty_store 0 logged).0

abbrev after_swap : MmapStore ShardWriter
after_swap = (retry files (on_persist disk) after_write after_write.master).1

abbrev after_drain : MmapStore ShardWriter
after_drain = drain_next files (on_persist disk) after_swap

-- The message is accepted, its buffer retired and drained.
logged_run : Run files (on_persist disk) empty_store (logged ∷ []) after_drain
unfolding try_write write reserve_and_copy encode_le_u32
logged_run =
    next (next (next start (writes logged (omega arith) refl refl)) (retries refl refl))
      (drains_one refl refl)

Run-Accounts_example :
    Accounts files
      (on_persist disk)
      (progress files (on_persist disk) empty_store)
      (logged ∷ [])
      after_drain
Run-Accounts_example = Run-Accounts files (on_persist disk) files-Zeroed empty_store-Has logged_run

abbrev pub shown : List ℕ → List ℕ
shown m = m

-- The one message is on disk, or still in the store.
pipeline-audit_example :
    (rss : List (List (List ℕ))) × (waiting : List (List ℕ)) × (held : List (List ℕ)) × Decodes
      stages plain_gcm backend key32 shown key32 after_drain.sink.shards rss
    × (in_order stages plain_gcm backend key32 shown rss ++ waiting ≡ shown (3 ∷ 4 ∷ []) ∷ [])
    × Has files (on_persist disk) after_drain held
    × Sealed stages plain_gcm backend key32 shown held waiting
unfolding log_frame encrypt build_nonce new_shard_writer open_new_shard write_header derive_aes_key
    encode_le_u32
pipeline-audit_example =
    pipeline-audit stages plain_gcm backend key32 shown files disk cipher ((3 ∷ 4 ∷ []) ∷ []) key32
      empty_store after_drain plain_gcm-IsGcm (λ body. refl)
      ((3 ∷ 4 ∷ [], 3 ∷ 4 ∷ [], refl, refl, refl, refl, omega arith), tt) (omega arith) refl refl
      refl (new_shard_writer-Holds 100 key32 disk refl (omega arith) refl (omega arith)).1
      ((refl, omega arith, omega arith), tt) files-Zeroed empty_store-Has logged_run

-- The one message can be read back from the shards of a writer.
abbrev ReadBack : ShardWriter → Type 0
ReadBack w =
    (rss : List (List (List ℕ))) × Decodes stages plain_gcm backend key32 shown key32 w.shards rss
    × (in_order stages plain_gcm backend key32 shown rss ≡ shown (3 ∷ 4 ∷ []) ∷ [])

flush-audit_example :
    (u : MmapStore ShardWriter) × (flush_sink files disk 1 true after_drain
      ≡ some (u, flush_calls true u.sink))
    × ReadBack u.sink
    × Has files (on_persist disk) u []
unfolding log_frame encrypt build_nonce new_shard_writer open_new_shard write_header derive_aes_key
    encode_le_u32 try_write retry acquire swap_master drain_next drain_one write reserve_and_copy
flush-audit_example =
    flush-audit stages plain_gcm backend key32 shown files disk cipher ((3 ∷ 4 ∷ []) ∷ []) key32
      true 1 empty_store after_drain plain_gcm-IsGcm (λ body. refl)
      ((3 ∷ 4 ∷ [], 3 ∷ 4 ∷ [], refl, refl, refl, refl, omega arith), tt) (omega arith) refl refl
      refl (new_shard_writer-Holds 100 key32 disk refl (omega arith) refl (omega arith)).1
      ((refl, omega arith, omega arith), tt) (λ q. (64, omega arith, refl)) empty_store-Has
      logged_run refl (omega arith) (omega arith)

destroy-audit_example :
    (u : MmapStore ShardWriter) × (destroy_sink files disk 1 true after_drain
      ≡ some (u, flush_calls true u.sink ++ close_calls u.sink))
    × ReadBack u.sink
    × (u.stopped ≡ true)
unfolding log_frame encrypt build_nonce new_shard_writer open_new_shard write_header derive_aes_key
    encode_le_u32 try_write retry acquire swap_master drain_next drain_one write reserve_and_copy
destroy-audit_example =
    destroy-audit stages plain_gcm backend key32 shown files disk cipher ((3 ∷ 4 ∷ []) ∷ []) key32
      true 1 empty_store after_drain plain_gcm-IsGcm (λ body. refl)
      ((3 ∷ 4 ∷ [], 3 ∷ 4 ∷ [], refl, refl, refl, refl, omega arith), tt) (omega arith) refl refl
      refl (new_shard_writer-Holds 100 key32 disk refl (omega arith) refl (omega arith)).1
      ((refl, omega arith, omega arith), tt) (λ q. (64, omega arith, refl)) empty_store-Has
      logged_run refl (omega arith) (omega arith)
