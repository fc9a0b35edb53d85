-- ===== src/Tests/Threads.antt =====
-- Several producers, a Flush and the strand over one store.
use logger_high.Base.{
  ℕ, ◌≡◌, refl, sym, true, Bool, List, [], ◌∷◌, ◌++◌, Option, some, replicate, arith,
}
use logger_high.Bytes.{encode_le_u32, decode_le_u32}
use logger_high.Mmap.Buffer.{
  write, reserve_and_copy, reset_for_reuse, seal, for_each_frame, frames_loop,
}
use logger_high.Mmap.Buffer.Fill.{extended}
use logger_high.Mmap.Store.{
  MmapStore, first_buffer, try_write, swap_master, add_buffer, drain_next, drain_one, update, retry,
  acquire, flush, persist_all,
}
use logger_high.Mmap.Store.Invariant.{Loose}
use logger_high.Mmap.Store.Loose.{swap_fresh-Loose, drain_next-Loose}
use logger_high.Mmap.Store.Start.{first-Inv, no_frames}
use logger_high.Mmap.Store.Swaps.{Zeroed}
use logger_high.Mmap.Store.Delivery.{progress}
use logger_high.Mmap.Store.Gaps.{flush_strands}
use logger_high.Mmap.Store.Producers.{
  World, Event, resting, calls_append, calls_flush, moves, strand_moves, no_drain, drain_on, play,
  advance, begin_flush, Played, none_played, one_more,
}
use logger_high.Mmap.Store.Producers.Conserved.{Conserved, Played-Conserved}
use mathlib.Core.List.{mem-cons}
use mathlib.Core.Logic.Or
use mathlib.Core.Option
use logger_high.Crypt.Cipher.{encrypt, build_nonce}
use logger_high.Sinks.ShardWriter.{ShardWriter, new_shard_writer, open_new_shard, write_header}
use logger_high.Sinks.ShardWriter.Faults.{new_shard_writer-Holds}
use logger_high.Sinks.EffectiveSink.{log_frame, on_persist}
use logger_high.Sinks.EffectiveSink.Interleaved.{InShards, interleaved-audit}
use logger_high.Audit.ShardReader.{derive_aes_key}
use logger_high.Tests.Values.{key32, backend, cipher, plain_gcm, plain_gcm-IsGcm}
use logger_high.Tests.System.{
  disk, files, files-Zeroed, empty_store, empty_store-Loose, logged, stages, shown,
}

-- `on_persist` keeps what it gets.
abbrev keep : List (List ℕ) → List ℕ → List (List ℕ) × Bool
keep sink p = (sink ++ p ∷ [], true)

abbrev pages : ℕ → Option (List ℕ)
pages q = some (replicate 16 0)

pages-Zeroed : Zeroed pages keep
pages-Zeroed q image e = (16, omega arith, sym (Option.some_inj.0 e))

abbrev one_page : MmapStore (List (List ℕ))
one_page =
    first_buffer pages keep (record { buffer_bytes = 16; min_buffers = 1; max_buffers = 3 }) []
      (replicate 16 0)

one_page-Loose : Loose one_page (λ _. [])
one_page-Loose =
    (first-Inv pages keep (record { buffer_bytes = 16; min_buffers = 1; max_buffers = 3 }) [] 16
      (omega arith) (omega arith)).loose

-- Its one buffer was retired for a new one, and drained.
abbrev rotated : MmapStore (List (List ℕ))
rotated =
    drain_next pages keep
      (swap_master pages keep (add_buffer pages keep one_page (replicate 16 0)) 1)

abbrev retired : MmapStore (List (List ℕ))
retired = swap_master pages keep (add_buffer pages keep one_page (replicate 16 0)) 1

abbrev blank : ℕ → List (List ℕ)
blank = update (update (no_frames pages keep) 1 []) 0 []

rotated-Loose : Loose rotated blank
unfolding swap_master
rotated-Loose =
    let first =
      swap_fresh-Loose pages keep one_page (no_frames pages keep) 16 (omega arith) (omega arith)
        one_page-Loose in
    (drain_next-Loose pages keep
      (swap_master pages keep (add_buffer pages keep one_page (replicate 16 0)) 1)
      (update (no_frames pages keep) 1 []) 0 [] refl first).0

abbrev late : List ℕ
late = 5 ∷ 6 ∷ []

-- A Write by a producer that read buffer 0 as the master.
abbrev stranded : MmapStore (List (List ℕ))
stranded = (try_write pages keep rotated 0 late).0

flush_strands_example :
    (flush pages keep 3 stranded ≡ some stranded)
    × Loose stranded
        (update blank 0 (extended (blank 0) late (try_write pages keep rotated 0 late).1))
    × (progress pages keep stranded ≡ progress pages keep rotated)
unfolding swap_master drain_next drain_one reset_for_reuse
flush_strands_example =
    flush_strands pages keep rotated blank 0 late rotated-Loose (mem-cons.1 (Or.inl refl)) refl refl
      refl refl (omega arith) (omega arith) 3

-- It was accepted.
stranded_accepted : (try_write pages keep rotated 0 late).1 ≡ true
unfolding swap_master drain_next drain_one try_write write reserve_and_copy encode_le_u32
    reset_for_reuse seal
stranded_accepted = refl

abbrev calm : World (List (List ℕ))
calm = record { store = one_page; drain = no_drain; threads = λ _. resting }

abbrev long_one : List ℕ
long_one = replicate 11 7

abbrev small_one : List ℕ
small_one = 9 ∷ []

abbrev after_all : World (List (List ℕ)) → List Event → World (List (List ℕ))
after_all w [] = w
after_all w (e ∷ es) = after_all (play pages keep w e).0 es

-- Threads 0 and 3 read the master, thread 1 fills and retires it, and the strand drains it: thread 3
-- is turned down by the sealed buffer, and thread 0 still writes to it before it is free again; then
-- thread 2 flushes.
abbrev events : List Event
events =
    calls_append 0 late
    ∷ moves 0
    ∷ calls_append 3 small_one
    ∷ moves 3
    ∷ calls_append 1 long_one
    ∷ moves 1
    ∷ moves 1
    ∷ calls_append 1 small_one
    ∷ moves 1
    ∷ moves 1
    ∷ moves 1
    ∷ moves 1
    ∷ moves 1
    ∷ strand_moves
    ∷ moves 3
    ∷ strand_moves
    ∷ strand_moves
    ∷ strand_moves
    ∷ moves 0
    ∷ strand_moves
    ∷ calls_flush 2
    ∷ strand_moves
    ∷ strand_moves
    ∷ strand_moves
    ∷ strand_moves
    ∷ strand_moves
    ∷ []

abbrev all_played : World (List (List ℕ))
all_played = after_all calm events

handed_out : all_played.store.sink ≡ long_one ∷ small_one ∷ []
unfolding play advance begin_flush acquire retry swap_master drain_on try_write write
    reserve_and_copy encode_le_u32 seal persist_all for_each_frame frames_loop decode_le_u32
handed_out = refl

events-Played : Played pages keep calm (long_one ∷ small_one ∷ late ∷ []) all_played
unfolding play advance begin_flush acquire retry swap_master drain_on try_write write
    reserve_and_copy encode_le_u32 seal persist_all for_each_frame frames_loop decode_le_u32
events-Played =
    one_more strand_moves
      (one_more strand_moves
        (one_more strand_moves
          (one_more strand_moves
            (one_more strand_moves
              (one_more (calls_flush 2)
                (one_more strand_moves
                  (one_more (moves 0)
                    (one_more strand_moves
                      (one_more strand_moves
                        (one_more strand_moves
                          (one_more (moves 3)
                            (one_more strand_moves
                              (one_more (moves 1)
                                (one_more (moves 1)
                                  (one_more (moves 1)
                                    (one_more (moves 1)
                                      (one_more (moves 1)
                                        (one_more (calls_append 1 small_one)
                                          (one_more (moves 1)
                                            (one_more (moves 1)
                                              (one_more (calls_append 1 long_one)
                                                (one_more (moves 3)
                                                  (one_more (calls_append 3 small_one)
                                                    (one_more (moves 0)
                                                      (one_more (calls_append 0 late) none_played
                                                        tt)
                                                      tt)
                                                    tt)
                                                  tt)
                                                tt)
                                              tt)
                                            (omega arith, tt))
                                          tt)
                                        tt)
                                      (omega arith, tt))
                                    tt)
                                  tt)
                                (omega arith, tt))
                              tt)
                            (omega arith, tt))
                          tt)
                        tt)
                      tt)
                    (omega arith, tt))
                  tt)
                tt)
              tt)
            tt)
          tt)
        tt)
      tt

Played-Conserved_example :
    Conserved pages keep
      (progress pages keep calm.store)
      (long_one ∷ small_one ∷ late ∷ [])
      all_played
Played-Conserved_example =
    Played-Conserved pages keep pages-Zeroed one_page-Loose (λ k. refl) refl events-Played

abbrev on_files : World ShardWriter
on_files = record { store = empty_store; drain = no_drain; threads = λ _. resting }

abbrev after_files : World ShardWriter → List Event → World ShardWriter
after_files w [] = w
after_files w (e ∷ es) = after_files (play files (on_persist disk) w e).0 es

abbrev flushed_files : World ShardWriter
flushed_files = after_files on_files (
    calls_append 0 logged
    ∷ moves 0
    ∷ calls_flush 1
    ∷ moves 0
    ∷ calls_flush 1
    ∷ strand_moves
    ∷ strand_moves
    ∷ [])

files-Played : Played files (on_persist disk) on_files (logged ∷ []) flushed_files
unfolding play advance begin_flush acquire swap_master drain_on try_write write reserve_and_copy
    encode_le_u32 seal
files-Played =
    one_more strand_moves
      (one_more strand_moves
        (one_more (calls_flush 1)
          (one_more (moves 0)
            (one_more (calls_flush 1)
              (one_more (moves 0) (one_more (calls_append 0 logged) none_played tt) tt) tt)
            (omega arith, tt))
          tt)
        tt)
      tt

interleaved-audit_example :
    ∥ InShards stages plain_gcm backend key32 shown files disk key32 flushed_files
      (shown (3 ∷ 4 ∷ []) ∷ []) ∥₁
unfolding log_frame encrypt build_nonce new_shard_writer open_new_shard write_header derive_aes_key
    encode_le_u32
interleaved-audit_example =
    interleaved-audit stages plain_gcm backend key32 shown files disk cipher ((3 ∷ 4 ∷ []) ∷ [])
      (true ∷ []) key32 on_files flushed_files plain_gcm-IsGcm (λ body. refl)
      ((3 ∷ 4 ∷ [], 3 ∷ 4 ∷ [], refl, refl, refl, refl, omega arith), tt) (omega arith) refl refl
      refl (new_shard_writer-Holds 100 key32 disk refl (omega arith) refl (omega arith)).1
      ((refl, omega arith, omega arith), tt) files-Zeroed empty_store-Loose (λ k. refl) refl
      files-Played
