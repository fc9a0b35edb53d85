-- ===== src/Lib.antt =====
-- Verification of logger_high, a C++ logging library that writes encrypted, compressed log records
-- through memory-mapped buffers into shard files, and of its offline decoder.
--
-- How a record travels. LogHandle::Log (handle/log_handle.cpp) filters by level and calls each sink.
-- EffectiveSink::Log (sinks/effective_sink.cpp) formats, compresses and encrypts the record, puts a
-- length word before it, and appends that to the MmapStore (mmap/mmap_store.cpp), whose master
-- MmapBuffer (mmap/mmap_buffer.cpp) holds frames over an MmapRegion (mmap/mmap_region.cpp). A full
-- buffer is swapped for a free one and drained by a task of the Strand (context/strand.cpp), which
-- runs on the ThreadPool (context/thread_pool.cpp). The drain hands each payload to the ShardWriter
-- (sinks/shard_writer.cpp), which rotates shard files; the EvictionRunner (sinks/eviction_runner.cpp)
-- removes old ones. DecodeShardFile and DecodeShardDir (audit/shard_reader.cpp) read shards back, and
-- examples/log_decoder.cpp prints what they give.
--
-- The files, and what they model:
--   Base          names and lemmas that the others share; no code
--   Bytes         the 32-bit little-endian words of mmap_buffer.cpp, shard_writer.cpp, shard_reader.cpp
--   Decimal       numbers as std::to_string, printf and the `{:0n}` of a format string print them
--   Errors        one constructor for each exception
--   Names         the order of file names
--   Proto         the fields of proto/log_record.proto
--   Formatter     EffectiveFormatter::Format; Default: DefaultFormatter::Format, ConsoleSink::Log
--   Handle        LogHandle::Log, Flush, ShouldLog, ShouldFlush, the levels of utils/log_level.h
--   Mmap.Frame    the image of a buffer; Mmap.Buffer: Write, Seal, ForEachFrame, ResetForReuse, Sync,
--                 a call at a time, and in Concurrent overlapping Writes and Seal an access at a time
--   Mmap.Region   Create, Sync, Close and the moves of MmapRegion, POSIX branch; Windows: the other
--   Mmap.Store    Append, SwapMasterLocked_, AcquireFreeBufferLocked_, DrainOne_, Flush, the
--                 destructor; Names: BuildBufferPath_; Producers: Append and Flush from any number of
--                 threads, and DrainOne_, a step at a time
--   Compress      Zlib: the constructor, Compress and Decompress of ZlibCompressor
--   Context       Strand: Enqueue_ and Drain_; ThreadPool: Enqueue_, WorkerLoop_, Shutdown;
--                 Singleton: Context::Configure, Pool, PostDetached, Shutdown
--   Crypt         Cipher: AesGcmCipher; Keys: LoadServerPublicKey, DeriveSharedSecret, HkdfSha256 and
--                 the key set-up of EffectiveSink::Create; Gcm: what Crypto++ promises
--   Sinks         ShardWriter, EvictionRunner, EffectiveSink, with Flush and the destructors
--   Audit         ShardReader: ReadShardHeader, DeriveAesKey, DecodeShardFile; ShardDir: DecodeShardDir
--   Examples      LogDecoder: the whole of examples/log_decoder.cpp
--   Utils         InternalLog, and GetPageSize of utils/system_info.cpp
--   Tests         small runs, and the theorems at concrete inputs
--
-- State is a record with the class's members; an operation is a function from state to state. Code
-- under a lock is one step; Append is cut where its lock is taken and where it waits, and runs of
-- these steps with the strand's drains are step relations (Mmap.Store.Delivery, Context.Strand,
-- Context.ThreadPool.Workers), or lists of events (Mmap.Store.Producers). Exceptions are values. What
-- the operating system, stdio, Crypto++, zlib and the generated protobuf code answer is an argument.
-- Numbers keep their wrap-around: 64 bits for offsets and mapped sizes, 32 for nonces, sequence
-- numbers and length words.
--
-- Fuel: decode_frames gets one round more than there are bytes and each round takes four at least;
-- ForEachFrame's loop gets one round more than the used bytes, and each takes a byte at least, but for
-- the length 2 ^ 32 - 4, where the code goes round for ever. A buffer in order is shorter than 4 GiB
-- here, so that no frame in it has that length.
-- The loops around zlib end when zlib says so; their fuel is a bound on its calls, and what is proved
-- holds for every fuel. Numbers of 64 bits are printed with twenty rounds of division, as many digits
-- as they can have. The loop of Append gets a list with an entry for each round, the number of tasks
-- that the strand completes in that round's wait; a payload that fits needs two.
--
-- Not modelled: the text of diagnostics other than InternalLog's own, durations, the calendar
-- (localtime_r, gmtime_r and strftime are arguments), failing allocations, the macros, process and
-- thread numbers, and the smoke tests under examples/. In the store's runs each Write is
-- one step; what happens inside overlapping Writes is in Mmap.Buffer.Concurrent. A drain is one step in
-- the runs of one producer and five in Producers. A Write between the stores and the memset of
-- ResetForReuse, whose record is lost, is left out of these runs and stands in Mmap.Buffer.Reuse. The
-- bytes of a shard are those that stdio took; when they reach the disk is not followed. The reader and
-- the decoder take Decompress as a call that returns, which on a truncated stream it does not.
pub mod Audit
pub mod Base
pub mod Bytes
pub mod Compress
pub mod Context
pub mod Crypt
pub mod Decimal
pub mod Errors
pub mod Examples
pub mod Formatter
pub mod Handle
pub mod Mmap
pub mod Names
pub mod Proto
pub mod Sinks
pub mod Tests
pub mod Utils
