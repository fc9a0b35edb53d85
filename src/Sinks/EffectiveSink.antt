-- ===== src/Sinks/EffectiveSink.antt =====
-- sinks/effective_sink.h and sinks/effective_sink.cpp: the pipeline from a message to the store, and
-- from the store to the shard writer.
--
-- `Stages` is what the formatter (over generated protobuf code) and the compressor (over zlib) do to
-- one message; Encrypt is Crypt.Cipher's. `pipeline_mu_` is held for the whole of Log, so one call
-- is one step. Append is Mmap.Store's, and here the frame that Log hands to it is the result.
pub mod Directory
pub mod EndToEnd
pub mod Names
pub mod Pipeline
pub mod Flush
pub mod Interleaved
use logger_high.Base.{
  Option, none, some, ℕ, ◌+◌, ◌*◌, Bool, true, not, List, [], ◌∷◌, ◌++◌, ok, throws, length,
  if◌then◌else◌,
}
use logger_high.Bytes.{encode_le_u32}
use logger_high.Errors.{Throwing, null_component, null_strand}
use logger_high.Crypt.Gcm.{Gcm}
use logger_high.Crypt.Cipher.{AesGcmCipher, encrypt}
use logger_high.Sinks.ShardWriter.{
  ShardWriter, Io, FileCall, write_frame, new_shard_writer, flush_calls, close_calls,
}
use logger_high.Mmap.Store.{Config, MmapStore, flush, destroy}
use mathlib.Core.Option

-- EffectiveSinkConfig, less the paths and the durations.
pub record EffectiveSinkConfig : Type 0 where
  pub shard_size_bytes : ℕ
  pub dir_size_cap : ℕ
  pub mmap_buffer_bytes : ℕ
  pub mmap_min_buffers : ℕ
  pub mmap_max_buffers : ℕ

abbrev pub default_config : EffectiveSinkConfig
default_config = record {
  shard_size_bytes = 64 * 1024 * 1024;
  dir_size_cap = 2 * 1024 * 1024 * 1024;
  mmap_buffer_bytes = 4 * 1024 * 1024;
  mmap_min_buffers = 2;
  mmap_max_buffers = 8;
}

-- The store's part of the configuration, as the constructor copies it.
abbrev pub store_config : EffectiveSinkConfig → Config
store_config cfg = record {
  buffer_bytes = cfg.mmap_buffer_bytes;
  min_buffers = cfg.mmap_min_buffers;
  max_buffers = cfg.mmap_max_buffers;
}

-- SecureZero: every character of the string is set to zero.
abbrev pub secure_zero : List ℕ → List ℕ
secure_zero [] = []
secure_zero (c ∷ s) = 0 ∷ secure_zero s

pub record Stages (Msg : Type 0) : Type 0 where
  pub format : Msg → Throwing (List ℕ)
  pub compress : List ℕ → Throwing (List ℕ)

-- The length word is of 32 bits: a longer ciphertext would wrap it.
abbrev pub framed : AesGcmCipher × Throwing (List ℕ) → AesGcmCipher × Throwing (List ℕ)
framed (c, throws e) = (c, throws e)
framed (c, ok encrypted) = (c, ok (encode_le_u32 (length encrypted) ++ encrypted))

abbrev encrypted_frame :
    Gcm → Bool → AesGcmCipher → Throwing (List ℕ) → AesGcmCipher × Throwing (List ℕ)
encrypted_frame g broken c (throws e) = (c, throws e)
encrypted_frame g broken c (ok compressed) = framed (encrypt g broken c compressed)

module _ {M : Type 0} (st : Stages M) (g : Gcm) (broken : Bool) where
  abbrev compressed_frame : AesGcmCipher → Throwing (List ℕ) → AesGcmCipher × Throwing (List ℕ)
  compressed_frame c (throws e) = (c, throws e)
  compressed_frame c (ok proto) = encrypted_frame g broken c (st.compress proto)

  -- Log up to its call of Append: the cipher afterwards, and `buf_frame_` or what was thrown.
  unfoldable pub log_frame : AesGcmCipher → M → AesGcmCipher × Throwing (List ℕ)
  log_frame c msg = compressed_frame c (st.format msg)

  abbrev sent : List (List ℕ) → Throwing (List ℕ) → List (List ℕ)
  sent rest (throws e) = rest
  sent rest (ok frame) = frame ∷ rest

  -- The frames that a run of Log calls hands to the store; a call that throws hands over none.
  abbrev pub log_frames : AesGcmCipher → List M → List (List ℕ)
  log_frames c [] = []
  log_frames c (msg ∷ msgs) = let r = log_frame c msg in sent (log_frames r.0 msgs) r.1

-- OnPersist_: every exception is caught and logged, so the store sees a normal return.
unfoldable pub on_persist : Io → ShardWriter → List ℕ → ShardWriter × Bool
on_persist io w bytes = ((write_frame bytes io w).0, true)

-- The constructor's checks and the shard writer it makes, which come before the store.
unfoldable pub new_effective_sink :
    EffectiveSinkConfig → Bool → Bool → List ℕ → Bool → Io → Throwing ShardWriter
new_effective_sink cfg components strand client_eph_pub dir_ready io =
    if not components
    then throws null_component
    else if not strand
    then throws null_strand
    else made (new_shard_writer cfg.shard_size_bytes client_eph_pub dir_ready io)
  where
    made : ShardWriter × Throwing (Unit {0}) → Throwing ShardWriter
    made (w, ok u) = ok w
    made (w, throws e) = throws e

-- Flush: the store's, and then the shard writer's, on the shard writer as the drains have left it.
abbrev written_out :
    Bool → Option (MmapStore ShardWriter) → Option (MmapStore ShardWriter × List FileCall)
written_out has_fd none = none
written_out has_fd (some t) = some (t, flush_calls has_fd t.sink)

unfoldable pub flush_sink :
    (ℕ → Option (List ℕ))
    → Io
    → ℕ
    → Bool
    → MmapStore ShardWriter
    → Option (MmapStore ShardWriter × List FileCall)
flush_sink regions io n has_fd s = written_out has_fd (flush regions (on_persist io) n s)

-- The destructor flushes both and stops the evictor; then the members are destroyed, the store before
-- the shard writer, and each flushes once more.
abbrev destroyed :
    (ℕ → Option (List ℕ))
    → Io
    → ℕ
    → Option (MmapStore ShardWriter × List FileCall)
    → Option (MmapStore ShardWriter × List FileCall)
destroyed regions io n none = none
destroyed regions io n (some (t, calls)) =
    Option.map (λ u. (u, calls ++ close_calls u.sink)) (destroy regions (on_persist io) n t)

unfoldable pub destroy_sink :
    (ℕ → Option (List ℕ))
    → Io
    → ℕ
    → Bool
    → MmapStore ShardWriter
    → Option (MmapStore ShardWriter × List FileCall)
destroy_sink regions io n has_fd s = destroyed regions io n (flush_sink regions io n has_fd s)
