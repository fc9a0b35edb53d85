-- ===== src/Tests/Shards.antt =====
-- The shard writer and the auditor's decoder.
use logger_high.Base.{
  ℕ, ◌≡◌, refl, true, List, [], ◌∷◌, ◌++◌, some, ok, throws, take, replicate, arith,
}
use logger_high.Bytes.{encode_le_u32}
use logger_high.Errors.{truncated_frame_length, short_header_write}
use logger_high.Mmap.Frame.{encode_frame, encode_frames}
use logger_high.Crypt.Cipher.{decrypt}
use logger_high.Sinks.ShardWriter.{ShardWriter, Io, header, new_shard_writer, write_frame}
use logger_high.Sinks.ShardWriter.Runs.{Holds, Groups, total, write_frames, write_frames-Holds}
use logger_high.Sinks.ShardWriter.Faults.{new_shard_writer-Holds, headerless_shard}
use logger_high.Audit.ShardReader.{decode_shard_file, open_body, derive_aes_key}
use logger_high.Audit.ShardReader.Cut.{decode_shard_file_cut}
use logger_high.Tests.Values.{key32, backend}

abbrev disk : Io
disk = record { opened = true; header_wrote = 48; wrote = 4096 }

fresh-Holds :
    let made = new_shard_writer 100 key32 true disk in (made.1 ≡ ok tt) × Holds made.0 [] []
fresh-Holds = new_shard_writer-Holds 100 key32 disk refl (omega arith) refl (omega arith)

abbrev fresh : ShardWriter
fresh = (new_shard_writer 100 key32 true disk).0

-- The second frame passes the limit of 100 bytes and opens a second shard.
abbrev calls : List (List ℕ × Io)
calls = (replicate 40 1, disk) ∷ (replicate 30 2, disk) ∷ []

write_frames-Holds_example :
    (g : List (List ℕ)) × (gs : Groups) × Holds (write_frames calls fresh) g gs
    × (total (g ∷ gs) ≡ replicate 40 1 ∷ replicate 30 2 ∷ [])
write_frames-Holds_example = write_frames-Holds calls fresh [] [] fresh-Holds.1 (
  (refl, omega arith, omega arith),
  omega arith,
  ((refl, omega arith, omega arith), omega arith, tt),
)

abbrev nearly_full : ShardWriter
nearly_full = record {
  shard_limit = 100;
  client_eph_pub = key32;
  file_open = true;
  current_size = 90;
  seq = 1;
  shards = record { seq = 0; bytes = header key32 ++ replicate 42 9 } ∷ [];
}

headerless_shard_example :
    let first = write_frame (replicate 20 1) (record disk { header_wrote = 8 }) nearly_full in
    let second = write_frame (5 ∷ []) disk first.0 in
    (first.1 ≡ throws short_header_write)
    × (second.1 ≡ ok tt)
    × (second.0.shards
        ≡ record { seq = 1; bytes = take 8 (header key32) ++ 5 ∷ [] } ∷ nearly_full.shards)
headerless_shard_example =
    headerless_shard nearly_full (replicate 20 1) (5 ∷ []) (record disk { header_wrote = 8 }) disk
      refl refl (omega arith) refl (omega arith) (omega arith) (omega arith)

-- A nonce of zeros, two bytes, and a tag of zeros.
abbrev sealed_frame : List ℕ
sealed_frame = replicate 12 0 ++ (3 ∷ 4 ∷ []) ++ replicate 16 0

decode_shard_file_cut_example :
    decode_shard_file backend key32
      (header key32 ++ (encode_frames (sealed_frame ∷ []) ++ take 3 (encode_frame sealed_frame)))
    ≡ some (throws truncated_frame_length)
unfolding open_body decrypt derive_aes_key encode_le_u32
decode_shard_file_cut_example =
    decode_shard_file_cut backend key32 key32 key32 (sealed_frame ∷ []) ((3 ∷ 4 ∷ []) ∷ [])
      sealed_frame 3 refl refl (omega arith, omega arith, refl, tt) (omega arith) (omega arith)
      (omega arith) (omega arith)
