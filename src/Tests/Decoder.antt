-- ===== src/Tests/Decoder.antt =====
-- The directory reader and the command line decoder, on a directory with one shard.
use logger_high.Base.{
  ℕ, ◌+◌, ◌≡◌, refl, true, List, [], ◌∷◌, ◌++◌, Option, none, some, ok, length, map, arith, codes,
  ◌==◌, if◌then◌else◌,
}
use logger_high.Bytes.{encode_le_u32}
use logger_high.Decimal.{ℤ, pos, zero_padded, emit}
use logger_high.Names.{name_lt}
use logger_high.Handle.{LogMsg, LogLevel}
use logger_high.Proto.{LogRecord}
use logger_high.Formatter.{record_of, format}
use logger_high.Crypt.Cipher.{encrypt, decrypt, build_nonce}
use logger_high.Sinks.ShardWriter.{
  header, new_shard_writer, open_new_shard, write_header, write_frame, append_frame, open_if_closed,
  rotate_if_full,
}
use logger_high.Sinks.ShardWriter.Names.{Stamp, fields, make_shard_name, name_lt-make_shard_name}
use logger_high.Sinks.ShardWriter.Runs.{Holds, write_frames}
use logger_high.Sinks.ShardWriter.Faults.{new_shard_writer-Holds}
use logger_high.Sinks.EffectiveSink.{log_frame}
use logger_high.Sinks.EffectiveSink.Directory.{directory-audit}
use logger_high.Audit.ShardReader.{Backend, derive_aes_key}
use logger_high.Audit.ShardDir.{Directory, shards_of, is_shard_filename, decode_shard_dir}
use logger_high.Examples.LogDecoder.{FileSystem, main, print_records}
use logger_high.Examples.LogDecoder.Levels.{LevelsRead}
use logger_high.Examples.LogDecoder.Lines.{read_lines, line_of, read_lines-print_records}
use logger_high.Examples.LogDecoder.Audit.{effective_stages, decoder-audit}
use mathlib.Core.List.Perm
use logger_high.Tests.Values.{key32, cipher, plain_gcm, plain_gcm-IsGcm}
use logger_high.Tests.System.{disk, fresh, logged}

abbrev clock : ℕ → Stamp
clock q = record {
  year = 2026;
  month = 5;
  day = 22;
  hour = 7;
  minute = 12;
  second = 34;
  millis = 120 + q;
}

abbrev noon : Stamp
noon = record { year = 2026; month = 5; day = 22; hour = 12; minute = 0; second = 0; millis = 0 }

name_lt-make_shard_name_example :
    name_lt (make_shard_name (clock 0) 0) (make_shard_name noon 1)
    ≡ name_lt (fields (clock 0) 0) (fields noon 1)
name_lt-make_shard_name_example =
    name_lt-make_shard_name (clock 0) noon 0 1
      (record {
        year = omega arith;
        month = omega arith;
        day = omega arith;
        hour = omega arith;
        minute = omega arith;
        second = omega arith;
        millis = omega arith;
        number = omega arith;
      })
      (record {
        year = omega arith;
        month = omega arith;
        day = omega arith;
        hour = omega arith;
        minute = omega arith;
        second = omega arith;
        millis = omega arith;
        number = omega arith;
      })

-- A message, and a serialization that keeps its text alone.
abbrev message : LogMsg
message = record {
  level = LogLevel.info;
  time = pos 5;
  logger_name = [];
  loc = record { file = none; line = 0; func = none };
  message = 3 ∷ 4 ∷ [];
}

abbrev stored : List ℕ → LogRecord
stored text = record {
  level = 2;
  time_ns = pos 5;
  logger_name = [];
  file = [];
  line = 0;
  func = [];
  message = text;
  pid = 8;
  tid = 9;
}

abbrev serialize : LogRecord → Option (List ℕ)
serialize r = some r.message

abbrev strftime : ℤ → List ℕ
strftime t = codes "1970-01-01T00:00:00"

read_lines-print_records_example :
    LevelsRead
    × (read_lines strftime 1 (print_records strftime true (stored (34 ∷ 10 ∷ []) ∷ []))
        ≡ some (line_of strftime (stored (34 ∷ 10 ∷ [])) ∷ []))
read_lines-print_records_example =
    read_lines-print_records strftime (stored (34 ∷ 10 ∷ []) ∷ []) (
      record { time_ns = omega arith; line = omega arith; pid = omega arith; tid = omega arith },
      tt,
    )

abbrev auditor : Backend LogRecord
auditor = record {
  agree = λ priv k. some k;
  hkdf = λ shared. ok key32;
  decrypt =
      λ key body. decrypt plain_gcm (record { key = key; nonce_prefix = []; counter = 0 }) body;
  decompress = ok;
  parse = λ text. some (stored text);
}

abbrev shard_file : List ℕ
shard_file = header key32 ++ logged

abbrev name : List ℕ
name = make_shard_name (clock 0) 0

abbrev dir_path : List ℕ
dir_path = codes "logs"

abbrev key_path : List ℕ
key_path = codes "key"

-- The key file has a short name.
abbrev disk_files : FileSystem
disk_files = record {
  exists = λ p. true;
  is_directory = λ p. length p == 4;
  is_regular_file = λ p. true;
  content = λ p. if length p == 3 then some key32 else some shard_file;
  join = λ dir file. file;
  listing = λ dir. name ∷ [];
}

abbrev directory : Directory
directory = record {
  exists = true;
  is_directory = true;
  is_regular_file = λ p. true;
  content = λ p. some shard_file;
}

-- Its only shard is cut.
abbrev damaged : Directory
damaged = record {
  exists = true;
  is_directory = true;
  is_regular_file = λ p. true;
  content = λ p. some (header key32 ++ 1 ∷ []);
}

fresh-Holds : Holds fresh [] []
fresh-Holds = (new_shard_writer-Holds 100 key32 disk refl (omega arith) refl (omega arith)).1

directory-audit_example :
    decode_shard_dir auditor directory (name ∷ []) key32
    ≡ some (ok (map (record_of 8 9) (message ∷ [])))
unfolding log_frame encrypt build_nonce new_shard_writer open_new_shard write_header write_frames
    write_frame append_frame open_if_closed rotate_if_full derive_aes_key encode_le_u32 format
    record_of shards_of is_shard_filename make_shard_name zero_padded emit
directory-audit_example =
    directory-audit (effective_stages serialize ok 8 9) plain_gcm auditor key32 (record_of 8 9)
      cipher (message ∷ []) ((logged, disk) ∷ []) fresh key32 directory (name ∷ []) clock
      plain_gcm-IsGcm (λ body. refl)
      ((3 ∷ 4 ∷ [], 3 ∷ 4 ∷ [], refl, refl, refl, refl, omega arith), tt) (omega arith) refl refl
      refl fresh-Holds ((refl, omega arith, omega arith), omega arith, tt) refl refl refl
      (record {
        year = omega arith;
        month = omega arith;
        day = omega arith;
        hour = omega arith;
        minute = omega arith;
        second = omega arith;
        millis = omega arith;
        number = omega arith;
      })
      (refl, tt) (Perm.refl _)

decoder-audit_example :
    (out : List ℕ) × (main strftime auditor disk_files (dir_path ∷ key_path ∷ codes "--json" ∷ [])
      ≡ some (record { exit_code = 0; stdout = out }))
    × (read_lines strftime 1 out
        ≡ some (map (line_of strftime) (map (record_of 8 9) (message ∷ []))))
unfolding log_frame encrypt build_nonce new_shard_writer open_new_shard write_header write_frames
    write_frame append_frame open_if_closed rotate_if_full derive_aes_key encode_le_u32 format
    record_of shards_of is_shard_filename make_shard_name zero_padded emit
decoder-audit_example =
    decoder-audit strftime auditor disk_files serialize ok 8 9 plain_gcm key32 cipher (message ∷ [])
      ((logged, disk) ∷ []) fresh key32 dir_path key_path clock plain_gcm-IsGcm (λ body. refl)
      ((3 ∷ 4 ∷ [], 3 ∷ 4 ∷ [], refl, refl, refl, refl, omega arith), tt) (omega arith) refl refl
      refl fresh-Holds ((refl, omega arith, omega arith), omega arith, tt) refl refl refl refl refl
      (record {
        year = omega arith;
        month = omega arith;
        day = omega arith;
        hour = omega arith;
        minute = omega arith;
        second = omega arith;
        millis = omega arith;
        number = omega arith;
      })
      (refl, tt) (Perm.refl _) (omega arith) (omega arith) (omega arith, tt)
