-- ===== src/Examples/LogDecoder/Audit.antt =====
-- From LogMsg to the output of examples/log_decoder.cpp, over formatter/effective_formatter.cpp,
-- sinks/effective_sink.cpp, sinks/shard_writer.cpp and audit/shard_reader.cpp.
use logger_high.Decimal.Reading.{IsInt64}
use logger_high.Base.{
  ℕ, suc, ◌+◌, ◌^◌, ◌≤◌, ◌<◌, ◌≡◌, refl, ◌∙◌, ap, true, false, not, List, [], ◌∷◌, map, Option,
  none, some, ok, throws, length, All, arith, codes, if_true, if_false, ◌==◌, ==_iff, subst, sym,
}
use logger_high.Decimal.{ℤ}
use logger_high.Errors.{Throwing, target_missing}
use logger_high.Crypt.Gcm.{Gcm, IsGcm}
use logger_high.Crypt.Cipher.{AesGcmCipher, u32_max}
use logger_high.Handle.{LogMsg, SourceLocation}
use logger_high.Proto.{LogRecord}
use logger_high.Formatter.{line_or_zero, record_of, format}
use logger_high.Sinks.ShardWriter.{ShardWriter, Io}
use logger_high.Sinks.ShardWriter.Names.{Stamp}
use logger_high.Sinks.ShardWriter.Runs.{Holds, write_frames, frames_of, AllWorking}
use logger_high.Sinks.EffectiveSink.{Stages, log_frames}
use logger_high.Sinks.EffectiveSink.EndToEnd.{Decrypts, AllUnderstood}
use logger_high.Sinks.EffectiveSink.Directory.{Chronological, OnDisk, shard_name, directory-audit}
use logger_high.Audit.ShardReader.{Backend, derive_aes_key}
use logger_high.Audit.ShardDir.{shards_of, decode_shard_dir}
use logger_high.Examples.LogDecoder.{
  FileSystem, key_bytes, directory_at, read_priv_key, decode_with, decode_target, print_records,
  printed, main,
}
use logger_high.Examples.LogDecoder.Lines.{IsSized, line_of, read_lines, printed_lines}
use mathlib.Core.List.{Perm}

-- The stages of a sink with the EffectiveFormatter.
abbrev pub effective_stages :
    (LogRecord → Option (List ℕ)) → (List ℕ → Throwing (List ℕ)) → ℕ → ℕ → Stages LogMsg
effective_stages serialize compress pid tid = record {
  format = λ m. format serialize pid tid m [];
  compress = compress;
}

abbrev pub Timely : LogMsg → Type 0
Timely m = IsInt64 m.time

line_or_zero_small :
    (loc : SourceLocation) (file : Option (List ℕ)) → line_or_zero loc file < 2 ^ 32
line_or_zero_small loc none = omega arith
line_or_zero_small loc (some file) = omega arith

record_of-IsSized :
    (pid tid : ℕ) (ms : List LogMsg)
    → pid < 2 ^ 64
    → tid < 2 ^ 64
    → All Timely ms
    → All IsSized (map (record_of pid tid) ms)
unfolding record_of
record_of-IsSized pid tid [] h k t = tt
record_of-IsSized pid tid (m ∷ ms) h k (t, ts) = (
  record { time_ns = t; line = line_or_zero_small m.loc m.loc.file; pid = h; tid = k },
  record_of-IsSized pid tid ms h k ts,
)

length-map : {A B : Type 0} (f : A → B) (l : List A) → length (map f l) ≡ length l
length-map f [] = refl
length-map f (x ∷ l) = ap suc (length-map f l)

module _ (strftime_utc : ℤ → List ℕ) (b : Backend LogRecord) (fs : FileSystem) where
  target_directory :
      (target key_path priv : List ℕ) (records : List LogRecord)
      → fs.exists target ≡ true
      → fs.is_directory target ≡ true
      → fs.content key_path ≡ some priv
      → length priv ≡ 32
      → decode_shard_dir b (directory_at fs target) (fs.listing target) priv ≡ some (ok records)
      → decode_target strftime_utc b fs target key_path ≡ some (ok records)
  unfolding decode_target read_priv_key
  target_directory target key_path priv records x y c n d =
      let Gives = λ (r : Option (Throwing (List LogRecord))). r ≡ some (ok records) in
      let same : length priv == 32 ≡ true = (==_iff (length priv) 32).1 n in
      let key : read_priv_key fs key_path ≡ ok priv = ap key_bytes c ∙ rw same refl in
      if_false Gives (not (fs.exists target)) (some (throws target_missing)) _ (ap not x) (
        subst (λ k. Gives (decode_with strftime_utc b fs target k)) (sym key)
          (if_true Gives (fs.is_directory target) _ _ y d))

  -- A reader of JSON gets back, from the output of `log_decoder <dir> <key> --json`, every member of
  -- every message that was logged, in the order of the calls: for messages that the stages behind the
  -- EffectiveFormatter understand, a counter that lasts, a key that the auditor derives too, a fresh
  -- shard writer on a disk that takes every byte, a directory with its shards and no others, a local
  -- time that does not go back from one shard to the next and fits its fields, the private key of 32
  -- bytes in its file, and times and identifiers of the widths that the record declares.
  pub decoder-audit :
      (serialize : LogRecord → Option (List ℕ)) (compress : List ℕ → Throwing (List ℕ))
      (pid tid : ℕ) (g : Gcm) (key : List ℕ) (c : AesGcmCipher) (ms : List LogMsg)
      (calls : List (List ℕ × Io)) (w : ShardWriter) (priv target key_path : List ℕ)
      (clock : ℕ → Stamp)
      → let st = effective_stages serialize compress pid tid in
        let shards = (write_frames calls w).shards in
        IsGcm g
        → Decrypts st g b key (record_of pid tid)
        → AllUnderstood st g b key (record_of pid tid) ms
        → c.counter + length ms ≤ u32_max
        → length c.nonce_prefix ≡ 8
        → c.key ≡ key
        → derive_aes_key b priv w.client_eph_pub ≡ ok key
        → Holds w [] []
        → AllWorking calls
        → frames_of calls ≡ log_frames st g false c ms
        → fs.exists target ≡ true
        → fs.is_directory target ≡ true
        → fs.content key_path ≡ some priv
        → length priv ≡ 32
        → Chronological clock shards
        → OnDisk (directory_at fs target) clock shards
        → Perm
            (shards_of (directory_at fs target) (fs.listing target))
            (map (shard_name clock) shards)
        → pid < 2 ^ 64
        → tid < 2 ^ 64
        → All Timely ms
        → (out : List ℕ) × (main strftime_utc b fs (target ∷ key_path ∷ codes "--json" ∷ [])
            ≡ some (record { exit_code = 0; stdout = out }))
          × (read_lines strftime_utc (length ms) out
              ≡ some (map (line_of strftime_utc) (map (record_of pid tid) ms)))
  unfolding main
  decoder-audit serialize compress pid tid g key c ms calls w priv target key_path clock law same us
        h n k e v working f x y kc kn later on p hp ht timely =
      let st = effective_stages serialize compress pid tid in
      let records = map (record_of pid tid) ms in
      let decoded =
        directory-audit st g b key (record_of pid tid) c ms calls w priv (directory_at fs target)
          (fs.listing target) clock law same us h n k e v working f x y later on p in
      let shown = target_directory target key_path priv records x y kc kn decoded in
      let count : length records ≡ length ms = length-map (record_of pid tid) ms in
      (
        print_records strftime_utc true records,
        ap (printed strftime_utc b fs true) shown,
        ap (λ m. read_lines strftime_utc m (print_records strftime_utc true records)) (sym count)
            ∙ printed_lines strftime_utc records (record_of-IsSized pid tid ms hp ht timely),
      )
