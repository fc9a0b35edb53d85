-- ===== src/Examples/LogDecoder.antt =====
-- examples/log_decoder.cpp: the command line tool that prints the records of a shard or a directory.
--
-- Text is a list of bytes. `strftime_utc` is what gmtime_r and strftime make of the seconds; what the
-- tool asks of the file system is a `FileSystem`. The text on stderr is not modelled.
pub mod Escape
pub mod Audit
pub mod Levels
pub mod Lines
pub mod Exit
use logger_high.Base.{
  ℕ, ◌+◌, ◌-◌, ◌/◌, ◌%◌, Bool, true, false, not, List, [], ◌∷◌, ◌++◌, Option, none, some, ok,
  throws, ◌>>=◌, ◌>>◌, throw_if, length, ltb, ◌==◌, if◌then◌else◌, codes,
}
use logger_high.Decimal.{ℤ, to_string, signed_to_string, signed_padded, quotient, remainder}
use logger_high.Errors.{
  Throwing, target_missing, private_key_not_opened, private_key_not_32_bytes, target_neither,
}
use logger_high.Handle.{LogLevel, level_to_string, is_empty}
use logger_high.Proto.{LogRecord}
use logger_high.Audit.ShardReader.{Backend, equal_bytes}
use logger_high.Audit.ShardDir.{Directory, decode_content, decode_shard_dir}

-- The cast of the stored number to the enumeration over std::uint8_t, and ToString.
abbrev level_of_byte : ℕ → Option LogLevel
level_of_byte b =
    if b == 0
    then some LogLevel.trace
    else if b == 1
    then some LogLevel.debug
    else if b == 2
    then some LogLevel.info
    else if b == 3
    then some LogLevel.warn
    else if b == 4
    then some LogLevel.error
    else if b == 5
    then some LogLevel.critical
    else if b == 6
    then some LogLevel.off
    else none

abbrev name_or_unknown : Option LogLevel → List ℕ
name_or_unknown none = codes "unknown"
name_or_unknown (some l) = codes (level_to_string l)

unfoldable pub level_name : ℕ → List ℕ
level_name level_value = name_or_unknown (level_of_byte (level_value % 256))

abbrev pub hex_digit : ℕ → ℕ
hex_digit h = if ltb h 10 then b'0' + h else b'a' + (h - 10)

-- One character of JsonEscapeAppend.
unfoldable pub json_escape_char : ℕ → List ℕ
json_escape_char c =
    if c == 34
    then 92 ∷ 34 ∷ []
    else if c == 92
    then 92 ∷ 92 ∷ []
    else if c == 8
    then 92 ∷ b'b' ∷ []
    else if c == 12
    then 92 ∷ b'f' ∷ []
    else if c == 10
    then 92 ∷ b'n' ∷ []
    else if c == 13
    then 92 ∷ b'r' ∷ []
    else if c == 9
    then 92 ∷ b't' ∷ []
    else if ltb c 32
    then 92 ∷ b'u' ∷ b'0' ∷ b'0' ∷ hex_digit (c / 16) ∷ hex_digit (c % 16) ∷ []
    else c ∷ []

unfoldable pub json_escape_body : List ℕ → List ℕ
json_escape_body [] = []
json_escape_body (c ∷ s) = json_escape_char c ++ json_escape_body s

-- What JsonEscapeAppend appends.
unfoldable pub json_escape : List ℕ → List ℕ
json_escape s = 34 ∷ (json_escape_body s ++ 34 ∷ [])

module _ (strftime_utc : ℤ → List ℕ) where
  unfoldable pub format_time_iso : ℤ → List ℕ
  format_time_iso time_ns =
      strftime_utc (quotient time_ns 1000000000)
      ++ (b'.' ∷ (signed_padded 9 (remainder time_ns 1000000000) ++ b'Z' ∷ []))

  -- The place in the source, where the record has one.
  abbrev place_text : LogRecord → List ℕ
  place_text r =
      if is_empty r.file
      then []
      else codes "("
        ++ (r.file
            ++ (codes ":"
                ++ (to_string r.line
                    ++ ((if is_empty r.func then [] else codes " " ++ r.func) ++ codes ") "))))

  unfoldable pub print_record_text : LogRecord → List ℕ
  print_record_text r =
      codes "["
      ++ (format_time_iso r.time_ns
          ++ (codes "] ["
              ++ (level_name r.level
                  ++ (codes "] ["
                      ++ (r.logger_name
                          ++ (codes "] ("
                              ++ (to_string r.pid
                                  ++ (codes ":"
                                      ++ (to_string r.tid
                                          ++ (codes ") "
                                              ++ (place_text r
                                                  ++ (r.message ++ codes "\n"))))))))))))

  unfoldable pub print_record_json : LogRecord → List ℕ
  print_record_json r =
      codes "{\"time\":"
      ++ (json_escape (format_time_iso r.time_ns)
          ++ (codes ",\"time_ns\":"
              ++ (signed_to_string r.time_ns
                  ++ (codes ",\"level\":"
                      ++ (json_escape (level_name r.level)
                          ++ (codes ",\"logger\":"
                              ++ (json_escape r.logger_name
                                  ++ (codes ",\"pid\":"
                                      ++ (to_string r.pid
                                          ++ (codes ",\"tid\":"
                                              ++ (to_string r.tid
                                                  ++ (codes ",\"file\":"
                                                      ++ (json_escape r.file
                                                          ++ (codes ",\"line\":"
                                                            ++ (to_string r.line
                                                            ++ (codes ",\"func\":"
                                                            ++ (json_escape r.func
                                                            ++ (codes ",\"message\":"
                                                            ++ (json_escape r.message
                                                            ++ codes "}\n")))))))))))))))))))

  -- The loop over the records.
  unfoldable pub print_records : Bool → List LogRecord → List ℕ
  print_records json_mode [] = []
  print_records json_mode (r ∷ rs) =
      (if json_mode then print_record_json r else print_record_text r) ++ print_records json_mode rs

-- `content` is what a stream over a file gives, `none` if it cannot be opened; `join` is the `/` of
-- std::filesystem::path, and `listing` what directory_iterator goes through.
pub record FileSystem : Type 0 where
  pub exists : List ℕ → Bool
  pub is_directory : List ℕ → Bool
  pub is_regular_file : List ℕ → Bool
  pub content : List ℕ → Option (List ℕ)
  pub join : List ℕ → List ℕ → List ℕ
  pub listing : List ℕ → List (List ℕ)

abbrev pub directory_at : FileSystem → List ℕ → Directory
directory_at fs dir = record {
  exists = fs.exists dir;
  is_directory = fs.is_directory dir;
  is_regular_file = λ name. fs.is_regular_file (fs.join dir name);
  content = λ name. fs.content (fs.join dir name);
}

abbrev key_bytes : Option (List ℕ) → Throwing (List ℕ)
key_bytes none = throws private_key_not_opened
key_bytes (some raw) = do throw_if (not (length raw == 32)) private_key_not_32_bytes; ok raw

unfoldable pub read_priv_key : FileSystem → List ℕ → Throwing (List ℕ)
read_priv_key fs path = key_bytes (fs.content path)

pub record Outcome : Type 0 where
  pub exit_code : ℕ
  pub stdout : List ℕ

abbrev pub failed : Outcome
failed = record { exit_code = 1; stdout = [] }

module _ (strftime_utc : ℤ → List ℕ) (b : Backend LogRecord) (fs : FileSystem) where
  abbrev pub decode_with : List ℕ → Throwing (List ℕ) → Option (Throwing (List LogRecord))
  decode_with target (throws e) = some (throws e)
  decode_with target (ok priv) =
      if fs.is_directory target
      then decode_shard_dir b (directory_at fs target) (fs.listing target) priv
      else if fs.is_regular_file target
      then decode_content b priv (fs.content target)
      else some (throws target_neither)

  -- The body of the `try`, up to the records.
  unfoldable pub decode_target : List ℕ → List ℕ → Option (Throwing (List LogRecord))
  decode_target target key_path =
      if not (fs.exists target)
      then some (throws target_missing)
      else decode_with target (read_priv_key fs key_path)

  abbrev pub printed : Bool → Option (Throwing (List LogRecord)) → Option Outcome
  printed json_mode none = none
  printed json_mode (some (throws e)) = some failed
  printed json_mode (some (ok records)) =
      some (record { exit_code = 0; stdout = print_records strftime_utc json_mode records })

  -- `main` over the arguments behind the name of the program. `none` would mean that the decoder's
  -- fuel ran out.
  unfoldable pub main : List (List ℕ) → Option Outcome
  main (target ∷ key_path ∷ []) = printed false (decode_target target key_path)
  main (target ∷ key_path ∷ flag ∷ []) =
      if equal_bytes flag (codes "--json")
      then printed true (decode_target target key_path)
      else some failed
  main _ = some failed
