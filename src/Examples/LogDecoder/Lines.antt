-- ===== src/Examples/LogDecoder/Lines.antt =====
-- PrintRecordJson of examples/log_decoder.cpp: what a reader of JSON lines gets.
use logger_high.Base.{
  ℕ, zero, suc, ◌^◌, ◌<◌, ◌≡◌, refl, ◌∙◌, ap, true, List, [], ◌∷◌, ◌++◌, Option, none, some, map,
  length, ◌==◌, if◌then◌else◌, codes, append_assoc, All, arith,
}
use logger_high.Decimal.{ℤ, to_string, signed_to_string}
use logger_high.Decimal.Reading.{
  IsInt64, read_number, read_signed, read_number-stop, read_signed-signed_to_string,
}
use logger_high.Proto.{LogRecord}
use logger_high.Examples.LogDecoder.{
  json_escape, level_name, format_time_iso, print_record_json, print_records,
}
use logger_high.Examples.LogDecoder.Levels.{LevelsRead, levels_read}
use logger_high.Examples.LogDecoder.Escape.{read_json_string, read_json_string-json_escape}
use mathlib.Core.Option

-- The members of one line.
pub record Line : Type 0 where
  pub time : List ℕ
  pub time_ns : ℤ
  pub level : List ℕ
  pub logger : List ℕ
  pub pid : ℕ
  pub tid : ℕ
  pub file : List ℕ
  pub line : ℕ
  pub func : List ℕ
  pub message : List ℕ

-- The readers go on with what they read and the text behind it.
module _ {A : Type 0} where
  abbrev on_text : List ℕ → List ℕ → (List ℕ → Option A) → Option A
  on_text [] s next = next s
  on_text (c ∷ l) [] next = none
  on_text (c ∷ l) (d ∷ s) next = let rest = on_text l s next in if c == d then rest else none

  abbrev string_result : Option (List ℕ × List ℕ) → (List ℕ → List ℕ → Option A) → Option A
  string_result none next = none
  string_result (some (text, s)) next = next text s

  abbrev on_string : List ℕ → (List ℕ → List ℕ → Option A) → Option A
  on_string s next = string_result (read_json_string s) next

  abbrev on_number : List ℕ → (ℕ → List ℕ → Option A) → Option A
  on_number s next = let r = read_number s in next r.0 r.1

  abbrev on_signed : List ℕ → (ℤ → List ℕ → Option A) → Option A
  on_signed s next = let r = read_signed s in next r.0 r.1

-- One line, and the text behind it.
unfoldable pub read_line : List ℕ → Option (Line × List ℕ)
read_line s₀ = on_text (codes "{\"time\":") s₀ λ s₁. on_string s₁ λ time s₂.
    on_text (codes ",\"time_ns\":") s₂ λ s₃. on_signed s₃ λ time_ns s₄.
      on_text (codes ",\"level\":") s₄ λ s₅. on_string s₅ λ level s₆.
        on_text (codes ",\"logger\":") s₆ λ s₇. on_string s₇ λ logger s₈.
          on_text (codes ",\"pid\":") s₈ λ s₉. on_number s₉ λ pid t₀.
            on_text (codes ",\"tid\":") t₀ λ t₁. on_number t₁ λ tid t₂.
              on_text (codes ",\"file\":") t₂ λ t₃. on_string t₃ λ file t₄.
                on_text (codes ",\"line\":") t₄ λ t₅. on_number t₅ λ line t₆.
                  on_text (codes ",\"func\":") t₆ λ t₇. on_string t₇ λ func t₈.
                    on_text (codes ",\"message\":") t₈ λ t₉. on_string t₉ λ message u₀.
                      on_text (codes "}\n") u₀ λ rest. some (
                        record {
                          time = time;
                          time_ns = time_ns;
                          level = level;
                          logger = logger;
                          pid = pid;
                          tid = tid;
                          file = file;
                          line = line;
                          func = func;
                          message = message;
                        },
                        rest,
                      )

-- The widths of the numbers in a record.
pub record IsSized (r : LogRecord) : Type 0 where
  pub time_ns : IsInt64 r.time_ns
  pub line : r.line < 2 ^ 32
  pub pid : r.pid < 2 ^ 64
  pub tid : r.tid < 2 ^ 64

module _ (strftime_utc : ℤ → List ℕ) where
  abbrev pub line_of : LogRecord → Line
  line_of r = record {
    time = format_time_iso strftime_utc r.time_ns;
    time_ns = r.time_ns;
    level = level_name r.level;
    logger = r.logger_name;
    pid = r.pid;
    tid = r.tid;
    file = r.file;
    line = r.line;
    func = r.func;
    message = r.message;
  }

  -- What stands behind each member of a line, with a text behind the line.
  abbrev after_message : LogRecord → List ℕ → List ℕ
  after_message r rest = codes "}\n" ++ rest

  abbrev after_func : LogRecord → List ℕ → List ℕ
  after_func r rest = codes ",\"message\":" ++ (json_escape r.message ++ after_message r rest)

  abbrev after_line : LogRecord → List ℕ → List ℕ
  after_line r rest = codes ",\"func\":" ++ (json_escape r.func ++ after_func r rest)

  abbrev after_file : LogRecord → List ℕ → List ℕ
  after_file r rest = codes ",\"line\":" ++ (to_string r.line ++ after_line r rest)

  abbrev after_tid : LogRecord → List ℕ → List ℕ
  after_tid r rest = codes ",\"file\":" ++ (json_escape r.file ++ after_file r rest)

  abbrev after_pid : LogRecord → List ℕ → List ℕ
  after_pid r rest = codes ",\"tid\":" ++ (to_string r.tid ++ after_tid r rest)

  abbrev after_logger : LogRecord → List ℕ → List ℕ
  after_logger r rest = codes ",\"pid\":" ++ (to_string r.pid ++ after_pid r rest)

  abbrev after_level : LogRecord → List ℕ → List ℕ
  after_level r rest = codes ",\"logger\":" ++ (json_escape r.logger_name ++ after_logger r rest)

  abbrev after_time_ns : LogRecord → List ℕ → List ℕ
  after_time_ns r rest =
      codes ",\"level\":" ++ (json_escape (level_name r.level) ++ after_level r rest)

  abbrev after_time : LogRecord → List ℕ → List ℕ
  after_time r rest = codes ",\"time_ns\":" ++ (signed_to_string r.time_ns ++ after_time_ns r rest)

  abbrev spread : LogRecord → List ℕ → List ℕ
  spread r rest =
      codes "{\"time\":"
      ++ (json_escape (format_time_iso strftime_utc r.time_ns) ++ after_time r rest)

  spread_lem :
      (r : LogRecord) (rest : List ℕ) → print_record_json strftime_utc r ++ rest ≡ spread r rest
  unfolding print_record_json
  spread_lem r rest = simp append_assoc

  read_line-print_record_json :
      (r : LogRecord) (rest : List ℕ)
      → IsSized r
      → read_line (print_record_json strftime_utc r ++ rest) ≡ some (line_of r, rest)
  unfolding read_line
  read_line-print_record_json r rest v =
      ap read_line (spread_lem r rest)
      ∙ rw
          (
            read_json_string-json_escape (format_time_iso strftime_utc r.time_ns)
                (after_time r rest),
            read_signed-signed_to_string r.time_ns (after_time_ns r rest) v.time_ns (λ n. refl),
            read_json_string-json_escape (level_name r.level) (after_level r rest),
            read_json_string-json_escape r.logger_name (after_logger r rest),
            read_number-stop r.pid (after_pid r rest) v.pid (λ n. refl),
            read_number-stop r.tid (after_tid r rest) v.tid (λ n. refl),
            read_json_string-json_escape r.file (after_file r rest),
            read_number-stop r.line (after_line r rest) (omega (arith, v.line)) (λ n. refl),
            read_json_string-json_escape r.func (after_func r rest),
            read_json_string-json_escape r.message (after_message r rest),
          )
          refl

  abbrev read_more : (List ℕ → Option (List Line)) → Option (Line × List ℕ) → Option (List Line)
  read_more continue none = none
  read_more continue (some (l, rest)) = Option.map (λ ls. l ∷ ls) (continue rest)

  -- So many lines, and nothing behind them.
  unfoldable pub read_lines : ℕ → List ℕ → Option (List Line)
  read_lines zero [] = some []
  read_lines zero (c ∷ s) = none
  read_lines (suc n) s = read_more (read_lines n) (read_line s)

  pub printed_lines :
      (rs : List LogRecord)
      → All IsSized rs
      → read_lines (length rs) (print_records strftime_utc true rs) ≡ some (map line_of rs)
  unfolding read_lines print_records
  printed_lines [] h = refl
  printed_lines (r ∷ rs) (v, vs) =
      ap (read_more (read_lines (length rs)))
        (read_line-print_record_json r (print_records strftime_utc true rs) v)
      ∙ ap (Option.map (λ ls. line_of r ∷ ls)) (printed_lines rs vs)

  -- The name that stands for a level reads back as this level. The JSON output is one line for each
  -- record; and a reader that takes any byte in a text, also where it is not UTF-8, gets from these
  -- lines the time's text, time_ns, the name of the level, and the other members of every record as
  -- they are, for numbers of the widths that the message declares.
  pub read_lines-print_records :
      (rs : List LogRecord)
      → All IsSized rs
      → LevelsRead
        × (read_lines (length rs) (print_records strftime_utc true rs) ≡ some (map line_of rs))
  read_lines-print_records rs h = (levels_read, printed_lines rs h)
