-- ===== src/Formatter.antt =====
-- formatter/effective_formatter.cpp and formatter/default_formatter.cpp: from a message to bytes.
--
-- SerializeToString is generated code: `serialize` stands for it, `none` where it reports failure.
-- GetPid and GetTid are arguments, and so is what localtime_r makes of the time. A format appends to
-- `out`, which the model gives back.
pub mod Default
use logger_high.Base.{ℕ, ◌%◌, ◌^◌, List, [], ◌++◌, Option, none, some, ok, throws}
use logger_high.Decimal.{pos}
use logger_high.Errors.{Throwing, serialize_failed}
use logger_high.Handle.{LogMsg, SourceLocation, to_u8}
use logger_high.Proto.{LogRecord}

-- The file of a location that is not empty; `file` is null in one that is.
abbrev file_or_empty : Option (List ℕ) → List ℕ
file_or_empty none = []
file_or_empty (some file) = file

abbrev pub line_or_zero : SourceLocation → Option (List ℕ) → ℕ
line_or_zero loc none = 0
line_or_zero loc (some file) = loc.line % 2 ^ 32

abbrev func_or_empty : SourceLocation → Option (List ℕ) → List ℕ
func_or_empty loc none = []
func_or_empty loc (some file) = file_or_empty loc.func

-- The fields that EffectiveFormatter::Format sets.
unfoldable pub record_of : ℕ → ℕ → LogMsg → LogRecord
record_of pid tid msg = record {
  level = to_u8 msg.level;
  time_ns = msg.time;
  logger_name = msg.logger_name;
  file = file_or_empty msg.loc.file;
  line = line_or_zero msg.loc msg.loc.file;
  func = func_or_empty msg.loc msg.loc.file;
  message = msg.message;
  pid = pid;
  tid = tid;
}

abbrev appended : List ℕ → Option (List ℕ) → Throwing (List ℕ)
appended out none = throws serialize_failed
appended out (some body) = ok (out ++ body)

unfoldable pub format : (LogRecord → Option (List ℕ)) → ℕ → ℕ → LogMsg → List ℕ → Throwing (List ℕ)
format serialize pid tid msg out = appended out (serialize (record_of pid tid msg))
