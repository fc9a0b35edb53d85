-- ===== src/Proto.antt =====
-- proto/log_record.proto: the message that a record is stored as.
use logger_high.Base.{ℕ, List}
use logger_high.Decimal.{ℤ}

-- A `string` field is its bytes; uint32 and uint64 fields are numbers, time_ns an int64.
pub record LogRecord : Type 0 where
  pub level : ℕ
  pub time_ns : ℤ
  pub logger_name : List ℕ
  pub file : List ℕ
  pub line : ℕ
  pub func : List ℕ
  pub message : List ℕ
  pub pid : ℕ
  pub tid : ℕ
