-- ===== src/Utils.antt =====
-- utils/internal_log.h, utils/internal_log.cpp, and GetPageSize of utils/system_info.cpp.
--
-- The state of one thread is its guard `g_in_internal_log` and what it has put on stderr. While a line
-- is printed, the code that prints it may call InternalLog again: such calls are part of a call, and
-- whether fmt::print threw, having printed nothing, is its answer.
pub mod Guard
use logger_high.Base.{
  ℕ, ◌+◌, ◌-◌, ◌%◌, ◌^◌, Bool, true, false, List, [], ◌∷◌, ◌++◌, if◌then◌else◌, codes,
}
use logger_high.Decimal.{ℤ, pos, negsuc}
use logger_high.Handle.{LogLevel, level_to_string}

mutual
  pub data InternalCall : Type 0 where
    logs_internal : LogLevel → List ℕ → List ℕ → Bool → InternalCalls → InternalCall

  pub data InternalCalls : Type 0 where
    no_call : InternalCalls
    then_call : InternalCall → InternalCalls → InternalCalls

pub record ThreadLog : Type 0 where
  pub in_internal_log : Bool
  pub err : List ℕ

abbrev pub internal_line : LogLevel → List ℕ → List ℕ → List ℕ
internal_line lv tag msg =
    codes "[logger-high]["
    ++ (codes (level_to_string lv) ++ (codes "][" ++ (tag ++ (codes "] " ++ (msg ++ 10 ∷ [])))))

unfoldable mutual
  pub internal_log : ThreadLog → InternalCall → ThreadLog
  internal_log s (logs_internal lv tag msg threw during) =
      let inside = internal_logs (record s { in_internal_log = true }) during in
      let err = if threw then inside.err else inside.err ++ internal_line lv tag msg in
      if s.in_internal_log then s else record { in_internal_log = false; err = err }

  pub internal_logs : ThreadLog → InternalCalls → ThreadLog
  internal_logs s no_call = s
  internal_logs s (then_call c cs) = internal_logs (internal_log s c) cs

-- GetPageSize on POSIX: the answer of sysconf, which is -1 on an error, as a size_t.
unfoldable pub get_page_size : ℤ → ℕ
get_page_size (pos n) = n % 2 ^ 64
get_page_size (negsuc n) = 2 ^ 64 - 1 - n % 2 ^ 64
