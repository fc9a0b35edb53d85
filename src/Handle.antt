-- ===== src/Handle.antt =====
-- handle/log_handle.h, handle/log_handle.cpp, handle/log_msg.h and utils/log_level.h: levels, the
-- filter of the handle, and the fan-out to its sinks.
--
-- `level_` and `flush_level_` are atomics that a call reads once each. A sink is a number; what the
-- handle does is the list of the calls that it makes.
pub mod Dispatch
use logger_high.Decimal.{ℤ}
use logger_high.Base.{
  ℕ, ◌+◌, Bool, true, false, not, ◌&&◌, List, [], ◌∷◌, ◌++◌, Option, none, some, leb, if◌then◌else◌,
}
use Prim.Native.String.{String}

pub data LogLevel : Type 0 where
  trace debug info warn error critical off : LogLevel

abbrev pub to_u8 : LogLevel → ℕ
to_u8 LogLevel.trace = 0
to_u8 LogLevel.debug = 1
to_u8 LogLevel.info = 2
to_u8 LogLevel.warn = 3
to_u8 LogLevel.error = 4
to_u8 LogLevel.critical = 5
to_u8 LogLevel.off = 6

unfoldable pub level_to_string : LogLevel → String
level_to_string LogLevel.trace = "trace"
level_to_string LogLevel.debug = "debug"
level_to_string LogLevel.info = "info"
level_to_string LogLevel.warn = "warn"
level_to_string LogLevel.error = "error"
level_to_string LogLevel.critical = "critical"
level_to_string LogLevel.off = "off"

-- SourceLocation: `none` is a null file.
pub record SourceLocation : Type 0 where
  pub file : Option (List ℕ)
  pub line : ℕ
  pub func : Option (List ℕ)

pub record LogMsg : Type 0 where
  pub level : LogLevel
  pub time : ℤ
  pub logger_name : List ℕ
  pub loc : SourceLocation
  pub message : List ℕ

pub record LogHandle : Type 0 where
  pub level : LogLevel
  pub flush_level : LogLevel
  pub name : List ℕ
  pub sinks : List ℕ

pub data SinkCall : Type 0 where
  logs : ℕ → LogMsg → SinkCall
  flushes : ℕ → SinkCall

-- The constructor over a list of sinks, and that over one sink, which leaves a null one out.
abbrev pub new_handle : List ℕ → List ℕ → LogHandle
new_handle name sinks = record {
  level = LogLevel.info;
  flush_level = LogLevel.off;
  name = name;
  sinks = sinks;
}

abbrev sink_list : Option ℕ → List ℕ
sink_list none = []
sink_list (some s) = s ∷ []

abbrev pub new_handle_one : List ℕ → Option ℕ → LogHandle
new_handle_one name sink = new_handle name (sink_list sink)

abbrev pub set_level : LogHandle → LogLevel → LogHandle
set_level h l = record h { level = l }

abbrev pub set_flush_level : LogHandle → LogLevel → LogHandle
set_flush_level h l = record h { flush_level = l }

abbrev pub is_empty : List ℕ → Bool
is_empty [] = true
is_empty (s ∷ ss) = false

unfoldable pub should_log : LogHandle → LogLevel → Bool
should_log h l = leb (to_u8 h.level) (to_u8 l) && not (is_empty h.sinks)

unfoldable pub should_flush : LogHandle → LogLevel → Bool
should_flush h l = leb (to_u8 h.flush_level) (to_u8 l)

unfoldable pub log_all : LogMsg → List ℕ → List SinkCall
log_all msg [] = []
log_all msg (s ∷ ss) = logs s msg ∷ log_all msg ss

unfoldable pub flush_all : List ℕ → List SinkCall
flush_all [] = []
flush_all (s ∷ ss) = flushes s ∷ flush_all ss

-- Log, at the time `now`.
unfoldable pub log : LogHandle → LogLevel → SourceLocation → List ℕ → ℤ → List SinkCall
log h l loc message now =
    if not (should_log h l)
    then []
    else log_all
        (record { level = l; time = now; logger_name = h.name; loc = loc; message = message })
        h.sinks
      ++ (if should_flush h l then flush_all h.sinks else [])

unfoldable pub flush : LogHandle → List SinkCall
flush h = flush_all h.sinks
