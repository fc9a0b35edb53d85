-- ===== src/Handle/Dispatch.antt =====
-- What LogHandle::Log of handle/log_handle.cpp sends to the sinks.
use logger_high.Decimal.{ℤ}
use logger_high.Base.{
  ℕ, ◌≡◌, refl, ap, List, [], ◌∷◌, ◌++◌, map, leb, if◌then◌else◌, Bool-cases, inl, inr,
}
use logger_high.Handle.{
  LogLevel, to_u8, LogHandle, LogMsg, SourceLocation, logs, flushes, should_log, should_flush,
  log_all, flush_all, log,
}

log_all-map : (msg : LogMsg) (ss : List ℕ) → log_all msg ss ≡ map (λ s. logs s msg) ss
unfolding log_all
log_all-map msg [] = refl
log_all-map msg (s ∷ ss) = ap (λ l. logs s msg ∷ l) (log_all-map msg ss)

flush_all-map : (ss : List ℕ) → flush_all ss ≡ map flushes ss
unfolding flush_all
flush_all-map [] = refl
flush_all-map (s ∷ ss) = ap (λ l. flushes s ∷ l) (flush_all-map ss)

abbrev pub message_of : LogHandle → LogLevel → SourceLocation → List ℕ → ℤ → LogMsg
message_of h l loc message now = record {
  level = l;
  time = now;
  logger_name = h.name;
  loc = loc;
  message = message;
}

abbrev Sends : LogHandle → LogLevel → SourceLocation → List ℕ → ℤ → Type 0
Sends h l loc message now = log h l loc message now ≡ (
    if leb (to_u8 h.level) (to_u8 l)
    then map (λ s. logs s (message_of h l loc message now)) h.sinks
      ++ (if leb (to_u8 h.flush_level) (to_u8 l) then map flushes h.sinks else [])
    else [])

sends :
    (h : LogHandle) (ss : List ℕ) (l : LogLevel) (loc : SourceLocation) (message : List ℕ) (now : ℤ)
    → Sends (record h { sinks = ss }) l loc message now
unfolding log should_log should_flush log_all flush_all
sends h [] l loc message now = elim (Bool-cases (leb (to_u8 h.level) (to_u8 l))) [
  | inl e ↦ rw e (elim (Bool-cases (leb (to_u8 h.flush_level) (to_u8 l))) [
    | inl f ↦ rw f refl
    | inr f ↦ rw f refl
  ])
  | inr e ↦ rw e refl
]
sends h (s ∷ ss) l loc message now = elim (Bool-cases (leb (to_u8 h.level) (to_u8 l))) [
  | inl e ↦
      rw (e, log_all-map (message_of h l loc message now) ss)
        (elim (Bool-cases (leb (to_u8 h.flush_level) (to_u8 l))) [
          | inl f ↦ rw (f, flush_all-map ss) refl
          | inr f ↦ rw f refl
        ])
  | inr e ↦ rw e refl
]

-- A call at a level that passes sends one message, with the caller's level, place and text, to each
-- sink in the order of the list, and then, if its level reaches the flush level, one flush to each.
-- A call below the level sends nothing. The handle's test for an empty list changes nothing.
pub log-map :
    (h : LogHandle) (l : LogLevel) (loc : SourceLocation) (message : List ℕ) (now : ℤ)
    → log h l loc message now ≡ (
        if leb (to_u8 h.level) (to_u8 l)
        then map (λ s. logs s (message_of h l loc message now)) h.sinks
          ++ (if leb (to_u8 h.flush_level) (to_u8 l) then map flushes h.sinks else [])
        else [])
log-map h l loc message now = sends h h.sinks l loc message now
