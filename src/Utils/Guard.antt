-- ===== src/Utils/Guard.antt =====
-- The guard of utils/internal_log.cpp against a call of InternalLog from within.
use logger_high.Base.{
  ℕ, ◌≡◌, refl, ◌∙◌, ap, sym, Bool, true, false, List, [], ◌++◌, append_assoc, append-nil, if_true,
  if_false, if◌then◌else◌,
}
use logger_high.Handle.{LogLevel}
use logger_high.Utils.{
  InternalCalls, logs_internal, no_call, then_call, ThreadLog, internal_log, internal_logs,
  internal_line,
}

-- The lines of some calls, those made from within left out, and those that threw.
abbrev pub lines_of : InternalCalls → List ℕ
lines_of no_call = []
lines_of (then_call (logs_internal lv tag msg threw during) cs) =
    (if threw then [] else internal_line lv tag msg) ++ lines_of cs

-- Calls from within a call do nothing.
within-silent :
    (s : ThreadLog) (cs : InternalCalls) → s.in_internal_log ≡ true → internal_logs s cs ≡ s
unfolding internal_log internal_logs
within-silent s no_call h = refl
within-silent s (then_call (logs_internal lv tag msg threw during) cs) h =
    if_true (λ (t : ThreadLog). internal_logs t cs ≡ s) s.in_internal_log _ _ h
      (within-silent s cs h)

one_line :
    (s : ThreadLog) (lv : LogLevel) (tag msg : List ℕ) (threw : Bool) (during : InternalCalls)
    → s.in_internal_log ≡ false
    → internal_log s (logs_internal lv tag msg threw during) ≡ record {
      in_internal_log = false;
      err = s.err ++ (if threw then [] else internal_line lv tag msg);
    }
unfolding internal_log
one_line s lv tag msg threw during h =
    let begun : ThreadLog = record s { in_internal_log = true } in
    let silent : (internal_logs begun during).err ≡ s.err =
      ap (λ (t : ThreadLog). t.err) (within-silent begun during refl) in
    let printed : (e : List ℕ)
        → e ≡ s.err
        → (if threw then e else e ++ internal_line lv tag msg)
          ≡ s.err ++ (if threw then [] else internal_line lv tag msg) =
      λ e q. by_answer e q threw in
    if_false
      (λ (t : ThreadLog). t ≡ record {
        in_internal_log = false;
        err = s.err ++ (if threw then [] else internal_line lv tag msg);
      })
      s.in_internal_log _ _ h
      (ap (λ e. record { in_internal_log = false; err = e })
        (printed (internal_logs begun during).err silent))
  where
    by_answer :
        (e : List ℕ)
        → e ≡ s.err
        → (threw : Bool)
        → (if threw then e else e ++ internal_line lv tag msg)
          ≡ s.err ++ (if threw then [] else internal_line lv tag msg)
    by_answer e q true = q ∙ sym (append-nil s.err)
    by_answer e q false = ap (λ l. l ++ internal_line lv tag msg) q

-- Whatever calls InternalLog makes of itself while it prints, and whichever of them throw: the calls
-- of a thread that is outside all of them print one line each, in their order, those that threw left
-- out, and the thread is outside again.
pub internal_logs-lines_of :
    (s : ThreadLog) (cs : InternalCalls)
    → s.in_internal_log ≡ false
    → internal_logs s cs ≡ record { in_internal_log = false; err = s.err ++ lines_of cs }
unfolding internal_log internal_logs
internal_logs-lines_of s no_call h =
    λ i. record { in_internal_log = h i; err = sym (append-nil s.err) i }
internal_logs-lines_of s (then_call (logs_internal lv tag msg threw during) cs) h =
    let line = if threw then [] else internal_line lv tag msg in
    ap (λ t. internal_logs t cs) (one_line s lv tag msg threw during h)
    ∙ internal_logs-lines_of (record { in_internal_log = false; err = s.err ++ line }) cs refl
    ∙ ap (λ e. record { in_internal_log = false; err = e }) (append_assoc s.err line (lines_of cs))
