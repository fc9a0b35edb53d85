-- ===== src/Formatter/Default.antt =====
-- formatter/default_formatter.cpp and sinks/console_sink.cpp: a message as a line of text.
use logger_high.Base.{
  ℕ, ◌≡◌, refl, inl, inr, Bool, true, false, ◌||◌, List, [], ◌∷◌, ◌++◌, Option, none, some, ◌==◌,
  if◌then◌else◌, codes, All, Bool-cases,
}
use logger_high.Decimal.{zero_padded, to_string}
use logger_high.Handle.{LogMsg, SourceLocation, level_to_string}
use logger_high.Sinks.ShardWriter.Names.{Stamp}

abbrev is_separator : ℕ → Bool
is_separator c = c == b'/' || c == 92

-- The loop of BaseName: `base` is where the last separator was passed.
unfoldable pub base_from : List ℕ → List ℕ → List ℕ
base_from base [] = base
base_from base (c ∷ p) = if is_separator c then base_from p p else base_from base p

unfoldable pub base_name : Option (List ℕ) → List ℕ
base_name none = []
base_name (some path) = base_from path path

abbrev line_of : SourceLocation → Option (List ℕ) → ℕ
line_of loc none = 0
line_of loc (some file) = loc.line

-- What DefaultFormatter::Format appends, at the local time `t`.
unfoldable pub format_default : Stamp → ℕ → ℕ → LogMsg → List ℕ
format_default t pid tid msg =
    codes "["
    ++ (zero_padded 4 t.year
        ++ (codes "-"
            ++ (zero_padded 2 t.month
                ++ (codes "-"
                    ++ (zero_padded 2 t.day
                        ++ (codes " "
                            ++ (zero_padded 2 t.hour
                                ++ (codes ":"
                                    ++ (zero_padded 2 t.minute
                                        ++ (codes ":"
                                            ++ (zero_padded 2 t.second
                                                ++ (codes "."
                                                    ++ (zero_padded 3 t.millis
                                                        ++ (codes "] ["
                                                            ++ (codes (level_to_string msg.level)
                                                            ++ (codes "] ["
                                                            ++ (msg.logger_name
                                                            ++ (codes "] ["
                                                            ++ (to_string pid
                                                            ++ (codes ":"
                                                            ++ (to_string tid
                                                            ++ (codes "] "
                                                            ++ (msg.message
                                                            ++ (codes " ("
                                                            ++ (base_name msg.loc.file
                                                            ++ (codes ":"
                                                            ++ (to_string
                                                            (line_of msg.loc msg.loc.file)
                                                            ++ codes ")")))))))))))))))))))))))))))

-- ConsoleSink::Log: one line more on the output, written in one piece under the mutex.
unfoldable pub console_log : Stamp → ℕ → ℕ → LogMsg → List ℕ → List ℕ
console_log t pid tid msg out = out ++ (format_default t pid tid msg ++ codes "\n")

abbrev pub NoSeparator : List ℕ → Type 0
NoSeparator name = All (λ c. is_separator c ≡ false) name

kept_base : (base name : List ℕ) → NoSeparator name → base_from base name ≡ base
unfolding base_from
kept_base base [] h = refl
kept_base base (c ∷ name) (h, hs) = rw h (kept_base base name hs)

-- BaseName is the part behind the last separator.
base_from-last :
    (base dir name : List ℕ) (c : ℕ)
    → is_separator c ≡ true
    → NoSeparator name
    → base_from base (dir ++ c ∷ name) ≡ name
unfolding base_from
base_from-last base [] name c s h = rw s (kept_base name name h)
base_from-last base (d ∷ dir) name c s h = elim (Bool-cases (is_separator d)) [
  | inl e ↦ rw e (base_from-last (dir ++ c ∷ name) dir name c s h)
  | inr e ↦ rw e (base_from-last base dir name c s h)
]
