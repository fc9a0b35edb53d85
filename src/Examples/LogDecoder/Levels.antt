-- ===== src/Examples/LogDecoder/Levels.antt =====
-- The names of the levels in the output of examples/log_decoder.cpp.
use logger_high.Base.{
  ℕ, suc, ◌≡◌, refl, Bool, true, false, ◌&&◌, List, [], ◌∷◌, Option, none, some, ◌==◌,
  if◌then◌else◌, codes,
}
use logger_high.Handle.{LogLevel, to_u8, level_to_string}
use logger_high.Examples.LogDecoder.{level_name}
use mathlib.Core.Option

-- The level that a member names.
abbrev level_names : List (List ℕ)
level_names =
    codes "trace"
    ∷ codes "debug"
    ∷ codes "info"
    ∷ codes "warn"
    ∷ codes "error"
    ∷ codes "critical"
    ∷ codes "off"
    ∷ []

abbrev same_text : List ℕ → List ℕ → Bool
same_text [] [] = true
same_text [] (d ∷ s) = false
same_text (c ∷ t) [] = false
same_text (c ∷ t) (d ∷ s) = let rest = same_text t s in c == d && rest

abbrev index_of : List ℕ → List (List ℕ) → Option ℕ
index_of text [] = none
index_of text (name ∷ names) =
    let later = index_of text names in if same_text text name then some 0 else Option.map suc later

abbrev pub read_level : List ℕ → Option ℕ
read_level text = index_of text level_names

abbrev pub LevelsRead : Type 0
LevelsRead = (l : LogLevel) → read_level (level_name (to_u8 l)) ≡ some (to_u8 l)

pub levels_read : LevelsRead
unfolding level_name level_to_string
levels_read LogLevel.trace = refl
levels_read LogLevel.debug = refl
levels_read LogLevel.info = refl
levels_read LogLevel.warn = refl
levels_read LogLevel.error = refl
levels_read LogLevel.critical = refl
levels_read LogLevel.off = refl
