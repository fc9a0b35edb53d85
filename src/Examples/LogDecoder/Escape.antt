-- ===== src/Examples/LogDecoder/Escape.antt =====
-- The strings that JsonEscapeAppend of examples/log_decoder.cpp writes, read by the rules of JSON.
use logger_high.Base.{
  ℕ, zero, suc, ◌+◌, ◌-◌, ◌*◌, ◌/◌, ◌%◌, ◌<◌, ◌≡◌, refl, ◌∙◌, ap, sym, false, ◌&&◌, List, [], ◌∷◌,
  ◌++◌, Option, none, some, ltb, leb, ◌==◌, if◌then◌else◌, arith, append_assoc, subst, inl, inr,
  Bool-cases, ==_iff, if_true, if_false, ltb→lt, lt→ltb,
}
use logger_high.Examples.LogDecoder.{hex_digit, json_escape_char, json_escape_body, json_escape}
use mathlib.Core.Option

-- A hexadecimal digit of either case.
abbrev hex_value : ℕ → Option ℕ
hex_value c =
    if leb b'0' c && leb c b'9'
    then some (c - b'0')
    else if leb b'a' c && leb c b'f'
    then some (c - b'a' + 10)
    else if leb b'A' c && leb c b'F'
    then some (c - b'A' + 10)
    else none

-- The character of an escape of one letter.
abbrev named_escape : ℕ → Option ℕ
named_escape c =
    if c == 34
    then some 34
    else if c == 92
    then some 92
    else if c == b'/'
    then some b'/'
    else if c == b'b'
    then some 8
    else if c == b'f'
    then some 12
    else if c == b'n'
    then some 10
    else if c == b'r'
    then some 13
    else if c == b't'
    then some 9
    else none

-- A code point below 2 ^ 16 in UTF-8.
abbrev utf8 : ℕ → List ℕ
utf8 v =
    if ltb v 0x80
    then v ∷ []
    else if ltb v 0x800
    then (0xC0 + v / 64) ∷ (0x80 + v % 64) ∷ []
    else (0xE0 + v / 4096) ∷ (0x80 + v / 64 % 64) ∷ (0x80 + v % 64) ∷ []

-- Where a reader stands inside a string: `hex k v` has read some digits of `\u`, and `k + 1` follow.
pub data Mode : Type 0 where
  plain : Mode
  escape : Mode
  hex : ℕ → ℕ → Mode

abbrev pub Read : Type 0
Read = Option (List ℕ × List ℕ)

abbrev before : List ℕ → List ℕ × List ℕ → List ℕ × List ℕ
before l (text, rest) = (l ++ text, rest)

abbrev with_escape : Option ℕ → Read → Read
with_escape none rest = none
with_escape (some d) rest = Option.map (before (d ∷ [])) rest

abbrev with_digit : Option ℕ → (ℕ → Read) → Read
with_digit none continue = none
with_digit (some v) continue = continue v

-- A string up to its closing quote, and what follows it. A quote, a backslash and a character below 32
-- must be escaped.
unfoldable pub read_string : Mode → List ℕ → Read
read_string m [] = none
read_string plain (c ∷ s) =
    let escaped = read_string escape s in
    let rest = read_string plain s in
    if c == 34
    then some ([], s)
    else if c == 92
    then escaped
    else if ltb c 32
    then none
    else Option.map (before (c ∷ [])) rest
read_string escape (c ∷ s) =
    let digits = read_string (hex 3 0) s in
    let rest = read_string plain s in
    if c == b'u' then digits else with_escape (named_escape c) rest
read_string (hex zero v) (c ∷ s) =
    with_digit (hex_value c) λ h. Option.map (before (utf8 (16 * v + h))) (read_string plain s)
read_string (hex (suc k) v) (c ∷ s) =
    with_digit (hex_value c) λ h. read_string (hex k (16 * v + h)) s

unfoldable pub read_json_string : List ℕ → Option (List ℕ × List ℕ)
unfolding read_string
read_json_string [] = none
read_json_string (c ∷ s) = let rest = read_string plain s in if c == 34 then rest else none

hex_value-hex_digit : (h : ℕ) → h < 16 → hex_value (hex_digit h) ≡ some h
hex_value-hex_digit h k = ground arith

module _ (rest : List ℕ) where
  -- `l` reads as the character `c`, and then what follows.
  abbrev ReadsAs : ℕ → List ℕ → Type 0
  ReadsAs c l =
      read_string plain (l ++ rest) ≡ Option.map (before (c ∷ [])) (read_string plain rest)

  -- One round of the `switch`.
  one_case :
      (c d : ℕ) (l m : List ℕ)
      → ReadsAs d l
      → (c == d ≡ false → ReadsAs c m)
      → ReadsAs c (if c == d then l else m)
  one_case c d l m here there = elim (Bool-cases (c == d)) [
    | inl e ↦
        if_true (ReadsAs c) (c == d) l m e (subst (λ x. ReadsAs x l) (sym ((==_iff c d).0 e)) here)
    | inr e ↦ if_false (ReadsAs c) (c == d) l m e (there e)
  ]

  control_char :
      (c : ℕ)
      → c < 32
      → ReadsAs c (92 ∷ b'u' ∷ b'0' ∷ b'0' ∷ hex_digit (c / 16) ∷ hex_digit (c % 16) ∷ [])
  unfolding read_string
  control_char c h =
      let whole : 16 * (0 + c / 16) + c % 16 ≡ c = omega arith in
      let one_byte : utf8 c ≡ c ∷ [] = rw (lt→ltb c 128 (omega (arith, h))) refl in
      rw (hex_value-hex_digit (c / 16) (omega arith), hex_value-hex_digit (c % 16) (omega arith))
        (ap (λ v. Option.map (before (utf8 v)) (read_string plain rest)) whole
          ∙ ap (λ l. Option.map (before l) (read_string plain rest)) one_byte)

  plain_char : (c : ℕ) → c == 34 ≡ false → c == 92 ≡ false → ltb c 32 ≡ false → ReadsAs c (c ∷ [])
  unfolding read_string
  plain_char c n m h = rw (n, m, h) refl

  -- One escaped character is read back, whatever follows.
  read-escape_char : (c : ℕ) → ReadsAs c (json_escape_char c)
  unfolding read_string json_escape_char
  read-escape_char c = one_case c 34 _ _ refl λ quote. one_case c 92 _ _ refl λ backslash.
      one_case c 8 _ _ refl λ _. one_case c 12 _ _ refl λ _. one_case c 10 _ _ refl λ _.
        one_case c 13 _ _ refl λ _. one_case c 9 _ _ refl λ _. elim (Bool-cases (ltb c 32)) [
          | inl low ↦ if_true (ReadsAs c) (ltb c 32) _ _ low (control_char c (ltb→lt c 32 low))
          | inr high ↦ if_false (ReadsAs c) (ltb c 32) _ _ high (plain_char c quote backslash high)
        ]

read-escape_body :
    (s rest : List ℕ) → read_string plain (json_escape_body s ++ 34 ∷ rest) ≡ some (s, rest)
unfolding read_string json_escape_body
read-escape_body [] rest = refl
read-escape_body (c ∷ s) rest =
    ap (read_string plain) (append_assoc (json_escape_char c) (json_escape_body s) (34 ∷ rest))
    ∙ read-escape_char (json_escape_body s ++ 34 ∷ rest) c
    ∙ ap (Option.map (before (c ∷ []))) (read-escape_body s rest)

-- A reader of JSON gets back every text that JsonEscapeAppend wrote, whatever bytes are in it, and
-- stops where the string ends.
pub read_json_string-json_escape :
    (s rest : List ℕ) → read_json_string (json_escape s ++ rest) ≡ some (s, rest)
unfolding read_json_string json_escape
read_json_string-json_escape s rest =
    ap (read_string plain) (append_assoc (json_escape_body s) (34 ∷ []) rest)
    ∙ read-escape_body s rest
