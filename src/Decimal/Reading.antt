-- ===== src/Decimal/Reading.antt =====
-- Printed numbers, read again.
use logger_high.Base.{
  ℕ, zero, suc, ◌+◌, ◌-◌, ◌*◌, ◌/◌, ◌%◌, ◌^◌, ◌<◌, ◌≡◌, refl, ◌∙◌, ap, sym, inl, inr, true, false,
  ◌&&◌, List, [], ◌∷◌, ◌++◌, ltb, leb, ◌==◌, if◌then◌else◌, if_both, if_true, if_false, Bool-cases,
  arith, le→leb, replicate, length, append_assoc,
}
use logger_high.Decimal.{ℤ, pos, negsuc, minus, emit, to_string, signed_to_string, zero_padded}

-- The digits at the front of a text, behind those that came to `n`, and the rest of it.
abbrev pub read_digits : ℕ → List ℕ → ℕ × List ℕ
read_digits n [] = (n, [])
read_digits n (c ∷ s) =
    let rest = read_digits (10 * n + (c - b'0')) s in
    if leb b'0' c && leb c b'9' then rest else (n, c ∷ s)

abbrev pub read_number : List ℕ → ℕ × List ℕ
read_number s = read_digits 0 s

abbrev negated : ℕ × List ℕ → ℤ × List ℕ
negated (n, rest) = (minus n, rest)

abbrev kept : ℕ × List ℕ → ℤ × List ℕ
kept (n, rest) = (pos n, rest)

abbrev pub read_signed : List ℕ → ℤ × List ℕ
read_signed [] = (pos 0, [])
read_signed (c ∷ s) =
    let below = negated (read_number s) in
    let above = kept (read_number (c ∷ s)) in if c == b'-' then below else above

-- The numbers with so many digits at most.
abbrev limit : ℕ → ℕ
limit zero = 1
limit (suc f) = 10 * limit f

one_digit :
    (m n : ℕ) (out : List ℕ)
    → read_digits m ((b'0' + n % 10) ∷ out) ≡ read_digits (10 * m + n % 10) out
one_digit m n out =
    let low : leb b'0' (b'0' + n % 10) ≡ true = le→leb _ _ (omega arith) in
    let high : leb (b'0' + n % 10) b'9' ≡ true = le→leb _ _ (omega arith) in
    let value : b'0' + n % 10 - b'0' ≡ n % 10 = omega arith in rw (low, high, value) refl

read-emit :
    (f n : ℕ) (out : List ℕ) → n < limit f → read_digits 0 (emit f n out) ≡ read_digits n out
unfolding emit
read-emit zero n out h = let e : 0 ≡ n = omega arith in ap (λ m. read_digits m out) e
read-emit (suc f) n out h =
    let P = λ (l : List ℕ). read_digits 0 l ≡ read_digits n out in
    elim (Bool-cases (ltb n 10)) [
      | inl low ↦
          let e : 10 * 0 + n % 10 ≡ n = ground arith in
          if_true P (ltb n 10) _ _ low (one_digit 0 n out ∙ ap (λ m. read_digits m out) e)
      | inr high ↦
          let e : 10 * (n / 10) + n % 10 ≡ n = omega arith in
          if_false P (ltb n 10) _ _ high (
            read-emit f (n / 10) ((b'0' + n % 10) ∷ out) (omega (arith, h))
            ∙ one_digit (n / 10) n out
            ∙ ap (λ m. read_digits m out) e)
    ]

emit-append : (f n : ℕ) (out rest : List ℕ) → emit f n out ++ rest ≡ emit f n (out ++ rest)
unfolding emit
emit-append zero n out rest = refl
emit-append (suc f) n out rest = elim (Bool-cases (ltb n 10)) [
  | inl low ↦ rw low refl
  | inr high ↦ rw high (emit-append f (n / 10) ((b'0' + n % 10) ∷ out) rest)
]

-- A number of 64 bits is read back from its text; the reader goes on behind it.
pub read_number-to_string :
    (n : ℕ) (rest : List ℕ) → n < 2 ^ 64 → read_number (to_string n ++ rest) ≡ read_digits n rest
read_number-to_string n rest h =
    ap read_number (emit-append 20 n [] rest) ∙ read-emit 20 n rest (omega (arith, h))

-- A text that starts with no minus sign.
abbrev Unsigned : List ℕ → Type 0
Unsigned l = (c : ℕ) × (s : List ℕ) × (l ≡ c ∷ s) × (c == b'-' ≡ false)

emit-Unsigned : (f n c : ℕ) (s : List ℕ) → c == b'-' ≡ false → Unsigned (emit f n (c ∷ s))
unfolding emit
emit-Unsigned zero n c s h = (c, s, refl, h)
emit-Unsigned (suc f) n c s h =
    let digit : (b'0' + n % 10) == b'-' ≡ false = ground arith in
    if_both Unsigned (ltb n 10) ((b'0' + n % 10) ∷ c ∷ s) _ (b'0' + n % 10, c ∷ s, refl, digit)
      (emit-Unsigned f (n / 10) (b'0' + n % 10) (c ∷ s) digit)

to_string-Unsigned : (n : ℕ) → Unsigned (to_string n)
unfolding emit
to_string-Unsigned n =
    let digit : (b'0' + n % 10) == b'-' ≡ false = ground arith in
    if_both Unsigned (ltb n 10) ((b'0' + n % 10) ∷ []) _ (b'0' + n % 10, [], refl, digit)
      (emit-Unsigned 19 (n / 10) (b'0' + n % 10) [] digit)

-- What follows does not go on with digits.
abbrev pub Stops : List ℕ → Type 0
Stops rest = (n : ℕ) → read_digits n rest ≡ (n, rest)

-- The 64 bits of an int64_t.
abbrev pub IsInt64 : ℤ → Type 0
IsInt64 (pos n) = n < 2 ^ 63
IsInt64 (negsuc n) = n < 2 ^ 63

pub read_number-stop :
    (n : ℕ) (rest : List ℕ)
    → n < 2 ^ 64
    → Stops rest
    → read_number (to_string n ++ rest) ≡ (n, rest)
read_number-stop n rest h stop = read_number-to_string n rest h ∙ stop n

Unsigned-read :
    (l rest : List ℕ) → Unsigned l → read_signed (l ++ rest) ≡ kept (read_number (l ++ rest))
Unsigned-read l rest (c, s, e, h) =
    ap (λ m. read_signed (m ++ rest)) e
    ∙ rw h refl
    ∙ ap (λ m. kept (read_number (m ++ rest))) (sym e)

-- So is a signed one.
pub read_signed-signed_to_string :
    (t : ℤ) (rest : List ℕ)
    → IsInt64 t
    → Stops rest
    → read_signed (signed_to_string t ++ rest) ≡ (t, rest)
read_signed-signed_to_string (pos n) rest h stop =
    Unsigned-read (to_string n) rest (to_string-Unsigned n)
    ∙ ap kept (read_number-stop n rest (omega (arith, h)) stop)
read_signed-signed_to_string (negsuc n) rest h stop =
    let next : n + 1 ≡ suc n = omega arith in
    ap negated (read_number-stop (n + 1) rest (omega (arith, h)) stop)
    ∙ ap (λ m. (minus m, rest)) next

read-zeros : (k : ℕ) (s : List ℕ) → read_digits 0 (replicate k b'0' ++ s) ≡ read_digits 0 s
read-zeros zero s = refl
read-zeros (suc k) s = read-zeros k s

-- Padding with zeros changes no number.
pub read_number-zero_padded :
    (width n : ℕ) (rest : List ℕ)
    → n < 2 ^ 64
    → Stops rest
    → read_number (zero_padded width n ++ rest) ≡ (n, rest)
unfolding zero_padded
read_number-zero_padded width n rest h stop =
    let k = width - length (to_string n) in
    ap read_number (append_assoc (replicate k b'0') (to_string n) rest)
    ∙ read-zeros k (to_string n ++ rest)
    ∙ read_number-stop n rest h stop
