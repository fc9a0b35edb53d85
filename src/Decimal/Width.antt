-- ===== src/Decimal/Width.antt =====
-- A number below the power of ten that its field has room for fills the field exactly.
use logger_high.Base.{
  ℕ, ◌+◌, ◌/◌, ◌%◌, ◌<◌, ◌≡◌, [], ◌∷◌, arith, ◌-◌, ◌≤◌, length, replicate, length-append,
  length-replicate,
}
use logger_high.Decimal.{emit, to_string, zero_padded}

abbrev pub digit : ℕ → ℕ
digit n = b'0' + n % 10

pub two_digits : (n : ℕ) → n < 100 → zero_padded 2 n ≡ digit (n / 10) ∷ digit n ∷ []
unfolding zero_padded emit
two_digits n h = ground arith

pub three_digits :
    (n : ℕ) → n < 1000 → zero_padded 3 n ≡ digit (n / 10 / 10) ∷ digit (n / 10) ∷ digit n ∷ []
unfolding zero_padded emit
three_digits n h = ground arith

pub four_digits :
    (n : ℕ)
    → n < 10000
    → zero_padded 4 n
      ≡ digit (n / 10 / 10 / 10) ∷ digit (n / 10 / 10) ∷ digit (n / 10) ∷ digit n ∷ []
unfolding zero_padded emit
four_digits n h = ground arith

pub width-le-length : (width n : ℕ) → width ≤ length (zero_padded width n)
unfolding zero_padded
width-le-length width n =
    let digits = to_string n in
    omega (
      arith,
      length-append (replicate (width - length digits) b'0') digits,
      length-replicate {A = ℕ} (width - length digits) b'0',
    )
