-- ===== src/Decimal/Order.antt =====
-- Fields of one width compare as the numbers in them do.
use logger_high.Base.{ℕ, ◌/◌, ◌<◌, ◌≡◌, ◌∙◌, Bool, ◌&&◌, ◌||◌, List, ◌++◌, ltb, ◌==◌, arith}
use logger_high.Names.{name_lt}
use logger_high.Decimal.{zero_padded}
use logger_high.Decimal.Width.{digit, two_digits, three_digits, four_digits}

-- Two names that start with numbers, by the numbers and then by the rest.
abbrev pub by_number : ℕ → ℕ → Bool → Bool
by_number a b rest = ltb a b || (a == b && rest)

-- The last digit decides where the ones before it agree.
last_digit :
    (a b : ℕ) (rest : Bool)
    → by_number (a / 10) (b / 10) (by_number (digit a) (digit b) rest) ≡ by_number a b rest
last_digit a b rest = ground arith

small_digit :
    (a b : ℕ) (rest : Bool)
    → a < 10
    → b < 10
    → by_number (digit a) (digit b) rest ≡ by_number a b rest
small_digit a b rest h k = ground arith

pub two_by_number :
    (a b : ℕ) (x y : List ℕ)
    → a < 100
    → b < 100
    → name_lt (zero_padded 2 a ++ x) (zero_padded 2 b ++ y) ≡ by_number a b (name_lt x y)
unfolding name_lt
two_by_number a b x y h k =
    rw (two_digits a h, two_digits b k)
      (small_digit (a / 10) (b / 10) _ (omega arith) (omega arith) ∙ last_digit a b (name_lt x y))

pub three_by_number :
    (a b : ℕ) (x y : List ℕ)
    → a < 1000
    → b < 1000
    → name_lt (zero_padded 3 a ++ x) (zero_padded 3 b ++ y) ≡ by_number a b (name_lt x y)
unfolding name_lt
three_by_number a b x y h k =
    rw (three_digits a h, three_digits b k)
      (small_digit (a / 10 / 10) (b / 10 / 10) _ (omega arith) (omega arith)
        ∙ last_digit (a / 10) (b / 10) _
        ∙ last_digit a b (name_lt x y))

pub four_by_number :
    (a b : ℕ) (x y : List ℕ)
    → a < 10000
    → b < 10000
    → name_lt (zero_padded 4 a ++ x) (zero_padded 4 b ++ y) ≡ by_number a b (name_lt x y)
unfolding name_lt
four_by_number a b x y h k =
    rw (four_digits a h, four_digits b k)
      (small_digit (a / 10 / 10 / 10) (b / 10 / 10 / 10) _ (omega arith) (omega arith)
        ∙ last_digit (a / 10 / 10) (b / 10 / 10) _
        ∙ last_digit (a / 10) (b / 10) _
        ∙ last_digit a b (name_lt x y))
