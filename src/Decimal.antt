-- ===== src/Decimal.antt =====
-- Decimal numbers as std::to_string and the `{:0n}` of fmt print them (examples/log_decoder.cpp,
-- sinks/shard_writer.cpp).
pub mod Width
pub mod Order
pub mod Reading
use logger_high.Base.{
  ℕ, zero, suc, ◌+◌, ◌-◌, ◌/◌, ◌%◌, List, [], ◌∷◌, ◌++◌, length, replicate, ltb, if◌then◌else◌,
}

-- The digits of `n` before `out`, in as many rounds as there is fuel.
unfoldable pub emit : ℕ → ℕ → List ℕ → List ℕ
emit zero n out = out
emit (suc fuel) n out =
    let digit = b'0' + n % 10 in
    let rest = emit fuel (n / 10) (digit ∷ out) in if ltb n 10 then digit ∷ out else rest

-- The numbers of the program have 64 bits, hence twenty digits at most.
abbrev pub to_string : ℕ → List ℕ
to_string n = emit 20 n []

-- At least `width` characters.
unfoldable pub zero_padded : ℕ → ℕ → List ℕ
zero_padded width n = let digits = to_string n in replicate (width - length digits) b'0' ++ digits

-- An int64_t: `pos n`, or `negsuc n` for the number below zero by `n + 1`.
pub data ℤ : Type 0 where
  pos : ℕ → ℤ
  negsuc : ℕ → ℤ

abbrev pub signed_to_string : ℤ → List ℕ
signed_to_string (pos n) = to_string n
signed_to_string (negsuc n) = b'-' ∷ to_string (n + 1)

-- `%0*ld`: the sign counts for the width.
abbrev pub signed_padded : ℕ → ℤ → List ℕ
signed_padded width (pos n) = zero_padded width n
signed_padded width (negsuc n) = b'-' ∷ zero_padded (width - 1) (n + 1)

-- Division and remainder round towards zero, for a divisor above zero.
abbrev pub minus : ℕ → ℤ
minus zero = pos 0
minus (suc n) = negsuc n

abbrev pub quotient : ℤ → ℕ → ℤ
quotient (pos n) k = pos (n / k)
quotient (negsuc n) k = minus ((n + 1) / k)

abbrev pub remainder : ℤ → ℕ → ℤ
remainder (pos n) k = pos (n % k)
remainder (negsuc n) k = minus ((n + 1) % k)
