-- ===== src/Bytes.antt =====
-- The little-endian 32-bit length prefixes: WriteU32LE (mmap/mmap_buffer.cpp), EncodeLEU32
-- (sinks/shard_writer.cpp), `len_le` of EffectiveSink::Log (sinks/effective_sink.cpp) and DecodeLEU32
-- (audit/shard_reader.cpp). A byte is a number below 256, and a buffer of bytes is a list of them.
use logger_high.Base.{
  ℕ, zero, suc, ◌+◌, ◌*◌, ◌/◌, ◌%◌, ◌^◌, ◌<◌, ◌≡◌, refl, ◌∙◌, List, [], ◌∷◌, ◌++◌, bit_or,
  bit_or-shift, arith, All, length, get_or, replicate,
}

abbrev pub IsByte : ℕ → Type 0
IsByte b = b < 256

abbrev pub byte : ℕ → ℕ
byte v = v % 256

-- `v >> k`, and `v << k` on a uint32_t
abbrev pub shr : ℕ → ℕ → ℕ
shr v k = v / 2 ^ k

abbrev pub shl : ℕ → ℕ → ℕ
shl v k = v * 2 ^ k % 2 ^ 32

-- `& 0xFF` and the cast to a byte keep the low eight digits.
unfoldable pub encode_le_u32 : ℕ → List ℕ
encode_le_u32 v = byte v ∷ byte (shr v 8) ∷ byte (shr v 16) ∷ byte (shr v 24) ∷ []

-- Reads `p[0]` to `p[3]`; a read past the end of the list is a zero, and no caller makes one.
unfoldable pub decode_le_u32 : List ℕ → ℕ
decode_le_u32 p =
    bit_or (bit_or (bit_or (get_or p 0 0) (shl (get_or p 1 0) 8)) (shl (get_or p 2 0) 16))
      (shl (get_or p 3 0) 24)

pub length-encode_le_u32 : (v : ℕ) → length (encode_le_u32 v) ≡ 4
unfolding encode_le_u32
length-encode_le_u32 v = refl

pub encode_le_u32-IsByte : (v : ℕ) → All IsByte (encode_le_u32 v)
unfolding encode_le_u32
encode_le_u32-IsByte v = omega arith

or_chain_sum :
    (b0 b1 b2 b3 : ℕ)
    → IsByte b0
    → IsByte b1
    → IsByte b2
    → IsByte b3
    → bit_or (bit_or (bit_or b0 (shl b1 8)) (shl b2 16)) (shl b3 24)
      ≡ b0 + b1 * 256 + b2 * 65536 + b3 * 16777216
or_chain_sum b0 b1 b2 b3 h0 h1 h2 h3 =
    let e1 : shl b1 8 ≡ b1 * 2 ^ 8 = omega arith in
    let e2 : shl b2 16 ≡ b2 * 2 ^ 16 = omega arith in
    let e3 : shl b3 24 ≡ b3 * 2 ^ 24 = omega arith in
    rw
      (
        e1,
        e2,
        e3,
        bit_or-shift 8 b0 b1 h0,
        bit_or-shift 16 (b0 + b1 * 2 ^ 8) b2 (omega arith),
        bit_or-shift 24 (b0 + b1 * 2 ^ 8 + b2 * 2 ^ 16) b3 (omega arith),
      )
      (omega arith)

-- Whatever follows in the buffer, the reader gets back the number that the writer stored, for every
-- 32-bit number.
pub decode-encode :
    (v : ℕ) (rest : List ℕ) → v < 2 ^ 32 → decode_le_u32 (encode_le_u32 v ++ rest) ≡ v
unfolding decode_le_u32 encode_le_u32
decode-encode v rest h =
    or_chain_sum (byte v) (byte (shr v 8)) (byte (shr v 16)) (byte (shr v 24)) (omega arith)
      (omega arith) (omega arith) (omega arith)
    ∙ omega arith

-- Zeroed memory reads as the length 0, which ends the walk over the frames.
pub decode_zeros : (n : ℕ) → decode_le_u32 (replicate n 0) ≡ 0
unfolding decode_le_u32
decode_zeros zero = refl
decode_zeros (suc zero) = refl
decode_zeros (suc (suc zero)) = refl
decode_zeros (suc (suc (suc zero))) = refl
decode_zeros (suc (suc (suc (suc n)))) = refl

-- Four zeros are enough, whatever follows.
pub decode_leading_zeros :
    (n : ℕ) (rest : List ℕ) → decode_le_u32 (replicate (suc (suc (suc (suc n)))) 0 ++ rest) ≡ 0
unfolding decode_le_u32
decode_leading_zeros n rest = refl
