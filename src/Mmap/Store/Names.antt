-- ===== src/Mmap/Store/Names.antt =====
-- BuildBufferPath_ of mmap/mmap_store.cpp: the file name of a buffer, without its directory.
use logger_high.Base.{ℕ, ◌^◌, ◌<◌, ◌≡◌, refl, ◌∙◌, ap, sym, List, [], ◌∷◌, ◌++◌, drop}
use logger_high.Decimal.{zero_padded}
use logger_high.Decimal.Reading.{read_number, read_number-zero_padded}

abbrev pub buffer_suffix : List ℕ
buffer_suffix = b'.' ∷ b'm' ∷ b'm' ∷ b'a' ∷ b'p' ∷ []

-- `buffer-%06llu.mmap`
unfoldable pub buffer_name : ℕ → List ℕ
buffer_name seq =
    b'b' ∷ b'u' ∷ b'f' ∷ b'f' ∷ b'e' ∷ b'r' ∷ b'-' ∷ (zero_padded 6 seq ++ buffer_suffix)

-- The number of a buffer can be read off its name.
read_number-buffer_name :
    (q : ℕ) → q < 2 ^ 64 → read_number (drop 7 (buffer_name q)) ≡ (q, buffer_suffix)
unfolding buffer_name
read_number-buffer_name q h = read_number-zero_padded 6 q buffer_suffix h (λ n. refl)

pub buffer_name-distinct :
    (q r : ℕ) → q < 2 ^ 64 → r < 2 ^ 64 → buffer_name q ≡ buffer_name r → q ≡ r
buffer_name-distinct q r h k e =
    ap (λ p. p.0)
      (sym (read_number-buffer_name q h)
        ∙ ap (λ l. read_number (drop 7 l)) e
        ∙ read_number-buffer_name r k)
