-- ===== src/Mmap/Frame.antt =====
-- The image of a buffer of mmap/mmap_buffer.h: frames `[uint32_le len][payload]` one after another,
-- then zeros. This is the description that MmapBuffer is measured against.
use logger_high.Base.{
  ℕ, ◌+◌, ◌^◌, ◌<◌, ◌≡◌, refl, ◌∙◌, ap, sym, List, [], ◌∷◌, ◌++◌, append_assoc, arith, length,
  length-append,
}
use logger_high.Bytes.{encode_le_u32, length-encode_le_u32}

abbrev pub encode_frame : List ℕ → List ℕ
encode_frame p = encode_le_u32 (length p) ++ p

abbrev pub encode_frames : List (List ℕ) → List ℕ
encode_frames [] = []
encode_frames (p ∷ ps) = encode_frame p ++ encode_frames ps

-- The payloads that a frame can hold.
abbrev pub Fits : List ℕ → Type 0
Fits p = (0 < length p) × (length p < 2 ^ 32)

pub length-encode_frame : (p : List ℕ) → length (encode_frame p) ≡ 4 + length p
length-encode_frame p =
    omega (arith, length-append (encode_le_u32 (length p)) p, length-encode_le_u32 (length p))

pub encode_frames-append :
    (ps qs : List (List ℕ)) → encode_frames (ps ++ qs) ≡ encode_frames ps ++ encode_frames qs
encode_frames-append [] qs = refl
encode_frames-append (p ∷ ps) qs =
    ap (λ l. encode_frame p ++ l) (encode_frames-append ps qs)
    ∙ sym (append_assoc (encode_frame p) (encode_frames ps) (encode_frames qs))

pub length-encode_frames_cons :
    (p : List ℕ) (ps : List (List ℕ))
    → length (encode_frames (p ∷ ps)) ≡ 4 + length p + length (encode_frames ps)
length-encode_frames_cons p ps =
    omega (arith, length-append (encode_frame p) (encode_frames ps), length-encode_frame p)
