-- ===== src/Mmap/Buffer/Drain.antt =====
-- ForEachFrame (mmap/mmap_buffer.h) over a buffer image, whatever stands before `pos`.
use logger_high.Base.{
  ℕ, zero, suc, ◌+◌, ◌%◌, ◌^◌, ◌≤◌, ◌<◌, ◌≡◌, refl, ◌∙◌, ap, sym, List, [], ◌∷◌, ◌++◌, some,
  append_assoc, arith, length, take, drop, replicate, drop-drop, drop-append, take-append, All,
}
use logger_high.Bytes.{
  encode_le_u32, decode_le_u32, length-encode_le_u32, decode-encode, decode_zeros,
}
use logger_high.Mmap.Frame.{encode_frame, encode_frames, Fits, length-encode_frames_cons}
use logger_high.Mmap.Buffer.{frames_loop}

frames_stop :
    (fuel : ℕ) (mem : List ℕ) (end pos : ℕ)
    → decode_le_u32 (drop pos mem) ≡ 0
    → frames_loop (suc fuel) mem end pos ≡ some []
unfolding frames_loop
frames_stop fuel mem end pos z = rw z (ground arith)

frames_step :
    (fuel : ℕ) (mem : List ℕ) (end pos : ℕ) (p : List ℕ) (fs : List (List ℕ))
    → decode_le_u32 (drop pos mem) ≡ length p
    → 0 < length p
    → pos + 4 + length p ≤ end
    → end < 2 ^ 32
    → take (length p) (drop (pos + 4) mem) ≡ p
    → frames_loop fuel mem end (pos + 4 + length p) ≡ some fs
    → frames_loop (suc fuel) mem end pos ≡ some (p ∷ fs)
unfolding frames_loop
frames_step fuel mem end pos p fs d h k small t ih =
    let step : pos + (4 + length p) % 2 ^ 32 ≡ pos + 4 + length p = omega arith in
    rw (d, step, ih, t) (ground arith)

-- The walk hands out the frames of the image in order and stops at the zeros behind them, wherever
-- `end` stands between the last frame and the end of the image, below 2 ^ 32.
pub frames_loop-image :
    (fs : List (List ℕ)) (fuel : ℕ) (mem : List ℕ) (end pos room : ℕ)
    → drop pos mem ≡ encode_frames fs ++ replicate room 0
    → pos + length (encode_frames fs) ≤ end
    → end < 2 ^ 32
    → All Fits fs
    → end < pos + fuel
    → frames_loop fuel mem end pos ≡ some fs
frames_loop-image fs zero mem end pos room e k small f h = absurd (omega arith)
frames_loop-image [] (suc fuel) mem end pos room e k small f h =
    frames_stop fuel mem end pos (ap decode_le_u32 e ∙ decode_zeros room)
frames_loop-image (p ∷ fs) (suc fuel) mem end pos room e k small f h =
    let suffix : List ℕ = encode_frames fs ++ replicate room 0 in
    let total : length (encode_frames (p ∷ fs)) ≡ 4 + length p + length (encode_frames fs) =
      length-encode_frames_cons p fs in
    let split : drop pos mem ≡ encode_le_u32 (length p) ++ (p ++ suffix) =
      e
      ∙ append_assoc (encode_frame p) (encode_frames fs) (replicate room 0)
      ∙ append_assoc (encode_le_u32 (length p)) p suffix in
    let body : drop (pos + 4) mem ≡ p ++ suffix =
      sym (drop-drop 4 pos mem)
      ∙ ap (drop 4) split
      ∙ drop-append (encode_le_u32 (length p)) (p ++ suffix) 4 (length-encode_le_u32 (length p)) in
    let next : drop (pos + 4 + length p) mem ≡ suffix =
      sym (drop-drop (length p) (pos + 4) mem)
      ∙ ap (drop (length p)) body
      ∙ drop-append p suffix (length p) refl in
    frames_step fuel mem end pos p fs
      (ap decode_le_u32 split ∙ decode-encode (length p) (p ++ suffix) f.0.1) f.0.0 (omega arith)
      small (ap (take (length p)) body ∙ take-append p suffix (length p) refl)
      (frames_loop-image fs fuel mem end (pos + 4 + length p) room next (omega arith) small f.1
        (omega arith))
