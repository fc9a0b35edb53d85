-- ===== src/Mmap/Buffer/Long.antt =====
-- ForEachFrame of mmap/mmap_buffer.h on a frame of 2 ^ 32 - 4 bytes.
use logger_high.Base.{
  ℕ, zero, suc, ◌+◌, ◌-◌, ◌%◌, ◌^◌, ◌≤◌, ◌≡◌, refl, ◌∙◌, ap, true, false, List, ◌++◌, none,
  append_assoc, arith, length, drop, replicate, length-replicate, leb, le→leb,
}
use logger_high.Bytes.{encode_le_u32, decode_le_u32, decode-encode}
use logger_high.Mmap.Frame.{encode_frame, length-encode_frame}
use logger_high.Mmap.Buffer.{frames_loop, open_buffer, used, write}
use logger_high.Mmap.Buffer.Fill.{cost, is_oversized, write_lem, after_write}
use logger_high.Mmap.Buffer.Runs.{length-store}

stays :
    (fuel : ℕ) (mem : List ℕ) (end pos : ℕ)
    → decode_le_u32 (drop pos mem) ≡ 2 ^ 32 - 4
    → pos + 2 ^ 32 ≤ end
    → frames_loop fuel mem end pos ≡ none
unfolding frames_loop
stays zero mem end pos d h = refl
stays (suc fuel) mem end pos d h =
    let same : pos + (4 + (2 ^ 32 - 4)) % 2 ^ 32 ≡ pos = omega arith in
    rw (d, same, stays fuel mem end pos d h) (ground arith)

-- On a file of zeros that has room for it, Write takes a record of 2 ^ 32 - 4 bytes and returns true;
-- but the sum `4 + len` of ForEachFrame is 0 in 32 bits, and its loop over the buffer has not ended
-- after any number of rounds.
pub long_frame_loops :
    (n : ℕ) (p : List ℕ)
    → length p ≡ 2 ^ 32 - 4
    → 2 ^ 32 ≤ n
    → let w = write (open_buffer (replicate n 0)) p in
      (w.1 ≡ true) × ((fuel : ℕ) → frames_loop fuel w.0.mem (used w.0) 0 ≡ none)
long_frame_loops n p l h =
    let b = open_buffer (replicate n 0) in
    let size : length b.mem ≡ n = length-replicate {A = ℕ} n 0 in
    let legal : is_oversized p ≡ false = ground (arith, l) in
    let found : leb (b.offset + cost p) (length b.mem) ≡ true =
      le→leb _ _ (omega (arith, l, h, size)) in
    let frame = length-encode_frame p in
    let after = after_write b p true in
    let first : decode_le_u32 (drop 0 after.mem) ≡ 2 ^ 32 - 4 =
      ap decode_le_u32
        (append_assoc (encode_le_u32 (length p)) p (drop (0 + length (encode_frame p)) b.mem))
      ∙ decode-encode (length p) (p ++ drop (0 + length (encode_frame p)) b.mem) (omega (arith, l))
      ∙ l in
    let same : length after.mem ≡ length b.mem =
      length-store b.mem 0 (encode_frame p) (omega (arith, frame, l, h, size)) in
    rw (write_lem b p legal refl (omega (arith, l)), found)
      (refl, λ fuel. stays fuel after.mem (used after) 0 first (omega (arith, same, size, h, l)))
