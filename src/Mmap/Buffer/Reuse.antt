-- ===== src/Mmap/Buffer/Reuse.antt =====
-- ResetForReuse of mmap/mmap_buffer.cpp, and what MmapRegion::Create leaves in a file that exists.
use logger_high.Bytes.{decode_le_u32, decode_leading_zeros}
use logger_high.Base.{
  ℕ, suc, ◌+◌, ◌-◌, ◌^◌, ◌≤◌, ◌<◌, ◌≡◌, refl, ◌∙◌, ap, inl, inr, true, false, le→leb, List, [],
  ◌++◌, some, arith, length, drop, replicate, length-append, length-replicate, drop-replicate,
  replicate-add, All, leb, drop-append_add,
}
use logger_high.Mmap.Frame.{encode_frames, Fits}
use logger_high.Mmap.Buffer.{
  MmapBuffer, frames_loop, reopen, scrub, open_buffer, used, write, for_each_frame, reset_for_reuse,
}
use logger_high.Mmap.Buffer.Fill.{
  Filled, room, cost, length-image, is_oversized, write_lem, after_write,
}
use logger_high.Mmap.Buffer.Runs.{zeros-Filled, for_each_frame-Filled}

-- ResetForReuse gives back a buffer that is empty, open and zero to its last byte, so the frames of
-- one cycle are never seen in the next.
pub reset_for_reuse-Filled :
    (b : MmapBuffer) (fs : List (List ℕ))
    → Filled b fs
    → let b' = reset_for_reuse b in
      Filled b' [] × (b'.sealed ≡ false) × (b'.offset ≡ 0) × (length b'.mem ≡ length b.mem)
unfolding reset_for_reuse
reset_for_reuse-Filled b fs v =
    let enc = encode_frames fs in
    let n = room b fs in
    let k = used b - length enc in
    let size = length-image b fs v in
    let covered : (length enc ≤ used b) = elim v.mark [
      | inl m ↦ omega arith
      | inr m ↦ omega arith
    ] in
    let at : used b ≡ length enc + k = omega arith in
    let zeros : replicate (used b) 0 ++ drop (used b) b.mem ≡ replicate (length b.mem) 0 =
      ap (λ l. replicate (used b) 0 ++ drop (used b) l) v.image
      ∙ ap (λ m. replicate (used b) 0 ++ drop m (enc ++ replicate n 0)) at
      ∙ ap (λ l. replicate (used b) 0 ++ l)
          (drop-append_add enc (replicate n 0) (length enc) k refl ∙ drop-replicate k n 0)
      ∙ replicate-add (used b) (n - k) 0
      ∙ (let e : used b + (n - k) ≡ length b.mem = omega arith in ap (λ m. replicate m 0) e) in
    let same : length (replicate (used b) 0 ++ drop (used b) b.mem) ≡ length b.mem =
      ap length zeros ∙ length-replicate (length b.mem) 0 in
    (zeros-Filled (reset_for_reuse b) (length b.mem) zeros refl v.small, refl, refl, same)

-- A file of less than 4 GiB, left by a run that stopped before its drain, is mapped again without
-- being cleared. If the first record is then too long for the region, Write turns it down, yet the drain hands out every
-- frame that the old run left.
pub stale_frames_drained :
    (fs : List (List ℕ)) (n : ℕ) (p : List ℕ)
    → All Fits fs
    → Fits p
    → length (encode_frames fs ++ replicate n 0) < 2 ^ 32
    → length (encode_frames fs ++ replicate n 0) < cost p
    → let done = write (open_buffer (encode_frames fs ++ replicate n 0)) p in
      (done.1 ≡ false) × (for_each_frame done.0 ≡ some fs)
stale_frames_drained fs n p f h small k =
    let b = open_buffer (encode_frames fs ++ replicate n 0) in
    let e : is_oversized p ≡ false = ground arith in
    let full : leb (b.offset + cost p) (length b.mem) ≡ false = ground arith in
    let left : n ≡ length b.mem - length (encode_frames fs) =
      omega
        (arith, length-append (encode_frames fs) (replicate n 0), length-replicate {A = ℕ} n 0) in
    let filled : Filled (after_write b p false) fs = record {
      image = ap (λ m. encode_frames fs ++ replicate m 0) left;
      mark = inr (omega arith);
      fit = f;
      small = small;
    } in
    rw (write_lem b p e refl (omega arith), full) (refl, for_each_frame-Filled _ fs filled)

no_first_frame :
    (fuel : ℕ) (mem : List ℕ) (end : ℕ)
    → 4 ≤ end
    → decode_le_u32 (drop 0 mem) ≡ 0
    → frames_loop (suc fuel) mem end 0 ≡ some []
unfolding frames_loop
no_first_frame fuel mem end h z =
    let t : leb (0 + 4) end ≡ true = le→leb (0 + 4) end (omega arith) in rw (t, z) refl

-- A Write that comes between the store that opens the buffer in ResetForReuse and the clearing of its
-- bytes, with a payload of a legal length that fits into the bytes used before, returns true; but its
-- bytes are cleared then, and the drain of the new cycle hands out nothing.
pub reset_race :
    (b : MmapBuffer) (p : List ℕ)
    → is_oversized p ≡ false
    → cost p ≤ used b
    → cost p < 2 ^ 64
    → let w = write (reopen b) p in (w.1 ≡ true) × (for_each_frame (scrub (used b) w.0) ≡ some [])
unfolding for_each_frame
reset_race b p f h k =
    let found : leb (0 + cost p) (length b.mem) ≡ true = le→leb _ _ (omega (arith, h)) in
    let written = after_write (reopen b) p true in
    let after = scrub (used b) written in
    let past = drop (used b) written.mem in
    let more : used b ≡ suc (suc (suc (suc (used b - 4)))) = omega (arith, h) in
    let zeros : decode_le_u32 after.mem ≡ 0 =
      ap (λ m. decode_le_u32 (replicate m 0 ++ past)) more
      ∙ decode_leading_zeros (used b - 4) past in
    let reach : (4 ≤ used after) = omega (
      arith,
      h,
      length-append (replicate {A = ℕ} (used b) 0) past,
      length-replicate {A = ℕ} (used b) 0,
    ) in
    rw (write_lem (reopen b) p f refl (omega (arith, k)), found)
      (refl, no_first_frame (used after) after.mem (used after) reach zeros)
