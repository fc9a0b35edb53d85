-- ===== src/Audit/ShardReader/Cut.antt =====
-- DecodeShardFile of audit/shard_reader.cpp on a shard that stops inside its last frame.
use logger_high.Base.{
  ℕ, zero, suc, ◌+◌, ◌^◌, ◌≤◌, ◌<◌, ◌≡◌, refl, ◌∙◌, ap, sym, List, [], ◌∷◌, ◌++◌, some, ok, throws,
  length, take, drop, arith, append_assoc, length-append, length-take, take-append, drop-append,
  take-append_add, ltb, ==_iff, le→ltb, append-nil, if◌then◌else◌, Bool-cases, inl, inr, ltb→lt,
  not_lt, ◌-◌,
}
use logger_high.Bytes.{encode_le_u32, decode_le_u32, decode-encode, length-encode_le_u32}
use logger_high.Errors.{Error, truncated_frame_length, short_frame_body}
use logger_high.Mmap.Frame.{encode_frame, encode_frames, length-encode_frame}
use logger_high.Sinks.ShardWriter.{header}
use logger_high.Audit.ShardReader.{
  Backend, derive_aes_key, open_body, decode_frames, decode_shard_file, frame_min_bytes,
}
use logger_high.Audit.ShardReader.RoundTrip.{
  Opens, read_shard_header-header, frame-Reads, truncated_step, short_step,
}

module _ {R : Type 0} (b : Backend R) (key : List ℕ) where
  throwing_step :
      (fuel : ℕ) (stream body rest : List ℕ) (r : R) (e : Error)
      → decode_le_u32 (take 4 stream) ≡ length body
      → length (take 4 stream) ≡ 4
      → take (length body) (drop 4 stream) ≡ body
      → drop (length body) (drop 4 stream) ≡ rest
      → frame_min_bytes ≤ length body
      → open_body b key body ≡ ok r
      → decode_frames b key fuel rest ≡ some (throws e)
      → decode_frames b key (suc fuel) stream ≡ some (throws e)
  unfolding decode_frames
  throwing_step fuel stream body rest r e d four t n h o ih =
      rw
        (
          d,
          four,
          t,
          n,
          le→ltb (length body) 28 h,
          (==_iff (length body) (length body)).1 refl,
          o,
          ih,
        )
        refl

  -- What the rest of the stream throws comes out, whatever whole frames stand before it.
  throws_behind :
      (fs : List (List ℕ)) (rs : List R) (fuel : ℕ) (tail : List ℕ) (e : Error)
      → length (encode_frames fs) < fuel
      → Opens b key fs rs
      → ((m : ℕ) → decode_frames b key (suc m) tail ≡ some (throws e))
      → decode_frames b key fuel (encode_frames fs ++ tail) ≡ some (throws e)
  throws_behind fs rs zero tail e h o t = absurd (omega arith)
  throws_behind [] [] (suc fuel) tail e h o t = t fuel
  throws_behind [] (r ∷ rs) (suc fuel) tail e h o t = absurd o
  throws_behind (f ∷ fs) [] (suc fuel) tail e h o t = absurd o
  throws_behind (f ∷ fs) (r ∷ rs) (suc fuel) tail e h (long, small, opened, rest) t =
      let more = encode_frames fs ++ tail in
      let shape : encode_frames (f ∷ fs) ++ tail ≡ encode_frame f ++ more =
        append_assoc (encode_frame f) (encode_frames fs) tail in
      let (d, four, body, next) = frame-Reads b key f more small in
      ap (decode_frames b key (suc fuel)) shape
      ∙ throwing_step fuel (encode_frame f ++ more) f more r e d four body next long opened (
          throws_behind fs rs fuel tail e
            (omega
              (arith, length-append (encode_frame f) (encode_frames fs), length-encode_frame f))
            rest t)

  cut_length :
      (f : List ℕ) (n m : ℕ)
      → 0 < n
      → n < 4
      → decode_frames b key (suc m) (take n (encode_frame f)) ≡ some (throws truncated_frame_length)
  cut_length f n m h k =
      let size : length (take n (encode_frame f)) ≡ n =
        omega (arith, length-take n (encode_frame f), length-encode_frame f) in
      truncated_step b key m (take n (encode_frame f)) (omega arith) (omega arith)

  cut_body :
      (f : List ℕ) (n m : ℕ)
      → frame_min_bytes ≤ length f
      → length f < 2 ^ 32
      → n < length f
      → decode_frames b key (suc m) (take (4 + n) (encode_frame f)) ≡ some (throws short_frame_body)
  cut_body f n m long small h =
      let prefix = encode_le_u32 (length f) in
      let four = length-encode_le_u32 (length f) in
      let shape : take (4 + n) (encode_frame f) ≡ prefix ++ take n f =
        take-append_add prefix f 4 n four in
      let lenbuf : take 4 (take (4 + n) (encode_frame f)) ≡ prefix =
        ap (take 4) shape ∙ take-append prefix (take n f) 4 four in
      let behind : drop 4 (take (4 + n) (encode_frame f)) ≡ take n f =
        ap (drop 4) shape ∙ drop-append prefix (take n f) 4 four in
      short_step b key m (take (4 + n) (encode_frame f)) (length f)
        (ap decode_le_u32 (lenbuf ∙ sym (append-nil prefix)) ∙ decode-encode (length f) [] small)
        (ap length lenbuf ∙ four) long
        (omega (
          arith,
          length-take (length f) (drop 4 (take (4 + n) (encode_frame f))),
          ap length behind,
          length-take n f,
        ))

  -- A shard that is cut inside its last frame is refused as a whole: with the error for a cut length
  -- if fewer than four bytes of the frame are left, and with that for a cut body otherwise. No cut
  -- passes for a shorter log.
  pub decode_shard_file_cut :
      (k priv : List ℕ) (fs : List (List ℕ)) (rs : List R) (f : List ℕ) (n : ℕ)
      → length k ≡ 32
      → derive_aes_key b priv k ≡ ok key
      → Opens b key fs rs
      → frame_min_bytes ≤ length f
      → length f < 2 ^ 32
      → 0 < n
      → n < length (encode_frame f)
      → decode_shard_file b priv (header k ++ (encode_frames fs ++ take n (encode_frame f)))
        ≡ some (throws (if ltb n 4 then truncated_frame_length else short_frame_body))
  unfolding decode_shard_file
  decode_shard_file_cut k priv fs rs f n h d o long small pos cut =
      let tail = take n (encode_frame f) in
      let enough : length (encode_frames fs) < suc (length (encode_frames fs ++ tail)) =
        omega (arith, length-append (encode_frames fs) tail) in
      rw (read_shard_header-header k (encode_frames fs ++ tail) h, d)
        (throws_behind fs rs (suc (length (encode_frames fs ++ tail))) tail _ enough o each)
    where
      each :
          (m : ℕ)
          → decode_frames b key (suc m) (take n (encode_frame f))
            ≡ some (throws (if ltb n 4 then truncated_frame_length else short_frame_body))
      each m = elim (Bool-cases (ltb n 4)) [
        | inl e ↦ rw e (cut_length f n m pos (ltb→lt n 4 e))
        | inr e ↦
            let split : n ≡ 4 + (n - 4) = omega (arith, not_lt n 4 e) in
            rw e (
              ap (λ j. decode_frames b key (suc m) (take j (encode_frame f))) split
              ∙ cut_body f (n - 4) m long small
                  (omega (arith, length-encode_frame f, not_lt n 4 e)))
      ]
