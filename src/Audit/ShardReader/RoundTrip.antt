-- ===== src/Audit/ShardReader/RoundTrip.antt =====
-- DecodeShardFile of audit/shard_reader.cpp on what the shard writer put on disk.
use logger_high.Base.{
  ℕ, zero, suc, ◌^◌, ◌≤◌, ◌<◌, ◌≡◌, refl, ◌∙◌, ap, sym, List, [], ◌∷◌, ◌++◌, some, ok, throws,
  length, take, drop, replicate, arith, append_assoc, length-append, length-take, take-append,
  drop-append, ◌==◌, ==_iff, le→ltb, false, append-nil,
}
use logger_high.Bytes.{encode_le_u32, decode_le_u32, decode-encode, length-encode_le_u32}
use logger_high.Errors.{truncated_frame_length, short_frame_body}
use logger_high.Mmap.Frame.{encode_frame, encode_frames, length-encode_frame}
use logger_high.Sinks.ShardWriter.{header, magic}
use logger_high.Sinks.ShardWriter.Steps.{length-header}
use logger_high.Audit.ShardReader.{
  Backend, read_shard_header, derive_aes_key, open_body, decode_frames, decode_shard_file,
  frame_min_bytes,
}

read_valid :
    (stream hdr k rest : List ℕ)
    → take 48 stream ≡ hdr
    → drop 48 stream ≡ rest
    → length hdr ≡ 48
    → take 8 hdr ≡ magic
    → decode_le_u32 (drop 8 hdr) ≡ 1
    → take 32 (drop 12 hdr) ≡ k
    → read_shard_header stream ≡ ok (record { algo_id = 1; client_eph_pub = k }, rest)
unfolding read_shard_header
read_valid stream hdr k rest head tail size start algo pub_key =
    rw (head, tail, size, start, algo, pub_key) refl

-- The reader takes the writer's header, whatever stands behind it, and stops at the first frame.
pub read_shard_header-header :
    (k rest : List ℕ)
    → length k ≡ 32
    → read_shard_header (header k ++ rest) ≡ ok (record { algo_id = 1; client_eph_pub = k }, rest)
read_shard_header-header k rest h =
    let size = length-header k h in
    read_valid (header k ++ rest) (header k) k rest (take-append (header k) rest 48 size)
      (drop-append (header k) rest 48 size) size refl
      (decode-encode 1 (k ++ replicate 4 0) (omega arith))
      (ap (take 32) (drop-append (encode_le_u32 1) (k ++ replicate 4 0) 4 (length-encode_le_u32 1))
        ∙ take-append k (replicate 4 0) 32 h)

module _ {R : Type 0} (b : Backend R) (key : List ℕ) where
  -- Frames that the writer's side made: long enough, and opened to a record each.
  abbrev pub Opens : List (List ℕ) → List R → Type 0
  Opens [] [] = Unit {0}
  Opens (f ∷ fs) (r ∷ rs) =
      (frame_min_bytes ≤ length f) × (length f < 2 ^ 32) × (open_body b key f ≡ ok r) × Opens fs rs
  Opens _ _ = ⊥

  decode_step :
      (fuel : ℕ) (stream body rest : List ℕ) (r : R) (rs : List R)
      → decode_le_u32 (take 4 stream) ≡ length body
      → length (take 4 stream) ≡ 4
      → take (length body) (drop 4 stream) ≡ body
      → drop (length body) (drop 4 stream) ≡ rest
      → frame_min_bytes ≤ length body
      → open_body b key body ≡ ok r
      → decode_frames b key fuel rest ≡ some (ok rs)
      → decode_frames b key (suc fuel) stream ≡ some (ok (r ∷ rs))
  unfolding decode_frames
  decode_step fuel stream body rest r rs d four t n h o ih =
      rw
        (
          d,
          four,
          t,
          n,
          le→ltb (length body) 28 h,
          (==_iff (length body) (length body)).1 refl,
          o,
          ih,
        )
        refl

  decode_end : (fuel : ℕ) → decode_frames b key (suc fuel) [] ≡ some (ok [])
  unfolding decode_frames
  decode_end fuel = refl

  -- Where a frame stands at the head of the stream, what the reads of a round give.
  abbrev pub Reads : List ℕ → List ℕ → List ℕ → Type 0
  Reads stream body rest =
      (decode_le_u32 (take 4 stream) ≡ length body)
      × (length (take 4 stream) ≡ 4)
      × (take (length body) (drop 4 stream) ≡ body)
      × (drop (length body) (drop 4 stream) ≡ rest)

  pub frame-Reads :
      (body rest : List ℕ) → length body < 2 ^ 32 → Reads (encode_frame body ++ rest) body rest
  frame-Reads body rest h =
      let prefix = encode_le_u32 (length body) in
      let four = length-encode_le_u32 (length body) in
      let shape : encode_frame body ++ rest ≡ prefix ++ (body ++ rest) =
        append_assoc prefix body rest in
      let lenbuf : take 4 (encode_frame body ++ rest) ≡ prefix =
        ap (take 4) shape ∙ take-append prefix (body ++ rest) 4 four in
      let behind : drop 4 (encode_frame body ++ rest) ≡ body ++ rest =
        ap (drop 4) shape ∙ drop-append prefix (body ++ rest) 4 four in
      (
        ap decode_le_u32 (lenbuf ∙ sym (append-nil prefix)) ∙ decode-encode (length body) [] h,
        ap length lenbuf ∙ four,
        ap (take (length body)) behind ∙ take-append body rest (length body) refl,
        ap (drop (length body)) behind ∙ drop-append body rest (length body) refl,
      )

  -- The frame stream of whole frames decodes to their records, in order.
  pub decode_frames-encode :
      (fs : List (List ℕ)) (rs : List R) (fuel : ℕ)
      → length (encode_frames fs) < fuel
      → Opens fs rs
      → decode_frames b key fuel (encode_frames fs) ≡ some (ok rs)
  decode_frames-encode fs rs zero h o = absurd (omega arith)
  decode_frames-encode [] [] (suc fuel) h o = decode_end fuel
  decode_frames-encode [] (r ∷ rs) (suc fuel) h o = absurd o
  decode_frames-encode (f ∷ fs) [] (suc fuel) h o = absurd o
  decode_frames-encode (f ∷ fs) (r ∷ rs) (suc fuel) h (long, small, opened, rest) =
      let (d, four, t, n) = frame-Reads f (encode_frames fs) small in
      decode_step fuel (encode_frame f ++ encode_frames fs) f (encode_frames fs) r rs d four t n
        long opened
        (decode_frames-encode fs rs fuel
          (omega (arith, length-append (encode_frame f) (encode_frames fs), length-encode_frame f))
          rest)

  -- DecodeShardFile of a header over a public key of 32 bytes, from which the server's private key
  -- derives the AES key, and then of whole frames that open to a record each: it gives back the
  -- records, in the order of the frames.
  pub decode_shard_file-encode :
      (k priv : List ℕ) (fs : List (List ℕ)) (rs : List R)
      → length k ≡ 32
      → derive_aes_key b priv k ≡ ok key
      → Opens fs rs
      → decode_shard_file b priv (header k ++ encode_frames fs) ≡ some (ok rs)
  unfolding decode_shard_file
  decode_shard_file-encode k priv fs rs h d o =
      rw (read_shard_header-header k (encode_frames fs) h, d)
        (decode_frames-encode fs rs (suc (length (encode_frames fs))) (omega arith) o)

  pub truncated_step :
      (fuel : ℕ) (stream : List ℕ)
      → 0 < length stream
      → length stream < 4
      → decode_frames b key (suc fuel) stream ≡ some (throws truncated_frame_length)
  unfolding decode_frames
  truncated_step fuel stream n h =
      let e : length (take 4 stream) ≡ length stream = omega (arith, length-take 4 stream) in
      let z : (length stream == 0) ≡ false = ground arith in
      let t : (length stream == 4) ≡ false = ground arith in rw (e, z, t) refl

  pub short_step :
      (fuel : ℕ) (stream : List ℕ) (n : ℕ)
      → decode_le_u32 (take 4 stream) ≡ n
      → length (take 4 stream) ≡ 4
      → frame_min_bytes ≤ n
      → length (take n (drop 4 stream)) < n
      → decode_frames b key (suc fuel) stream ≡ some (throws short_frame_body)
  unfolding decode_frames
  short_step fuel stream n d four h k =
      let t : (length (take n (drop 4 stream)) == n) ≡ false = ground arith in
      rw (d, four, le→ltb n 28 h, t) refl
