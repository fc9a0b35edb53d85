-- ===== src/Audit/ShardReader/Total.antt =====
-- DecodeShardFile of audit/shard_reader.cpp comes to an end on every input.
use logger_high.Base.{
  ℕ, zero, suc, ◌<◌, ◌≡◌, refl, ap, inl, inr, not, List, [], Option, some, ok, throws, length, take,
  drop, ltb, ◌==◌, if_both, if_true, if_false, Bool-cases, arith, length-take, length-drop,
}
use logger_high.Errors.{Throwing, truncated_frame_length, frame_too_small, short_frame_body}
use logger_high.Bytes.{decode_le_u32}
use logger_high.Audit.ShardReader.{
  frame_min_bytes, Backend, ShardHeader, read_shard_header, derive_aes_key, open_body, collected,
  consed, decode_frames, with_key, after_header, decode_shard_file,
}
use mathlib.Core.Option

abbrev pub Returns {ℓ} : {A : Type ℓ} → Option A → Type ℓ
Returns {A = A} o = (a : A) × (o ≡ some a)

module _ {R : Type 0} (b : Backend R) where
  collected-Returns :
      (t : Throwing R) (o : Option (Throwing (List R))) → Returns o → Returns (collected b t o)
  collected-Returns (throws e) o r = (throws e, refl)
  collected-Returns (ok x) o (a, e) = (consed b x a, ap (Option.map (consed b x)) e)

  -- A round takes four bytes at least, or is the last.
  decode_frames-Returns :
      (key : List ℕ) (fuel : ℕ) (stream : List ℕ)
      → length stream < fuel
      → Returns (decode_frames b key fuel stream)
  unfolding decode_frames
  decode_frames-Returns key zero stream h = absurd (omega (arith, h))
  decode_frames-Returns key (suc fuel) stream h = elim (Bool-cases (length (take 4 stream) == 0)) [
    | inl ended ↦ if_true Returns (length (take 4 stream) == 0) _ _ ended (ok [], refl)
    | inr more ↦
        let flen = decode_le_u32 (take 4 stream) in
        let left = drop flen (drop 4 stream) in
        let some_bytes : 0 < length (take 4 stream) = ground arith in
        let fewer : length left < fuel = omega (
          arith,
          h,
          some_bytes,
          length-take 4 stream,
          length-drop 4 stream,
          length-drop flen (drop 4 stream),
        ) in
        let rest = decode_frames-Returns key fuel left fewer in
        if_false Returns (length (take 4 stream) == 0) _ _ more (
          if_both Returns (not (length (take 4 stream) == 4)) (some (throws truncated_frame_length))
            _ (_, refl)
            (if_both Returns (ltb flen frame_min_bytes) (some (throws frame_too_small)) _ (_, refl)
              (if_both Returns (not (length (take flen (drop 4 stream)) == flen))
                (some (throws short_frame_body)) _ (_, refl)
                (collected-Returns (open_body b key (take flen (drop 4 stream))) _ rest))))
  ]

  with_key-Returns : (stream : List ℕ) (t : Throwing (List ℕ)) → Returns (with_key b stream t)
  with_key-Returns stream (throws e) = (throws e, refl)
  with_key-Returns stream (ok key) =
      decode_frames-Returns key (suc (length stream)) stream (omega arith)

  after_header-Returns :
      (priv : List ℕ) (t : Throwing (ShardHeader × List ℕ)) → Returns (after_header b priv t)
  after_header-Returns priv (throws e) = (throws e, refl)
  after_header-Returns priv (ok (hdr, stream)) =
      with_key-Returns stream (derive_aes_key b priv hdr.client_eph_pub)

  -- Decoding a shard comes to an end, with its records or an exception, for every key and all bytes.
  pub decode_shard_file-Returns : (priv bytes : List ℕ) → Returns (decode_shard_file b priv bytes)
  unfolding decode_shard_file
  decode_shard_file-Returns priv bytes = after_header-Returns priv (read_shard_header bytes)
