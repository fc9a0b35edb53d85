-- ===== src/Audit/ShardReader.antt =====
-- audit/shard_reader.h and audit/shard_reader.cpp: the offline decoder of shard files.
--
-- An input stream is the list of the bytes that are left. `Backend` is what a decoded frame goes
-- through after the length checks: Decrypt, Decompress and ParseFromString, each of which may
-- throw, and the key agreement that DeriveAesKey asks of Crypto++ and of HkdfSha256.
pub mod RoundTrip
pub mod Cut
pub mod Total
use logger_high.Base.{
  ℕ, zero, suc, ◌+◌, Bool, true, false, not, ◌&&◌, List, [], ◌∷◌, Option, none, some, Result, ok,
  throws, ◌>>=◌, ◌>>◌, throw_if, length, take, drop, min, ltb, ◌==◌, if◌then◌else◌,
}
use logger_high.Bytes.{decode_le_u32}
use logger_high.Errors.{
  Throwing, short_header, magic_mismatch, unsupported_algo, server_priv_not_32_bytes,
  audit_eph_pub_not_32_bytes, audit_agree_failed, truncated_frame_length, frame_too_small,
  short_frame_body, proto_parse_failed,
}
use logger_high.Sinks.ShardWriter.{magic, header_bytes, algo_id_aes_gcm_x25519_hkdf_sha256}
use mathlib.Core.Option

abbrev pub frame_min_bytes : ℕ
frame_min_bytes = 12 + 16

pub record ShardHeader : Type 0 where
  pub algo_id : ℕ
  pub client_eph_pub : List ℕ

-- `in.read(p, n)` takes what is there, up to `n` bytes; gcount is the length of that.
abbrev pub read : ℕ → List ℕ → List ℕ × List ℕ
read n bytes = (take n bytes, drop n bytes)

-- memcmp of two blocks of one size.
abbrev pub equal_bytes : List ℕ → List ℕ → Bool
equal_bytes [] [] = true
equal_bytes (a ∷ l) (b ∷ m) = a == b && equal_bytes l m
equal_bytes _ _ = false

-- The header, and the stream behind it.
unfoldable pub read_shard_header : List ℕ → Throwing (ShardHeader × List ℕ)
read_shard_header stream = do
  let hdr = take header_bytes stream
  let algo = decode_le_u32 (drop 8 hdr)
  throw_if (not (length hdr == header_bytes)) short_header
  throw_if (not (equal_bytes (take 8 hdr) magic)) magic_mismatch
  throw_if (not (algo == algo_id_aes_gcm_x25519_hkdf_sha256)) unsupported_algo
  ok (record { algo_id = algo; client_eph_pub = take 32 (drop 12 hdr) }, drop header_bytes stream)

-- What the decoder takes from Crypto++, the generated protobuf code, and from Decrypt and
-- Decompress of this repository.
pub record Backend (Record : Type 0) : Type 0 where
  -- x25519 Agree of the private key with the client's public key; `none` is a refusal
  pub agree : List ℕ → List ℕ → Option (List ℕ)
  pub hkdf : List ℕ → Throwing (List ℕ)
  pub decrypt : List ℕ → List ℕ → Throwing (List ℕ)
  pub decompress : List ℕ → Throwing (List ℕ)
  pub parse : List ℕ → Option Record

module _ {R : Type 0} (b : Backend R) where
  abbrev agreed : Option (List ℕ) → Throwing (List ℕ)
  agreed none = throws audit_agree_failed
  agreed (some shared) = b.hkdf shared

  unfoldable pub derive_aes_key : List ℕ → List ℕ → Throwing (List ℕ)
  derive_aes_key server_priv client_eph_pub = do
    throw_if (not (length server_priv == 32)) server_priv_not_32_bytes
    throw_if (not (length client_eph_pub == 32)) audit_eph_pub_not_32_bytes
    agreed (b.agree server_priv client_eph_pub)

  abbrev parsed : Option R → Throwing R
  parsed none = throws proto_parse_failed
  parsed (some r) = ok r

  -- From the encrypted body of a frame to its record.
  unfoldable pub open_body : List ℕ → List ℕ → Throwing R
  open_body key body = do
    compressed ← b.decrypt key body
    proto_bytes ← b.decompress compressed
    parsed (b.parse proto_bytes)

  abbrev consed : R → Throwing (List R) → Throwing (List R)
  consed r (ok rs) = ok (r ∷ rs)
  consed r (throws e) = throws e

  abbrev collected : Throwing R → Option (Throwing (List R)) → Option (Throwing (List R))
  collected (throws e) rest = some (throws e)
  collected (ok r) rest = Option.map (consed r) rest

  -- The loop of DecodeShardFile. `none` means that the fuel ran out. The Decompress of the backend is
  -- taken as one that returns; where compress/zlib_compressor.cpp does not, this loop does not either.
  unfoldable pub decode_frames : List ℕ → ℕ → List ℕ → Option (Throwing (List R))
  decode_frames key zero stream = none
  decode_frames key (suc fuel) stream =
      let lenbuf = take 4 stream in
      let flen = decode_le_u32 lenbuf in
      let encrypted = take flen (drop 4 stream) in
      let rest = decode_frames key fuel (drop flen (drop 4 stream)) in
      if length lenbuf == 0
      then some (ok [])
      else if not (length lenbuf == 4)
      then some (throws truncated_frame_length)
      else if ltb flen frame_min_bytes
      then some (throws frame_too_small)
      else if not (length encrypted == flen)
      then some (throws short_frame_body)
      else collected (open_body key encrypted) rest

  abbrev with_key : List ℕ → Throwing (List ℕ) → Option (Throwing (List R))
  with_key stream (throws e) = some (throws e)
  with_key stream (ok key) = decode_frames key (suc (length stream)) stream

  abbrev after_header : List ℕ → Throwing (ShardHeader × List ℕ) → Option (Throwing (List R))
  after_header priv (throws e) = some (throws e)
  after_header priv (ok (hdr, stream)) = with_key stream (derive_aes_key priv hdr.client_eph_pub)

  -- DecodeShardFile on the bytes of a shard that could be opened. Each round takes four bytes at
  -- least, so as many rounds as there are bytes, and one, are enough.
  unfoldable pub decode_shard_file : List ℕ → List ℕ → Option (Throwing (List R))
  decode_shard_file server_priv bytes = after_header server_priv (read_shard_header bytes)
