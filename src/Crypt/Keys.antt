-- ===== src/Crypt/Keys.antt =====
-- crypt/server_key_loader.cpp, crypt/x25519_agreement.cpp, crypt/kdf.cpp, and the key set-up of
-- EffectiveSink::Create in sinks/effective_sink.cpp.
--
-- Crypto++ is a parameter: `Dh` is its x25519 object and `derive` its HKDF, which may throw. A file
-- is what the file system answers about it. Wiping a block afterwards changes no result.
pub mod Agreement
use logger_high.Base.{
  ℕ, Bool, not, List, [], ◌∷◌, ◌++◌, Option, none, some, ok, throws, ◌>>=◌, ◌>>◌, throw_if, Result,
  length, take, ◌==◌, if◌then◌else◌,
}
use logger_high.Errors.{
  Throwing, key_file_missing, key_file_stat_failed, key_file_size_mismatch, key_file_open_failed,
  key_file_short_read, peer_public_not_32_bytes, agree_failed, hkdf_failed,
}

abbrev pub server_public_key_bytes : ℕ
server_public_key_bytes = 32

-- exists without an error, file_size (`none`: an error), whether the stream opens, and its bytes.
pub record KeyFile : Type 0 where
  pub exists : Bool
  pub file_size : Option ℕ
  pub opens : Bool
  pub bytes : List ℕ

abbrev sized : KeyFile → Option ℕ → Throwing (List ℕ)
sized f none = throws key_file_stat_failed
sized f (some sz) = do
  let out = take server_public_key_bytes f.bytes
  throw_if (not (sz == server_public_key_bytes)) key_file_size_mismatch
  throw_if (not f.opens) key_file_open_failed
  throw_if (not (length out == server_public_key_bytes)) key_file_short_read
  ok out

unfoldable pub load_server_public_key : KeyFile → Throwing (List ℕ)
load_server_public_key f = do throw_if (not f.exists) key_file_missing; sized f f.file_size

-- CryptoPP::x25519: the public key of a private one, and Agree of a private key with the other
-- side's public key, `none` where it refuses.
pub record Dh : Type 0 where
  pub public_of : List ℕ → List ℕ
  pub agree : List ℕ → List ℕ → Option (List ℕ)

abbrev pub agreed_secret : List ℕ → Option (List ℕ) → Throwing (List ℕ × List ℕ)
agreed_secret eph_public none = throws agree_failed
agreed_secret eph_public (some shared) = ok (eph_public, shared)

-- DeriveSharedSecret with the private key that the generator drew: the ephemeral public key and the
-- secret.
unfoldable pub derive_shared_secret : Dh → List ℕ → List ℕ → Throwing (List ℕ × List ℕ)
derive_shared_secret dh eph_priv peer_public = do
  throw_if (not (length peer_public == 32)) peer_public_not_32_bytes
  agreed_secret (dh.public_of eph_priv) (dh.agree eph_priv peer_public)

abbrev pub appended_key : List ℕ → Option (List ℕ) → Throwing (List ℕ)
appended_key out none = throws hkdf_failed
appended_key out (some derived) = ok (out ++ derived)

-- HkdfSha256 appends to `out`; `derive` gets the secret, the salt, the info and the length.
unfoldable pub hkdf_sha256 :
    (List ℕ → List ℕ → List ℕ → ℕ → Option (List ℕ))
    → List ℕ
    → List ℕ
    → List ℕ
    → ℕ
    → List ℕ
    → Throwing (List ℕ)
hkdf_sha256 derive secret salt info out_len out =
    if out_len == 0 then ok out else appended_key out (derive secret salt info out_len)

-- "logger-high aes-256-gcm"
abbrev pub key_info : List ℕ
key_info =
    b'l' ∷ b'o' ∷ b'g' ∷ b'g' ∷ b'e' ∷ b'r' ∷ b'-' ∷ b'h' ∷ b'i' ∷ b'g' ∷ b'h' ∷ b' ' ∷ b'a' ∷ b'e'
    ∷ b's' ∷ b'-' ∷ b'2' ∷ b'5' ∷ b'6' ∷ b'-' ∷ b'g' ∷ b'c' ∷ b'm' ∷ []

-- Create, up to the cipher: the ephemeral public key and the AES key.
unfoldable pub create_keys :
    Dh
    → (List ℕ → List ℕ → List ℕ → ℕ → Option (List ℕ))
    → KeyFile
    → List ℕ
    → Throwing (List ℕ × List ℕ)
create_keys dh derive file eph_priv = do
  server_pub ← load_server_public_key file
  (client_eph_pub, shared) ← derive_shared_secret dh eph_priv server_pub
  aes_key ← hkdf_sha256 derive shared [] key_info 32 []
  ok (client_eph_pub, aes_key)
