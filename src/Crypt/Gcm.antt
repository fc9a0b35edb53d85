-- ===== src/Crypt/Gcm.antt =====
-- AES-256-GCM as crypt/aes_gcm_cipher.cpp uses it. The cipher itself is Crypto++, so it is a
-- parameter: what the filters put out, and the documented facts that the code relies on.
use logger_high.Base.{ℕ, ◌+◌, ◌≡◌, List, Option, some, length}

pub record Gcm : Type 0 where
  -- AuthenticatedEncryptionFilter: key, nonce and plaintext to ciphertext and tag
  pub encrypt_filter : List ℕ → List ℕ → List ℕ → List ℕ
  -- AuthenticatedDecryptionFilter: `none` where the tag does not verify
  pub decrypt_filter : List ℕ → List ℕ → List ℕ → Option (List ℕ)

-- GCM is a stream cipher with a tag of 16 bytes, and its decryption inverts it.
pub record IsGcm (g : Gcm) : Type 0 where
  pub length_encrypt :
      (key nonce plain : List ℕ) → length (Gcm.encrypt_filter g key nonce plain) ≡ length plain + 16
  pub decrypt_encrypt :
      (key nonce plain : List ℕ)
      → Gcm.decrypt_filter g key nonce (Gcm.encrypt_filter g key nonce plain) ≡ some plain
