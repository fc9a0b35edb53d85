-- ===== src/Crypt/Cipher.antt =====
-- crypt/aes_gcm_cipher.h and crypt/aes_gcm_cipher.cpp: key, nonce counter, Encrypt and Decrypt.
--
-- Both calls append to `out`; the model returns what is appended, so an exception leaves `out` as
-- it was (the code resizes it back). An exception of Crypto++ inside Encrypt is `broken`.
pub mod Nonce
pub mod RoundTrip
use logger_high.Base.{
  ℕ, ◌+◌, ◌-◌, ◌%◌, ◌^◌, Bool, not, List, [], ◌∷◌, ◌++◌, Option, none, some, ok, throws, length,
  take, drop, ltb, ◌==◌, if◌then◌else◌,
}
use logger_high.Bytes.{byte, shr}
use logger_high.Errors.{
  Throwing, key_not_32_bytes, nonce_counter_exhausted, encrypt_failed, ciphertext_too_short,
  auth_tag_failed,
}
use logger_high.Crypt.Gcm.{Gcm}

abbrev pub key_bytes : ℕ
key_bytes = 32

abbrev pub nonce_bytes : ℕ
nonce_bytes = 12

abbrev pub tag_bytes : ℕ
tag_bytes = 16

abbrev pub u32_max : ℕ
u32_max = 2 ^ 32 - 1

pub record AesGcmCipher : Type 0 where
  pub key : List ℕ
  pub nonce_prefix : List ℕ  -- eight random bytes, drawn by the constructor
  pub counter : ℕ  -- std::atomic<std::uint32_t>

-- The constructor; `random` is what the generator delivers.
unfoldable pub new_cipher : List ℕ → List ℕ → Throwing AesGcmCipher
new_cipher key random =
    if not (length key == key_bytes)
    then throws key_not_32_bytes
    else ok (record { key = take key_bytes key; nonce_prefix = random; counter = 0 })

-- BuildNonce_: the counter steps before the test, and it wraps.
unfoldable pub build_nonce : AesGcmCipher → AesGcmCipher × Throwing (List ℕ)
build_nonce c =
    let n = c.counter in
    let stepped = record c { counter = (n + 1) % 2 ^ 32 } in
    if n == u32_max then (stepped, throws nonce_counter_exhausted) else (
      stepped,
      ok (c.nonce_prefix ++ (byte (shr n 24) ∷ byte (shr n 16) ∷ byte (shr n 8) ∷ byte n ∷ [])),
    )

abbrev finish_encrypt :
    Gcm → Bool → List ℕ → AesGcmCipher × Throwing (List ℕ) → AesGcmCipher × Throwing (List ℕ)
finish_encrypt g broken plain (c, throws e) = (c, throws e)
finish_encrypt g broken plain (c, ok nonce) = (
  c,
  if broken then throws encrypt_failed else ok (nonce ++ Gcm.encrypt_filter g c.key nonce plain),
)

unfoldable pub encrypt : Gcm → Bool → AesGcmCipher → List ℕ → AesGcmCipher × Throwing (List ℕ)
unfolding build_nonce
encrypt g broken c plain = finish_encrypt g broken plain (build_nonce c)

abbrev verified : Option (List ℕ) → Throwing (List ℕ)
verified none = throws auth_tag_failed
verified (some plain) = ok plain

-- The filter reads `ct_len + kTagBytes` bytes behind the nonce, which is all that is left.
unfoldable pub decrypt : Gcm → AesGcmCipher → List ℕ → Throwing (List ℕ)
decrypt g c ciphertext =
    if ltb (length ciphertext) (nonce_bytes + tag_bytes)
    then throws ciphertext_too_short
    else verified
        (Gcm.decrypt_filter g c.key (take nonce_bytes ciphertext) (drop nonce_bytes ciphertext))
