-- ===== src/Crypt/Cipher/RoundTrip.antt =====
-- Encrypt and Decrypt of crypt/aes_gcm_cipher.cpp against each other.
use logger_high.Base.{
  ℕ, ◌+◌, ◌<◌, ◌≤◌, ◌≡◌, refl, ◌∙◌, ap, false, List, ◌++◌, ok, length, arith, take-append,
  drop-append, length-append, le→ltb,
}
use logger_high.Crypt.Gcm.{Gcm, IsGcm}
use logger_high.Crypt.Cipher.{AesGcmCipher, encrypt, decrypt, verified, u32_max}
use logger_high.Crypt.Cipher.Nonce.{big_endian, build_nonce_lem}

-- Before the counter runs out, and with no exception of Crypto++, Encrypt puts out the nonce, the
-- ciphertext and the tag, and moves the counter on.
pub encrypt_lem :
    (g : Gcm) (c : AesGcmCipher) (plain : List ℕ)
    → c.counter < u32_max
    → encrypt g false c plain ≡ (
      record c { counter = c.counter + 1 },
      ok (
          (c.nonce_prefix ++ big_endian c.counter)
          ++ g.encrypt_filter c.key (c.nonce_prefix ++ big_endian c.counter) plain),
    )
unfolding encrypt
encrypt_lem g c plain h = rw (build_nonce_lem c h) refl

decrypt_split :
    (g : Gcm) (c : AesGcmCipher) (nonce body : List ℕ)
    → length nonce ≡ 12
    → 16 ≤ length body
    → decrypt g c (nonce ++ body) ≡ verified (g.decrypt_filter c.key nonce body)
unfolding decrypt
decrypt_split g c nonce body n b =
    rw
      (
        le→ltb (length (nonce ++ body)) 28 (omega (arith, length-append nonce body)),
        take-append nonce body 12 n,
        drop-append nonce body 12 n,
      )
      refl

-- What Encrypt put out before the counter's last value, with a prefix of eight bytes and no exception
-- of Crypto++, a cipher with the same key decrypts to the plaintext; its own prefix and counter do not
-- matter. The output is 28 bytes longer than the plaintext.
pub decrypt-encrypt :
    (g : Gcm) (c d : AesGcmCipher) (plain : List ℕ)
    → IsGcm g
    → c.counter < u32_max
    → length c.nonce_prefix ≡ 8
    → d.key ≡ c.key
    → (out : List ℕ) × ((encrypt g false c plain).1 ≡ ok out)
      × (decrypt g d out ≡ ok plain)
      × (length out ≡ length plain + 28)
decrypt-encrypt g c d plain law h n k =
    let nonce = c.nonce_prefix ++ big_endian c.counter in
    let body = g.encrypt_filter c.key nonce plain in
    let size : length nonce ≡ 12 =
      omega (arith, length-append c.nonce_prefix (big_endian c.counter)) in
    let tail : length body ≡ length plain + 16 = law.length_encrypt c.key nonce plain in
    (
      nonce ++ body,
      ap (λ r. r.1) (encrypt_lem g c plain h),
      decrypt_split g d nonce body size (omega arith)
          ∙ ap (λ key. verified (g.decrypt_filter key nonce body)) k
          ∙ ap verified (law.decrypt_encrypt c.key nonce plain),
      omega (arith, length-append nonce body, size, tail),
    )
