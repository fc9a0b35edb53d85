-- ===== src/Tests/Values.antt =====
-- Concrete instances of what the models take as parameters: a cipher, a key agreement, a backend.
use logger_high.Base.{
  ℕ, ◌+◌, ◌-◌, ◌≡◌, refl, ap, List, [], ◌∷◌, ◌++◌, some, ok, length, take, replicate, arith,
  take-append, length-append, length-take,
}
use logger_high.Crypt.Gcm.{Gcm, IsGcm}
use logger_high.Crypt.Cipher.{AesGcmCipher, decrypt}
use logger_high.Crypt.Keys.{Dh}
use logger_high.Crypt.Keys.Agreement.{IsDh}
use logger_high.Audit.ShardReader.{Backend}

abbrev pub key32 : List ℕ
key32 = replicate 32 7

-- A cipher that changes nothing and has a tag of zeros.
abbrev pub plain_gcm : Gcm
plain_gcm = record {
  encrypt_filter = λ key nonce p. p ++ replicate 16 0;
  decrypt_filter = λ key nonce c. some (take (length c - 16) c);
}

pub plain_gcm-IsGcm : IsGcm plain_gcm
plain_gcm-IsGcm = record {
  length_encrypt = λ key nonce p. length-append p (replicate 16 0);
  decrypt_encrypt = λ key nonce p. ap some (
      take-append p (replicate 16 0) (length (p ++ replicate 16 0) - 16)
        (omega (arith, length-append p (replicate 16 0))));
}

abbrev pub cipher : AesGcmCipher
cipher = record { key = key32; nonce_prefix = replicate 8 1; counter = 0 }

abbrev pub add_bytes : List ℕ → List ℕ → List ℕ
add_bytes [] m = []
add_bytes (a ∷ l) [] = []
add_bytes (a ∷ l) (b ∷ m) = (a + b) ∷ add_bytes l m

add_bytes_comm : (l m : List ℕ) → add_bytes l m ≡ add_bytes m l
add_bytes_comm [] [] = refl
add_bytes_comm [] (b ∷ m) = refl
add_bytes_comm (a ∷ l) [] = refl
add_bytes_comm (a ∷ l) (b ∷ m) =
    let e : a + b ≡ b + a = omega arith in rw (e, add_bytes_comm l m) refl

abbrev pub padded : List ℕ → List ℕ
padded a = take 32 (a ++ replicate 32 0)

-- A key agreement: the sum of both private keys.
abbrev pub sum_dh : Dh
sum_dh = record { public_of = padded; agree = λ a p. some (add_bytes (padded a) p) }

pub sum_dh-IsDh : IsDh sum_dh
sum_dh-IsDh = record {
  length_public_of =
      λ a. omega (arith, length-take 32 (a ++ replicate 32 0), length-append a (replicate 32 0));
  both_agree = λ a b. ap some (add_bytes_comm (padded a) (padded b));
}

-- An auditor whose records are the bytes of a frame's plaintext.
abbrev pub backend : Backend (List ℕ)
backend = record {
  agree = λ priv k. some k;
  hkdf = λ shared. ok key32;
  decrypt =
      λ key body. decrypt plain_gcm (record { key = key; nonce_prefix = []; counter = 0 }) body;
  decompress = ok;
  parse = some;
}
