-- ===== src/Crypt/Keys/Agreement.antt =====
-- The sink's AES key against the one that DeriveAesKey of audit/shard_reader.cpp recovers.
use logger_high.Base.{ℕ, ◌≡◌, refl, true, List, [], Option, some, ok, length, arith, take_all}
use logger_high.Crypt.Keys.{
  KeyFile, Dh, load_server_public_key, derive_shared_secret, hkdf_sha256, create_keys, key_info,
}
use logger_high.Audit.ShardReader.{Backend, derive_aes_key}

-- The key agreement of x25519: public keys have 32 bytes, and both sides agree on one secret.
pub record IsDh (dh : Dh) : Type 0 where
  pub length_public_of : (a : List ℕ) → length (dh.public_of a) ≡ 32
  pub both_agree : (a b : List ℕ) → dh.agree a (dh.public_of b) ≡ dh.agree b (dh.public_of a)

-- A regular key file that holds the 32 bytes of a key.
abbrev pub key_file : List ℕ → KeyFile
key_file key = record { exists = true; file_size = some (length key); opens = true; bytes = key }

load-key_file : (key : List ℕ) → length key ≡ 32 → load_server_public_key (key_file key) ≡ ok key
unfolding load_server_public_key
load-key_file key h = rw (h, take_all key 32 (omega (arith, h)), h) refl

module _ {R : Type 0} (dh : Dh) (derive : List ℕ → List ℕ → List ℕ → ℕ → Option (List ℕ)) where
  -- The auditor's part of the backend: the same x25519, and HkdfSha256 as DeriveAesKey calls it.
  abbrev pub auditor : Backend R → Backend R
  auditor b = record b {
    agree = dh.agree;
    hkdf = λ shared. hkdf_sha256 derive shared [] key_info 32 [];
  }

  -- For a server's key file of 32 bytes and an agreement that x25519 and HKDF do not refuse: Create
  -- gets a key and the ephemeral public key of 32 bytes, and from that public key the server's
  -- private key derives the same AES key.
  pub create_keys-derive :
      (b : Backend R) (priv eph_priv shared key : List ℕ)
      → IsDh dh
      → length priv ≡ 32
      → dh.agree eph_priv (dh.public_of priv) ≡ some shared
      → derive shared [] key_info 32 ≡ some key
      → (create_keys dh derive (key_file (dh.public_of priv)) eph_priv
          ≡ ok (dh.public_of eph_priv, key))
        × (length (dh.public_of eph_priv) ≡ 32)
        × (derive_aes_key (auditor b) priv (dh.public_of eph_priv) ≡ ok key)
  unfolding create_keys derive_shared_secret hkdf_sha256 derive_aes_key
  create_keys-derive b priv eph_priv shared key law h a d =
      let server = law.length_public_of priv in
      let client = law.length_public_of eph_priv in
      (
        rw (load-key_file (dh.public_of priv) server, server, a, d) refl,
        client,
        rw (h, client, law.both_agree priv eph_priv, a, d) refl,
      )
