-- ===== src/Crypt/Cipher/Nonce.antt =====
-- Which nonces BuildNonce_ of crypt/aes_gcm_cipher.cpp hands out.
use logger_high.Base.{
  ℕ, zero, suc, ◌+◌, ◌%◌, ◌^◌, ◌<◌, ◌≤◌, ◌≡◌, ◌≢◌, refl, ◌∙◌, ap, sym, List, [], ◌∷◌, ◌++◌, ok,
  throws, length, arith, drop, drop-append, get_or, true, ==_iff, ◌==◌,
}
use logger_high.Bytes.{byte, shr}
use logger_high.Errors.{nonce_counter_exhausted}
use logger_high.Crypt.Cipher.{AesGcmCipher, build_nonce, u32_max}

abbrev pub big_endian : ℕ → List ℕ
big_endian n = byte (shr n 24) ∷ byte (shr n 16) ∷ byte (shr n 8) ∷ byte n ∷ []

-- The state after `k` calls.
pub calls : ℕ → AesGcmCipher → AesGcmCipher
calls zero c = c
calls (suc k) c = calls k (build_nonce c).0

big_endian-injective : (a b : ℕ) → a < 2 ^ 32 → b < 2 ^ 32 → big_endian a ≡ big_endian b → a ≡ b
big_endian-injective a b ha hb e = omega (
  arith,
  ap (λ l. get_or l 0 0) e,
  ap (λ l. get_or l 1 0) e,
  ap (λ l. get_or l 2 0) e,
  ap (λ l. get_or l 3 0) e,
)

pub build_nonce_lem :
    (c : AesGcmCipher)
    → c.counter < u32_max
    → build_nonce c
      ≡ (record c { counter = c.counter + 1 }, ok (c.nonce_prefix ++ big_endian c.counter))
unfolding build_nonce
build_nonce_lem c h =
    let e : (c.counter + 1) % 2 ^ 32 ≡ c.counter + 1 = omega arith in rw e (ground arith)

calls_lem :
    (k : ℕ) (c : AesGcmCipher)
    → c.counter + k ≤ u32_max
    → calls k c ≡ record c { counter = c.counter + k }
unfolding calls
calls_lem zero c h =
    let e : c.counter ≡ c.counter + 0 = omega arith in ap (λ n. record c { counter = n }) e
calls_lem (suc k) c h =
    let e : c.counter + 1 + k ≡ c.counter + suc k = omega arith in
    ap (λ r. calls k r.0) (build_nonce_lem c (omega arith))
    ∙ calls_lem k (record c { counter = c.counter + 1 }) (omega arith)
    ∙ ap (λ n. record c { counter = n }) e

nonce_at :
    (c : AesGcmCipher) (k : ℕ)
    → c.counter ≡ 0
    → k < u32_max
    → (build_nonce (calls k c)).1 ≡ ok (c.nonce_prefix ++ big_endian k)
nonce_at c k z h =
    let m : c.counter + k ≡ k = omega arith in
    ap (λ r. (build_nonce r).1) (calls_lem k c (omega arith))
    ∙ ap (λ r. r.1) (build_nonce_lem (record c { counter = c.counter + k }) (omega arith))
    ∙ ap (λ n. ok (c.nonce_prefix ++ big_endian n)) m

same_prefix : (p a b : List ℕ) → p ++ a ≡ p ++ b → a ≡ b
same_prefix p a b e =
    sym (drop-append p a (length p) refl) ∙ ap (drop (length p)) e ∙ drop-append p b (length p) refl

-- From a counter of 0 on, the calls that come before its last value all get a nonce, and no two of
-- them get the same.
pub nonces_distinct :
    (c : AesGcmCipher) (i j : ℕ)
    → c.counter ≡ 0
    → i < u32_max
    → j < u32_max
    → i ≢ j
    → (n : List ℕ) × (m : List ℕ) × ((build_nonce (calls i c)).1 ≡ ok n)
      × ((build_nonce (calls j c)).1 ≡ ok m)
      × (n ≢ m)
nonces_distinct c i j z hi hj apart = (
  c.nonce_prefix ++ big_endian i,
  c.nonce_prefix ++ big_endian j,
  nonce_at c i z hi,
  nonce_at c j z hj,
  λ e. apart (
      big_endian-injective i j (omega arith) (omega arith)
        (same_prefix c.nonce_prefix (big_endian i) (big_endian j) e)),
)

build_nonce_last :
    (c : AesGcmCipher)
    → c.counter ≡ u32_max
    → build_nonce c ≡ (record c { counter = 0 }, throws nonce_counter_exhausted)
unfolding build_nonce
build_nonce_last c h =
    let e : (c.counter + 1) % 2 ^ 32 ≡ 0 = omega arith in
    let t : (c.counter == u32_max) ≡ true = (==_iff c.counter u32_max).1 h in rw (e, t) refl

-- From a counter of 0 on: the call at its last value throws and sets it back to 0, so the call after
-- that hands out the first nonce again, under the same key.
pub nonce_reused :
    (c : AesGcmCipher)
    → c.counter ≡ 0
    → ((build_nonce (calls u32_max c)).1 ≡ throws nonce_counter_exhausted)
      × ((build_nonce (build_nonce (calls u32_max c)).0).1 ≡ (build_nonce c).1)
nonce_reused c z =
    let last : build_nonce (calls u32_max c)
        ≡ (record c { counter = 0 }, throws nonce_counter_exhausted) =
      ap build_nonce (calls_lem u32_max c (omega arith))
      ∙ build_nonce_last (record c { counter = c.counter + u32_max }) (omega arith) in
    (
      ap (λ r. r.1) last,
      ap (λ r. (build_nonce r.0).1) last
          ∙ ap (λ n. (build_nonce (record c { counter = n })).1) (sym z),
    )
