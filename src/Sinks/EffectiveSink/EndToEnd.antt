-- ===== src/Sinks/EffectiveSink/EndToEnd.antt =====
-- From Log of sinks/effective_sink.cpp over the shard writer to DecodeShardFile of
-- audit/shard_reader.cpp: what an auditor reads back.
use logger_high.Base.{
  ℕ, ◌+◌, ◌^◌, ◌≤◌, ◌<◌, ◌≡◌, refl, ◌∙◌, ap, sym, subst, true, false, List, [], ◌∷◌, ◌++◌, map,
  some, ok, length, arith, Bool-cases, inl, inr,
}
use logger_high.Crypt.Gcm.{Gcm, IsGcm}
use logger_high.Crypt.Cipher.{AesGcmCipher, encrypt, decrypt, u32_max}
use logger_high.Crypt.Cipher.RoundTrip.{encrypt_lem, decrypt-encrypt}
use logger_high.Mmap.Frame.{encode_frame, encode_frames}
use logger_high.Sinks.ShardWriter.{ShardWriter, Shard, Io, header, write_frame, needs_rotation}
use logger_high.Sinks.ShardWriter.Steps.{IsWorking, write_frame_working}
use logger_high.Sinks.ShardWriter.Runs.{
  Holds, Groups, Images, flat, total, place, write_frame-Holds, write_frames, write_frames-Holds,
  frames_of, AllWorking,
}
use logger_high.Audit.ShardReader.{
  Backend, open_body, decode_shard_file, derive_aes_key, frame_min_bytes,
}
use logger_high.Audit.ShardReader.RoundTrip.{Opens, decode_shard_file-encode}
use logger_high.Sinks.EffectiveSink.{Stages, log_frame, log_frames}

write_frame-client_eph_pub :
    (s : ShardWriter) (f : List ℕ) (io : Io)
    → s.file_open ≡ true
    → length s.client_eph_pub ≡ 32
    → IsWorking io f
    → 0 < length f
    → (write_frame f io s).0.client_eph_pub ≡ s.client_eph_pub
write_frame-client_eph_pub s f io o k w n =
    ap (λ r. r.0.client_eph_pub) (write_frame_working f io s o k w n)
    ∙ elim (Bool-cases (needs_rotation s f)) [ inl e ↦ rw e refl | inr e ↦ rw e refl ]

-- The public key of the header stays what the constructor was given.
pub write_frames-client_eph_pub :
    (calls : List (List ℕ × Io)) (s : ShardWriter) (g : List (List ℕ)) (gs : Groups)
    → Holds s g gs
    → AllWorking calls
    → (write_frames calls s).client_eph_pub ≡ s.client_eph_pub
unfolding write_frames
write_frames-client_eph_pub [] s g gs v w = refl
write_frames-client_eph_pub ((f, io) ∷ rest) s g gs v (w, n, ws) =
    let (_, v', _) = write_frame-Holds s g gs f io v w n in
    let r = place s f g gs in
    write_frames-client_eph_pub rest (write_frame f io s).0 r.0 r.1 v' ws
    ∙ write_frame-client_eph_pub s f io v.opened v.key w n

module _ {M R : Type 0} (st : Stages M) (g : Gcm) (b : Backend R) (key : List ℕ)
    (shown : M → R) where
  -- The sink's stages and the auditor's undo each other on one message, and it is not too long for
  -- the 32 bits of the length word.
  abbrev pub Understands : M → Type 0
  Understands m =
      (proto : List ℕ) × (z : List ℕ) × (st.format m ≡ ok proto)
      × (st.compress proto ≡ ok z)
      × (b.decompress z ≡ ok proto)
      × (b.parse proto ≡ some (shown m))
      × (length z + 28 < 2 ^ 32)

  -- The auditor's Decrypt is that of a cipher over the recovered key.
  abbrev pub Decrypts : Type 0
  Decrypts =
      (body : List ℕ)
      → b.decrypt key body ≡ decrypt g (record { key = key; nonce_prefix = []; counter = 0 }) body

  -- A frame that opens to a record.
  abbrev pub Shows : List ℕ → R → Type 0
  Shows f r =
      (body : List ℕ) × (f ≡ encode_frame body)
      × (frame_min_bytes ≤ length body)
      × (length body < 2 ^ 32)
      × (open_body b key body ≡ ok r)

  abbrev pub Sealed : List (List ℕ) → List R → Type 0
  Sealed [] [] = Unit {0}
  Sealed (f ∷ fs) (r ∷ rs) = Shows f r × Sealed fs rs
  Sealed _ _ = ⊥

  opened :
      (body z proto : List ℕ) (r : R)
      → b.decrypt key body ≡ ok z
      → b.decompress z ≡ ok proto
      → b.parse proto ≡ some r
      → open_body b key body ≡ ok r
  unfolding open_body
  opened body z proto r d e p = rw (d, e, p) refl

  sent_frame :
      (c c' : AesGcmCipher) (m : M) (proto z body : List ℕ)
      → st.format m ≡ ok proto
      → st.compress proto ≡ ok z
      → encrypt g false c z ≡ (c', ok body)
      → log_frame st g false c m ≡ (c', ok (encode_frame body))
  unfolding log_frame
  sent_frame c c' m proto z body f p e = rw (f, p, e) refl

  -- One call of Log sends a frame that the auditor opens to the message, and moves the counter on.
  pub log_frame-Shows :
      (c : AesGcmCipher) (m : M)
      → IsGcm g
      → Decrypts
      → Understands m
      → c.counter < u32_max
      → length c.nonce_prefix ≡ 8
      → c.key ≡ key
      → (f : List ℕ) × (log_frame st g false c m ≡ (record c { counter = c.counter + 1 }, ok f))
        × Shows f (shown m)
  log_frame-Shows c m law same (proto, z, f, p, d, q, small) h n k =
      let (out, e, back, size) =
        decrypt-encrypt g c (record { key = key; nonce_prefix = []; counter = 0 }) z law h n
          (sym k) in
      (
        encode_frame out,
        sent_frame c (record c { counter = c.counter + 1 }) m proto z out f p
            (λ i. ((encrypt_lem g c z h i).0, e i)),
        (out, refl, omega arith, omega arith, opened out z proto (shown m) (same out ∙ back) d q),
      )

  abbrev pub AllUnderstood : List M → Type 0
  AllUnderstood [] = Unit {0}
  AllUnderstood (m ∷ ms) = Understands m × AllUnderstood ms

  one_sent :
      (c c' : AesGcmCipher) (m : M) (ms : List M) (f : List ℕ)
      → log_frame st g false c m ≡ (c', ok f)
      → log_frames st g false c (m ∷ ms) ≡ f ∷ log_frames st g false c' ms
  one_sent c c' m ms f e = rw e refl

  -- A run of Log calls, as long as the counter lasts, sends one frame for each message, in order.
  pub log_frames-Sealed :
      (c : AesGcmCipher) (ms : List M)
      → IsGcm g
      → Decrypts
      → AllUnderstood ms
      → c.counter + length ms ≤ u32_max
      → length c.nonce_prefix ≡ 8
      → c.key ≡ key
      → Sealed (log_frames st g false c ms) (map shown ms)
  log_frames-Sealed c [] law same us h n k = tt
  log_frames-Sealed c (m ∷ ms) law same (u, us) h n k =
      let (f, e, s) = log_frame-Shows c m law same u (omega arith) n k in
      let c' = record c { counter = c.counter + 1 } in
      subst (λ fs. Sealed fs (shown m ∷ map shown ms)) (sym (one_sent c c' m ms f e))
        (s, log_frames-Sealed c' ms law same us (omega arith) n k)

  pub split-Sealed :
      (xs ys : List (List ℕ)) (rs : List R)
      → Sealed (xs ++ ys) rs
      → (r : List R) × (q : List R) × (rs ≡ r ++ q) × Sealed xs r × Sealed ys q
  split-Sealed [] ys rs s = ([], rs, refl, tt, s)
  split-Sealed (x ∷ xs) ys [] s = absurd s
  split-Sealed (x ∷ xs) ys (r ∷ rs) (a, s) =
      let (r', q, e, s', t) = split-Sealed xs ys rs s in (r ∷ r', q, ap (λ l. r ∷ l) e, (a, s'), t)

  bodies :
      (fs : List (List ℕ)) (rs : List R)
      → Sealed fs rs
      → (bs : List (List ℕ)) × (flat fs ≡ encode_frames bs) × Opens b key bs rs
  bodies [] [] s = ([], refl, tt)
  bodies [] (r ∷ rs) s = absurd s
  bodies (f ∷ fs) [] s = absurd s
  bodies (f ∷ fs) (r ∷ rs) ((body, e, long, small, o), s) =
      let (bs, e', os) = bodies fs rs s in
      (
        body ∷ bs,
        ap (λ l. l ++ flat fs) e ∙ ap (λ l. encode_frame body ++ l) e',
        (long, small, o, os),
      )

  -- Every shard decodes to its own records.
  abbrev pub Decodes : List ℕ → List Shard → List (List R) → Type 0
  Decodes priv [] [] = Unit {0}
  Decodes priv (s ∷ ss) (rs ∷ rss) =
      (decode_shard_file b priv s.bytes ≡ some (ok rs)) × Decodes priv ss rss
  Decodes priv _ _ = ⊥

  -- The records of all shards, oldest first; the shards are listed newest first.
  abbrev pub in_order : List (List R) → List R
  in_order [] = []
  in_order (rs ∷ rss) = in_order rss ++ rs

  pub decode_all :
      (k priv : List ℕ) (ss : List Shard) (gs : Groups) (rs : List R)
      → length k ≡ 32
      → derive_aes_key b priv k ≡ ok key
      → Images k ss gs
      → Sealed (total gs) rs
      → (rss : List (List R)) × Decodes priv ss rss × (in_order rss ≡ rs)
  decode_all k priv [] [] [] h d v s = ([], tt, refl)
  decode_all k priv [] [] (r ∷ rs) h d v s = absurd s
  decode_all k priv [] (g' ∷ gs) rs h d v s = absurd v
  decode_all k priv (x ∷ ss) [] rs h d v s = absurd v
  decode_all k priv (x ∷ ss) (g' ∷ gs) rs h d (image, v) s =
      let (older, newer, e, so, sn) = split-Sealed (total gs) g' rs s in
      let (bs, f, o) = bodies g' newer sn in
      let (rss, ds, q) = decode_all k priv ss gs older h d v so in
      (
        newer ∷ rss,
        (
          ap (decode_shard_file b priv) (image ∙ ap (λ l. header k ++ l) f)
              ∙ decode_shard_file-encode b key k priv bs newer h d o,
          ds,
        ),
        ap (λ l. l ++ newer) q ∙ sym e,
      )

  -- What Log sends to a fresh shard writer, an auditor with the server's private key reads: for
  -- messages that the stages understand, a counter that lasts, and a disk that takes every byte, the
  -- shards decode one and all without an error, and their records, oldest shard first, are the
  -- messages in the order of the calls.
  pub audit-log :
      (c : AesGcmCipher) (ms : List M) (calls : List (List ℕ × Io)) (w : ShardWriter)
      (priv : List ℕ)
      → IsGcm g
      → Decrypts
      → AllUnderstood ms
      → c.counter + length ms ≤ u32_max
      → length c.nonce_prefix ≡ 8
      → c.key ≡ key
      → derive_aes_key b priv w.client_eph_pub ≡ ok key
      → Holds w [] []
      → AllWorking calls
      → frames_of calls ≡ log_frames st g false c ms
      → (rss : List (List R)) × Decodes priv (write_frames calls w).shards rss
        × (in_order rss ≡ map shown ms)
  audit-log c ms calls w priv law same us h n k d v working e =
      let (g', gs', v', order) = write_frames-Holds calls w [] [] v working in
      let s = write_frames calls w in
      let kept = write_frames-client_eph_pub calls w [] [] v working in
      decode_all s.client_eph_pub priv s.shards (g' ∷ gs') (map shown ms) v'.key
        (ap (derive_aes_key b priv) kept ∙ d) v'.images
        (subst (λ fs. Sealed fs (map shown ms)) (sym (order ∙ e))
          (log_frames-Sealed c ms law same us h n k))
