-- ===== src/Sinks/EffectiveSink/Pipeline.antt =====
-- The whole of sinks/effective_sink.cpp with the store between Log and the shard writer: what was
-- given to stdio at any moment of a run. The bytes of a shard are on disk after the next fflush or
-- fclose.
use logger_high.Base.{
  ℕ, ◌+◌, ◌≤◌, ◌≡◌, refl, ◌∙◌, ap, sym, subst, false, List, [], ◌∷◌, ◌++◌, map, ok, Option, length,
  arith, All,
}
use logger_high.Crypt.Gcm.{Gcm, IsGcm}
use logger_high.Crypt.Cipher.{AesGcmCipher, u32_max}
use logger_high.Mmap.Frame.{length-encode_frame}
use logger_high.Mmap.Store.{MmapStore, persist_all}
use logger_high.Mmap.Store.Delivery.{Run, Run-Accounts}
use logger_high.Mmap.Store.Swaps.{Zeroed, Has}
use logger_high.Sinks.ShardWriter.{ShardWriter, Io, write_frame}
use logger_high.Sinks.ShardWriter.Steps.{IsWorking}
use logger_high.Sinks.ShardWriter.Runs.{
  Holds, write_frames, write_frames-Holds, frames_of, AllWorking,
}
use logger_high.Audit.ShardReader.{Backend, derive_aes_key}
use logger_high.Sinks.EffectiveSink.{Stages, log_frames, on_persist}
use logger_high.Sinks.EffectiveSink.EndToEnd.{
  Decrypts, AllUnderstood, Sealed, Decodes, in_order, log_frames-Sealed, split-Sealed, decode_all,
  write_frames-client_eph_pub,
}

abbrev pub with_io : Io → List (List ℕ) → List (List ℕ × Io)
with_io io [] = []
with_io io (f ∷ fs) = (f, io) ∷ with_io io fs

frames_of-with_io : (io : Io) (fs : List (List ℕ)) → frames_of (with_io io fs) ≡ fs
frames_of-with_io io [] = refl
frames_of-with_io io (f ∷ fs) = ap (λ l. f ∷ l) (frames_of-with_io io fs)

-- The disk takes every byte of every frame.
abbrev pub Takes : Io → List ℕ → Type 0
Takes io f = IsWorking io f

-- What the store's drains leave of the shard writer is a run of WriteFrame calls.
pub persist_all-write_frames :
    (regions : ℕ → Option (List ℕ)) (io : Io) (fs : List (List ℕ)) (w : ShardWriter) (n : ℕ)
    → (persist_all regions (on_persist io) (w, n) fs).0 ≡ write_frames (with_io io fs) w
unfolding persist_all on_persist write_frames
persist_all-write_frames regions io [] w n = refl
persist_all-write_frames regions io (f ∷ fs) w n =
    persist_all-write_frames regions io fs (write_frame f io w).0 (n + length f)

module _ {M R : Type 0} (st : Stages M) (g : Gcm) (b : Backend R) (key : List ℕ)
    (shown : M → R) where
  pub Sealed-working :
      (io : Io) (xs ys : List (List ℕ)) (rs : List R)
      → Sealed st g b key shown (xs ++ ys) rs
      → All (Takes io) (xs ++ ys)
      → AllWorking (with_io io xs)
  Sealed-working io [] ys rs s t = tt
  Sealed-working io (x ∷ xs) ys [] s t = absurd s
  Sealed-working io (x ∷ xs) ys (r ∷ rs) ((body, e, long, _, _), s) (w, t) = (
    w,
    omega (arith, ap length e, length-encode_frame body, long),
    Sealed-working io xs ys rs s t,
  )

  -- Frames that the stages made, and that were all written, decode to their messages.
  pub written-Decodes :
      (io : Io) (priv : List ℕ) (w : ShardWriter) (fs : List (List ℕ)) (out : List R)
      → derive_aes_key b priv w.client_eph_pub ≡ ok key
      → Holds w [] []
      → AllWorking (with_io io fs)
      → Sealed st g b key shown fs out
      → (rss : List (List R)) × Decodes st g b key shown priv
          (write_frames (with_io io fs) w).shards
          rss
        × (in_order st g b key shown rss ≡ out)
  written-Decodes io priv w fs out d v working so =
      let calls = with_io io fs in
      let (g', gs', v', order) = write_frames-Holds calls w [] [] v working in
      let after = write_frames calls w in
      let kept = write_frames-client_eph_pub calls w [] [] v working in
      decode_all st g b key shown after.client_eph_pub priv after.shards (g' ∷ gs') out v'.key
        (ap (derive_aes_key b priv) kept ∙ d) v'.images
        (subst (λ l. Sealed st g b key shown l out) (sym (order ∙ frames_of-with_io io fs)) so)

  -- After any run of one producer's Log calls, swaps and drains over a store that starts empty, in
  -- which Append returned true for every message of `ms` and took nothing else, an auditor with the
  -- server's private key decodes every shard, as the bytes given to stdio so far, without an error; and
  -- the records of the shards, oldest first, are the first messages, in order; the others are still in
  -- the store, as frames that open to them. This is for messages that the stages understand, an Encrypt
  -- that meets no fault, a counter that lasts, buffer files that map as zeros and are shorter than
  -- 4 GiB, and stdio calls that take every byte.
  pub pipeline-audit :
      (regions : ℕ → Option (List ℕ)) (io : Io) (c : AesGcmCipher) (ms : List M) (priv : List ℕ)
      → (s t : MmapStore ShardWriter) → IsGcm g
      → Decrypts st g b key shown
      → AllUnderstood st g b key shown ms
      → c.counter + length ms ≤ u32_max
      → length c.nonce_prefix ≡ 8
      → c.key ≡ key
      → derive_aes_key b priv s.sink.client_eph_pub ≡ ok key
      → Holds s.sink [] []
      → All (Takes io) (log_frames st g false c ms)
      → Zeroed regions (on_persist io)
      → Has regions (on_persist io) s []
      → Run regions (on_persist io) s (log_frames st g false c ms) t
      → (rss : List (List R)) × (waiting : List R) × (held : List (List ℕ)) × Decodes st g b key
          shown priv t.sink.shards rss
        × (in_order st g b key shown rss ++ waiting ≡ map shown ms)
        × Has regions (on_persist io) t held
        × Sealed st g b key shown held waiting
  pipeline-audit regions io c ms priv s t law same us h n k d v takes z empty run =
      let (delivered, held, e, p, has) = Run-Accounts regions (on_persist io) z empty run in
      let all_sealed =
        subst (λ fs. Sealed st g b key shown fs (map shown ms)) e
          (log_frames-Sealed st g b key shown c ms law same us h n k) in
      let (out, waiting, split, so, sw) =
        split-Sealed st g b key shown delivered held (map shown ms) all_sealed in
      let working =
        Sealed-working io delivered held (map shown ms) all_sealed
          (subst (All (Takes io)) e takes) in
      let sink : t.sink ≡ write_frames (with_io io delivered) s.sink =
        ap (λ r. r.0) p ∙ persist_all-write_frames regions io delivered s.sink s.persisted_bytes in
      let (rss, ds, q) = written-Decodes io priv s.sink delivered out d v working so in
      (
        rss,
        waiting,
        held,
        subst (λ x. Decodes st g b key shown priv x.shards rss) (sym sink) ds,
        ap (λ l. l ++ waiting) q ∙ sym split,
        has,
        sw,
      )
