-- ===== src/Sinks/EffectiveSink/Interleaved.antt =====
-- The whole of sinks/effective_sink.cpp where Flush, the strand and the Log calls interleave: what the
-- shards hold between any two steps. A shard is the bytes that were given to stdio for its file; they
-- are on disk after the next fflush or fclose.
use logger_high.Base.{
  ℕ, ◌+◌, ◌≤◌, ◌≡◌, refl, ◌∙◌, ap, sym, subst, false, true, Bool, List, [], ◌∷◌, ◌++◌, map, ok,
  Option, length, All,
}
use logger_high.Crypt.Gcm.{Gcm, IsGcm}
use logger_high.Crypt.Cipher.{AesGcmCipher, u32_max}
use logger_high.Mmap.Store.{MmapStore}
use logger_high.Mmap.Store.Invariant.{Loose}
use logger_high.Mmap.Store.Swaps.{Zeroed}
use logger_high.Mmap.Store.Producers.{World, Played, resting, no_drain}
use logger_high.Mmap.Store.Producers.Settled.{Settles, Settles-sink}
use logger_high.Mmap.Store.Producers.Contents.{contents}
use logger_high.Mmap.Store.Producers.Conserved.{Played-Conserved}
use logger_high.Sinks.ShardWriter.{ShardWriter, Io}
use logger_high.Sinks.ShardWriter.Runs.{Holds, write_frames}
use logger_high.Audit.ShardReader.{Backend, derive_aes_key}
use logger_high.Sinks.EffectiveSink.{Stages, log_frames, on_persist}
use logger_high.Sinks.EffectiveSink.EndToEnd.{
  Decrypts, AllUnderstood, Sealed, Shows, Decodes, in_order, log_frames-Sealed, split-Sealed,
}
use logger_high.Sinks.EffectiveSink.Pipeline.{
  Takes, with_io, persist_all-write_frames, Sealed-working, written-Decodes,
}
use mathlib.Core.List.{Perm}
use mathlib.Core.List.Perm
use mathlib.Core.List.{Permᴰ}
use mathlib.Core.Logic.{∥∥₁_map}

-- The members of a list that a list of answers says true for.
abbrev pub accepted_of {ℓ} : {A : Type ℓ} → List Bool → List A → List A
accepted_of [] xs = []
accepted_of (done ∷ answers) [] = []
accepted_of (true ∷ answers) (x ∷ xs) = x ∷ accepted_of answers xs
accepted_of (false ∷ answers) (x ∷ xs) = accepted_of answers xs

accepted_of-map {ℓ} :
    {A B : Type ℓ} (f : A → B) (answers : List Bool) (xs : List A)
    → map f (accepted_of answers xs) ≡ accepted_of answers (map f xs)
accepted_of-map f [] xs = refl
accepted_of-map f (done ∷ answers) [] = refl
accepted_of-map f (true ∷ answers) (x ∷ xs) = ap (λ l. f x ∷ l) (accepted_of-map f answers xs)
accepted_of-map f (false ∷ answers) (x ∷ xs) = accepted_of-map f answers xs

perm-All : (P : List ℕ → Type 0) {xs ys : List (List ℕ)} → Permᴰ xs ys → All P xs → All P ys
perm-All P Permᴰ.nil a = tt
perm-All P (Permᴰ.cons e d) a = (subst P e a.0, perm-All P d a.1)
perm-All P (Permᴰ.swap e f) a = (subst P f a.1.0, (subst P e a.0, a.1.1))
perm-All P (Permᴰ.trans d e) a = perm-All P e (perm-All P d a)

module _ {M R : Type 0} (st : Stages M) (g : Gcm) (b : Backend R) (key : List ℕ)
    (shown : M → R) where
  accepted_of-Sealed :
      (answers : List Bool) (fs : List (List ℕ)) (rs : List R)
      → Sealed st g b key shown fs rs
      → Sealed st g b key shown (accepted_of answers fs) (accepted_of answers rs)
  accepted_of-Sealed [] fs rs s = tt
  accepted_of-Sealed (done ∷ answers) [] [] s = tt
  accepted_of-Sealed (done ∷ answers) [] (r ∷ rs) s = absurd s
  accepted_of-Sealed (done ∷ answers) (f ∷ fs) [] s = absurd s
  accepted_of-Sealed (true ∷ answers) (f ∷ fs) (r ∷ rs) (a, s) =
      (a, accepted_of-Sealed answers fs rs s)
  accepted_of-Sealed (false ∷ answers) (f ∷ fs) (r ∷ rs) (a, s) = accepted_of-Sealed answers fs rs s

  -- Frames in another order open to the same records in that order.
  abbrev Reordered : List (List ℕ) → List R → Type 0
  Reordered fs rs = (qs : List R) × Sealed st g b key shown fs qs × Perm rs qs

  perm-Sealed :
      {xs ys : List (List ℕ)} (rs : List R)
      → Permᴰ xs ys
      → Sealed st g b key shown xs rs
      → Reordered ys rs
  perm-Sealed [] Permᴰ.nil s = ([], tt, Perm.nil)
  perm-Sealed (r ∷ rs) Permᴰ.nil s = absurd s
  perm-Sealed [] (Permᴰ.cons e d) s = absurd s
  perm-Sealed (r ∷ rs) (Permᴰ.cons e d) (a, s) =
      let (qs, s', p) = perm-Sealed rs d s in
      (r ∷ qs, (subst (λ f. Shows st g b key shown f r) e a, s'), Perm.cons r p)
  perm-Sealed [] (Permᴰ.swap e f) s = absurd s
  perm-Sealed (r ∷ []) (Permᴰ.swap e f) s = absurd s.1
  perm-Sealed (r ∷ q ∷ rs) (Permᴰ.swap e f) (a, (a', s)) = (
    q ∷ r ∷ rs,
    (
      subst (λ f. Shows st g b key shown f q) f a',
      (subst (λ f. Shows st g b key shown f r) e a, s),
    ),
    Perm.swap q r rs,
  )
  perm-Sealed rs (Permᴰ.trans d e) s =
      let (ps, s', p) = perm-Sealed rs d s in
      let (qs, s'', q) = perm-Sealed ps e s' in (qs, s'', Perm.trans p q)

  -- What the shards hold, and what is in the buffers of the pool, the one that is being drained
  -- included.
  abbrev pub InShards : (ℕ → Option (List ℕ)) → Io → List ℕ → World ShardWriter → List R → Type 0
  InShards regions io priv w out =
      (rss : List (List R)) × (waiting : List R) × (c : ℕ → List (List ℕ)) × (u : MmapStore
        ShardWriter)
      × Decodes st g b key shown priv w.store.sink.shards rss
      × Perm out (in_order st g b key shown rss ++ waiting)
      × Settles regions (on_persist io) w.drain w.store u
      × Loose u c
      × Sealed st g b key shown (contents c u.pool_size) waiting

  -- Over a store whose buffers hold nothing at first, with no thread in a call and no drain under way,
  -- let Log calls, Flush calls and the steps of DrainOne_ interleave, with no Write between the stores
  -- and the memset of ResetForReuse on the same buffer. After every event an auditor with the server's
  -- private key decodes every shard, as the bytes given to stdio so far, without an error; and the
  -- records of the shards, together with those to which the frames in the buffers open that were not
  -- handed out, are the messages whose Append returned true, in some order. This is for calls of Append
  -- whose accepted payloads are frames of `ms` in the order of the Log calls, `answers` saying which
  -- were accepted, messages that the stages understand, an Encrypt that meets no fault, a counter that
  -- lasts, buffer files that map as zeros and are shorter than 4 GiB, offsets below 2 ^ 64, and stdio
  -- calls that take every byte.
  pub interleaved-audit :
      (regions : ℕ → Option (List ℕ)) (io : Io) (c : AesGcmCipher) (ms : List M)
      (answers : List Bool) (priv : List ℕ)
      → (w v : World ShardWriter) → IsGcm g
      → Decrypts st g b key shown
      → AllUnderstood st g b key shown ms
      → c.counter + length ms ≤ u32_max
      → length c.nonce_prefix ≡ 8
      → c.key ≡ key
      → derive_aes_key b priv w.store.sink.client_eph_pub ≡ ok key
      → Holds w.store.sink [] []
      → All (Takes io) (accepted_of answers (log_frames st g false c ms))
      → Zeroed regions (on_persist io)
      → Loose w.store (λ _. [])
      → ((k : ℕ) → w.threads k ≡ resting)
      → w.drain ≡ no_drain
      → Played regions (on_persist io) w (accepted_of answers (log_frames st g false c ms)) v
      → ∥ InShards regions io priv v (map shown (accepted_of answers ms)) ∥₁
  interleaved-audit regions io c ms answers priv w v law same us h n k d holds takes z empty idle
        none_yet run =
      let (delivered, u, settled, (held, loose, q, perm), _) =
        Played-Conserved regions (on_persist io) z empty idle none_yet run in
      let p = sym (Settles-sink regions (on_persist io) v.drain v.store u settled).0 ∙ q in
      let frames = accepted_of answers (log_frames st g false c ms) in
      let out = map shown (accepted_of answers ms) in
      let all_sealed : Sealed st g b key shown frames out =
        subst (Sealed st g b key shown frames) (sym (accepted_of-map shown answers ms)) (
          accepted_of-Sealed answers (log_frames st g false c ms) (map shown ms)
            (log_frames-Sealed st g b key shown c ms law same us h n k)) in
      ∥∥₁_map {B = InShards regions io priv v out} perm (λ moved.
        let (qs, reordered, order) = perm-Sealed out moved all_sealed in
        let (done, waiting, split, so, sw) =
          split-Sealed st g b key shown delivered (contents held u.pool_size) qs reordered in
        let working =
          Sealed-working st g b key shown io delivered (contents held u.pool_size) qs reordered
            (perm-All (Takes io) moved takes) in
        let sink : v.store.sink ≡ write_frames (with_io io delivered) w.store.sink =
          ap (λ r. r.0) p
          ∙ persist_all-write_frames regions io delivered w.store.sink w.store.persisted_bytes in
        let (rss, ds, q) =
          written-Decodes st g b key shown io priv w.store.sink delivered done d holds working so in
        (
          rss,
          waiting,
          held,
          u,
          subst (λ x. Decodes st g b key shown priv x.shards rss) (sym sink) ds,
          subst (Perm out) (split ∙ ap (λ l. l ++ waiting) (sym q)) order,
          settled,
          loose,
          sw,
        ))
