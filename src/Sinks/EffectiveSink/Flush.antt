-- ===== src/Sinks/EffectiveSink/Flush.antt =====
-- Flush and the destructor of sinks/effective_sink.cpp: what was given to stdio when they return, behind
-- the calls of fflush and fclose that they end with.
use logger_high.Base.{
  ℕ, ◌+◌, ◌≤◌, ◌<◌, ◌≡◌, ◌∙◌, ap, sym, subst, false, Bool, List, [], map, ok, true, ◌++◌, Option,
  some, length, All, append-nil, refl, arith,
}
use mathlib.Core.Option
use logger_high.Crypt.Gcm.{Gcm, IsGcm}
use logger_high.Crypt.Cipher.{AesGcmCipher, u32_max}
use logger_high.Mmap.Store.{MmapStore, persist_all, flush, then_end, destroy}
use logger_high.Mmap.Store.Delivery.{Run, Run-Accounts, persist_all-append, progress, nothing_yet}
use logger_high.Mmap.Store.Flush.{flush-returns, Again}
use logger_high.Mmap.Store.Start.{AllMapped}
use logger_high.Mmap.Store.Swaps.{Zeroed, Has}
use logger_high.Sinks.ShardWriter.{ShardWriter, Io, FileCall, flush_calls, close_calls}
use logger_high.Sinks.ShardWriter.Runs.{Holds, write_frames}
use logger_high.Audit.ShardReader.{Backend, derive_aes_key}
use logger_high.Sinks.EffectiveSink.{
  Stages, log_frames, on_persist, flush_sink, written_out, destroy_sink, destroyed,
}
use logger_high.Sinks.EffectiveSink.EndToEnd.{
  Decrypts, AllUnderstood, Sealed, Decodes, in_order, log_frames-Sealed,
}
use logger_high.Sinks.EffectiveSink.Pipeline.{
  Takes, with_io, persist_all-write_frames, Sealed-working, written-Decodes,
}

flush_lem :
    {S : Type 0} (regions : ℕ → Option (List ℕ)) (on_persist : S → List ℕ → S × Bool) (n : ℕ)
    (s : MmapStore S) (fs : List (List ℕ))
    → AllMapped regions on_persist
    → Has regions on_persist s fs
    → s.stopped ≡ false
    → 2 ≤ s.config.max_buffers
    → length s.tasks < n
    → (u : MmapStore S) × (flush regions on_persist n s ≡ some u)
      × (progress regions on_persist u
          ≡ persist_all regions on_persist (progress regions on_persist s) fs)
      × Has regions on_persist u []
      × Again regions on_persist u
unfolding flush
flush_lem regions on_persist n s fs all has o two enough =
    let (t, u, begun, ended, _, handed, rest, again) =
      flush-returns regions on_persist n s fs all has o two enough in
    (u, ap (then_end regions on_persist n) begun ∙ ended, handed, rest, again)

-- A run of one producer's Log calls, swaps and drains from `s` to `t`, over a store that starts empty,
-- and what a Flush after it relies on: the accepted payloads are the frames of `ms`, messages that the
-- stages understand, of an Encrypt that meets no fault and a counter that lasts; the disk takes every
-- byte; the pool may have two buffers at least, whose files can be made and map as zeros; the store is
-- not stopped; and the strand completes in each wait more tasks than were waiting before it.
module _ {M R : Type 0} (st : Stages M) (g : Gcm) (b : Backend R) (key : List ℕ) (shown : M → R)
    (regions : ℕ → Option (List ℕ)) (io : Io) (c : AesGcmCipher) (ms : List M) (priv : List ℕ)
    (has_fd : Bool) (n : ℕ) (s t : MmapStore ShardWriter) (law : IsGcm g)
    (same : Decrypts st g b key shown) (us : AllUnderstood st g b key shown ms)
    (lasts : c.counter + length ms ≤ u32_max) (nonce : length c.nonce_prefix ≡ 8)
    (keyed : c.key ≡ key) (derived : derive_aes_key b priv s.sink.client_eph_pub ≡ ok key)
    (fresh : Holds s.sink [] []) (takes : All (Takes io) (log_frames st g false c ms))
    (mapped : AllMapped regions (on_persist io)) (empty : Has regions (on_persist io) s [])
    (run : Run regions (on_persist io) s (log_frames st g false c ms) t)
    (running : t.stopped ≡ false) (two : 2 ≤ t.config.max_buffers)
    (enough : length t.tasks < n) where
  abbrev AllLogged : ShardWriter → Type 0
  AllLogged w =
      (rss : List (List R)) × Decodes st g b key shown priv w.shards rss
      × (in_order st g b key shown rss ≡ map shown ms)

  flushed :
      (u : MmapStore ShardWriter) × (flush regions (on_persist io) n t ≡ some u)
      × AllLogged u.sink
      × Has regions (on_persist io) u []
      × Again regions (on_persist io) u
  flushed =
      let zeroed : Zeroed regions (on_persist io) =
        λ q image e. let (k, small, f) = mapped q in (k, small, Option.some_inj.0 (sym e ∙ f)) in
      let (delivered, held, e, p, has) = Run-Accounts regions (on_persist io) zeroed empty run in
      let frames = log_frames st g false c ms in
      let (u, done, handed, rest, again) =
        flush_lem regions (on_persist io) n t held mapped has running two enough in
      let all_sealed = log_frames-Sealed st g b key shown c ms law same us lasts nonce keyed in
      let whole : progress regions (on_persist io) u
          ≡ persist_all regions (on_persist io) (progress regions (on_persist io) s) frames =
        handed
        ∙ ap (λ r. persist_all regions (on_persist io) r held) p
        ∙ sym (persist_all-append regions (on_persist io) delivered held _)
        ∙ ap (persist_all regions (on_persist io) (progress regions (on_persist io) s)) (sym e) in
      let sink : u.sink ≡ write_frames (with_io io frames) s.sink =
        ap (λ r. r.0) whole ∙ persist_all-write_frames regions io frames s.sink s.persisted_bytes in
      let working =
        Sealed-working st g b key shown io frames [] (map shown ms)
          (subst (λ fs. Sealed st g b key shown fs (map shown ms)) (sym (append-nil frames))
            all_sealed)
          (subst (All (Takes io)) (sym (append-nil frames)) takes) in
      (
        u,
        done,
        subst AllLogged (sym sink) (
            written-Decodes st g b key shown io priv s.sink frames (map shown ms) derived fresh
              working all_sealed),
        rest,
        again,
      )

  -- After a run of one producer's Log calls, swaps and drains over a store that starts empty, in which
  -- Append returned true for every message and took nothing else, Flush of the sink returns with the
  -- calls that write the shard out, and then an auditor with the server's private key decodes every
  -- shard, as the bytes given to stdio, without an error, and the records of the shards, oldest first,
  -- are all the messages, in order: for messages that the stages understand, an Encrypt that meets no
  -- fault, a counter that lasts, stdio calls that take every byte, a pool of two buffers at least whose
  -- files can be made, map as zeros and are shorter than 4 GiB, a store that is not stopped, a strand
  -- that completes in each wait of Flush more tasks than were waiting before it, and no Log at the same
  -- time.
  pub flush-audit :
      (u : MmapStore ShardWriter) × (flush_sink regions io n has_fd t
        ≡ some (u, flush_calls has_fd u.sink))
      × AllLogged u.sink
      × Has regions (on_persist io) u []
  unfolding flush_sink
  flush-audit =
      let (u, done, logged, rest, _) = flushed in (u, ap (written_out has_fd) done, logged, rest)

  -- After a run of one producer's Log calls, swaps and drains over a store that starts empty, in which
  -- Append returned true for every message and took nothing else, the destructor of the sink ends,
  -- having flushed the store and the shard, flushed and stopped the store, and closed the shard; and
  -- then an auditor with the server's private key decodes every shard, as the bytes given to stdio,
  -- without an error, and the records of the shards, oldest first, are all the messages, in order: for
  -- messages that the stages understand, an Encrypt that meets no fault, a counter that lasts, stdio
  -- calls that take every byte, a pool of two buffers at least whose files can be made, map as zeros and
  -- are shorter than 4 GiB, a store that is not stopped, a strand that completes in each wait more tasks
  -- than were waiting before it, and no Log at the same time.
  pub destroy-audit :
      (u : MmapStore ShardWriter) × (destroy_sink regions io n has_fd t
        ≡ some (u, flush_calls has_fd u.sink ++ close_calls u.sink))
      × AllLogged u.sink
      × (u.stopped ≡ true)
  unfolding destroy_sink flush_sink destroy
  destroy-audit =
      let (t₁, done, logged, rest, (still, two_still, idle)) = flushed in
      let (t₂, done_again, handed, _, _) =
        flush_lem regions (on_persist io) n t₁ [] mapped rest still two_still
          (omega (arith, idle, enough)) in
      let untouched : progress regions (on_persist io) t₂ ≡ progress regions (on_persist io) t₁ =
        handed ∙ sym (nothing_yet regions (on_persist io) (progress regions (on_persist io) t₁)) in
      let same_sink : t₂.sink ≡ t₁.sink = ap (λ r. r.0) untouched in
      let u : MmapStore ShardWriter = record t₂ { stopped = true } in
      let closing : Option (MmapStore ShardWriter)
          → Option (MmapStore ShardWriter × List FileCall) =
        λ r.
          Option.map {A = MmapStore ShardWriter} {B = MmapStore ShardWriter × List FileCall}
            (λ v. (v, flush_calls has_fd t₁.sink ++ close_calls v.sink))
            (Option.map {A = MmapStore ShardWriter} {B = MmapStore ShardWriter}
              (λ v. record v { stopped = true }) r) in
      (
        u,
        ap (λ r. destroyed regions io n (written_out has_fd r)) done
            ∙ ap closing done_again
            ∙ ap (λ w. some (u, flush_calls has_fd w ++ close_calls t₂.sink)) (sym same_sink),
        subst AllLogged (sym same_sink) logged,
        refl,
      )
