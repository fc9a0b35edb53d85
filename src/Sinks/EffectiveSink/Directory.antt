-- ===== src/Sinks/EffectiveSink/Directory.antt =====
-- From Log of sinks/effective_sink.cpp to DecodeShardDir of audit/shard_reader.cpp: the directory that
-- a shard writer leaves, as an auditor reads it.
use logger_high.Base.{
  ℕ, ◌+◌, ◌≤◌, ◌≡◌, refl, ◌∙◌, ap, sym, true, false, List, [], ◌∷◌, ◌++◌, map, some, ok, length,
  append-nil, append_assoc,
}
use logger_high.Crypt.Gcm.{Gcm, IsGcm}
use logger_high.Crypt.Cipher.{AesGcmCipher, u32_max}
use logger_high.Names.{name_lt}
use logger_high.Sinks.ShardWriter.{ShardWriter, Shard, Io}
use logger_high.Sinks.ShardWriter.Names.{
  Stamp, InRange, fields, make_shard_name, name_lt-make_shard_name,
}
use logger_high.Sinks.ShardWriter.Runs.{Holds, write_frames, frames_of, AllWorking}
use logger_high.Audit.ShardReader.{Backend, derive_aes_key}
use logger_high.Audit.ShardDir.{Directory, shards_of, decode_content, decode_shard_dir}
use logger_high.Audit.ShardDir.Listing.{Ascending, EachDecodes, concat, decode_shard_dir-in_order}
use logger_high.Sinks.EffectiveSink.{Stages, log_frames}
use logger_high.Sinks.EffectiveSink.EndToEnd.{Decrypts, AllUnderstood, Decodes, in_order, audit-log}
use mathlib.Core.List.{Perm}
use mathlib.Core.List as List
use mathlib.Core.List.Perm

-- What `MakeShardName_` called a shard, with the local time at the opening of each.
abbrev pub shard_name : (ℕ → Stamp) → Shard → List ℕ
shard_name clock s = make_shard_name (clock s.seq) s.seq

-- Of the shards, listed newest first, each was opened at a later local time than the one before, or
-- has a higher number in the same millisecond; and the times and numbers fit their fields.
abbrev pub Chronological : (ℕ → Stamp) → List Shard → Type 0
Chronological clock [] = Unit {0}
Chronological clock (s ∷ []) = InRange (clock s.seq) s.seq
Chronological clock (s ∷ t ∷ ss) =
    InRange (clock s.seq) s.seq
    × (name_lt (fields (clock t.seq) t.seq) (fields (clock s.seq) s.seq) ≡ true)
    × Chronological clock (t ∷ ss)

-- The shards are regular files of the directory, with their bytes in them.
abbrev pub OnDisk : Directory → (ℕ → Stamp) → List Shard → Type 0
OnDisk d clock [] = Unit {0}
OnDisk d clock (s ∷ ss) = (d.content (shard_name clock s) ≡ some s.bytes) × OnDisk d clock ss

-- Oldest first.
abbrev turned {ℓ} : {A : Type ℓ} → List A → List A
turned [] = []
turned (x ∷ xs) = turned xs ++ x ∷ []

turned-perm : (ns : List (List ℕ)) → Perm ns (turned ns)
turned-perm [] = Perm.nil
turned-perm (n ∷ ns) =
    Perm.trans (Perm.cons n (turned-perm ns)) (Perm.symm (List.perm_append_singleton n (turned ns)))

snoc-Ascending :
    (l : List (List ℕ)) (m n : List ℕ)
    → Ascending (l ++ m ∷ [])
    → name_lt m n ≡ true
    → Ascending ((l ++ m ∷ []) ++ n ∷ [])
snoc-Ascending [] m n a h = (h, tt)
snoc-Ascending (x ∷ []) m n (k, a) h = (k, (h, tt))
snoc-Ascending (x ∷ y ∷ l) m n (k, a) h = (k, snoc-Ascending (y ∷ l) m n a h)

newest-InRange :
    (clock : ℕ → Stamp) (t : Shard) (ss : List Shard)
    → Chronological clock (t ∷ ss)
    → InRange (clock t.seq) t.seq
newest-InRange clock t [] c = c
newest-InRange clock t (u ∷ ss) (v, h, c) = v

names-Ascending :
    (clock : ℕ → Stamp) (ss : List Shard)
    → Chronological clock ss
    → Ascending (turned (map (shard_name clock) ss))
names-Ascending clock [] c = tt
names-Ascending clock (s ∷ []) c = tt
names-Ascending clock (s ∷ t ∷ ss) (v, h, c) =
    snoc-Ascending (turned (map (shard_name clock) ss)) (shard_name clock t) (shard_name clock s)
      (names-Ascending clock (t ∷ ss) c)
      (name_lt-make_shard_name (clock t.seq) (clock s.seq) t.seq s.seq (newest-InRange clock t ss c)
          v
        ∙ h)

module _ {R : Type 0} (b : Backend R) where
  concat-snoc : (rss : List (List R)) (rs : List R) → concat b (rss ++ rs ∷ []) ≡ concat b rss ++ rs
  concat-snoc [] rs = append-nil rs
  concat-snoc (r ∷ rss) rs = ap (λ l. r ++ l) (concat-snoc rss rs) ∙ sym (append_assoc r _ rs)

  snoc-EachDecodes :
      (d : Directory) (priv : List ℕ) (ns : List (List ℕ)) (rss : List (List R)) (n : List ℕ)
      (rs : List R)
      → EachDecodes b d priv ns rss
      → decode_content b priv (d.content n) ≡ some (ok rs)
      → EachDecodes b d priv (ns ++ n ∷ []) (rss ++ rs ∷ [])
  snoc-EachDecodes d priv [] [] n rs h e = (e, tt)
  snoc-EachDecodes d priv [] (r ∷ rss) n rs h e = absurd h
  snoc-EachDecodes d priv (m ∷ ns) [] n rs h e = absurd h
  snoc-EachDecodes d priv (m ∷ ns) (r ∷ rss) n rs (g, h) e =
      (g, snoc-EachDecodes d priv ns rss n rs h e)

  -- Shards that decode one by one decode as a directory.
  directory-Decodes :
      {M : Type 0} (st : Stages M) (g : Gcm) (key : List ℕ) (shown : M → R) (d : Directory)
      (clock : ℕ → Stamp) (priv : List ℕ) (ss : List Shard) (rss : List (List R))
      → OnDisk d clock ss
      → Decodes st g b key shown priv ss rss
      → EachDecodes b d priv (turned (map (shard_name clock) ss)) (turned rss)
        × (concat b (turned rss) ≡ in_order st g b key shown rss)
  directory-Decodes st g key shown d clock priv [] [] o h = (tt, refl)
  directory-Decodes st g key shown d clock priv [] (rs ∷ rss) o h = absurd h
  directory-Decodes st g key shown d clock priv (s ∷ ss) [] o h = absurd h
  directory-Decodes st g key shown d clock priv (s ∷ ss) (rs ∷ rss) (here, o) (e, h) =
      let (each, same) = directory-Decodes st g key shown d clock priv ss rss o h in
      (
        snoc-EachDecodes d priv (turned (map (shard_name clock) ss)) (turned rss)
            (shard_name clock s) rs each (ap (decode_content b priv) here ∙ e),
        concat-snoc (turned rss) rs ∙ ap (λ l. l ++ rs) same,
      )

-- What Log sends to a fresh shard writer comes back from DecodeShardDir as one list, the messages in
-- the order of the calls, whatever order the directory is listed in: for messages that the stages
-- understand, a counter that lasts, a key that the auditor derives too, a disk that takes every byte,
-- a directory with these shards and no others, and a local time that does not go back from one shard
-- to the next and fits its fields.
pub directory-audit :
    {M R : Type 0} (st : Stages M) (g : Gcm) (b : Backend R) (key : List ℕ) (shown : M → R)
    (c : AesGcmCipher) (ms : List M) (calls : List (List ℕ × Io)) (w : ShardWriter) (priv : List ℕ)
    (d : Directory) (listing : List (List ℕ)) (clock : ℕ → Stamp)
    → IsGcm g
    → Decrypts st g b key shown
    → AllUnderstood st g b key shown ms
    → c.counter + length ms ≤ u32_max
    → length c.nonce_prefix ≡ 8
    → c.key ≡ key
    → derive_aes_key b priv w.client_eph_pub ≡ ok key
    → Holds w [] []
    → AllWorking calls
    → frames_of calls ≡ log_frames st g false c ms
    → d.exists ≡ true
    → d.is_directory ≡ true
    → Chronological clock (write_frames calls w).shards
    → OnDisk d clock (write_frames calls w).shards
    → Perm (shards_of d listing) (map (shard_name clock) (write_frames calls w).shards)
    → decode_shard_dir b d listing priv ≡ some (ok (map shown ms))
directory-audit st g b key shown c ms calls w priv d listing clock law same us h n k e v working f x
      y later on p =
    let ss = (write_frames calls w).shards in
    let (rss, ds, q) =
      audit-log st g b key shown c ms calls w priv law same us h n k e v working f in
    let (each, flat) = directory-Decodes b st g key shown d clock priv ss rss on ds in
    decode_shard_dir-in_order b d listing priv (turned (map (shard_name clock) ss)) (turned rss) x y
      (Perm.trans p (turned-perm (map (shard_name clock) ss))) (names-Ascending clock ss later) each
    ∙ ap (λ l. some (ok l)) (flat ∙ q)
