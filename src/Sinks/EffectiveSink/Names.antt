-- ===== src/Sinks/EffectiveSink/Names.antt =====
-- The directory of sinks/effective_sink.cpp holds the buffer files of mmap/mmap_store.cpp beside the
-- shards of sinks/shard_writer.cpp; audit/shard_reader.cpp and sinks/eviction_runner.cpp tell them
-- apart by name.
use logger_high.Base.{
  ℕ, ◌-◌, ◌^◌, ◌<◌, ◌≡◌, refl, ◌∙◌, inl, inr, true, false, List, length, take, drop, ltb,
  Bool-cases, arith, take_all, length-drop,
}
use logger_high.Audit.ShardDir.{is_shard_filename}
use logger_high.Mmap.Store.Names.{buffer_name, buffer_name-distinct}
use logger_high.Sinks.EvictionRunner.{looks_like_shard}
use logger_high.Sinks.ShardWriter.Names.{Stamp, make_shard_name, make_shard_name-is_shard_filename}

-- The two tests agree on every name.
looks_like_shard-is_shard_filename :
    (name : List ℕ) → looks_like_shard name ≡ is_shard_filename name
unfolding looks_like_shard is_shard_filename
looks_like_shard-is_shard_filename name = elim (Bool-cases (ltb 8 (length name))) [
  | inr short ↦ rw short refl
  | inl long ↦
      let whole : take 4 (drop (length name - 4) name) ≡ drop (length name - 4) name =
        take_all (drop (length name - 4) name) 4
          (omega (arith, length-drop 4 name, length-drop (length name - 4) name)) in
      rw (long, whole) refl
]

buffer_name-is_shard_filename : (q : ℕ) → is_shard_filename (buffer_name q) ≡ false
unfolding is_shard_filename buffer_name
buffer_name-is_shard_filename q = elim (Bool-cases (ltb 8 (length (buffer_name q)))) [
  | inr short ↦ rw short refl
  | inl long ↦ rw long refl
]

-- LooksLikeShard and IsShardFilename agree on every name: the name of a shard passes both, whatever
-- the clock says, and the name of a buffer neither. Two buffers of different numbers of 64 bits have
-- different names.
pub shards_told_apart :
    ((name : List ℕ) → looks_like_shard name ≡ is_shard_filename name)
    × ((t : Stamp) (seq : ℕ) → looks_like_shard (make_shard_name t seq) ≡ true)
    × ((q : ℕ) → looks_like_shard (buffer_name q) ≡ false)
    × ((q r : ℕ) → q < 2 ^ 64 → r < 2 ^ 64 → buffer_name q ≡ buffer_name r → q ≡ r)
shards_told_apart = (
  looks_like_shard-is_shard_filename,
  λ t seq.
      looks_like_shard-is_shard_filename (make_shard_name t seq)
      ∙ make_shard_name-is_shard_filename t seq,
  λ q. looks_like_shard-is_shard_filename (buffer_name q) ∙ buffer_name-is_shard_filename q,
  buffer_name-distinct,
)
