-- ===== src/Sinks/EvictionRunner/Collect.antt =====
-- Which files the sweep of sinks/eviction_runner.cpp takes into account.
use logger_high.Base.{
  ℕ, ◌≡◌, refl, ap, true, false, List, [], ◌∷◌, ◌++◌, Option, none, some, All, if◌then◌else◌,
  Bool-cases, inl, inr,
}
use logger_high.Sinks.EvictionRunner.{
  DirEntry, Entry, to_entry, looks_like_shard, collect, sweep_once, swept,
}

-- An entry that the file system answers for.
abbrev pub Answers : DirEntry → Type 0
Answers d = (d.regular ≡ some true) × ((n : ℕ) × (d.file_size ≡ some n))

abbrev pub size_or_zero : Option ℕ → ℕ
size_or_zero none = 0
size_or_zero (some n) = n

-- The entries of the shards among files that all answer.
pub shards_of : List DirEntry → List Entry
shards_of [] = []
shards_of (d ∷ ds) =
    if looks_like_shard d.filename
    then to_entry d (size_or_zero d.file_size) ∷ shards_of ds
    else shards_of ds

pub collect-Answers : (ds : List DirEntry) → All Answers ds → collect false ds ≡ some (shards_of ds)
unfolding collect shards_of
collect-Answers [] a = refl
collect-Answers (d ∷ ds) ((r, size), rest) =
    let (n, z) = size in
    elim (Bool-cases (looks_like_shard d.filename)) [
      | inl e ↦ rw (r, e, z, collect-Answers ds rest) refl
      | inr e ↦ rw (r, e, collect-Answers ds rest) refl
    ]

-- One shard whose size cannot be read, with anything behind it in the listing, ends the whole
-- sweep: the error code is still set when the loop comes to the next entry. The files before it do
-- not matter, and nothing is removed, whatever the total.
pub unreadable_size_aborts :
    (before behind : List DirEntry) (d next : DirEntry) (cap_bytes : ℕ) (active : Option ℕ)
    → All Answers before
    → d.regular ≡ some true
    → looks_like_shard d.filename ≡ true
    → d.file_size ≡ none
    → sweep_once cap_bytes active (before ++ d ∷ next ∷ behind) ≡ none
unfolding sweep_once
unreadable_size_aborts before behind d next cap_bytes active a r l z =
    ap (swept cap_bytes active) (aborts before a)
  where
    aborts :
        (before : List DirEntry)
        → All Answers before
        → collect false (before ++ d ∷ next ∷ behind) ≡ none
    aborts [] a = rw (r, l, z) refl
    aborts (b ∷ before) ((rb, size), rest) =
        let (n, zb) = size in
        elim (Bool-cases (looks_like_shard b.filename)) [
          | inl e ↦ rw (rb, e, zb, aborts before rest) refl
          | inr e ↦ rw (rb, e, aborts before rest) refl
        ]
