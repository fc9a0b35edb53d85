-- ===== src/Audit/ShardDir.antt =====
-- DecodeShardDir of audit/shard_reader.cpp: every shard of a directory, in the order of the names.
pub mod Order
pub mod Listing
use logger_high.Base.{
  ℕ, ◌+◌, ◌-◌, Bool, not, ◌&&◌, ◌||◌, List, [], ◌∷◌, ◌++◌, Option, none, some, Result, ok, throws,
  length, take, drop, ltb, if◌then◌else◌,
}
use logger_high.Names.{name_lt}
use logger_high.Errors.{Throwing, not_a_directory, cannot_open_shard}
use logger_high.Audit.ShardReader.{Backend, equal_bytes, decode_shard_file}
use mathlib.Core.Option

unfoldable pub is_shard_filename : List ℕ → Bool
is_shard_filename name =
    ltb 8 (length name)
    && (equal_bytes (take 4 name) (b'l' ∷ b'o' ∷ b'g' ∷ b'-' ∷ [])
        && equal_bytes (take 4 (drop (length name - 4) name)) (b'.' ∷ b'b' ∷ b'i' ∷ b'n' ∷ []))

-- What the file system says of the path, and of the entries of the directory by their names. The
-- names come from directory_iterator, in an order that it chooses.
pub record Directory : Type 0 where
  pub exists : Bool
  pub is_directory : Bool
  pub is_regular_file : List ℕ → Bool
  -- the bytes that a stream over the file gives; `none` if it cannot be opened
  pub content : List ℕ → Option (List ℕ)

-- The first loop: the shards of a listing.
unfoldable pub shards_of : Directory → List (List ℕ) → List (List ℕ)
shards_of d [] = []
shards_of d (name ∷ names) =
    let rest = shards_of d names in
    if not (d.is_regular_file name)
    then rest
    else if is_shard_filename name
    then name ∷ rest
    else rest

-- std::sort over paths of one directory, which differ in their last name only; of a sorting function
-- only the result matters.
unfoldable pub insert_name : List ℕ → List (List ℕ) → List (List ℕ)
insert_name n [] = n ∷ []
insert_name n (x ∷ xs) = if name_lt x n then x ∷ insert_name n xs else n ∷ x ∷ xs

unfoldable pub sort_names : List (List ℕ) → List (List ℕ)
sort_names [] = []
sort_names (n ∷ ns) = insert_name n (sort_names ns)

module _ {R : Type 0} (b : Backend R) where
  -- DecodeShardFile by the name of the file.
  abbrev pub decode_content : List ℕ → Option (List ℕ) → Option (Throwing (List R))
  decode_content priv none = some (throws cannot_open_shard)
  decode_content priv (some bytes) = decode_shard_file b priv bytes

  abbrev pub after_records : List R → Throwing (List R) → Throwing (List R)
  after_records rs (throws e) = throws e
  after_records rs (ok rest) = ok (rs ++ rest)

  abbrev pub joined :
      Option (Throwing (List R)) → Option (Throwing (List R)) → Option (Throwing (List R))
  joined none rest = none
  joined (some (throws e)) rest = some (throws e)
  joined (some (ok rs)) rest = Option.map (after_records rs) rest

  -- The second loop.
  unfoldable pub decode_each : Directory → List ℕ → List (List ℕ) → Option (Throwing (List R))
  decode_each d priv [] = some (ok [])
  decode_each d priv (name ∷ names) =
      joined (decode_content priv (d.content name)) (decode_each d priv names)

  unfoldable pub decode_shard_dir : Directory → List (List ℕ) → List ℕ → Option (Throwing (List R))
  decode_shard_dir d listing priv =
      if not d.exists || not d.is_directory
      then some (throws not_a_directory)
      else decode_each d priv (sort_names (shards_of d listing))
