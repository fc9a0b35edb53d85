-- ===== src/Audit/ShardDir/Listing.antt =====
-- What DecodeShardDir of audit/shard_reader.cpp gives back for a whole directory.
use logger_high.Base.{
  ℕ, ◌≡◌, refl, ◌∙◌, ap, true, false, not, ◌||◌, List, [], ◌∷◌, ◌++◌, Option, none, some, ok,
  throws, if_both, if_false,
}
use logger_high.Errors.{Error, Throwing, not_a_directory}
use logger_high.Names.{name_lt, name_lt-asym}
use logger_high.Audit.ShardReader.{Backend}
use logger_high.Audit.ShardReader.Total.{Returns, decode_shard_file-Returns}
use logger_high.Audit.ShardDir.{
  Directory, shards_of, insert_name, sort_names, decode_content, joined, after_records, decode_each,
  decode_shard_dir,
}
use logger_high.Audit.ShardDir.Order.{sort-perm}
use mathlib.Core.List.{Perm}
use mathlib.Core.Option

-- Every name before the next.
abbrev pub Ascending : List (List ℕ) → Type 0
Ascending [] = Unit {0}
Ascending (n ∷ []) = Unit {0}
Ascending (n ∷ m ∷ ns) = (name_lt n m ≡ true) × Ascending (m ∷ ns)

sort-Ascending : (ns : List (List ℕ)) → Ascending ns → sort_names ns ≡ ns
unfolding sort_names insert_name
sort-Ascending [] a = refl
sort-Ascending (n ∷ []) a = refl
sort-Ascending (n ∷ m ∷ ns) (h, a) =
    ap (insert_name n) (sort-Ascending (m ∷ ns) a) ∙ rw (name_lt-asym n m h) refl

module _ {R : Type 0} (b : Backend R) where
  joined-Returns :
      (o rest : Option (Throwing (List R))) → Returns o → Returns rest → Returns (joined b o rest)
  joined-Returns none rest (a, e) r = absurd (Option.none-ne-some a e)
  joined-Returns (some (throws x)) rest o r = (throws x, refl)
  joined-Returns (some (ok rs)) rest o (a, e) =
      (after_records b rs a, ap (Option.map (after_records b rs)) e)

  pub content-Returns :
      (priv : List ℕ) (content : Option (List ℕ)) → Returns (decode_content b priv content)
  content-Returns priv none = (_, refl)
  content-Returns priv (some bytes) = decode_shard_file-Returns b priv bytes

  each-Returns :
      (d : Directory) (priv : List ℕ) (ns : List (List ℕ)) → Returns (decode_each b d priv ns)
  unfolding decode_each
  each-Returns d priv [] = (ok [], refl)
  each-Returns d priv (n ∷ ns) =
      joined-Returns _ _ (content-Returns priv (d.content n)) (each-Returns d priv ns)

  -- The loops of DecodeShardDir and DecodeShardFile come to an end, with records or an exception, for
  -- every directory and key, if each Decompress returns.
  pub decode_shard_dir-Returns :
      (d : Directory) (listing : List (List ℕ)) (priv : List ℕ)
      → Returns (decode_shard_dir b d listing priv)
  unfolding decode_shard_dir
  decode_shard_dir-Returns d listing priv =
      if_both Returns (not d.exists || not d.is_directory) (some (throws not_a_directory)) _
        (_, refl) (each-Returns d priv (sort_names (shards_of d listing)))

  abbrev pub EachDecodes : Directory → List ℕ → List (List ℕ) → List (List R) → Type 0
  EachDecodes d priv [] [] = Unit {0}
  EachDecodes d priv (n ∷ ns) (rs ∷ rss) =
      (decode_content b priv (d.content n) ≡ some (ok rs)) × EachDecodes d priv ns rss
  EachDecodes d priv _ _ = ⊥

  abbrev pub concat : List (List R) → List R
  concat [] = []
  concat (rs ∷ rss) = rs ++ concat rss

  each-in_order :
      (d : Directory) (priv : List ℕ) (ns : List (List ℕ)) (rss : List (List R))
      → EachDecodes d priv ns rss
      → decode_each b d priv ns ≡ some (ok (concat rss))
  unfolding decode_each
  each-in_order d priv [] [] h = refl
  each-in_order d priv [] (rs ∷ rss) h = absurd h
  each-in_order d priv (n ∷ ns) [] h = absurd h
  each-in_order d priv (n ∷ ns) (rs ∷ rss) (e, h) = rw (e, each-in_order d priv ns rss h) refl

  each_fails :
      (d : Directory) (priv : List ℕ) (before : List (List ℕ)) (rss : List (List R)) (n : List ℕ)
      (after : List (List ℕ)) (e : Error)
      → EachDecodes d priv before rss
      → decode_content b priv (d.content n) ≡ some (throws e)
      → decode_each b d priv (before ++ n ∷ after) ≡ some (throws e)
  unfolding decode_each
  each_fails d priv [] [] n after e h f = rw f refl
  each_fails d priv [] (rs ∷ rss) n after e h f = absurd h
  each_fails d priv (m ∷ ms) [] n after e h f = absurd h
  each_fails d priv (m ∷ ms) (rs ∷ rss) n after e (g, h) f =
      rw (g, each_fails d priv ms rss n after e h f) refl

  in_directory :
      (d : Directory) (listing : List (List ℕ)) (priv : List ℕ) (ns : List (List ℕ))
      → d.exists ≡ true
      → d.is_directory ≡ true
      → Perm (shards_of d listing) ns
      → Ascending ns
      → decode_shard_dir b d listing priv ≡ decode_each b d priv ns
  unfolding decode_shard_dir
  in_directory d listing priv ns x y p a =
      let found : (not d.exists || not d.is_directory) ≡ false = rw (x, y) refl in
      if_false (λ r. r ≡ decode_each b d priv ns) (not d.exists || not d.is_directory)
        (some (throws not_a_directory)) _ found
        (ap (decode_each b d priv) (sort-perm p ∙ sort-Ascending ns a))

  -- Whatever order the directory is listed in, the result of DecodeShardDir for shards that all decode
  -- is their records in the order of the names.
  pub decode_shard_dir-in_order :
      (d : Directory) (listing : List (List ℕ)) (priv : List ℕ) (ns : List (List ℕ))
      (rss : List (List R))
      → d.exists ≡ true
      → d.is_directory ≡ true
      → Perm (shards_of d listing) ns
      → Ascending ns
      → EachDecodes d priv ns rss
      → decode_shard_dir b d listing priv ≡ some (ok (concat rss))
  decode_shard_dir-in_order d listing priv ns rss x y p a h =
      in_directory d listing priv ns x y p a ∙ each-in_order d priv ns rss h

  -- A shard that does not decode, behind others that do, leaves the caller with its exception alone:
  -- DecodeShardDir returns no record of any shard.
  pub decode_shard_dir_fails :
      (d : Directory) (listing : List (List ℕ)) (priv : List ℕ) (before : List (List ℕ))
      (rss : List (List R)) (n : List ℕ) (after : List (List ℕ)) (e : Error)
      → d.exists ≡ true
      → d.is_directory ≡ true
      → Perm (shards_of d listing) (before ++ n ∷ after)
      → Ascending (before ++ n ∷ after)
      → EachDecodes d priv before rss
      → decode_content b priv (d.content n) ≡ some (throws e)
      → decode_shard_dir b d listing priv ≡ some (throws e)
  decode_shard_dir_fails d listing priv before rss n after e x y p a h f =
      in_directory d listing priv (before ++ n ∷ after) x y p a
      ∙ each_fails d priv before rss n after e h f
