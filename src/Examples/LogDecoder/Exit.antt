-- ===== src/Examples/LogDecoder/Exit.antt =====
-- `main` of examples/log_decoder.cpp: what it prints, and its exit code.
use logger_high.Base.{
  ℕ, ◌≡◌, refl, ap, ◌⊎◌, inl, inr, Bool, true, false, not, List, [], ◌∷◌, Option, some, ok, throws,
  if_both, if_true, if_false, Bool-cases, codes,
}
use logger_high.Decimal.{ℤ}
use logger_high.Errors.{Throwing, target_missing, target_neither}
use logger_high.Proto.{LogRecord}
use logger_high.Audit.ShardReader.{Backend, equal_bytes}
use logger_high.Audit.ShardReader.Total.{Returns}
use logger_high.Audit.ShardDir.Listing.{content-Returns, decode_shard_dir-Returns}
use logger_high.Examples.LogDecoder.{
  FileSystem, Outcome, directory_at, read_priv_key, failed, decode_with, decode_target,
  print_records, printed, main,
}

module _ (strftime_utc : ℤ → List ℕ) (b : Backend LogRecord) (fs : FileSystem) where
  decode_with-Returns :
      (target : List ℕ) (key : Throwing (List ℕ))
      → Returns (decode_with strftime_utc b fs target key)
  decode_with-Returns target (throws e) = (throws e, refl)
  decode_with-Returns target (ok priv) =
      if_both Returns (fs.is_directory target) _ _
        (decode_shard_dir-Returns b (directory_at fs target) (fs.listing target) priv)
        (if_both Returns (fs.is_regular_file target) _ (some (throws target_neither))
          (content-Returns b priv (fs.content target)) (_, refl))

  decode_target-Returns :
      (target key_path : List ℕ) → Returns (decode_target strftime_utc b fs target key_path)
  unfolding decode_target
  decode_target-Returns target key_path =
      if_both Returns (not (fs.exists target)) (some (throws target_missing)) _ (_, refl)
        (decode_with-Returns target (read_priv_key fs key_path))

  abbrev pub Printed : Bool → List ℕ → List ℕ → Outcome → Type 0
  Printed json_mode target key_path o =
      (records : List LogRecord) × (decode_target strftime_utc b fs target key_path
        ≡ some (ok records))
      × (o ≡ record { exit_code = 0; stdout = print_records strftime_utc json_mode records })

  -- All records of the target are printed, in the form that the arguments ask for.
  abbrev pub Completes : List (List ℕ) → Outcome → Type 0
  Completes (target ∷ key_path ∷ []) o = Printed false target key_path o
  Completes (target ∷ key_path ∷ flag ∷ []) o =
      (equal_bytes flag (codes "--json") ≡ true) × Printed true target key_path o
  Completes _ o = ⊥

  printed-Printed :
      (json_mode : Bool) (target key_path : List ℕ)
      → (o : Outcome) × (printed strftime_utc b fs json_mode
            (decode_target strftime_utc b fs target key_path)
          ≡ some o)
        × ((o ≡ failed) ⊎ Printed json_mode target key_path o)
  printed-Printed json_mode target key_path = by_result (decode_target-Returns target key_path)
    where
      by_result :
          Returns (decode_target strftime_utc b fs target key_path)
          → (o : Outcome) × (printed strftime_utc b fs json_mode
                (decode_target strftime_utc b fs target key_path)
              ≡ some o)
            × ((o ≡ failed) ⊎ Printed json_mode target key_path o)
      by_result (throws e, h) = (failed, ap (printed strftime_utc b fs json_mode) h, inl refl)
      by_result (ok rs, h) = (_, ap (printed strftime_utc b fs json_mode) h, inr (rs, h, refl))

  -- Whatever the arguments, the files and the key are, if each Decompress returns, the tool comes to an
  -- end: with exit code 1 and nothing printed on its output, or with exit code 0 and every record of the target printed. It
  -- never prints a part of the records.
  pub main-ends :
      (args : List (List ℕ))
      → (o : Outcome) × (main strftime_utc b fs args ≡ some o) × ((o ≡ failed) ⊎ Completes args o)
  unfolding main
  main-ends [] = (failed, refl, inl refl)
  main-ends (t ∷ []) = (failed, refl, inl refl)
  main-ends (t ∷ k ∷ []) = printed-Printed false t k
  main-ends (t ∷ k ∷ flag ∷ []) =
      let Ends = λ (r : Option Outcome).
        (o : Outcome) × (r ≡ some o) × ((o ≡ failed) ⊎ Completes (t ∷ k ∷ flag ∷ []) o) in
      elim (Bool-cases (equal_bytes flag (codes "--json"))) [
        | inl known ↦
            if_true Ends (equal_bytes flag (codes "--json")) _ (some failed) known
              (flagged known (printed-Printed true t k))
        | inr unknown ↦
            if_false Ends (equal_bytes flag (codes "--json")) _ (some failed) unknown
              (failed, refl, inl refl)
      ]
    where
      flagged :
          {r : Option Outcome}
          → equal_bytes flag (codes "--json") ≡ true
          → (o : Outcome) × (r ≡ some o) × ((o ≡ failed) ⊎ Printed true t k o)
          → (o : Outcome) × (r ≡ some o) × ((o ≡ failed) ⊎ Completes (t ∷ k ∷ flag ∷ []) o)
      flagged known (o, e, inl f) = (o, e, inl f)
      flagged known (o, e, inr p) = (o, e, inr (known, p))
  main-ends (t ∷ k ∷ flag ∷ more ∷ rest) = (failed, refl, inl refl)
