-- ===== src/Names.antt =====
-- File names as lists of bytes, in the order that `std::string` compares them, by which
-- sinks/eviction_runner.cpp and audit/shard_reader.cpp sort shards.
use logger_high.Base.{ℕ, ◌≡◌, refl, Bool, true, false, ◌&&◌, ◌||◌, List, [], ◌∷◌, ltb, ◌==◌, arith}

unfoldable pub name_lt : List ℕ → List ℕ → Bool
name_lt [] [] = false
name_lt [] (b ∷ m) = true
name_lt (a ∷ l) [] = false
name_lt (a ∷ l) (b ∷ m) = ltb a b || (a == b && name_lt l m)

-- Of two names that neither precedes the other, each is the other.
pub name_eq : (l m : List ℕ) → name_lt l m ≡ false → name_lt m l ≡ false → l ≡ m
unfolding name_lt
name_eq [] [] h k = refl
name_eq [] (b ∷ m) h k = absurd (ground arith)
name_eq (a ∷ l) [] h k = absurd (ground arith)
name_eq (a ∷ l) (b ∷ m) h k =
    let same : a ≡ b = ground arith in
    let (e, f) : (name_lt l m ≡ false) × (name_lt m l ≡ false) = (ground arith, ground arith) in
    λ i. same i ∷ name_eq l m e f i

-- A name stays behind one that is not behind it.
pub name_lt-asym : (l m : List ℕ) → name_lt l m ≡ true → name_lt m l ≡ false
unfolding name_lt
name_lt-asym [] m h = ground arith
name_lt-asym (a ∷ l) [] h = absurd (ground arith)
name_lt-asym (a ∷ l) (b ∷ m) h = ground (arith, name_lt-asym l m)

pub name_lt_trans : (l m n : List ℕ) → name_lt l m ≡ true → name_lt l n ≡ false → name_lt n m ≡ true
unfolding name_lt
name_lt_trans [] [] n h k = absurd (ground arith)
name_lt_trans [] (b ∷ m) [] h k = refl
name_lt_trans [] (b ∷ m) (c ∷ n) h k = absurd (ground arith)
name_lt_trans (a ∷ l) [] n h k = absurd (ground arith)
name_lt_trans (a ∷ l) (b ∷ m) [] h k = refl
name_lt_trans (a ∷ l) (b ∷ m) (c ∷ n) h k = ground (arith, name_lt_trans l m n)
