-- ===== src/Sinks/ShardWriter/Names.antt =====
-- MakeShardName_ of sinks/shard_writer.cpp: the name of a shard tells when it was opened.
use logger_high.Base.{
  ℕ, ◌+◌, ◌-◌, ◌≤◌, ◌<◌, ◌≡◌, refl, ◌∙◌, ap, true, List, [], ◌∷◌, ◌++◌, length, drop, ltb, arith,
  append_assoc, drop-append, length-append, lt→ltb,
}
use logger_high.Names.{name_lt}
use logger_high.Decimal.{zero_padded}
use logger_high.Decimal.Width.{width-le-length}
use logger_high.Decimal.Order.{two_by_number, three_by_number, four_by_number}
use logger_high.Audit.ShardDir.{is_shard_filename}

-- The fields of the std::tm that localtime_r fills, the year in full, and the milliseconds.
pub record Stamp : Type 0 where
  pub year : ℕ
  pub month : ℕ
  pub day : ℕ
  pub hour : ℕ
  pub minute : ℕ
  pub second : ℕ
  pub millis : ℕ

abbrev extension : List ℕ
extension = b'.' ∷ b'b' ∷ b'i' ∷ b'n' ∷ []

-- Behind the date: the time of the day, and the number of the shard.
abbrev time_part : Stamp → ℕ → List ℕ
time_part t seq =
    zero_padded 2 t.hour
    ++ (zero_padded 2 t.minute
        ++ (zero_padded 2 t.second
            ++ (b'-' ∷ (zero_padded 3 t.millis ++ (b'-' ∷ (zero_padded 4 seq ++ extension))))))

unfoldable pub make_shard_name : Stamp → ℕ → List ℕ
make_shard_name t seq =
    b'l'
    ∷ b'o'
    ∷ b'g'
    ∷ b'-'
    ∷ (zero_padded 4 t.year
        ++ (zero_padded 2 t.month ++ (zero_padded 2 t.day ++ (b'-' ∷ time_part t seq))))

pub record InRange (t : Stamp) (seq : ℕ) : Type 0 where
  pub year : t.year < 10000
  pub month : t.month < 100
  pub day : t.day < 100
  pub hour : t.hour < 100
  pub minute : t.minute < 100
  pub second : t.second < 100
  pub millis : t.millis < 1000
  pub number : seq < 10000

-- The fields, the weightiest first; lists of numbers compare as lists of characters do.
abbrev pub fields : Stamp → ℕ → List ℕ
fields t seq = t.year ∷ t.month ∷ t.day ∷ t.hour ∷ t.minute ∷ t.second ∷ t.millis ∷ seq ∷ []

-- The names of two shards compare as their times of opening do, the fields taken in the order from the
-- year down, and by the shards' numbers within one millisecond: for fields of at most as many digits
-- as the name has room for.
pub name_lt-make_shard_name :
    (t u : Stamp) (q r : ℕ)
    → InRange t q
    → InRange u r
    → name_lt (make_shard_name t q) (make_shard_name u r) ≡ name_lt (fields t q) (fields u r)
unfolding make_shard_name name_lt
name_lt-make_shard_name t u q r v w =
    rw
      (
        four_by_number t.year u.year _ _ v.year w.year,
        two_by_number t.month u.month _ _ v.month w.month,
        two_by_number t.day u.day _ _ v.day w.day,
        two_by_number t.hour u.hour _ _ v.hour w.hour,
        two_by_number t.minute u.minute _ _ v.minute w.minute,
        two_by_number t.second u.second _ _ v.second w.second,
        three_by_number t.millis u.millis _ _ v.millis w.millis,
        four_by_number q r _ _ v.number w.number,
      )
      refl

-- The name up to its extension.
abbrev stem : Stamp → ℕ → List ℕ
stem t seq =
    b'l'
    ∷ b'o'
    ∷ b'g'
    ∷ b'-'
    ∷ (zero_padded 4 t.year
        ++ (zero_padded 2 t.month
            ++ (zero_padded 2 t.day
                ++ (b'-'
                    ∷ (zero_padded 2 t.hour
                        ++ (zero_padded 2 t.minute
                            ++ (zero_padded 2 t.second
                                ++ (b'-'
                                    ∷ (zero_padded 3 t.millis ++ (b'-' ∷ zero_padded 4 seq))))))))))

split_extension : (t : Stamp) (seq : ℕ) → make_shard_name t seq ≡ stem t seq ++ extension
unfolding make_shard_name
split_extension t seq = simp append_assoc

-- MakeShardName_ makes names that IsShardFilename knows, whatever the clock says.
pub make_shard_name-is_shard_filename :
    (t : Stamp) (seq : ℕ) → is_shard_filename (make_shard_name t seq) ≡ true
unfolding is_shard_filename
make_shard_name-is_shard_filename t seq =
    let s = stem t seq in
    let size : length (s ++ extension) ≡ length s + 4 = length-append s extension in
    let dashed : 5 ≤ length s = omega (
      arith,
      width-le-length 4 t.year,
      length-append (zero_padded 4 t.year) (zero_padded 2 t.month ++ _),
    ) in
    let long : ltb 8 (length (s ++ extension)) ≡ true = lt→ltb _ _ (omega (arith, size, dashed)) in
    let back : drop (length (s ++ extension) - 4) (s ++ extension) ≡ extension =
      drop-append s extension (length (s ++ extension) - 4) (omega (arith, size)) in
    ap is_shard_filename (split_extension t seq) ∙ rw (long, back) refl
