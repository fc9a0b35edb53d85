-- ===== src/Tests/Appending.antt =====
-- Append of a payload that finds room in the next buffer, and of one that finds none.
use logger_high.Base.{
  ℕ, ◌≡◌, refl, inl, inr, true, List, [], ◌∷◌, none, some, replicate, arith, ◌==◌, Bool-cases,
}
use logger_high.Bytes.{encode_le_u32}
use logger_high.Mmap.Buffer.{write, reserve_and_copy}
use logger_high.Mmap.Buffer.Fill.{extended}
use logger_high.Mmap.Store.{MmapStore, append, try_write, update}
use logger_high.Mmap.Store.Loose.{try_write-Loose}
use logger_high.Mmap.Store.Tidy.{Tidied}
use logger_high.Mmap.Store.Appends.{Stored, append-Stored, append_loops}
use logger_high.Sinks.ShardWriter.{ShardWriter}
use logger_high.Sinks.EffectiveSink.{on_persist}
use logger_high.Tests.System.{disk, files, empty_store, empty_store-Loose, logged, after_write}

empty_store-Tidied : Tidied files (on_persist disk) 64 empty_store
empty_store-Tidied =
    (λ _. [], record { loose = empty_store-Loose; clean = tt; sizes = λ i k. refl; running = refl })

after_write-Tidied : Tidied files (on_persist disk) 64 after_write
unfolding try_write write reserve_and_copy encode_le_u32
after_write-Tidied = (
  update (λ _. []) 0 (extended [] logged true),
  record {
    loose =
        try_write-Loose files (on_persist disk) empty_store (λ _. []) 0 logged empty_store-Loose
          (omega arith) (omega arith);
    clean = tt;
    sizes = λ i k. elim (Bool-cases (0 == i)) [ inl e ↦ rw e refl | inr e ↦ rw e refl ];
    running = refl;
  },
)

-- The frame does not fit behind the first one.
append-Stored_example :
    (t : MmapStore ShardWriter) × (append files (on_persist disk) (1 ∷ 1 ∷ []) after_write logged
      ≡ some (t, true))
    × Stored files (on_persist disk) 64 t logged
unfolding try_write write reserve_and_copy encode_le_u32
append-Stored_example =
    append-Stored files (on_persist disk) 64 after_write logged 1 1 (λ q. refl) after_write-Tidied
      (omega arith) (omega arith) refl (omega arith) (omega arith)

abbrev too_long : List ℕ
too_long = replicate 70 7

append_loops_example : append files (on_persist disk) (1 ∷ 1 ∷ 2 ∷ []) empty_store too_long ≡ none
append_loops_example =
    append_loops files (on_persist disk) 64 (1 ∷ 1 ∷ 2 ∷ []) empty_store too_long (λ q. refl)
      empty_store-Tidied (omega arith) (omega arith, (omega arith, (omega arith, tt))) refl
      (omega arith) (omega arith)
