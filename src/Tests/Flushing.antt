-- ===== src/Tests/Flushing.antt =====
-- Overlapping Writes, Flush, and the reuse of a buffer.
use logger_high.Base.{ℕ, ◌≡◌, refl, true, List, [], ◌∷◌, some, replicate, arith}
use logger_high.Mmap.Buffer.{MmapBuffer, write, for_each_frame, reopen, scrub, used}
use logger_high.Mmap.Buffer.Concurrent.{
  Shared, Run, open_shared, buffer_of, enter, check_sealed, reserve, advance, begin_seal, start,
  Slot, Stage, reserved, len_written, copied, returned, next, enters, checks, reserves, advances,
  seals,
}
use logger_high.Mmap.Buffer.Concurrent.Sealed.{seal-drain}
use logger_high.Mmap.Buffer.Reuse.{reset_race}

abbrev first : List ℕ
first = 7 ∷ 8 ∷ []

abbrev second : List ℕ
second = 9 ∷ []

abbrev s0 : Shared
s0 = open_shared (replicate 16 0)

abbrev first_at : Stage → Slot
first_at stage = record { old = 5; payload = first; stage = stage }

abbrev second_at : Stage → Slot
second_at stage = record { old = 0; payload = second; stage = stage }

-- Both threads are inside, the second reserves first, and the first copies while Seal begins.
abbrev s2 : Shared
s2 = enter second (enter first s0)

abbrev s4 : Shared
s4 = check_sealed [] second [] (check_sealed (second ∷ []) first [] s2)

abbrev s6 : Shared
s6 = reserve [] first [] (reserve [] second (first ∷ []) s4)

abbrev s9 : Shared
s9 = advance (second_at reserved ∷ []) (first_at copied) [] (
    advance (second_at reserved ∷ []) (first_at len_written) []
      (advance (second_at reserved ∷ []) (first_at reserved) [] s6))

abbrev s10 : Shared
s10 = begin_seal s9

abbrev s13 : Shared
s13 = advance [] (second_at copied) (first_at returned ∷ []) (
    advance [] (second_at len_written) (first_at returned ∷ [])
      (advance [] (second_at reserved) (first_at returned ∷ []) s10))

s6_run : Run s0 s6
unfolding enter check_sealed reserve
s6_run =
    next
      (next
        (next
          (next (next (next start (enters first refl refl)) (enters second refl refl))
            (checks (second ∷ []) first [] refl refl))
          (checks [] second [] refl refl))
        (reserves [] second (first ∷ []) refl (omega arith) refl))
      (reserves [] first [] refl (omega arith) refl)

s13_run : Run s0 s13
unfolding enter check_sealed reserve advance begin_seal
s13_run =
    next
      (next
        (next
          (next
            (next
              (next
                (next s6_run (advances (second_at reserved ∷ []) (first_at reserved) [] refl refl))
                (advances (second_at reserved ∷ []) (first_at len_written) [] refl refl))
              (advances (second_at reserved ∷ []) (first_at copied) [] refl refl))
            (seals refl))
          (advances [] (second_at reserved) (first_at returned ∷ []) refl refl))
        (advances [] (second_at len_written) (first_at returned ∷ []) refl refl))
      (advances [] (second_at copied) (first_at returned ∷ []) refl refl)

seal-drain_example : for_each_frame (buffer_of s13) ≡ some (second ∷ first ∷ [])
unfolding enter check_sealed reserve advance begin_seal
seal-drain_example = (seal-drain 16 (omega arith) s13_run refl refl start).2

-- A master that twelve bytes of sixteen were used of.
abbrev retired : MmapBuffer
retired = record { mem = replicate 16 0; offset = 12; writers = 0; sealed = true }

reset_race_example :
    let w = write (reopen retired) first in
    (w.1 ≡ true) × (for_each_frame (scrub (used retired) w.0) ≡ some [])
reset_race_example = reset_race retired first refl (omega arith) (omega arith)
