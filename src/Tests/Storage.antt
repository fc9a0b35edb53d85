-- ===== src/Tests/Storage.antt =====
-- Buffers, regions and the store.
use logger_high.Base.{
  ℕ, ◌≡◌, refl, true, List, [], ◌∷◌, ◌++◌, none, some, replicate, arith, ◌^◌, ◌-◌, length-replicate,
}
use logger_high.Bytes.{encode_le_u32, decode_le_u32}
use logger_high.Mmap.Frame.{encode_frames}
use logger_high.Mmap.Buffer.{
  MmapBuffer, open_buffer, write, write_all, for_each_frame, frames_loop, used,
}
use logger_high.Mmap.Buffer.Long.{long_frame_loops}
use logger_high.Mmap.Buffer.Reuse.{stale_frames_drained}
use logger_high.Mmap.Region.{Os, create, round_up_to_page}
use logger_high.Mmap.Region.Handles.{Owns, create-Owns}
use logger_high.Mmap.Region.Windows.{WindowsOs, create_windows}
use logger_high.Mmap.Region.Windows.Views.{OwnsView, AllOfSize, create_windows-OwnsView}

abbrev tiny : MmapBuffer
tiny = open_buffer (replicate 16 0)

abbrev payloads : List (List ℕ)
payloads = (7 ∷ 8 ∷ []) ∷ (1 ∷ 2 ∷ 3 ∷ 4 ∷ 5 ∷ 6 ∷ 9 ∷ []) ∷ []

-- The second payload does not fit behind the first.
drain_tiny : for_each_frame (write_all tiny payloads).0 ≡ some ((7 ∷ 8 ∷ []) ∷ [])
unfolding for_each_frame write_all frames_loop write encode_le_u32 decode_le_u32
drain_tiny = refl

abbrev os : Os
os = record { page = 4096; open_answer = some 3; ftruncate_answer = true; mmap_answer = none }

stale_frames_drained_example :
    for_each_frame
      (write (open_buffer (encode_frames ((5 ∷ []) ∷ []) ++ replicate 3 0)) (replicate 9 1)).0
    ≡ some ((5 ∷ []) ∷ [])
unfolding encode_le_u32
stale_frames_drained_example =
    (stale_frames_drained ((5 ∷ []) ∷ []) 3 (replicate 9 1) ((omega arith, omega arith), tt)
      (omega arith, omega arith) (omega arith) (omega arith)).1

create-Owns_example : let r = create os 100 in Owns ([], []) r.0 r.1
create-Owns_example = create-Owns os 100 ([], [])

abbrev windows : WindowsOs
windows = record {
  page = 4096;
  create_file_answer = some 7;
  set_end_answer = true;
  mapping_answer = some 8;
  view_answer = some 65536;
}

create_windows-OwnsView_example :
    let r = create_windows windows 5000 in
    OwnsView ([], []) r.0 r.1 × AllOfSize (round_up_to_page 4096 5000) r.0
create_windows-OwnsView_example = create_windows-OwnsView windows 5000 ([], [])

abbrev four_gib : MmapBuffer
four_gib = open_buffer (replicate (2 ^ 32) 0)

abbrev long_record : List ℕ
long_record = replicate (2 ^ 32 - 4) 1

long_frame_loops_example :
    let w = write four_gib long_record in
    (w.1 ≡ true) × ((fuel : ℕ) → frames_loop fuel w.0.mem (used w.0) 0 ≡ none)
long_frame_loops_example =
    long_frame_loops (2 ^ 32) long_record (length-replicate {A = ℕ} (2 ^ 32 - 4) 1) (omega arith)
