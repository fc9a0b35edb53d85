-- ===== src/Sinks/ShardWriter/Steps.antt =====
-- One WriteFrame call of sinks/shard_writer.cpp with a disk that takes every byte.
use logger_high.Base.{
  ℕ, ◌+◌, ◌%◌, ◌^◌, ◌≤◌, ◌<◌, ◌≡◌, refl, inl, inr, true, false, List, ◌∷◌, ◌++◌, ok, length, min,
  replicate, ◌==◌, if◌then◌else◌, arith, length-append, take_all, Bool-cases, ==_iff,
}
use logger_high.Bytes.{encode_le_u32, length-encode_le_u32}
use logger_high.Sinks.ShardWriter.{
  ShardWriter, Io, header, header_bytes, write_header, open_new_shard, close_current, append_frame,
  needs_rotation, open_if_closed, rotate_if_full, write_frame, append_bytes,
}

-- Every open succeeds and every fwrite takes all of it.
abbrev pub IsWorking : Io → List ℕ → Type 0
IsWorking io frame =
    (io.opened ≡ true) × (header_bytes ≤ io.header_wrote) × (length frame ≤ io.wrote)

pub length-header : (k : List ℕ) → length k ≡ 32 → length (header k) ≡ 48
length-header k h = omega (
  arith,
  length-append (encode_le_u32 1) (k ++ replicate 4 0),
  length-encode_le_u32 1,
  length-append k (replicate 4 0),
)

pub open_working :
    (io : Io) (s : ShardWriter)
    → io.opened ≡ true
    → header_bytes ≤ io.header_wrote
    → length s.client_eph_pub ≡ 32
    → open_new_shard io s ≡ (
      record s {
        file_open = true;
        current_size = header_bytes;
        seq = (s.seq + 1) % 2 ^ 32;
        shards = record { seq = s.seq; bytes = header s.client_eph_pub } ∷ s.shards;
      },
      ok tt,
    )
unfolding open_new_shard write_header
open_working io s o h k =
    let m : min io.header_wrote 48 ≡ 48 = omega arith in
    rw
      (
        o,
        m,
        take_all (header s.client_eph_pub) 48 (omega (arith, length-header s.client_eph_pub k)),
      )
      refl

pub append_working :
    (frame : List ℕ) (io : Io) (s : ShardWriter)
    → length frame ≤ io.wrote
    → append_frame frame io s ≡ (
      record s {
        shards = append_bytes s.shards frame;
        current_size = s.current_size + length frame;
      },
      ok tt,
    )
unfolding append_frame
append_working frame io s h =
    let m : min io.wrote (length frame) ≡ length frame = omega arith in
    rw
      (
        m,
        take_all frame (length frame) (omega arith),
        (==_iff (length frame) (length frame)).1 refl,
      )
      refl

-- The state after a call that meets no fault.
abbrev pub rotated : ShardWriter → ShardWriter
rotated s = record s {
  file_open = true;
  current_size = header_bytes;
  seq = (s.seq + 1) % 2 ^ 32;
  shards = record { seq = s.seq; bytes = header s.client_eph_pub } ∷ s.shards;
}

abbrev pub appended : ShardWriter → List ℕ → ShardWriter
appended s frame = record s {
  shards = append_bytes s.shards frame;
  current_size = s.current_size + length frame;
}

open_if_closed_working :
    (io : Io) (s : ShardWriter) → s.file_open ≡ true → open_if_closed io s ≡ (s, ok tt)
unfolding open_if_closed
open_if_closed_working io s o = rw o refl

rotate_working :
    (frame : List ℕ) (io : Io) (s : ShardWriter)
    → IsWorking io frame
    → length s.client_eph_pub ≡ 32
    → rotate_if_full frame io s ≡ ((if needs_rotation s frame then rotated s else s), ok tt)
unfolding rotate_if_full close_current
rotate_working frame io s w k = elim (Bool-cases (needs_rotation s frame)) [
  | inl e ↦ rw e (open_working io (record s { file_open = false }) w.0 w.1 k)
  | inr e ↦ rw e refl
]

pub write_frame_working :
    (frame : List ℕ) (io : Io) (s : ShardWriter)
    → s.file_open ≡ true
    → length s.client_eph_pub ≡ 32
    → IsWorking io frame
    → 0 < length frame
    → write_frame frame io s
      ≡ (appended (if needs_rotation s frame then rotated s else s) frame, ok tt)
unfolding write_frame
write_frame_working frame io s o k w n =
    let z : (length frame == 0) ≡ false = ground arith in
    rw (z, open_if_closed_working io s o, rotate_working frame io s w k)
      (append_working frame io (if needs_rotation s frame then rotated s else s) w.2)
