-- ===== src/Sinks/ShardWriter/Faults.antt =====
-- The constructor of sinks/shard_writer.cpp, and WriteFrame when the disk refuses bytes.
use logger_high.Base.{
  ℕ, ◌+◌, ◌%◌, ◌^◌, ◌≤◌, ◌<◌, ◌≡◌, refl, sym, inl, true, false, List, [], ◌∷◌, ◌++◌, ok, throws,
  length, take, min, leb, ◌==◌, arith, append-nil,
}
use logger_high.Errors.{short_header_write}
use logger_high.Sinks.ShardWriter.Steps.{open_working, append_working}
use logger_high.Sinks.ShardWriter.Runs.{Holds}
use logger_high.Sinks.ShardWriter.{
  ShardWriter, Io, header, header_bytes, write_header, open_new_shard, close_current, append_frame,
  needs_rotation, open_if_closed, rotate_if_full, write_frame, new_shard_writer, append_bytes,
}

-- The constructor on a disk that works, given a key of 32 bytes and a limit above the header's
-- size: it returns normally and leaves one shard that is a whole header and no frame.
pub new_shard_writer-Holds :
    (limit : ℕ) (k : List ℕ) (io : Io)
    → io.opened ≡ true
    → header_bytes ≤ io.header_wrote
    → length k ≡ 32
    → header_bytes < limit
    → let made = new_shard_writer limit k true io in (made.1 ≡ ok tt) × Holds made.0 [] []
unfolding new_shard_writer
new_shard_writer-Holds limit k io o h e large =
    let t : (length k == 32) ≡ true = ground arith in
    let l : leb limit 48 ≡ false = ground arith in
    let started : ShardWriter = record {
      shard_limit = limit;
      client_eph_pub = k;
      file_open = false;
      current_size = 0;
      seq = 0;
      shards = [];
    } in
    rw (t, l, open_working io started o h e)
      (
        refl,
        record {
          opened = refl;
          key = e;
          room = large;
          size = omega arith;
          images = (sym (append-nil (header k)), tt);
          frames = tt;
          bounded = (inl (omega (arith, large)), tt);
        },
      )

open_short :
    (io : Io) (s : ShardWriter)
    → io.opened ≡ true
    → io.header_wrote < header_bytes
    → open_new_shard io s ≡ (
      record s {
        file_open = true;
        current_size = 0;
        seq = (s.seq + 1) % 2 ^ 32;
        shards =
            record { seq = s.seq; bytes = take io.header_wrote (header s.client_eph_pub) }
            ∷ s.shards;
      },
      throws short_header_write,
    )
unfolding open_new_shard write_header
open_short io s o h =
    let m : min io.header_wrote 48 ≡ io.header_wrote = omega arith in
    let t : (io.header_wrote == 48) ≡ false = ground arith in rw (o, m, t) refl

-- When the header of a new shard is cut short, the call throws, but the file stays open with a size
-- of 0: the next frame goes into it, behind the piece of the header, and that call returns normally.
pub headerless_shard :
    (s : ShardWriter) (f f' : List ℕ) (io io' : Io)
    → s.file_open ≡ true
    → needs_rotation s f ≡ true
    → 0 < length f
    → io.opened ≡ true
    → io.header_wrote < header_bytes
    → 0 < length f'
    → length f' ≤ io'.wrote
    → let first = write_frame f io s in
      let second = write_frame f' io' first.0 in
      (first.1 ≡ throws short_header_write)
      × (second.1 ≡ ok tt)
      × (second.0.shards
          ≡ record { seq = s.seq; bytes = take io.header_wrote (header s.client_eph_pub) ++ f' }
            ∷ s.shards)
unfolding write_frame open_if_closed rotate_if_full close_current
headerless_shard s f f' io io' o r n op h n' w =
    let z : (length f == 0) ≡ false = ground arith in
    let z' : (length f' == 0) ≡ false = ground arith in
    let cut : ShardWriter = record s {
      file_open = true;
      current_size = 0;
      seq = (s.seq + 1) % 2 ^ 32;
      shards =
          record { seq = s.seq; bytes = take io.header_wrote (header s.client_eph_pub) } ∷ s.shards;
    } in
    rw
      (
        z,
        o,
        r,
        open_short io (record s { file_open = false }) op h,
        z',
        append_working f' io' cut w,
      )
      (refl, refl, refl)

-- A frame that is cut short leaves its piece in the shard, while the size that rotation goes by
-- stays as it was, and the call returns normally.
pub partial_frame :
    (s : ShardWriter) (f : List ℕ) (io : Io)
    → s.file_open ≡ true
    → needs_rotation s f ≡ false
    → io.wrote < length f
    → write_frame f io s ≡ (record s { shards = append_bytes s.shards (take io.wrote f) }, ok tt)
unfolding write_frame open_if_closed rotate_if_full append_frame
partial_frame s f io o r h =
    let z : (length f == 0) ≡ false = ground arith in
    let m : min io.wrote (length f) ≡ io.wrote = omega arith in
    let t : (io.wrote == length f) ≡ false = ground arith in rw (z, o, r, m, t) refl
