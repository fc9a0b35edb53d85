-- ===== src/Sinks/ShardWriter.antt =====
-- sinks/shard_writer.h and sinks/shard_writer.cpp: the active shard file and its rotation.
--
-- Every method runs under `mu_`, so it is one step. `shards` lists the files in the order of opening,
-- the newest first; the last opened one is the file behind `file_`. Its bytes are those that fwrite took
-- into stdio's buffer: they are in the file once fflush or fclose has returned, which the model does not
-- follow. Names differ by
-- `seq_`, so `fopen(.., "wb")` makes a new file. What stdio answers is an argument (`Io`).
-- Flush and the destructor ask stdio and the operating system to write out what was handed over; they
-- are the lists of these calls.
pub mod Steps
pub mod Runs
pub mod Faults
pub mod Names
use logger_high.Base.{
  ℕ, ◌+◌, ◌%◌, ◌^◌, Bool, true, false, not, ◌&&◌, List, [], ◌∷◌, ◌++◌, ok, throws, length, take,
  min, replicate, ltb, leb, ◌==◌, if◌then◌else◌,
}
use logger_high.Bytes.{encode_le_u32}
use logger_high.Errors.{
  Throwing, eph_pub_not_32_bytes, shard_limit_too_small, shard_dir_failed, shard_open_failed,
  short_header_write,
}

abbrev pub header_bytes : ℕ
header_bytes = 48

abbrev pub algo_id_aes_gcm_x25519_hkdf_sha256 : ℕ
algo_id_aes_gcm_x25519_hkdf_sha256 = 1

abbrev pub magic : List ℕ
magic = b'L' ∷ b'G' ∷ b'R' ∷ b'H' ∷ 1 ∷ 0 ∷ 0 ∷ 0 ∷ []

-- The 48 bytes of WriteHeader_: magic, algorithm, public key, and four zeros that stay from `= {}`.
abbrev pub header : List ℕ → List ℕ
header client_eph_pub =
    magic ++ (encode_le_u32 algo_id_aes_gcm_x25519_hkdf_sha256 ++ (client_eph_pub ++ replicate 4 0))

pub record Shard : Type 0 where
  pub seq : ℕ  -- the number in its name
  pub bytes : List ℕ

pub record ShardWriter : Type 0 where
  pub shard_limit : ℕ
  pub client_eph_pub : List ℕ
  pub file_open : Bool  -- file_ != nullptr
  pub current_size : ℕ
  pub seq : ℕ  -- std::uint32_t
  pub shards : List Shard

-- What one call gets from stdio: whether fopen succeeds, and how many bytes fwrite takes of the
-- header and of the data.
pub record Io : Type 0 where
  pub opened : Bool
  pub header_wrote : ℕ
  pub wrote : ℕ

-- A method that may throw, with the state that it leaves either way.
abbrev pub Method : Type 0
Method = ShardWriter → ShardWriter × Throwing (Unit {0})

abbrev pub and_then : ShardWriter × Throwing (Unit {0}) → Method → ShardWriter × Throwing (Unit {0})
and_then (s, ok u) next = next s
and_then (s, throws e) next = (s, throws e)

-- fwrite to the open file.
abbrev pub append_bytes : List Shard → List ℕ → List Shard
append_bytes [] bytes = []
append_bytes (s ∷ ss) bytes = record s { bytes = s.bytes ++ bytes } ∷ ss

unfoldable pub write_header : Io → Method
write_header io s =
    let wrote = min io.header_wrote header_bytes in
    let s' = record s { shards = append_bytes s.shards (take wrote (header s.client_eph_pub)) } in
    if not (wrote == header_bytes)
    then (s', throws short_header_write)
    else (record s' { current_size = header_bytes }, ok tt)

unfoldable pub open_new_shard : Io → Method
open_new_shard io s =
    let named = record s { seq = (s.seq + 1) % 2 ^ 32 } in
    if not io.opened
    then (record named { file_open = false }, throws shard_open_failed)
    else write_header io (record named {
      file_open = true;
      current_size = 0;
      shards = record { seq = s.seq; bytes = [] } ∷ s.shards;
    })

unfoldable pub close_current : ShardWriter → ShardWriter
close_current s = record s { file_open = false }

unfoldable pub append_frame : List ℕ → Io → Method
append_frame frame io s =
    let wrote = min io.wrote (length frame) in
    let s' = record s { shards = append_bytes s.shards (take wrote frame) } in
    if not (wrote == length frame)
    then (s', ok tt)
    else (record s' { current_size = s.current_size + length frame }, ok tt)

abbrev pub needs_rotation : ShardWriter → List ℕ → Bool
needs_rotation s frame =
    ltb header_bytes s.current_size && ltb s.shard_limit (s.current_size + length frame)

unfoldable pub open_if_closed : Io → Method
open_if_closed io s = if s.file_open then (s, ok tt) else open_new_shard io s

unfoldable pub rotate_if_full : List ℕ → Io → Method
rotate_if_full frame io s =
    if needs_rotation s frame then open_new_shard io (close_current s) else (s, ok tt)

-- At most one of the two opens happens in a call, so one `Io` serves both.
unfoldable pub write_frame : List ℕ → Io → Method
write_frame frame io s =
    if length frame == 0
    then (s, ok tt)
    else and_then (and_then (open_if_closed io s) (rotate_if_full frame io)) (append_frame frame io)

-- The constructor; `dir_ready` is whether create_directories reports no error.
unfoldable pub new_shard_writer : ℕ → List ℕ → Bool → Io → ShardWriter × Throwing (Unit {0})
new_shard_writer limit pub_key dir_ready io =
    let s : ShardWriter = record {
      shard_limit = limit;
      client_eph_pub = pub_key;
      file_open = false;
      current_size = 0;
      seq = 0;
      shards = [];
    } in
    if not (length pub_key == 32)
    then (s, throws eph_pub_not_32_bytes)
    else if leb limit header_bytes
    then (s, throws shard_limit_too_small)
    else if not dir_ready
    then (s, throws shard_dir_failed)
    else open_new_shard io s

-- What Flush and the destructor ask for.
pub data FileCall : Type 0 where
  fflushes fsyncs fcloses : FileCall

-- Flush, where fileno has a descriptor or not.
unfoldable pub flush_calls : Bool → ShardWriter → List FileCall
flush_calls has_fd s =
    if not s.file_open then [] else fflushes ∷ (if has_fd then fsyncs ∷ [] else [])

-- CloseCurrent_, which is all that the destructor does.
unfoldable pub close_calls : ShardWriter → List FileCall
close_calls s = if not s.file_open then [] else fflushes ∷ fcloses ∷ []
