-- ===== src/Compress/Zlib.antt =====
-- compress/zlib_compressor.cpp: the loops that feed zlib.
--
-- zlib is an argument. A call of deflate or inflate gets the bytes at `next_in` and the room at
-- `next_out`, and says how many it took, what it wrote and what it returned. `buffer` is `out` from
-- `written_before` on, and positions are relative to it. Every loop has fuel, and `none` says that it
-- ran out: how often zlib must be called is for zlib to say. Sizes do not wrap, since an allocation
-- of 2 ^ 64 bytes throws before; that exception is not modelled.
pub mod Holding
pub mod Inflate
pub mod Deflate
use logger_high.Base.{
  ℕ, zero, suc, ◌+◌, ◌-◌, ◌*◌, ◌^◌, Bool, ◌&&◌, ◌||◌, List, ◌++◌, Option, none, some, ok, throws,
  length, take, drop, replicate, min, ltb, ◌==◌, if◌then◌else◌,
}
use logger_high.Errors.{
  Error, Throwing, zlib_level_out_of_range, deflate_init_failed, deflate_failed,
  inflate_init_failed, inflate_failed,
}
use logger_high.Mmap.Buffer.{store}

pub data Ret : Type 0 where
  z_ok z_stream_end z_buf_error z_other : Ret

pub record Call (S : Type 0) : Type 0 where
  pub state : S
  pub ret : Ret
  pub taken : ℕ
  pub given : List ℕ

pub record Zlib (S : Type 0) : Type 0 where
  -- `none` where the call does not return Z_OK
  pub deflate_init : ℕ → Option S
  pub deflate_bound : S → ℕ → ℕ
  -- the flag is Z_FINISH
  pub deflate : S → Bool → List ℕ → ℕ → Call S
  pub inflate_init : Option S
  pub inflate : S → List ℕ → ℕ → Call S

abbrev pub chunk_limit : ℕ
chunk_limit = 2 ^ 30

-- The constructor.
unfoldable pub new_compressor : ℕ → Throwing ℕ
new_compressor level =
    if ltb level 1 || ltb 9 level then throws zlib_level_out_of_range else ok level

-- `std::string::resize`
abbrev pub resize : ℕ → List ℕ → List ℕ
resize n l = take n l ++ replicate (n - length l) 0

-- A z_stream in a loop, with the locals of the loop. `total_out` counts what was given.
pub record Stream (S : Type 0) : Type 0 where
  pub zs : S
  pub next_in : ℕ
  pub avail_in : ℕ
  pub in_left : ℕ
  pub buffer : List ℕ
  pub next_out : ℕ
  pub avail_out : ℕ
  pub total_out : ℕ
  -- `out_cap` of Decompress, `out_left` of Compress
  pub out_rest : ℕ

module _ {S : Type 0} (z : Zlib S) (input : List ℕ) where
  abbrev pub given_bytes : Stream S → List ℕ
  given_bytes s = take s.avail_in (drop s.next_in input)

  abbrev pub after_call : Stream S → Call S → Stream S
  after_call s c = record s {
    zs = c.state;
    next_in = s.next_in + c.taken;
    avail_in = s.avail_in - c.taken;
    buffer = store s.buffer s.next_out c.given;
    next_out = s.next_out + length c.given;
    avail_out = s.avail_out - length c.given;
    total_out = s.total_out + length c.given;
  }

  -- The next chunk of the input, once the last is used up.
  unfoldable pub refill : Stream S → Stream S
  refill s =
      let n = min s.in_left chunk_limit in
      if s.avail_in == 0 && ltb 0 s.in_left
      then record s { next_in = length input - s.in_left; avail_in = n; in_left = s.in_left - n }
      else s

  -- Decompress doubles its buffer when it is full.
  unfoldable pub grow_output : Stream S → Stream S
  grow_output s =
      let cap = s.out_rest * 2 in
      if s.avail_out == 0
      then record s {
        buffer = resize cap s.buffer;
        next_out = s.total_out;
        avail_out = min (cap - s.total_out) chunk_limit;
        out_rest = cap;
      }
      else s

  -- Compress goes on with the rest of the buffer that deflateBound asked for.
  unfoldable pub next_output : Stream S → Stream S
  next_output s =
      let n = min s.out_rest chunk_limit in
      if s.avail_out == 0 && ltb 0 s.out_rest
      then record s {
        next_out = length s.buffer - s.out_rest;
        avail_out = n;
        out_rest = s.out_rest - n;
      }
      else s

  -- The end of a round: done, an exception, or the next round.
  abbrev pub finish :
      List ℕ → Error → Ret → Stream S → Option (Throwing (List ℕ)) → Option (Throwing (List ℕ))
  finish before e z_ok s rest = rest
  finish before e z_stream_end s rest = some (ok (before ++ take s.total_out s.buffer))
  finish before e z_buf_error s rest = rest
  finish before e z_other s rest = some (throws e)

  unfoldable pub inflate_loop : ℕ → List ℕ → Stream S → Option (Throwing (List ℕ))
  inflate_loop zero before s = none
  inflate_loop (suc fuel) before s =
      let c = z.inflate s.zs (given_bytes s) s.avail_out in
      let s' = after_call s c in
      finish before inflate_failed c.ret s' (inflate_loop fuel before (grow_output (refill s')))

  abbrev first_inflate : S → Stream S
  first_inflate zs =
      let cap = if length input == 0 then 64 else length input * 4 in
      let n = min (length input) chunk_limit in
      record {
        zs = zs;
        next_in = 0;
        avail_in = n;
        in_left = length input - n;
        buffer = replicate cap 0;
        next_out = 0;
        avail_out = min cap chunk_limit;
        total_out = 0;
        out_rest = cap;
      }

  abbrev inflate_from : ℕ → List ℕ → Option S → Option (Throwing (List ℕ))
  inflate_from fuel before none = some (throws inflate_init_failed)
  inflate_from fuel before (some zs) = inflate_loop fuel before (first_inflate zs)

  -- Decompress, over what `out` held before.
  unfoldable pub decompress : ℕ → List ℕ → Option (Throwing (List ℕ))
  decompress fuel out = inflate_from fuel out z.inflate_init

  -- `flush` becomes Z_FINISH with the last chunk, and is where there is no input left from the start.
  unfoldable pub deflate_loop : ℕ → List ℕ → Bool → Stream S → Option (Throwing (List ℕ))
  deflate_loop zero before last s = none
  deflate_loop (suc fuel) before last s =
      let c = z.deflate s.zs last (given_bytes s) s.avail_out in
      let s' = after_call s c in
      let s'' = refill s' in
      finish before deflate_failed c.ret s'
        (deflate_loop fuel before (s''.in_left == 0) (next_output s''))

  abbrev first_deflate : S → Stream S
  first_deflate zs =
      let bound = z.deflate_bound zs (length input) in
      let n = min (length input) chunk_limit in
      let room = min bound chunk_limit in
      record {
        zs = zs;
        next_in = 0;
        avail_in = n;
        in_left = length input - n;
        buffer = replicate bound 0;
        next_out = 0;
        avail_out = room;
        total_out = 0;
        out_rest = bound - room;
      }

  abbrev deflate_from : ℕ → List ℕ → Option S → Option (Throwing (List ℕ))
  deflate_from fuel before none = some (throws deflate_init_failed)
  deflate_from fuel before (some zs) =
      let s = first_deflate zs in deflate_loop fuel before (s.in_left == 0) s

  unfoldable pub compress : ℕ → ℕ → List ℕ → Option (Throwing (List ℕ))
  compress fuel level out = deflate_from fuel out (z.deflate_init level)
