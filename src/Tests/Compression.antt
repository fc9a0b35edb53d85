-- ===== src/Tests/Compression.antt =====
-- The loops around zlib, over a zlib that stores bytes as they are.
use logger_high.Base.{
  ℕ, ◌+◌, ◌≤◌, ◌≡◌, refl, List, [], ◌∷◌, none, some, ok, length, take, min, arith, length-take,
}
use logger_high.Compress.Zlib.{
  Zlib, Call, Stream, z_stream_end, z_buf_error, decompress, compress, inflate_loop,
}
use logger_high.Compress.Zlib.Inflate.{
  inflate_outputs, decompress-inflate_outputs, inflate_loop_hangs,
}
use logger_high.Compress.Zlib.Deflate.{deflate_outputs, compress-deflate_outputs}

-- A stored stream ends with its input.
abbrev copy_call : ℕ → List ℕ → ℕ → Call ℕ
copy_call zs [] n = record { state = zs; ret = z_buf_error; taken = 0; given = [] }
copy_call zs (c ∷ s) n = record {
  state = zs;
  ret = z_stream_end;
  taken = min n (length (c ∷ s));
  given = take n (c ∷ s);
}

abbrev stored : Zlib ℕ
stored = record {
  deflate_init = λ level. some 0;
  deflate_bound = λ s n. n + 16;
  deflate = λ zs flush bytes n. copy_call zs bytes n;
  inflate_init = some 0;
  inflate = λ zs bytes n. copy_call zs bytes n;
}

copy_room : (zs : ℕ) (bytes : List ℕ) (n : ℕ) → length (copy_call zs bytes n).given ≤ n
copy_room zs [] n = omega arith
copy_room zs (c ∷ s) n = omega (arith, length-take n (c ∷ s))

decompress-inflate_outputs_example :
    decompress stored (3 ∷ 4 ∷ []) 2 (1 ∷ []) ≡ some (ok (1 ∷ 3 ∷ 4 ∷ []))
unfolding inflate_outputs
decompress-inflate_outputs_example =
    decompress-inflate_outputs stored (3 ∷ 4 ∷ []) 2 (1 ∷ []) 0 (λ zs bytes n. copy_room zs bytes n)
      refl

compress-deflate_outputs_example :
    compress stored (3 ∷ 4 ∷ []) 2 6 (1 ∷ []) ≡ some (ok (1 ∷ 3 ∷ 4 ∷ []))
unfolding deflate_outputs
compress-deflate_outputs_example =
    compress-deflate_outputs stored (3 ∷ 4 ∷ []) 2 6 (1 ∷ []) 0
      (λ zs flush bytes n. copy_room zs bytes n) refl

-- An empty input, with room for 64 bytes.
abbrev nothing_read : Stream ℕ
nothing_read = record {
  zs = 0;
  next_in = 0;
  avail_in = 0;
  in_left = 0;
  buffer = [];
  next_out = 0;
  avail_out = 64;
  total_out = 0;
  out_rest = 64;
}

inflate_loop_hangs_example : inflate_loop stored [] 9 [] nothing_read ≡ none
inflate_loop_hangs_example =
    inflate_loop_hangs stored [] 9 [] nothing_read.zs 64 nothing_read refl
      (record { fed = refl; all_fed = refl; roomy = omega arith; at_state = refl; at_room = refl })
