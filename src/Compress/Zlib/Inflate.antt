-- ===== src/Compress/Zlib/Inflate.antt =====
-- Decompress of compress/zlib_compressor.cpp.
use logger_high.Base.{
  ℕ, zero, suc, ◌-◌, ◌*◌, ◌<◌, ◌≡◌, refl, ◌∙◌, ap, false, ◌&&◌, List, [], ◌++◌, Option, none, some,
  length, take, drop, replicate, ltb, ◌==◌, if◌then◌else◌, if_both, if_false, arith, append_assoc,
  take_all, length-append, length-replicate,
}
use logger_high.Errors.{Throwing, inflate_failed}
use logger_high.Compress.Zlib.{
  Call, Zlib, Stream, z_buf_error, after_call, given_bytes, refill, grow_output, finish,
  inflate_loop, inflate_from, first_inflate, decompress,
}
use logger_high.Compress.Zlib.Holding.{
  Holding, call-Holding, refill-Holding, finish-collected, call-length, collected, KeepsRoom,
}

module _ {S : Type 0} (z : Zlib S) (input : List ℕ) where
  -- The bytes that inflate wrote, call by call.
  unfoldable pub inflate_outputs : ℕ → List ℕ → List ℕ → Stream S → Option (Throwing (List ℕ))
  inflate_outputs zero before out s = none
  inflate_outputs (suc fuel) before out s =
      let c = z.inflate s.zs (given_bytes z input s) s.avail_out in
      collected z input before inflate_failed c.ret (out ++ c.given) (
        inflate_outputs fuel before (out ++ c.given)
          (grow_output z input (refill z input (after_call z input s c))))

  abbrev Sized : Stream S → Type 0
  Sized s = length s.buffer ≡ s.out_rest

  grow-Holding :
      (out : List ℕ) (s : Stream S)
      → Holding out s
      → Sized s
      → Holding out (grow_output z input s) × Sized (grow_output z input s)
  unfolding grow_output
  grow-Holding out s v h =
      let cap = s.out_rest * 2 in
      let zeros : List ℕ = replicate (cap - length s.buffer) 0 in
      let whole : take cap s.buffer ≡ s.buffer = take_all s.buffer cap (omega (arith, h)) in
      let size = length-append out v.tail in
      let same = ap length v.image in
      if_both (λ t. Holding out t × Sized t) (s.avail_out == 0) _ s
        (
          record {
            tail = v.tail ++ zeros;
            image = ap (λ l. l ++ zeros) (whole ∙ v.image) ∙ append_assoc out v.tail zeros;
            count = v.count;
            next = v.count;
            room = omega (
              arith,
              h,
              v.count,
              size,
              same,
              length-append v.tail zeros,
              length-replicate {A = ℕ} (cap - length s.buffer) 0,
            );
          },
          ap (λ l. length (l ++ zeros)) whole
              ∙ length-append s.buffer zeros
              ∙ omega (arith, h, length-replicate {A = ℕ} (cap - length s.buffer) 0),
        )
        (v, h)

  refill-Sized : (s : Stream S) → Sized s → Sized (refill z input s)
  unfolding refill
  refill-Sized s e = if_both Sized (s.avail_in == 0 && ltb 0 s.in_left) _ s e e

  inflate_loop_lem :
      (fuel : ℕ) (before out : List ℕ) (s : Stream S)
      → KeepsRoom z input z.inflate
      → Holding out s
      → Sized s
      → inflate_loop z input fuel before s ≡ inflate_outputs fuel before out s
  unfolding inflate_loop inflate_outputs
  inflate_loop_lem zero before out s law v e = refl
  inflate_loop_lem (suc fuel) before out s law v e =
      let c = z.inflate s.zs (given_bytes z input s) s.avail_out in
      let fits = law s.zs (given_bytes z input s) s.avail_out in
      let s' = after_call z input s c in
      let w = call-Holding z input out s c v fits in
      let (w', e') =
        grow-Holding (out ++ c.given) (refill z input s')
          (refill-Holding z input (out ++ c.given) s' w)
          (refill-Sized s' (call-length z input out s c v fits ∙ e)) in
      finish-collected z input before inflate_failed c.ret (out ++ c.given) s' _ _ w (
        inflate_loop_lem fuel before (out ++ c.given) (grow_output z input (refill z input s')) law
          w' e')

  -- Decompress gives back what `out` held and then exactly the bytes that inflate wrote, call by call,
  -- whatever chunks the input is fed in and however often the buffer is grown: for an inflate that
  -- never writes past the room it is given.
  pub decompress-inflate_outputs :
      (fuel : ℕ) (out : List ℕ) (zs : S)
      → KeepsRoom z input z.inflate
      → z.inflate_init ≡ some zs
      → decompress z input fuel out ≡ inflate_outputs fuel out [] (first_inflate z input zs)
  unfolding decompress
  decompress-inflate_outputs fuel out zs law h =
      let cap = if length input == 0 then 64 else length input * 4 in
      let size : length (replicate {A = ℕ} cap 0) ≡ cap = length-replicate {A = ℕ} cap 0 in
      ap (inflate_from z input fuel out) h
      ∙ inflate_loop_lem fuel out [] (first_inflate z input zs) law
          (record {
            tail = replicate cap 0;
            image = refl;
            count = refl;
            next = refl;
            room = omega (arith, size);
          })
          size

  -- In the state `zs`, without input and with room for `n` bytes, inflate can make no progress: it says
  -- Z_BUF_ERROR, writes nothing and may be called again.
  abbrev pub Starves : S → ℕ → Type 0
  Starves zs n = z.inflate zs [] n ≡ record { state = zs; ret = z_buf_error; taken = 0; given = [] }

  -- The input is used up, and the end of the stream has not come in the state that zlib is in.
  pub record Starved (zs : S) (n : ℕ) (s : Stream S) : Type 0 where
    pub fed : s.avail_in ≡ 0
    pub all_fed : s.in_left ≡ 0
    pub roomy : 0 < s.avail_out
    pub at_state : s.zs ≡ zs
    pub at_room : s.avail_out ≡ n

  refill-Starved :
      (zs : S) (n : ℕ) (t : Stream S) → Starved zs n t → Starved zs n (refill z input t)
  unfolding refill
  refill-Starved zs n t w =
      if_both (Starved zs n) (t.avail_in == 0 && ltb 0 t.in_left) _ t
        (record {
          fed = omega (arith, w.all_fed);
          all_fed = omega (arith, w.all_fed);
          roomy = w.roomy;
          at_state = w.at_state;
          at_room = w.at_room;
        })
        w

  grow_output-Starved :
      (zs : S) (n : ℕ) (t : Stream S) → Starved zs n t → Starved zs n (grow_output z input t)
  unfolding grow_output
  grow_output-Starved zs n t w =
      let open_room : 0 < t.avail_out = w.roomy in
      let e : t.avail_out == 0 ≡ false = ground arith in
      if_false (Starved zs n) (t.avail_out == 0) _ t e w

  -- On an input that ends before its stream does, the loop of Decompress goes round for ever: where
  -- zlib is in a state in which it makes no progress without input on the room that is left, the
  -- input is used up and there is room, the loop has not ended whatever fuel there is.
  pub inflate_loop_hangs :
      (fuel : ℕ) (before : List ℕ) (zs : S) (n : ℕ) (s : Stream S)
      → Starves zs n
      → Starved zs n s
      → inflate_loop z input fuel before s ≡ none
  unfolding inflate_loop
  inflate_loop_hangs zero before zs n s law v = refl
  inflate_loop_hangs (suc fuel) before zs n s law v =
      let nothing : given_bytes z input s ≡ [] = ap (λ n. take n (drop s.next_in input)) v.fed in
      let same : Call S = record { state = zs; ret = z_buf_error; taken = 0; given = [] } in
      let idle : z.inflate s.zs (given_bytes z input s) s.avail_out ≡ same =
        ap (λ l. z.inflate s.zs l s.avail_out) nothing
        ∙ ap (λ x. z.inflate x [] s.avail_out) v.at_state
        ∙ ap (z.inflate zs []) v.at_room
        ∙ law in
      ap
        (λ c. finish z input before inflate_failed c.ret (after_call z input s c) (
          inflate_loop z input fuel before
            (grow_output z input (refill z input (after_call z input s c)))))
        idle
      ∙ inflate_loop_hangs fuel before zs n
          (grow_output z input (refill z input (after_call z input s same))) law
          (grow_output-Starved zs n (refill z input (after_call z input s same)) (
            refill-Starved zs n (after_call z input s same) (record {
              fed = omega (arith, v.fed);
              all_fed = v.all_fed;
              roomy = omega (arith, v.roomy);
              at_state = refl;
              at_room = omega (arith, v.at_room);
            })))
