-- ===== src/Compress/Zlib/Deflate.antt =====
-- Compress of compress/zlib_compressor.cpp.
use logger_high.Base.{
  ℕ, zero, suc, ◌+◌, ◌≤◌, ◌≡◌, refl, ◌∙◌, ap, inl, inr, Bool, ◌&&◌, List, [], ◌++◌, Option, none,
  some, length, replicate, ltb, ◌==◌, if_both, if_true, if_false, arith, length-append,
  length-replicate, Bool-cases,
}
use logger_high.Errors.{Throwing, deflate_failed}
use logger_high.Compress.Zlib.{
  Call, Zlib, Stream, after_call, given_bytes, refill, next_output, deflate_loop, deflate_from,
  first_deflate, compress,
}
use logger_high.Compress.Zlib.Holding.{
  Holding, call-Holding, refill-Holding, finish-collected, call-length, collected,
}

module _ {S : Type 0} (z : Zlib S) (input : List ℕ) where
  -- The bytes that deflate wrote, call by call.
  unfoldable pub deflate_outputs :
      ℕ → List ℕ → List ℕ → Bool → Stream S → Option (Throwing (List ℕ))
  deflate_outputs zero before out last s = none
  deflate_outputs (suc fuel) before out last s =
      let c = z.deflate s.zs last (given_bytes z input s) s.avail_out in
      let s' = refill z input (after_call z input s c) in
      collected z input before deflate_failed c.ret (out ++ c.given)
        (deflate_outputs fuel before (out ++ c.given) (s'.in_left == 0) (next_output z input s'))

  -- Behind the room that is offered, the buffer has `out_rest` bytes more.
  abbrev Split : Stream S → Type 0
  Split s = s.total_out + (s.avail_out + s.out_rest) ≡ length s.buffer

  call-Split :
      (out : List ℕ) (s : Stream S) (c : Call S)
      → Holding out s
      → length c.given ≤ s.avail_out
      → Split s
      → Split (after_call z input s c)
  call-Split out s c v h e = omega (arith, h, e, call-length z input out s c v h)

  refill-Split : (s : Stream S) → Split s → Split (refill z input s)
  unfolding refill
  refill-Split s e = if_both Split (s.avail_in == 0 && ltb 0 s.in_left) _ s e e

  next_output-Holding :
      (out : List ℕ) (s : Stream S)
      → Holding out s
      → Split s
      → Holding out (next_output z input s) × Split (next_output z input s)
  unfolding next_output
  next_output-Holding out s v e =
      let P = λ (t : Stream S). Holding out t × Split t in
      elim (Bool-cases (s.avail_out == 0 && ltb 0 s.out_rest)) [
        | inl full ↦
            let none_left : s.avail_out ≡ 0 = ground arith in
            let size = ap length v.image ∙ length-append out v.tail in
            if_true P (s.avail_out == 0 && ltb 0 s.out_rest) _ s full (
              record {
                tail = v.tail;
                image = v.image;
                count = v.count;
                next = omega (arith, e, none_left, v.count);
                room = omega (arith, e, none_left, v.count, size);
              },
              omega (arith, e, none_left),
            )
        | inr usable ↦ if_false P (s.avail_out == 0 && ltb 0 s.out_rest) _ s usable (v, e)
      ]

  deflate_loop_lem :
      (fuel : ℕ) (before out : List ℕ) (last : Bool) (s : Stream S)
      → ((zs : S) (flush : Bool) (bytes : List ℕ) (n : ℕ)
          → length (z.deflate zs flush bytes n).given ≤ n)
      → Holding out s
      → Split s
      → deflate_loop z input fuel before last s ≡ deflate_outputs fuel before out last s
  unfolding deflate_loop deflate_outputs
  deflate_loop_lem zero before out last s law v e = refl
  deflate_loop_lem (suc fuel) before out last s law v e =
      let c = z.deflate s.zs last (given_bytes z input s) s.avail_out in
      let fits = law s.zs last (given_bytes z input s) s.avail_out in
      let s' = after_call z input s c in
      let s'' = refill z input s' in
      let w = call-Holding z input out s c v fits in
      let (w', e') =
        next_output-Holding (out ++ c.given) s'' (refill-Holding z input (out ++ c.given) s' w)
          (refill-Split s' (call-Split out s c v fits e)) in
      finish-collected z input before deflate_failed c.ret (out ++ c.given) s' _ _ w (
        deflate_loop_lem fuel before (out ++ c.given) (s''.in_left == 0) (next_output z input s'')
          law w' e')

  -- Compress gives back what `out` held and then exactly the bytes that deflate wrote, call by call,
  -- whatever chunks the input and the room are handed over in: for a deflate that never writes past
  -- the room it is given.
  pub compress-deflate_outputs :
      (fuel level : ℕ) (out : List ℕ) (zs : S)
      → ((s : S) (flush : Bool) (bytes : List ℕ) (n : ℕ)
          → length (z.deflate s flush bytes n).given ≤ n)
      → z.deflate_init level ≡ some zs
      → let s = first_deflate z input zs in
        compress z input fuel level out ≡ deflate_outputs fuel out [] (s.in_left == 0) s
  unfolding compress
  compress-deflate_outputs fuel level out zs law h =
      let s = first_deflate z input zs in
      let bound = z.deflate_bound zs (length input) in
      let size : length (replicate {A = ℕ} bound 0) ≡ bound = length-replicate {A = ℕ} bound 0 in
      ap (deflate_from z input fuel out) h
      ∙ deflate_loop_lem fuel out [] (s.in_left == 0) s law
          (record {
            tail = replicate bound 0;
            image = refl;
            count = refl;
            next = refl;
            room = omega (arith, size);
          })
          (omega (arith, size))
