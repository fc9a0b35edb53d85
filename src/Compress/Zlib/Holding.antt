-- ===== src/Compress/Zlib/Holding.antt =====
-- What the buffer of Compress and Decompress of compress/zlib_compressor.cpp holds.
use logger_high.Base.{
  ℕ, ◌+◌, ◌≤◌, ◌≡◌, refl, ◌∙◌, ap, sym, ◌&&◌, List, ◌++◌, Option, some, ok, throws, length, take,
  drop, ltb, ◌==◌, if_both, arith, append_assoc, take-append, drop-append_add, length-append,
  length-take, length-drop,
}
use logger_high.Errors.{Error, Throwing}
use logger_high.Compress.Zlib.{
  Ret, Call, Zlib, Stream, z_ok, z_stream_end, z_buf_error, z_other, after_call, refill, finish,
}

-- `out` is what zlib has written, and the room that it is offered is behind it in the buffer.
pub record Holding {S : Type 0} (out : List ℕ) (s : Stream S) : Type 0 where
  pub tail : List ℕ
  pub image : s.buffer ≡ out ++ tail
  pub count : s.total_out ≡ length out
  pub next : s.next_out ≡ length out
  pub room : s.avail_out ≤ length tail

module _ {S : Type 0} (z : Zlib S) (input : List ℕ) where
  -- zlib writes no more than it has room for.
  abbrev pub KeepsRoom : (S → List ℕ → ℕ → Call S) → Type 0
  KeepsRoom f = (zs : S) (bytes : List ℕ) (n : ℕ) → length (f zs bytes n).given ≤ n

  pub call-Holding :
      (out : List ℕ) (s : Stream S) (c : Call S)
      → Holding out s
      → length c.given ≤ s.avail_out
      → Holding (out ++ c.given) (after_call z input s c)
  call-Holding out s c v h =
      let g = c.given in
      let l = length out in
      let kept : take s.next_out s.buffer ≡ out =
        ap (λ n. take n s.buffer) v.next ∙ ap (take l) v.image ∙ take-append out v.tail l refl in
      let past : drop (s.next_out + length g) s.buffer ≡ drop (length g) v.tail =
        ap (λ n. drop (n + length g) s.buffer) v.next
        ∙ ap (drop (l + length g)) v.image
        ∙ drop-append_add out v.tail l (length g) refl in
      record {
        tail = drop (length g) v.tail;
        image =
            ap (λ x. x ++ (g ++ drop (s.next_out + length g) s.buffer)) kept
            ∙ ap (λ x. out ++ (g ++ x)) past
            ∙ sym (append_assoc out g (drop (length g) v.tail));
        count = omega (arith, v.count, length-append out g);
        next = omega (arith, v.next, length-append out g);
        room = omega (arith, v.room, h, length-drop (length g) v.tail);
      }

  pub refill-Holding :
      (out : List ℕ) (s : Stream S) → Holding out s → Holding out (refill z input s)
  unfolding refill
  refill-Holding out s v =
      if_both (Holding out) (s.avail_in == 0 && ltb 0 s.in_left) _ s
        (record { tail = v.tail; image = v.image; count = v.count; next = v.next; room = v.room }) v

  -- What a loop comes to when it puts the outputs of the calls together by itself.
  abbrev pub collected :
      List ℕ → Error → Ret → List ℕ → Option (Throwing (List ℕ)) → Option (Throwing (List ℕ))
  collected before e z_ok out rest = rest
  collected before e z_stream_end out rest = some (ok (before ++ out))
  collected before e z_buf_error out rest = rest
  collected before e z_other out rest = some (throws e)

  pub finish-collected :
      (before : List ℕ) (e : Error) (r : Ret) (out : List ℕ) (s : Stream S)
      (rest rest' : Option (Throwing (List ℕ)))
      → Holding out s
      → rest ≡ rest'
      → finish z input before e r s rest ≡ collected before e r out rest'
  finish-collected before e z_ok out s rest rest' v h = h
  finish-collected before e z_buf_error out s rest rest' v h = h
  finish-collected before e z_other out s rest rest' v h = refl
  finish-collected before e z_stream_end out s rest rest' v h =
      ap (λ l. some (ok (before ++ take s.total_out l))) v.image
      ∙ ap (λ n. some (ok (before ++ take n (out ++ v.tail)))) v.count
      ∙ ap (λ l. some (ok (before ++ l))) (take-append out v.tail (length out) refl)

  -- A call writes inside the buffer.
  pub call-length :
      (out : List ℕ) (s : Stream S) (c : Call S)
      → Holding out s
      → length c.given ≤ s.avail_out
      → length (after_call z input s c).buffer ≡ length s.buffer
  call-length out s c v h =
      let g = c.given in
      let past = drop (s.next_out + length g) s.buffer in
      omega (
        arith,
        h,
        v.room,
        v.next,
        ap length v.image,
        length-append out v.tail,
        length-append (take s.next_out s.buffer) (g ++ past),
        length-append g past,
        length-take s.next_out s.buffer,
        length-drop (s.next_out + length g) s.buffer,
      )
