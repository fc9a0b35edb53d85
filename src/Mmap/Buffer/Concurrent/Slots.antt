-- ===== src/Mmap/Buffer/Concurrent/Slots.antt =====
-- The stores into a slot and the decrement of `writers_` in Write of mmap/mmap_buffer.cpp keep the
-- invariant.
use logger_high.Base.{
  ℕ, ◌+◌, ◌-◌, ◌≡◌, refl, ◌∙◌, ap, sym, subst, inl, inr, List, [], ◌∷◌, ◌++◌, length, replicate,
  arith, append_assoc, append-nil, length-append, length-replicate, All,
}
use logger_high.Bytes.{encode_le_u32, length-encode_le_u32}
use logger_high.Mmap.Buffer.{store}
use logger_high.Mmap.Buffer.Concurrent.{
  Stage, reserved, len_written, copied, returned, Slot, Shared, advance, advanced,
}
use logger_high.Mmap.Buffer.Concurrent.Invariant.{
  bytes_at, image, Placed, busy_at, busy, FitsSlot, Inv, image-append, busy-append, Placed-at,
  Placed-swap, All-swap, length-image-swap, store_middle,
}

-- The zeros behind the slots are as many as there is room for.
pub exact_room :
    (mem img : List ℕ) (n : ℕ)
    → mem ≡ img ++ replicate n 0
    → mem ≡ img ++ replicate (length mem - length img) 0
exact_room mem img n e =
    let k : n ≡ length mem - length img =
      omega (arith, ap length e, length-append img (replicate n 0), length-replicate {A = ℕ} n 0) in
    e ∙ ap (λ j. img ++ replicate j 0) k

-- A store into a slot, of the bytes that the slot's next stage has there.
bytes_store :
    (mem : List ℕ) (before : List Slot) (w : Slot) (st : Stage) (behind : List Slot) (n at : ℕ)
    (a x y b : List ℕ)
    → mem ≡ image (before ++ w ∷ behind) ++ replicate n 0
    → bytes_at w.stage w.payload ≡ a ++ (x ++ y)
    → bytes_at st w.payload ≡ a ++ (b ++ y)
    → at ≡ length (image before) + length a
    → length b ≡ length x
    → store mem at b ≡ image (before ++ record w { stage = st } ∷ behind) ++ replicate n 0
bytes_store mem before w st behind n at a x y b e old new place same =
    let rest = image behind ++ replicate n 0 in
    let spread : (sl : Slot) (m : List ℕ)
        → bytes_at sl.stage sl.payload ≡ a ++ (m ++ y)
        → image (before ++ sl ∷ behind) ++ replicate n 0
          ≡ (image before ++ a) ++ (m ++ (y ++ rest)) =
      λ sl m q.
        ap (λ l. l ++ replicate n 0) (image-append before (sl ∷ behind))
        ∙ append_assoc (image before) (bytes_at sl.stage sl.payload ++ image behind) (replicate n 0)
        ∙ ap (λ l. image before ++ ((l ++ image behind) ++ replicate n 0)) q
        ∙ simp append_assoc in
    ap (λ l. store l at b) (e ∙ spread w x old)
    ∙ store_middle (image before ++ a) x (y ++ rest) b at
        (omega (arith, place, length-append (image before) a)) same
    ∙ sym (spread (record w { stage = st }) b new)

-- What a step of a slot's writer gives, once its bytes and the count of writers are settled.
moved-Inv :
    (before : List Slot) (w : Slot) (st : Stage) (behind : List Slot) (s : Shared) (mem : List ℕ)
    (writers : ℕ)
    → s.slots ≡ before ++ w ∷ behind
    → Inv s
    → mem
      ≡ image (before ++ record w { stage = st } ∷ behind)
        ++ replicate (length s.mem - length (image s.slots)) 0
    → writers + busy_at w.stage ≡ s.writers + busy_at st
    → Inv (record s {
      mem = mem;
      writers = writers;
      slots = before ++ record w { stage = st } ∷ behind;
    })
moved-Inv before w st behind s mem writers e v bytes count =
    let img = image (before ++ record w { stage = st } ∷ behind) in
    let room = length s.mem - length (image s.slots) in
    let old : length (image s.slots) ≡ length img =
      ap (λ l. length (image l)) e ∙ sym (length-image-swap before w st behind) in
    let was : length s.mem ≡ length (image s.slots) + room =
      ap length v.bytes
      ∙ omega (
        arith,
        length-append (image s.slots) (replicate room 0),
        length-replicate {A = ℕ} room 0,
      ) in
    let same : length mem ≡ length s.mem = omega (
      arith,
      ap length bytes,
      length-append img (replicate room 0),
      length-replicate {A = ℕ} room 0,
      old,
      was,
    ) in
    record {
      bytes = exact_room mem img room bytes;
      placed = Placed-swap before w st behind 0 (subst (Placed 0) e v.placed);
      mark = elim v.mark [
        | inl m ↦ inl (omega (arith, m, old))
        | inr past ↦ inr (omega (arith, past, same))
      ];
      fit = All-swap before w st behind (subst (All FitsSlot) e v.fit);
      fit_entered = v.fit_entered;
      fit_admitted = v.fit_admitted;
      small = omega (arith, same, v.small);
      count = omega (
        arith,
        count,
        v.count,
        ap busy e,
        busy-append before (w ∷ behind),
        busy-append before (record w { stage = st } ∷ behind),
      );
    }

image-swap :
    (before : List Slot) (w : Slot) (st : Stage) (behind : List Slot)
    → bytes_at w.stage w.payload ≡ bytes_at st w.payload
    → image (before ++ w ∷ behind) ≡ image (before ++ record w { stage = st } ∷ behind)
image-swap [] w st behind e = ap (λ l. l ++ image behind) e
image-swap (x ∷ before) w st behind e =
    ap (λ l. bytes_at x.stage x.payload ++ l) (image-swap before w st behind e)

advanced-Inv :
    (before : List Slot) (w : Slot) (behind : List Slot) (s : Shared) (st : Stage)
    → w.stage ≡ st
    → s.slots ≡ before ++ w ∷ behind
    → Inv s
    → Inv (advanced before behind s w st)
advanced-Inv before w behind s reserved q e v =
    let len = encode_le_u32 (length w.payload) in
    let blank : List ℕ = replicate (length w.payload) 0 in
    let at = Placed-at before w behind 0 (subst (Placed 0) e v.placed) in
    moved-Inv before w len_written behind s (store s.mem w.old len) s.writers e v
      (bytes_store s.mem before w len_written behind (length s.mem - length (image s.slots)) w.old
        [] (replicate 4 0) blank len
        (v.bytes ∙ ap (λ l. image l ++ replicate (length s.mem - length (image s.slots)) 0) e)
        (ap (λ k. bytes_at k w.payload) q) refl (omega (arith, at))
        (length-encode_le_u32 (length w.payload)))
      (ap (λ k. s.writers + busy_at k) q)
advanced-Inv before w behind s len_written q e v =
    let len = encode_le_u32 (length w.payload) in
    let blank : List ℕ = replicate (length w.payload) 0 in
    let at = Placed-at before w behind 0 (subst (Placed 0) e v.placed) in
    moved-Inv before w copied behind s (store s.mem (w.old + 4) w.payload) s.writers e v
      (bytes_store s.mem before w copied behind (length s.mem - length (image s.slots)) (w.old + 4)
        len blank [] w.payload
        (v.bytes ∙ ap (λ l. image l ++ replicate (length s.mem - length (image s.slots)) 0) e)
        (ap (λ k. bytes_at k w.payload) q ∙ ap (λ l. len ++ l) (sym (append-nil blank)))
        (ap (λ l. len ++ l) (sym (append-nil w.payload)))
        (omega (arith, at, length-encode_le_u32 (length w.payload)))
        (sym (length-replicate {A = ℕ} (length w.payload) 0)))
      (ap (λ k. s.writers + busy_at k) q)
advanced-Inv before w behind s copied q e v =
    let zeros : List ℕ = replicate (length s.mem - length (image s.slots)) 0 in
    moved-Inv before w returned behind s s.mem (s.writers - 1) e v
      (v.bytes
        ∙ ap (λ l. image l ++ zeros) e
        ∙ ap (λ l. l ++ zeros)
            (image-swap before w returned behind (ap (λ k. bytes_at k w.payload) q)))
      (omega (arith, ap busy_at q, v.count, ap busy e, busy-append before (w ∷ behind)))
advanced-Inv before w behind s returned q e v = v

pub advance-Inv :
    (before : List Slot) (w : Slot) (behind : List Slot) (s : Shared)
    → s.slots ≡ before ++ w ∷ behind
    → Inv s
    → Inv (advance before w behind s)
unfolding advance
advance-Inv before w behind s e v = advanced-Inv before w behind s w.stage refl e v
