-- ===== src/Mmap/Buffer/Concurrent/Moves.antt =====
-- Every step of overlapping Writes and a Seal of mmap/mmap_buffer.cpp keeps the invariant.
use logger_high.Base.{
  ℕ, suc, ◌+◌, ◌-◌, ◌%◌, ◌^◌, ◌≤◌, ◌<◌, ◌≡◌, refl, ◌∙◌, ap, sym, subst, inl, inr, Bool, true, false,
  List, [], ◌∷◌, ◌++◌, length, replicate, ltb, arith, append_assoc, append-nil, length-append,
  replicate-add, All, All-append, Bool-cases, ltb→lt, not_lt,
}
use logger_high.Mmap.Frame.{Fits}
use logger_high.Mmap.Buffer.Fill.{cost, is_oversized, fitting-Fits}
use logger_high.Mmap.Buffer.Concurrent.{
  reserved, Slot, Shared, enter, check_sealed, reserve, leave_refused, leave_overrun, begin_seal,
  Step, enters, checks, reserves, advances, gives_up, fails, seals,
}
use logger_high.Mmap.Buffer.Concurrent.Invariant.{
  bytes_at, image, busy, FitsSlot, Inv, length-bytes_at, image-append, busy-append, Placed-append,
}
use logger_high.Mmap.Buffer.Concurrent.Slots.{exact_room, advance-Inv}

All-remove :
    (before : List (List ℕ)) (p : List ℕ) (behind : List (List ℕ))
    → All Fits (before ++ p ∷ behind)
    → All Fits (before ++ behind) × Fits p
All-remove [] p behind (f, h) = (h, f)
All-remove (x ∷ before) p behind (f, h) =
    let (rest, fp) = All-remove before p behind h in ((f, rest), fp)

length-remove :
    (before : List (List ℕ)) (p : List ℕ) (behind : List (List ℕ))
    → length (before ++ p ∷ behind) ≡ suc (length (before ++ behind))
length-remove before p behind =
    omega (arith, length-append before (p ∷ behind), length-append before behind)

enter-Inv : (p : List ℕ) (s : Shared) → is_oversized p ≡ false → Inv s → Inv (enter p s)
unfolding enter
enter-Inv p s f v = record {
  bytes = v.bytes;
  placed = v.placed;
  mark = v.mark;
  fit = v.fit;
  fit_entered = (fitting-Fits p f, v.fit_entered);
  fit_admitted = v.fit_admitted;
  small = v.small;
  count = omega (arith, v.count);
}

check_sealed-Inv :
    (before : List (List ℕ)) (p : List ℕ) (behind : List (List ℕ)) (s : Shared)
    → s.entered ≡ before ++ p ∷ behind
    → Inv s
    → Inv (check_sealed before p behind s)
unfolding check_sealed
check_sealed-Inv before p behind s e v =
    let (rest, f) = All-remove before p behind (subst (All Fits) e v.fit_entered) in
    let less : length s.entered ≡ suc (length (before ++ behind)) =
      ap length e ∙ length-remove before p behind in
    elim (Bool-cases s.sealed) [
      | inl closed ↦ rw closed record {
        bytes = v.bytes;
        placed = v.placed;
        mark = v.mark;
        fit = v.fit;
        fit_entered = rest;
        fit_admitted = v.fit_admitted;
        small = v.small;
        count = omega (arith, v.count, less);
      }
      | inr open_still ↦ rw open_still record {
        bytes = v.bytes;
        placed = v.placed;
        mark = v.mark;
        fit = v.fit;
        fit_entered = rest;
        fit_admitted = (f, v.fit_admitted);
        small = v.small;
        count = omega (arith, v.count, less);
      }
    ]

-- A slot without a byte yet is zeros, like the room it is taken from.
grow :
    (img : List ℕ) (ws : List Slot) (p : List ℕ) (at room : ℕ)
    → image ws ≡ img
    → cost p ≤ room
    → img ++ replicate room 0
      ≡ image (ws ++ record { old = at; payload = p; stage = reserved } ∷ [])
        ++ replicate (room - cost p) 0
grow img ws p at room e h =
    let k : room ≡ cost p + (room - cost p) = omega arith in
    let blank : replicate 4 0 ++ replicate (length p) 0 ≡ replicate (cost p) 0 =
      replicate-add 4 (length p) 0 in
    let tail = replicate (room - cost p) 0 in
    ap (λ j. img ++ replicate j 0) k
    ∙ ap (λ l. img ++ l) (sym (replicate-add (cost p) (room - cost p) 0))
    ∙ sym (append_assoc img (replicate (cost p) 0) tail)
    ∙ ap (λ l. (img ++ l) ++ tail) (sym blank ∙ sym (append-nil (bytes_at reserved p)))
    ∙ ap (λ l. l ++ tail)
        (ap (λ l. l ++ (bytes_at reserved p ++ [])) (sym e)
          ∙ sym (image-append ws (record { old = at; payload = p; stage = reserved } ∷ [])))

reserve-Inv :
    (before : List (List ℕ)) (p : List ℕ) (behind : List (List ℕ)) (s : Shared)
    → s.admitted ≡ before ++ p ∷ behind
    → s.offset + cost p < 2 ^ 64
    → Inv s
    → Inv (reserve before p behind s)
unfolding reserve
reserve-Inv before p behind s e h v =
    let (rest, f) = All-remove before p behind (subst (All Fits) e v.fit_admitted) in
    let less : length s.admitted ≡ suc (length (before ++ behind)) =
      ap length e ∙ length-remove before p behind in
    let wraps : (s.offset + cost p) % 2 ^ 64 ≡ s.offset + cost p = omega (arith, h) in
    elim (Bool-cases (ltb (length s.mem) (s.offset + cost p))) [
      | inl full ↦
          rw (wraps, full)
            record {
              bytes = v.bytes;
              placed = v.placed;
              mark = inr (ltb→lt _ _ full);
              fit = v.fit;
              fit_entered = v.fit_entered;
              fit_admitted = rest;
              small = v.small;
              count = omega (arith, v.count, less);
            }
      | inr found ↦
          let w : Slot = record { old = s.offset; payload = p; stage = reserved } in
          let exact : s.offset ≡ length (image s.slots) = elim v.mark [
            | inl m ↦ m
            | inr past ↦ absurd (omega (arith, past, not_lt _ _ found))
          ] in
          let room = length s.mem - length (image s.slots) in
          let more : length (image (s.slots ++ w ∷ [])) ≡ length (image s.slots) + cost p =
            ap length (image-append s.slots (w ∷ []))
            ∙ omega (
              arith,
              length-append (image s.slots) (image (w ∷ [])),
              length-append (bytes_at reserved p) [],
              length-bytes_at reserved p,
            ) in
          rw (wraps, found)
            record {
              bytes = exact_room s.mem (image (s.slots ++ w ∷ [])) (room - cost p) (
                  v.bytes
                  ∙ grow (image s.slots) s.slots p s.offset room refl
                      (omega (arith, exact, not_lt _ _ found)));
              placed = Placed-append s.slots (w ∷ []) 0 v.placed (omega (arith, exact), tt);
              mark = inl (omega (arith, exact, more));
              fit = All-append FitsSlot s.slots (w ∷ []) v.fit (f, tt);
              fit_entered = v.fit_entered;
              fit_admitted = rest;
              small = v.small;
              count = omega (arith, v.count, less, busy-append s.slots (w ∷ []));
            }
    ]

-- A step that only counts.
recounted :
    (s : Shared) (writers refused overrun : ℕ) (sealed : Bool)
    → writers ≡ length s.entered + length s.admitted + refused + overrun + busy s.slots
    → Inv s
    → Inv (record s { writers = writers; refused = refused; overrun = overrun; sealed = sealed })
recounted s writers refused overrun sealed count v = record {
  bytes = v.bytes;
  placed = v.placed;
  mark = v.mark;
  fit = v.fit;
  fit_entered = v.fit_entered;
  fit_admitted = v.fit_admitted;
  small = v.small;
  count = count;
}

leave_refused-Inv : (s : Shared) → 0 < s.refused → Inv s → Inv (leave_refused s)
unfolding leave_refused
leave_refused-Inv s h v =
    recounted s (s.writers - 1) (s.refused - 1) s.overrun s.sealed (omega (arith, v.count, h)) v

leave_overrun-Inv : (s : Shared) → 0 < s.overrun → Inv s → Inv (leave_overrun s)
unfolding leave_overrun
leave_overrun-Inv s h v =
    recounted s (s.writers - 1) s.refused (s.overrun - 1) s.sealed (omega (arith, v.count, h)) v

begin_seal-Inv : (s : Shared) → Inv s → Inv (begin_seal s)
unfolding begin_seal
begin_seal-Inv s v = recounted s s.writers s.refused s.overrun true v.count v

pub Step-Inv : {s t : Shared} → Step s t → Inv s → Inv t
Step-Inv {s} (enters p f e) v = rw e (enter-Inv p s f v)
Step-Inv {s} (checks before p behind q e) v = rw e (check_sealed-Inv before p behind s q v)
Step-Inv {s} (reserves before p behind q h e) v = rw e (reserve-Inv before p behind s q h v)
Step-Inv {s} (advances before w behind q e) v = rw e (advance-Inv before w behind s q v)
Step-Inv {s} (gives_up h e) v = rw e (leave_refused-Inv s h v)
Step-Inv {s} (fails h e) v = rw e (leave_overrun-Inv s h v)
Step-Inv {s} (seals e) v = rw e (begin_seal-Inv s v)
