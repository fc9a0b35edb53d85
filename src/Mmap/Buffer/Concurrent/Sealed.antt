-- ===== src/Mmap/Buffer/Concurrent/Sealed.antt =====
-- What a drain of mmap/mmap_buffer.cpp finds once Seal has returned.
use logger_high.Base.{
  ℕ, ◌-◌, ◌^◌, ◌<◌, ◌≡◌, refl, ◌∙◌, ap, subst, inl, inr, true, List, [], ◌∷◌, ◌++◌, length,
  length-append, length-replicate, replicate, arith, All, some,
}
use logger_high.Mmap.Frame.{encode_frames, Fits}
use logger_high.Mmap.Buffer.{for_each_frame}
use logger_high.Mmap.Buffer.Fill.{Filled}
use logger_high.Mmap.Buffer.Runs.{for_each_frame-Filled}
use logger_high.Mmap.Buffer.Concurrent.{
  Stage, reserved, len_written, copied, returned, Slot, Shared, open_shared, buffer_of, enter,
  check_sealed, reserve, advance, leave_refused, leave_overrun, begin_seal, Step, enters, checks,
  reserves, advances, gives_up, fails, seals, Run, start, next,
}
use logger_high.Mmap.Buffer.Concurrent.Invariant.{image, busy_at, busy, FitsSlot, Inv}
use logger_high.Mmap.Buffer.Concurrent.Moves.{Step-Inv}

-- A fresh buffer over a file of less than 4 GiB that maps as zeros.
fresh-Inv : (n : ℕ) → n < 2 ^ 32 → Inv (open_shared (replicate n 0))
fresh-Inv n small = record {
  bytes =
      (let k : n ≡ length (replicate n 0) - 0 = omega (arith, length-replicate {A = ℕ} n 0) in
        ap (λ j. replicate j 0) k);
  placed = tt;
  mark = inl refl;
  fit = tt;
  fit_entered = tt;
  fit_admitted = tt;
  small = omega (arith, length-replicate {A = ℕ} n 0, small);
  count = refl;
}

Run-Inv_from : {s t : Shared} → Inv s → Run s t → Inv t
Run-Inv_from v start = v
Run-Inv_from v (next r st) = Step-Inv st (Run-Inv_from v r)

pub Run-Inv_of_fresh :
    (n : ℕ) {s : Shared} → n < 2 ^ 32 → Run (open_shared (replicate n 0)) s → Inv s
Run-Inv_of_fresh n small r = Run-Inv_from (fresh-Inv n small) r

-- Writes that have returned true, in the order of their reservations.
abbrev pub payloads : List Slot → List (List ℕ)
payloads [] = []
payloads (w ∷ ws) = w.payload ∷ payloads ws

abbrev pub AllReturned : List Slot → Type 0
AllReturned = All (λ w. w.stage ≡ returned)

returned_of_idle : (st : Stage) → busy_at st ≡ 0 → st ≡ returned
returned_of_idle reserved h = absurd (omega (arith, h))
returned_of_idle len_written h = absurd (omega (arith, h))
returned_of_idle copied h = absurd (omega (arith, h))
returned_of_idle returned h = refl

all_returned : (ws : List Slot) → busy ws ≡ 0 → AllReturned ws
all_returned [] h = tt
all_returned (w ∷ ws) h =
    (returned_of_idle w.stage (omega (arith, h)), all_returned ws (omega (arith, h)))

image-returned : (ws : List Slot) → AllReturned ws → image ws ≡ encode_frames (payloads ws)
image-returned [] h = refl
image-returned (w ∷ ws) (e, h) = rw (e, image-returned ws h) refl

Fits-payloads : (ws : List Slot) → All FitsSlot ws → All Fits (payloads ws)
Fits-payloads [] h = tt
Fits-payloads (w ∷ ws) (f, h) = (f, Fits-payloads ws h)

stage-middle :
    (before : List Slot) (w : Slot) (behind : List Slot)
    → AllReturned (before ++ w ∷ behind)
    → w.stage ≡ returned
stage-middle [] w behind h = h.0
stage-middle (x ∷ before) w behind h = stage-middle before w behind h.1

-- No thread is past its check of `sealed_`, and none will be.
pub record Quiet (s : Shared) : Type 0 where
  pub closed : s.sealed ≡ true
  pub none_admitted : length s.admitted ≡ 0
  pub all_back : AllReturned s.slots

-- What the loop of Seal has seen when it ends.
pub sealed-Quiet : (s : Shared) → Inv s → s.sealed ≡ true → s.writers ≡ 0 → Quiet s
sealed-Quiet s v c w = record {
  closed = c;
  none_admitted = omega (arith, v.count, w);
  all_back = all_returned s.slots (omega (arith, v.count, w));
}

abbrev pub Same : Shared → Shared → Type 0
Same s t = (t.mem ≡ s.mem) × (t.offset ≡ s.offset) × (t.slots ≡ s.slots)

Step-Quiet : {s t : Shared} → Step s t → Quiet s → Quiet t × Same s t
unfolding enter check_sealed reserve advance leave_refused leave_overrun begin_seal
Step-Quiet {s} (enters p f e) v = rw e (
  record { closed = v.closed; none_admitted = v.none_admitted; all_back = v.all_back },
  (refl, refl, refl),
)
Step-Quiet {s} (checks before p behind q e) v =
    rw (e, v.closed)
      (
        record { closed = refl; none_admitted = v.none_admitted; all_back = v.all_back },
        (refl, refl, refl),
      )
Step-Quiet {s} (reserves before p behind q h e) v =
    absurd (omega (arith, ap length q, length-append before (p ∷ behind), v.none_admitted))
Step-Quiet {s} (advances before w behind q e) v =
    let back = stage-middle before w behind (subst AllReturned q v.all_back) in
    rw (e, back) (v, (refl, refl, refl))
Step-Quiet {s} (gives_up h e) v = rw e (
  record { closed = v.closed; none_admitted = v.none_admitted; all_back = v.all_back },
  (refl, refl, refl),
)
Step-Quiet {s} (fails h e) v = rw e (
  record { closed = v.closed; none_admitted = v.none_admitted; all_back = v.all_back },
  (refl, refl, refl),
)
Step-Quiet {s} (seals e) v = rw e (
  record { closed = refl; none_admitted = v.none_admitted; all_back = v.all_back },
  (refl, refl, refl),
)

Run-Quiet : {s t : Shared} → Run s t → Quiet s → Quiet t × Same s t
Run-Quiet start v = (v, (refl, refl, refl))
Run-Quiet (next r st) v =
    let (v', (m, o, w)) = Run-Quiet r v in
    let (v'', (m', o', w')) = Step-Quiet st v' in (v'', (m' ∙ m, o' ∙ o, w' ∙ w))

Quiet-Filled : (s : Shared) → Inv s → Quiet s → Filled (buffer_of s) (payloads s.slots)
Quiet-Filled s v q =
    let same = image-returned s.slots q.all_back in
    record {
      image = v.bytes ∙ ap (λ l. l ++ replicate (length s.mem - length l) 0) same;
      mark = elim v.mark [ inl m ↦ inl (m ∙ ap length same) | inr past ↦ inr past ];
      fit = Fits-payloads s.slots v.fit;
      small = v.small;
    }

-- Over a zeroed file of less than 4 GiB, any overlapping Writes whose reservations add up to less
-- than 2 ^ 64, and a Seal: from the moment at which the loop of Seal has read that no writer is left, every Write that
-- got room has returned true, whatever other threads do, and the drain hands out their payloads,
-- each once and whole, in the order in which they reserved their places.
pub seal-drain :
    (n : ℕ) {s t : Shared}
    → n < 2 ^ 32
    → Run (open_shared (replicate n 0)) s
    → s.sealed ≡ true
    → s.writers ≡ 0
    → Run s t
    → AllReturned t.slots
      × (t.slots ≡ s.slots)
      × (for_each_frame (buffer_of t) ≡ some (payloads s.slots))
seal-drain n {s} {t} small r c w more =
    let v = Run-Inv_of_fresh n small r in
    let (q, (m, o, same)) = Run-Quiet more (sealed-Quiet s v c w) in
    let v' = Run-Inv_from v more in
    (
      q.all_back,
      same,
      for_each_frame-Filled (buffer_of t) (payloads t.slots) (Quiet-Filled t v' q)
          ∙ ap (λ l. some (payloads l)) same,
    )
