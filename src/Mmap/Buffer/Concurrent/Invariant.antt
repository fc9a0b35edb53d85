-- ===== src/Mmap/Buffer/Concurrent/Invariant.antt =====
-- What overlapping Writes of mmap/mmap_buffer.cpp keep: the bytes are the slots in the order of their
-- reservation, each as far as its writer is.
use logger_high.Base.{
  ℕ, ◌+◌, ◌-◌, ◌^◌, ◌<◌, ◌≡◌, refl, ◌∙◌, ap, sym, subst, ◌⊎◌, List, [], ◌∷◌, ◌++◌, length, take,
  drop, replicate, arith, append_assoc, length-append, length-replicate, take-append, drop-append,
  drop-append_add, All,
}
use logger_high.Bytes.{encode_le_u32, length-encode_le_u32}
use logger_high.Mmap.Frame.{encode_frame, Fits, length-encode_frame}
use logger_high.Mmap.Buffer.{store}
use logger_high.Mmap.Buffer.Fill.{cost}
use logger_high.Mmap.Buffer.Concurrent.{
  Stage, reserved, len_written, copied, returned, Slot, Shared,
}

-- The bytes of a slot whose writer is at a stage.
abbrev pub bytes_at : Stage → List ℕ → List ℕ
bytes_at reserved p = replicate 4 0 ++ replicate (length p) 0
bytes_at len_written p = encode_le_u32 (length p) ++ replicate (length p) 0
bytes_at copied p = encode_frame p
bytes_at returned p = encode_frame p

abbrev pub image : List Slot → List ℕ
image [] = []
image (w ∷ ws) = bytes_at w.stage w.payload ++ image ws

-- The slots lie one behind the other.
abbrev pub Placed : ℕ → List Slot → Type 0
Placed pos [] = Unit {0}
Placed pos (w ∷ ws) = (w.old ≡ pos) × Placed (pos + cost w.payload) ws

abbrev pub busy_at : Stage → ℕ
busy_at returned = 0
busy_at _ = 1

abbrev pub busy : List Slot → ℕ
busy [] = 0
busy (w ∷ ws) = busy_at w.stage + busy ws

abbrev pub FitsSlot : Slot → Type 0
FitsSlot w = Fits w.payload

pub record Inv (s : Shared) : Type 0 where
  pub bytes : s.mem ≡ image s.slots ++ replicate (length s.mem - length (image s.slots)) 0
  pub placed : Placed 0 s.slots
  pub mark : (s.offset ≡ length (image s.slots)) ⊎ (length s.mem < s.offset)
  pub fit : All FitsSlot s.slots
  pub fit_entered : All Fits s.entered
  pub fit_admitted : All Fits s.admitted
  pub small : length s.mem < 2 ^ 32
  pub count :
      s.writers ≡ length s.entered + length s.admitted + s.refused + s.overrun + busy s.slots

pub length-bytes_at : (st : Stage) (p : List ℕ) → length (bytes_at st p) ≡ cost p
length-bytes_at reserved p = omega (
  arith,
  length-append {A = ℕ} (replicate 4 0) (replicate (length p) 0),
  length-replicate {A = ℕ} (length p) 0,
)
length-bytes_at len_written p = omega (
  arith,
  length-append (encode_le_u32 (length p)) (replicate (length p) 0),
  length-encode_le_u32 (length p),
  length-replicate {A = ℕ} (length p) 0,
)
length-bytes_at copied p = length-encode_frame p
length-bytes_at returned p = length-encode_frame p

pub image-append : (xs ys : List Slot) → image (xs ++ ys) ≡ image xs ++ image ys
image-append [] ys = refl
image-append (w ∷ xs) ys =
    ap (λ l. bytes_at w.stage w.payload ++ l) (image-append xs ys)
    ∙ sym (append_assoc (bytes_at w.stage w.payload) (image xs) (image ys))

pub busy-append : (xs ys : List Slot) → busy (xs ++ ys) ≡ busy xs + busy ys
busy-append [] ys = omega arith
busy-append (w ∷ xs) ys = omega (arith, busy-append xs ys)

pub Placed-append :
    (xs ys : List Slot) (pos : ℕ)
    → Placed pos xs
    → Placed (pos + length (image xs)) ys
    → Placed pos (xs ++ ys)
Placed-append [] ys pos hx hy = let e : pos + 0 ≡ pos = omega arith in subst (λ k. Placed k ys) e hy
Placed-append (w ∷ xs) ys pos (at, hx) hy =
    let e : pos + length (image (w ∷ xs)) ≡ pos + cost w.payload + length (image xs) = omega (
      arith,
      length-append (bytes_at w.stage w.payload) (image xs),
      length-bytes_at w.stage w.payload,
    ) in
    (at, Placed-append xs ys (pos + cost w.payload) hx (subst (λ k. Placed k ys) e hy))

-- A slot in the middle stands at the length of those before it.
pub Placed-at :
    (before : List Slot) (w : Slot) (behind : List Slot) (pos : ℕ)
    → Placed pos (before ++ w ∷ behind)
    → w.old ≡ pos + length (image before)
Placed-at [] w behind pos (at, h) = omega (arith, at)
Placed-at (x ∷ before) w behind pos (at, h) = omega (
  arith,
  Placed-at before w behind (pos + cost x.payload) h,
  length-append (bytes_at x.stage x.payload) (image before),
  length-bytes_at x.stage x.payload,
)

-- A slot may change its stage where it stands.
pub Placed-swap :
    (before : List Slot) (w : Slot) (st : Stage) (behind : List Slot) (pos : ℕ)
    → Placed pos (before ++ w ∷ behind)
    → Placed pos (before ++ record w { stage = st } ∷ behind)
Placed-swap [] w st behind pos h = h
Placed-swap (x ∷ before) w st behind pos (at, h) =
    (at, Placed-swap before w st behind (pos + cost x.payload) h)

pub All-swap :
    (before : List Slot) (w : Slot) (st : Stage) (behind : List Slot)
    → All FitsSlot (before ++ w ∷ behind)
    → All FitsSlot (before ++ record w { stage = st } ∷ behind)
All-swap [] w st behind h = h
All-swap (x ∷ before) w st behind (f, h) = (f, All-swap before w st behind h)

pub length-image-swap :
    (before : List Slot) (w : Slot) (st : Stage) (behind : List Slot)
    → length (image (before ++ record w { stage = st } ∷ behind))
      ≡ length (image (before ++ w ∷ behind))
length-image-swap [] w st behind = omega (
  arith,
  length-append (bytes_at st w.payload) (image behind),
  length-append (bytes_at w.stage w.payload) (image behind),
  length-bytes_at st w.payload,
  length-bytes_at w.stage w.payload,
)
length-image-swap (x ∷ before) w st behind = omega (
  arith,
  length-append (bytes_at x.stage x.payload) (image (before ++ record w { stage = st } ∷ behind)),
  length-append (bytes_at x.stage x.payload) (image (before ++ w ∷ behind)),
  length-image-swap before w st behind,
)

pub store_middle :
    (a x y bytes : List ℕ) (at : ℕ)
    → length a ≡ at
    → length bytes ≡ length x
    → store (a ++ (x ++ y)) at bytes ≡ a ++ (bytes ++ y)
store_middle a x y bytes at e h =
    let front : take at (a ++ (x ++ y)) ≡ a = take-append a (x ++ y) at e in
    let back : drop (at + length bytes) (a ++ (x ++ y)) ≡ y =
      drop-append_add a (x ++ y) at (length bytes) e ∙ drop-append x y (length bytes) (sym h) in
    rw (front, back) refl
