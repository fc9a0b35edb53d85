-- ===== src/Mmap/Buffer/Fill.antt =====
-- What a buffer of mmap/mmap_buffer.cpp holds after writes and after a reset.
use logger_high.Base.{
  ℕ, ◌+◌, ◌-◌, ◌%◌, ◌^◌, ◌≤◌, ◌<◌, ◌≡◌, refl, ◌∙◌, ap, sym, ◌⊎◌, inl, inr, Bool, true, false, List,
  [], ◌∷◌, ◌++◌, append_assoc, append-nil, arith, length, take, drop, replicate, length-append,
  length-replicate, take-append, drop-append_add, drop-replicate, All, All-append, ltb, leb, ◌==◌,
  ◌||◌, Bool-cases,
}
use logger_high.Mmap.Frame.{
  encode_frame, encode_frames, Fits, length-encode_frame, encode_frames-append,
}
use logger_high.Mmap.Buffer.{MmapBuffer, max_payload, store, write, reserve_and_copy}

abbrev pub room : MmapBuffer → List (List ℕ) → ℕ
room b fs = length b.mem - length (encode_frames fs)

-- The bytes are the frames `fs` and then zeros, and the next offset is right behind the frames or
-- past the end of the region, which is shorter than 2 ^ 32 bytes.
pub record Filled (b : MmapBuffer) (fs : List (List ℕ)) : Type 0 where
  pub image : b.mem ≡ encode_frames fs ++ replicate (room b fs) 0
  pub mark : (b.offset ≡ length (encode_frames fs)) ⊎ (length b.mem < b.offset)
  pub fit : All Fits fs
  pub small : length b.mem < 2 ^ 32

pub length-image :
    (b : MmapBuffer) (fs : List (List ℕ))
    → Filled b fs
    → length b.mem ≡ length (encode_frames fs) + room b fs
length-image b fs v =
    ap length v.image
    ∙ (length-append (encode_frames fs) (replicate (room b fs) 0)
        ∙ ap (λ (k : ℕ). length (encode_frames fs) + k) (length-replicate (room b fs) 0))

-- Storing a frame right behind the frames.
store-image :
    (fs : List (List ℕ)) (p : List ℕ) (n : ℕ)
    → store (encode_frames fs ++ replicate n 0) (length (encode_frames fs)) (encode_frame p)
      ≡ encode_frames (fs ++ p ∷ []) ++ replicate (n - length (encode_frame p)) 0
store-image fs p n =
    let enc = encode_frames fs in
    let frame = encode_frame p in
    let rest = replicate (n - length frame) 0 in
    let head : take (length enc) (enc ++ replicate n 0) ≡ enc =
      take-append enc (replicate n 0) (length enc) refl in
    let tail : drop (length enc + length frame) (enc ++ replicate n 0) ≡ rest =
      drop-append_add enc (replicate n 0) (length enc) (length frame) refl
      ∙ drop-replicate (length frame) n 0 in
    let last : encode_frames (fs ++ p ∷ []) ≡ enc ++ frame =
      encode_frames-append fs (p ∷ []) ∙ ap (λ l. enc ++ l) (append-nil frame) in
    rw (head, tail, last, append_assoc enc frame rest) refl

abbrev pub cost : List ℕ → ℕ
cost p = 4 + length p

reserve_room :
    (b : MmapBuffer) (p : List ℕ)
    → b.offset + cost p < 2 ^ 64
    → b.offset + cost p ≤ length b.mem
    → reserve_and_copy b p ≡ (
      record b {
        mem = store b.mem b.offset (encode_frame p);
        offset = b.offset + cost p;
        writers = b.writers - 1;
      },
      true,
    )
unfolding reserve_and_copy
reserve_room b p h k =
    let e : (b.offset + (4 + length p)) % 2 ^ 64 ≡ b.offset + (4 + length p) = omega arith in
    rw e (ground arith)

reserve_full :
    (b : MmapBuffer) (p : List ℕ)
    → b.offset + cost p < 2 ^ 64
    → length b.mem < b.offset + cost p
    → reserve_and_copy b p
      ≡ (record b { offset = b.offset + cost p; writers = b.writers - 1 }, false)
unfolding reserve_and_copy
reserve_full b p h k =
    let e : (b.offset + (4 + length p)) % 2 ^ 64 ≡ b.offset + (4 + length p) = omega arith in
    rw e (ground arith)

-- The two ways in which Write turns a payload down before it reserves anything.
abbrev pub is_oversized : List ℕ → Bool
is_oversized p = length p == 0 || ltb max_payload (length p)

pub write_oversized : (b : MmapBuffer) (p : List ℕ) → is_oversized p ≡ true → write b p ≡ (b, false)
unfolding write
write_oversized b p h = rw h refl

write_fitting :
    (b : MmapBuffer) (p : List ℕ)
    → is_oversized p ≡ false
    → b.sealed ≡ false
    → write b p ≡ reserve_and_copy (record b { writers = b.writers + 1 }) p
unfolding write
write_fitting b p h s = rw (h, s) refl

pub fitting-Fits : (p : List ℕ) → is_oversized p ≡ false → Fits p
fitting-Fits p h = ground arith

-- What one write leaves behind, as a function of whether the payload found room.
abbrev pub after_write : MmapBuffer → List ℕ → Bool → MmapBuffer
after_write b p true = record b {
  mem = store b.mem b.offset (encode_frame p);
  offset = b.offset + cost p;
}
after_write b p false = record b { offset = b.offset + cost p }

pub write_lem :
    (b : MmapBuffer) (p : List ℕ)
    → is_oversized p ≡ false
    → b.sealed ≡ false
    → b.offset + cost p < 2 ^ 64
    → let found = leb (b.offset + cost p) (length b.mem) in
      write b p ≡ (after_write b p found, found)
write_lem b p h s k = elim (Bool-cases (leb (b.offset + cost p) (length b.mem))) [
  | inl e ↦
      let w : b.writers + 1 - 1 ≡ b.writers = omega arith in
      rw e (
        write_fitting b p h s
        ∙ reserve_room (record b { writers = b.writers + 1 }) p k (ground arith)
        ∙ ap (λ n. (record (after_write b p true) { writers = n }, true)) w)
  | inr e ↦
      let w : b.writers + 1 - 1 ≡ b.writers = omega arith in
      rw e (
        write_fitting b p h s
        ∙ reserve_full (record b { writers = b.writers + 1 }) p k (ground arith)
        ∙ ap (λ n. (record (after_write b p false) { writers = n }, false)) w)
]

abbrev pub extended : List (List ℕ) → List ℕ → Bool → List (List ℕ)
extended fs p true = fs ++ p ∷ []
extended fs p false = fs

length-after_write :
    (b : MmapBuffer) (fs : List (List ℕ)) (p : List ℕ)
    → Filled b fs
    → b.offset ≡ length (encode_frames fs)
    → b.offset + cost p ≤ length b.mem
    → (store b.mem b.offset (encode_frame p)
        ≡ encode_frames (fs ++ p ∷ []) ++ replicate (room b fs - cost p) 0)
      × (length (encode_frames (fs ++ p ∷ [])) ≡ b.offset + cost p)
      × (length (store b.mem b.offset (encode_frame p)) ≡ length b.mem)
length-after_write b fs p v m k =
    let frame_length : length (encode_frame p) ≡ cost p = length-encode_frame p in
    let total : length (encode_frames (fs ++ p ∷ [])) ≡ b.offset + cost p = omega (
      arith,
      ap length (encode_frames-append fs (p ∷ [])),
      length-append (encode_frames fs) (encode_frames (p ∷ [])),
      ap length (append-nil (encode_frame p)),
      frame_length,
    ) in
    let bytes : store b.mem b.offset (encode_frame p)
        ≡ encode_frames (fs ++ p ∷ []) ++ replicate (room b fs - cost p) 0 =
      ap (λ l. store l b.offset (encode_frame p)) v.image
      ∙ ap (λ n. store (encode_frames fs ++ replicate (room b fs) 0) n (encode_frame p)) m
      ∙ store-image fs p (room b fs)
      ∙ ap (λ n. encode_frames (fs ++ p ∷ []) ++ replicate (room b fs - n) 0) frame_length in
    (
      bytes,
      total,
      omega (
        arith,
        ap length bytes,
        total,
        length-append (encode_frames (fs ++ p ∷ [])) (replicate (room b fs - cost p) 0),
        length-replicate {A = ℕ} (room b fs - cost p) 0,
        length-image b fs v,
      ),
    )

pub after_write-Filled :
    (b : MmapBuffer) (fs : List (List ℕ)) (p : List ℕ)
    → Filled b fs
    → Fits p
    → let found = leb (b.offset + cost p) (length b.mem) in
      Filled (after_write b p found) (extended fs p found)
after_write-Filled b fs p v f = elim (Bool-cases (leb (b.offset + cost p) (length b.mem))) [
  | inr e ↦
      rw e (record { image = v.image; mark = inr (ground arith); fit = v.fit; small = v.small })
  | inl e ↦
      let k : b.offset + cost p ≤ length b.mem = ground arith in
      let m : b.offset ≡ length (encode_frames fs) = elim v.mark [
        | inl m ↦ m
        | inr over ↦ absurd (omega arith)
      ] in
      let (bytes, total, size) = length-after_write b fs p v m k in
      let left : room b fs - cost p ≡ room (after_write b p true) (fs ++ p ∷ []) =
        omega (arith, size, total, m) in
      rw e (record {
        image = bytes ∙ ap (λ n. encode_frames (fs ++ p ∷ []) ++ replicate n 0) left;
        mark = inl (sym total);
        fit = All-append Fits fs (p ∷ []) v.fit (f, tt);
        small = omega (arith, size, v.small);
      })
]
