-- ===== src/Mmap/Buffer/Runs.antt =====
-- Life cycle of a buffer of mmap/mmap_buffer.cpp: writes, drain, reset, and a stale file.
use logger_high.Base.{
  ℕ, zero, suc, ◌+◌, ◌^◌, ◌≤◌, ◌<◌, ◌≡◌, refl, ◌∙◌, ap, inl, inr, Bool, true, false, List, [], ◌∷◌,
  ◌++◌, some, append_assoc, append-nil, arith, length, take, drop, replicate, length-append,
  length-replicate, leb, Bool-cases, if◌then◌else◌, subst, length-take, length-drop, leb→le,
}
use logger_high.Mmap.Frame.{encode_frame, encode_frames, length-encode_frame}
use logger_high.Mmap.Buffer.{MmapBuffer, open_buffer, used, write, write_all, for_each_frame}
use logger_high.Mmap.Buffer.Drain.{frames_loop-image}
use logger_high.Mmap.Buffer.Fill.{
  Filled, room, cost, length-image, is_oversized, write_oversized, fitting-Fits, write_lem,
  after_write, extended, after_write-Filled,
}

-- The offsets that a run of writes moves past; a payload that is turned down early takes none.
abbrev pub spent : List (List ℕ) → ℕ
spent [] = 0
spent (p ∷ ps) = cost p + spent ps

-- Once a payload overflows, the offset stays past the end: nothing after it is taken.
unfoldable pub accept : ℕ → ℕ → List (List ℕ) → List (List ℕ)
accept cap at [] = []
accept cap at (p ∷ ps) =
    if is_oversized p
    then accept cap at ps
    else if leb (at + cost p) cap
    then p ∷ accept cap (at + cost p) ps
    else []

-- One write, on every branch: the frames stay in order, the new one comes last, and it is there
-- exactly if the call says so.
pub write-Filled :
    (b : MmapBuffer) (fs : List (List ℕ)) (p : List ℕ)
    → Filled b fs
    → b.sealed ≡ false
    → b.offset + cost p < 2 ^ 64
    → Filled (write b p).0 (extended fs p (write b p).1)
write-Filled b fs p v s k = elim (Bool-cases (is_oversized p)) [
  | inl e ↦ rw (write_oversized b p e) v
  | inr e ↦ rw (write_lem b p e s k) (after_write-Filled b fs p v (fitting-Fits p e))
]

after_write-sealed :
    (b : MmapBuffer) (p : List ℕ) (found : Bool) → (after_write b p found).sealed ≡ b.sealed
after_write-sealed b p true = refl
after_write-sealed b p false = refl

after_write-offset :
    (b : MmapBuffer) (p : List ℕ) (found : Bool)
    → (after_write b p found).offset ≡ b.offset + cost p
after_write-offset b p true = refl
after_write-offset b p false = refl

pub write-sealed :
    (b : MmapBuffer) (p : List ℕ)
    → b.sealed ≡ false
    → b.offset + cost p < 2 ^ 64
    → ((write b p).0.sealed ≡ false) × ((write b p).0.offset ≤ b.offset + cost p)
write-sealed b p s k = elim (Bool-cases (is_oversized p)) [
  | inl e ↦ rw (write_oversized b p e) (s, omega arith)
  | inr e ↦
      let found = leb (b.offset + cost p) (length b.mem) in
      rw (write_lem b p e s k)
        (after_write-sealed b p found ∙ s, omega (arith, after_write-offset b p found))
]

after_write-writers :
    (b : MmapBuffer) (p : List ℕ) (found : Bool) → (after_write b p found).writers ≡ b.writers
after_write-writers b p true = refl
after_write-writers b p false = refl

-- A call leaves no writer behind, on any branch.
pub write-writers :
    (b : MmapBuffer) (p : List ℕ)
    → b.sealed ≡ false
    → b.offset + cost p < 2 ^ 64
    → (write b p).0.writers ≡ b.writers
write-writers b p s k = elim (Bool-cases (is_oversized p)) [
  | inl e ↦ rw (write_oversized b p e) refl
  | inr e ↦
      rw (write_lem b p e s k) (after_write-writers b p (leb (b.offset + cost p) (length b.mem)))
]

extended-cons :
    (fs rest : List (List ℕ)) (p : List ℕ) (found : Bool)
    → extended fs p found ++ rest ≡ fs ++ (if found then p ∷ rest else rest)
extended-cons fs rest p true = append_assoc fs (p ∷ []) rest
extended-cons fs rest p false = refl

pub write_all-Filled :
    (ps : List (List ℕ)) (b : MmapBuffer) (fs : List (List ℕ))
    → Filled b fs
    → b.sealed ≡ false
    → b.offset + spent ps < 2 ^ 64
    → Filled (write_all b ps).0 (fs ++ (write_all b ps).1)
unfolding write_all
write_all-Filled [] b fs v s k = rw append-nil v
write_all-Filled (p ∷ ps) b fs v s k =
    let (s', k') = write-sealed b p s (omega arith) in
    subst (Filled (write_all (write b p).0 ps).0)
      (extended-cons fs (write_all (write b p).0 ps).1 p (write b p).1)
      (write_all-Filled ps (write b p).0 (extended fs p (write b p).1)
        (write-Filled b fs p v s (omega arith)) s' (omega arith))

-- The drain of any image hands out its frames.
pub for_each_frame-Filled :
    (b : MmapBuffer) (fs : List (List ℕ)) → Filled b fs → for_each_frame b ≡ some fs
unfolding for_each_frame
for_each_frame-Filled b fs v =
    let size = length-image b fs v in
    let reach : zero + length (encode_frames fs) ≤ used b = elim v.mark [
      | inl m ↦ omega arith
      | inr m ↦ omega arith
    ] in
    frames_loop-image fs (suc (used b)) b.mem (used b) 0 (room b fs) v.image reach
      (omega (arith, v.small)) v.fit (omega arith)

pub zeros-Filled :
    (b : MmapBuffer) (n : ℕ) → b.mem ≡ replicate n 0 → b.offset ≡ 0 → n < 2 ^ 32 → Filled b []
zeros-Filled b n e z small =
    let m : n ≡ room b [] = omega (arith, ap length e, length-replicate {A = ℕ} n 0) in
    record {
      image = e ∙ ap (λ k. replicate k 0) m;
      mark = inl z;
      fit = tt;
      small = omega (arith, m, small);
    }

pub fresh-Filled : (n : ℕ) → n < 2 ^ 32 → Filled (open_buffer (replicate n 0)) []
fresh-Filled n small = zeros-Filled (open_buffer (replicate n 0)) n refl refl small

-- A buffer over a zeroed file of less than 4 GiB that takes any run of writes whose sizes sum to less
-- than 2 ^ 64: the drain hands out exactly the payloads whose Write returned true, in the order of the calls.
pub drain-write_all :
    (n : ℕ) (ps : List (List ℕ))
    → n < 2 ^ 32
    → spent ps < 2 ^ 64
    → let done = write_all (open_buffer (replicate n 0)) ps in for_each_frame done.0 ≡ some done.1
drain-write_all n ps small h =
    for_each_frame-Filled _ _ (
      write_all-Filled ps (open_buffer (replicate n 0)) [] (fresh-Filled n small) refl
        (omega arith))

pub length-store :
    (mem : List ℕ) (at : ℕ) (bytes : List ℕ)
    → at + length bytes ≤ length mem
    → length (take at mem ++ (bytes ++ drop (at + length bytes) mem)) ≡ length mem
length-store mem at bytes h = omega (
  arith,
  length-append (take at mem) (bytes ++ drop (at + length bytes) mem),
  length-append bytes (drop (at + length bytes) mem),
  length-take at mem,
  length-drop (at + length bytes) mem,
)

accept_past : (cap at : ℕ) (ps : List (List ℕ)) → cap < at → accept cap at ps ≡ []
unfolding accept
accept_past cap at [] h = refl
accept_past cap at (p ∷ ps) h = ground (arith, accept_past cap at ps h)

-- Which payloads a run of writes on an open buffer takes, while its offset keeps to 64 bits, by a
-- rule over their lengths alone: of those of a legal size, the ones up to the first that overflows
-- the region, and none after it.
pub write_all-accept :
    (ps : List (List ℕ)) (b : MmapBuffer)
    → b.sealed ≡ false
    → b.offset + spent ps < 2 ^ 64
    → (write_all b ps).1 ≡ accept (length b.mem) b.offset ps
unfolding write_all accept
write_all-accept [] b s k = refl
write_all-accept (p ∷ ps) b s k = elim (Bool-cases (is_oversized p)) [
  | inl e ↦ rw (write_oversized b p e, e) (write_all-accept ps b s (omega arith))
  | inr e ↦ elim (Bool-cases (leb (b.offset + cost p) (length b.mem))) [
    | inl found ↦
        rw (write_lem b p e s (omega arith), e, found)
          (ap (λ l. p ∷ l)
            (write_all-accept ps (after_write b p true) s (omega arith)
              ∙ ap (λ n. accept n (b.offset + cost p) ps)
                  (length-store b.mem b.offset (encode_frame p)
                    (omega (arith, length-encode_frame p, leb→le _ _ found)))))
    | inr full ↦
        rw (write_lem b p e s (omega arith), e, full)
          (write_all-accept ps (after_write b p false) s (omega arith)
            ∙ accept_past (length b.mem) (b.offset + cost p) ps (ground arith))
  ]
]
