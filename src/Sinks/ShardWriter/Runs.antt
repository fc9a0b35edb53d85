-- ===== src/Sinks/ShardWriter/Runs.antt =====
-- A run of WriteFrame calls of sinks/shard_writer.cpp with a disk that takes every byte.
use logger_high.Base.{
  ℕ, ◌+◌, ◌≤◌, ◌<◌, ◌≡◌, refl, ◌∙◌, ap, sym, ◌⊎◌, inl, inr, true, List, [], ◌∷◌, ◌++◌, ok, length,
  ltb, if◌then◌else◌, arith, All, append_assoc, append-nil, length-append, Bool-cases, not_lt,
  All-append,
}
use logger_high.Sinks.ShardWriter.Steps.{IsWorking, rotated, appended, write_frame_working}
use logger_high.Sinks.ShardWriter.{
  ShardWriter, Shard, Io, header, header_bytes, needs_rotation, write_frame, append_bytes,
}

-- The frames of each shard, the newest shard first.
abbrev pub Groups : Type 0
Groups = List (List (List ℕ))

abbrev pub flat : List (List ℕ) → List ℕ
flat [] = []
flat (f ∷ fs) = f ++ flat fs

-- All frames, oldest first.
abbrev pub total : Groups → List (List ℕ)
total [] = []
total (g ∷ gs) = total gs ++ g

-- Every shard is a whole header and then its frames.
abbrev pub Images : List ℕ → List Shard → Groups → Type 0
Images k [] [] = Unit {0}
Images k (s ∷ ss) (g ∷ gs) = (s.bytes ≡ header k ++ flat g) × Images k ss gs
Images k _ _ = ⊥

abbrev pub NonEmpty : List ℕ → Type 0
NonEmpty f = 0 < length f

-- A shard keeps to the limit, or holds a single frame.
abbrev pub Bounded : ℕ → List (List ℕ) → Type 0
Bounded limit g = (header_bytes + length (flat g) ≤ limit) ⊎ (length g ≡ 1)

pub record Holds (s : ShardWriter) (g : List (List ℕ)) (gs : Groups) : Type 0 where
  pub opened : s.file_open ≡ true
  pub key : length s.client_eph_pub ≡ 32
  pub room : header_bytes < s.shard_limit
  pub size : s.current_size ≡ header_bytes + length (flat g)
  pub images : Images s.client_eph_pub s.shards (g ∷ gs)
  pub frames : All NonEmpty g
  pub bounded : All (Bounded s.shard_limit) (g ∷ gs)

-- The groups after a call.
abbrev pub place : ShardWriter → List ℕ → List (List ℕ) → Groups → List (List ℕ) × Groups
place s frame g gs = if needs_rotation s frame then (frame ∷ [], g ∷ gs) else (g ++ frame ∷ [], gs)

flat-snoc : (g : List (List ℕ)) (f : List ℕ) → flat (g ++ f ∷ []) ≡ flat g ++ f
flat-snoc [] f = append-nil f
flat-snoc (x ∷ g) f = ap (λ l. x ++ l) (flat-snoc g f) ∙ sym (append_assoc x (flat g) f)

empty_of_flat : (g : List (List ℕ)) → All NonEmpty g → length (flat g) ≡ 0 → g ≡ []
empty_of_flat [] a h = refl
empty_of_flat (f ∷ g) a h = absurd (omega (arith, length-append f (flat g), a.0))

total-place :
    (s : ShardWriter) (f : List ℕ) (g : List (List ℕ)) (gs : Groups)
    → let r = place s f g gs in total (r.0 ∷ r.1) ≡ total (g ∷ gs) ++ f ∷ []
total-place s f g gs = elim (Bool-cases (needs_rotation s f)) [
  | inl e ↦ rw e refl
  | inr e ↦ rw e (sym (append_assoc (total gs) g (f ∷ [])))
]

Images-append :
    (k : List ℕ) (ss : List Shard) (g : List (List ℕ)) (gs : Groups) (f : List ℕ)
    → Images k ss (g ∷ gs)
    → Images k (append_bytes ss f) ((g ++ f ∷ []) ∷ gs)
Images-append k [] g gs f v = v
Images-append k (s ∷ ss) g gs f (e, v) = (
  ap (λ l. l ++ f) e
      ∙ append_assoc (header k) (flat g) f
      ∙ ap (λ l. header k ++ l) (sym (flat-snoc g f)),
  v,
)

rotated-Holds :
    (s : ShardWriter) (g : List (List ℕ)) (gs : Groups)
    → Holds s g gs
    → Holds (rotated s) [] (g ∷ gs)
rotated-Holds s g gs v = record {
  opened = refl;
  key = v.key;
  room = v.room;
  size = omega arith;
  images = (sym (append-nil (header s.client_eph_pub)), v.images);
  frames = tt;
  bounded = (inl (omega (arith, v.room)), v.bounded);
}

append-Holds :
    (s : ShardWriter) (g : List (List ℕ)) (gs : Groups) (f : List ℕ)
    → Holds s g gs
    → 0 < length f
    → ((g ≡ []) ⊎ (s.current_size + length f ≤ s.shard_limit))
    → Holds (appended s f) (g ++ f ∷ []) gs
append-Holds s g gs f v n fits =
    let longer : length (flat (g ++ f ∷ [])) ≡ length (flat g) + length f =
      ap length (flat-snoc g f) ∙ length-append (flat g) f in
    record {
      opened = v.opened;
      key = v.key;
      room = v.room;
      size = omega (arith, longer, v.size);
      images = Images-append s.client_eph_pub s.shards g gs f v.images;
      frames = All-append NonEmpty g (f ∷ []) v.frames (n, tt);
      bounded = (
        elim fits [
          | inl e ↦ inr (ap (λ l. length (l ++ f ∷ [])) e)
          | inr h ↦ inl (omega (arith, longer, v.size))
        ],
        v.bounded.1,
      );
    }

-- One call on a disk that takes every byte: it returns normally, every shard stays a whole header
-- and whole frames, no shard passes the limit unless it holds one frame alone, and the frame comes
-- last.
pub write_frame-Holds :
    (s : ShardWriter) (g : List (List ℕ)) (gs : Groups) (f : List ℕ) (io : Io)
    → Holds s g gs
    → IsWorking io f
    → 0 < length f
    → let done = write_frame f io s in
      let r = place s f g gs in
      (done.1 ≡ ok tt) × Holds done.0 r.0 r.1 × (total (r.0 ∷ r.1) ≡ total (g ∷ gs) ++ f ∷ [])
write_frame-Holds s g gs f io v w n =
    rw (write_frame_working f io s v.opened v.key w n) (refl, placed, total-place s f g gs)
  where
    placed :
        let r = place s f g gs in
        Holds (appended (if needs_rotation s f then rotated s else s) f) r.0 r.1
    placed = elim (Bool-cases (needs_rotation s f)) [
      | inl e ↦ rw e (append-Holds (rotated s) [] (g ∷ gs) f (rotated-Holds s g gs v) n (inl refl))
      | inr e ↦ rw e (
          append-Holds s g gs f v n (elim (Bool-cases (ltb header_bytes s.current_size)) [
            | inl more ↦ inr (ground (arith, more, e))
            | inr none_yet ↦
                inl (empty_of_flat g v.frames (omega (arith, v.size, not_lt _ _ none_yet)))
          ]))
    ]

-- A run of calls, each with what its I/O answered.
unfoldable pub write_frames : List (List ℕ × Io) → ShardWriter → ShardWriter
write_frames [] s = s
write_frames ((f, io) ∷ rest) s = write_frames rest (write_frame f io s).0

abbrev pub frames_of : List (List ℕ × Io) → List (List ℕ)
frames_of [] = []
frames_of ((f, io) ∷ rest) = f ∷ frames_of rest

abbrev pub AllWorking : List (List ℕ × Io) → Type 0
AllWorking [] = Unit {0}
AllWorking ((f, io) ∷ rest) = IsWorking io f × (0 < length f) × AllWorking rest

-- A run of calls on such a disk: the frames of the shards, oldest shard first, are the frames that
-- were there and then those of the calls, in their order.
pub write_frames-Holds :
    (calls : List (List ℕ × Io)) (s : ShardWriter) (g : List (List ℕ)) (gs : Groups)
    → Holds s g gs
    → AllWorking calls
    → (g' : List (List ℕ)) × (gs' : Groups) × Holds (write_frames calls s) g' gs'
      × (total (g' ∷ gs') ≡ total (g ∷ gs) ++ frames_of calls)
unfolding write_frames
write_frames-Holds [] s g gs v w = (g, gs, v, sym (append-nil (total (g ∷ gs))))
write_frames-Holds ((f, io) ∷ rest) s g gs v w =
    let (returned, v', order) = write_frame-Holds s g gs f io v w.0 w.1 in
    let r = place s f g gs in
    let (g', gs', v'', order') = write_frames-Holds rest (write_frame f io s).0 r.0 r.1 v' w.2 in
    (
      g',
      gs',
      v'',
      order'
          ∙ ap (λ l. l ++ frames_of rest) order
          ∙ append_assoc (total (g ∷ gs)) (f ∷ []) (frames_of rest),
    )
