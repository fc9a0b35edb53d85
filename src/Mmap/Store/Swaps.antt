-- ===== src/Mmap/Store/Swaps.antt =====
-- What Append's locked part and its wait in mmap/mmap_store.cpp do to the frames in the store.
use logger_high.Base.{
  ℕ, ◌≡◌, refl, ◌+◌, ◌^◌, ◌<◌, ◌∙◌, inl, inr, Bool, not, List, [], ◌∷◌, Option, some, ◌==◌,
  Bool-cases, Option-cases, ltb, replicate, ltb→lt, if_both,
}
use logger_high.Mmap.Store.{
  MmapStore, update, acquire, acquire_from, acquire_after_wait, Acquired, retry, resume, Retry,
  swapped, grow, pop_free, swap_master, add_buffer,
}
use logger_high.Mmap.Store.Invariant.{Inv, pending}
use logger_high.Mmap.Store.Operations.{swap_free-Inv, swap_fresh-Inv}
use logger_high.Mmap.Store.Loose.{failed-Loose}

module _ {S : Type 0} (regions : ℕ → Option (List ℕ)) (on_persist : S → List ℕ → S × Bool) where
  -- A file that the store maps anew reads as zeros, and is shorter than 4 GiB.
  abbrev pub Zeroed : Type 0
  Zeroed =
      (q : ℕ) (image : List ℕ)
      → regions q ≡ some image
      → (n : ℕ) × (n < 2 ^ 32) × (image ≡ replicate n 0)

  -- What holds whichever way a new master is found, `P` being kept by a file that cannot be mapped,
  -- by a swap to the head of the free queue, and by a swap to a new buffer over zeros.
  module _ (P : MmapStore S → Type 0)
      (failed : (s : MmapStore S) → P s → P (record s { next_seq = s.next_seq + 1 }))
      (free : (s : MmapStore S) (b : ℕ) (rest : List ℕ)
        → s.free ≡ b ∷ rest
        → P s
        → P (swap_master regions on_persist (record s { free = rest }) b))
      (fresh : (s : MmapStore S) (n : ℕ)
        → s.pool_size < s.config.max_buffers
        → n < 2 ^ 32
        → P s
        → P (
            swap_master regions on_persist
              (add_buffer regions on_persist s (replicate n 0))
              s.pool_size)) where
    swapped-grow :
        (s : MmapStore S)
        → Zeroed
        → P s
        → P (swapped regions on_persist (grow regions on_persist s)).1
    swapped-grow s z h = elim (Bool-cases (ltb s.pool_size s.config.max_buffers)) [
      | inr full ↦ rw full h
      | inl room ↦ elim (Option-cases (regions s.next_seq)) [
        | inl unmapped ↦ rw (room, unmapped) (failed s h)
        | inr (image, mapped) ↦
            let (n, small, zeros) = z s.next_seq image mapped in
            rw (room, mapped, zeros) (fresh s n (ltb→lt _ _ room) small h)
      ]
    ]

    swapped-pop_free :
        (s : MmapStore S) (queue : List ℕ)
        → s.free ≡ queue
        → P s
        → P (swapped regions on_persist (pop_free regions on_persist s queue)).1
    swapped-pop_free s [] q h = h
    swapped-pop_free s (b ∷ rest) q h = free s b rest q h

    swapped-acquire_from :
        (s : MmapStore S) (queue : List ℕ)
        → s.free ≡ queue
        → Zeroed
        → P s
        → P (swapped regions on_persist (acquire_from regions on_persist s queue)).1
    swapped-acquire_from s [] q z h = swapped-grow s z h
    swapped-acquire_from s (b ∷ rest) q z h = swapped-pop_free s (b ∷ rest) q h

    pub swapped-acquire :
        (s : MmapStore S)
        → Zeroed
        → P s
        → P (swapped regions on_persist (acquire regions on_persist s)).1
    unfolding acquire
    swapped-acquire s z h = swapped-acquire_from s s.free refl z h

    pub retry-keeps :
        (s : MmapStore S) (cur : ℕ) → Zeroed → P s → P (retry regions on_persist s cur).1
    unfolding retry
    retry-keeps s cur z h =
        if_both (λ (r : Retry × MmapStore S). P r.1) s.stopped _ _ h
          (if_both (λ (r : Retry × MmapStore S). P r.1) (not (s.master == cur)) _ _ h
            (swapped-acquire s z h))

    pub resume-keeps : (s : MmapStore S) → P s → P (resume regions on_persist s).1
    unfolding resume acquire_after_wait
    resume-keeps s h =
        if_both (λ (r : Acquired × MmapStore S). P (swapped regions on_persist r).1) s.stopped _ _ h
          (swapped-pop_free s s.free refl h)

  -- The store is well formed, and its frames are `fs`.
  abbrev pub Has : MmapStore S → List (List ℕ) → Type 0
  Has s fs = (c : ℕ → List (List ℕ)) × Inv s c × (pending s c ≡ fs)

  -- The store has come as far as `done` in what it hands out, and its frames are `fs`.
  abbrev pub Stands : S × ℕ → List (List ℕ) → MmapStore S → Type 0
  Stands done fs s = ((s.sink, s.persisted_bytes) ≡ done) × Has s fs

  failed-Stands :
      (done : S × ℕ) (fs : List (List ℕ)) (s : MmapStore S)
      → Stands done fs s
      → Stands done fs (record s { next_seq = s.next_seq + 1 })
  failed-Stands done fs s (d, (c, v, e)) =
      (d, (c, record { loose = failed-Loose regions on_persist s c v.loose; idle = v.idle }, e))

  free-Stands :
      (done : S × ℕ) (fs : List (List ℕ)) (s : MmapStore S) (b : ℕ) (rest : List ℕ)
      → s.free ≡ b ∷ rest
      → Stands done fs s
      → Stands done fs (swap_master regions on_persist (record s { free = rest }) b)
  unfolding swap_master
  free-Stands done fs s b rest q (d, (c, v, e)) =
      let (v', e') = swap_free-Inv regions on_persist s c b rest q v in (d, (c, v', e' ∙ e))

  fresh-Stands :
      (done : S × ℕ) (fs : List (List ℕ)) (s : MmapStore S) (n : ℕ)
      → s.pool_size < s.config.max_buffers
      → n < 2 ^ 32
      → Stands done fs s
      → Stands done fs (
          swap_master regions on_persist
            (add_buffer regions on_persist s (replicate n 0))
            s.pool_size)
  unfolding swap_master
  fresh-Stands done fs s n room small (d, (c, v, e)) =
      let (v', e') = swap_fresh-Inv regions on_persist s c n room small v in
      (d, (update c s.pool_size [], v', e' ∙ e))

  -- The locked part of Append's loop moves no frame, whatever it comes to.
  pub retry-Stands :
      (s : MmapStore S) (cur : ℕ) (done : S × ℕ) (fs : List (List ℕ))
      → Zeroed
      → Stands done fs s
      → Stands done fs (retry regions on_persist s cur).1
  retry-Stands s cur done fs z h =
      retry-keeps (Stands done fs) (failed-Stands done fs) (free-Stands done fs)
        (fresh-Stands done fs) s cur z h

  pub resume-Stands :
      (s : MmapStore S) (done : S × ℕ) (fs : List (List ℕ))
      → Stands done fs s
      → Stands done fs (resume regions on_persist s).1
  resume-Stands s done fs h =
      resume-keeps (Stands done fs) (failed-Stands done fs) (free-Stands done fs)
        (fresh-Stands done fs) s h
