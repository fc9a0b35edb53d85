-- ===== src/Mmap/Store/Handover.antt =====
-- The first half of Flush of mmap/mmap_store.cpp: the master is handed over to the strand.
use logger_high.Base.{
  ℕ, ◌+◌, ◌-◌, ◌≤◌, ◌<◌, ◌^◌, ◌≡◌, refl, ◌∙◌, ap, sym, subst, inl, inr, Bool, false, List, [], ◌∷◌,
  ◌++◌, Option, some, length, arith, ltb, replicate, Bool-cases, length-append, All, if_true,
  if_false, ltb→lt, not_lt,
}
use logger_high.Mmap.Frame.{length-encode_frames_cons}
use logger_high.Mmap.Buffer.{MmapBuffer, used}
use logger_high.Mmap.Buffer.Fill.{Filled, length-image}
use logger_high.Mmap.Store.{
  MmapStore, update, acquire, acquire_from, create, pop_free, swap_master, add_buffer, drains,
  flush_taken, flush_swapped, flush_begin, must_wait, Acquired,
}
use logger_high.Mmap.Store.Invariant.{Inv, Sound, pending, update_same}
use logger_high.Mmap.Store.Operations.{swap_free-Inv, swap_fresh-Inv}
use logger_high.Mmap.Store.Start.{AllMapped}
use logger_high.Mmap.Store.Swaps.{Has}
use logger_high.Mmap.Store.Delivery.{progress, nothing_yet}
use logger_high.Mmap.Store.Drains.{Keeps, drains-Keeps}

-- A buffer with no used byte holds no frame.
no_frames_of_unused : (b : MmapBuffer) (fs : List (List ℕ)) → Filled b fs → used b ≡ 0 → fs ≡ []
no_frames_of_unused b [] v h = refl
no_frames_of_unused b (p ∷ fs) v h = absurd (elim v.mark [
  | inl m ↦ omega (arith, m, h, length-image b (p ∷ fs) v, length-encode_frames_cons p fs)
  | inr past ↦ omega (arith, past, h, length-image b (p ∷ fs) v, length-encode_frames_cons p fs)
])

module _ {S : Type 0} (regions : ℕ → Option (List ℕ)) (on_persist : S → List ℕ → S × Bool) where
  abbrev pub Empty : List (List ℕ) → Type 0
  Empty fs = fs ≡ []

  abbrev Any : List (List ℕ) → Type 0
  Any fs = Unit {0}

  -- Nothing is in the master, and `on_persist` has got the rest up to what waits for a drain.
  abbrev pub Ready : S × ℕ → List (List ℕ) → MmapStore S → Type 0
  Ready initial accepted t =
      Keeps regions on_persist Empty refl initial accepted t
      × (t.stopped ≡ false)
      × (2 ≤ t.config.max_buffers)

  -- The result of the locked part of Flush.
  abbrev pub Begun : MmapStore S → List (List ℕ) → Option (MmapStore S) → Type 0
  Begun s fs r =
      (t : MmapStore S) × (r ≡ some t)
      × Ready (progress regions on_persist s) fs t
      × (length t.tasks ≤ length s.tasks + 1)

  -- A free buffer becomes the master, and the old one waits for its drain.
  taken-Ready :
      (initial : S × ℕ) (accepted : List (List ℕ)) (s : MmapStore S) (b : ℕ) (rest : List ℕ)
      → s.free ≡ b ∷ rest
      → s.stopped ≡ false
      → 2 ≤ s.config.max_buffers
      → Keeps regions on_persist Any tt initial accepted s
      → Ready initial accepted (swap_master regions on_persist (record s { free = rest }) b)
        × (length (swap_master regions on_persist (record s { free = rest }) b).tasks
            ≡ length s.tasks + 1)
  unfolding swap_master
  taken-Ready initial accepted s b rest q o two (delivered, c, e, d, v, _) =
      let (v', p) = swap_free-Inv regions on_persist s c b rest q v in
      let idle = subst (λ l. All (λ i. c i ≡ []) l) q v.idle in
      (
        ((delivered, c, e ∙ ap (λ l. delivered ++ l) (sym p), d, v', idle.0), o, two),
        omega (arith, length-append s.tasks (s.master ∷ [])),
      )

  kept_now :
      (s : MmapStore S) (fs : List (List ℕ)) (c : ℕ → List (List ℕ))
      → Inv s c
      → pending s c ≡ fs
      → Keeps regions on_persist Any tt (progress regions on_persist s) fs s
  kept_now s fs c v e =
      ([], c, sym e, nothing_yet regions on_persist (progress regions on_persist s), v, tt)

  -- The wait for a free buffer, in a pool that is full and has two buffers or more.
  waited-Begun :
      (n : ℕ) (s : MmapStore S) (fs : List (List ℕ)) (c : ℕ → List (List ℕ))
      → Inv s c
      → pending s c ≡ fs
      → s.stopped ≡ false
      → s.free ≡ []
      → s.config.max_buffers ≤ s.pool_size
      → 2 ≤ s.config.max_buffers
      → 0 < n
      → Begun s fs (flush_swapped regions on_persist n (must_wait, s))
  waited-Begun n s fs c v e o none_free full two some_drain =
      let (k, (sizes, configs, stops, _, _), fewer) =
        drains-Keeps regions on_persist Any tt n (progress regions on_persist s) fs s
          (kept_now s fs c v e) in
      let s' = drains regions on_persist n s in
      let still : s'.stopped ≡ false = stops ∙ o in
      let (_, c', _, _, v', _) = k in
      let space : 0 < length s'.free = omega (
        arith,
        v'.loose.count,
        v.loose.count,
        sizes,
        fewer,
        ap length none_free,
        full,
        two,
        some_drain,
      ) in
      if_false (Begun s fs) s'.stopped _ _ still (
        by_free s'.free refl space still (subst (λ r. 2 ≤ r.max_buffers) (sym configs) two) k fewer)
    where
      by_free :
          (free : List ℕ)
          → (drains regions on_persist n s).free ≡ free
          → 0 < length free
          → (drains regions on_persist n s).stopped ≡ false
          → 2 ≤ (drains regions on_persist n s).config.max_buffers
          → Keeps regions on_persist Any tt
              (progress regions on_persist s)
              fs
              (drains regions on_persist n s)
          → length (drains regions on_persist n s).tasks ≡ length s.tasks - n
          → Begun s fs (
              flush_taken regions on_persist
                (pop_free regions on_persist (drains regions on_persist n s) free))
      by_free [] q h st two k fewer = absurd (omega (arith, h))
      by_free (b ∷ rest) q h st two k fewer =
          let (ready, more) =
            taken-Ready (progress regions on_persist s) fs (drains regions on_persist n s) b rest q
              st two k in
          (
            swap_master regions on_persist (record (drains regions on_persist n s) { free = rest })
                b,
            refl,
            ready,
            omega (arith, more, fewer),
          )

  -- A new buffer over zeros becomes the master.
  fresh-Begun :
      (n : ℕ) (s : MmapStore S) (fs : List (List ℕ)) (c : ℕ → List (List ℕ)) (k : ℕ)
      → Inv s c
      → pending s c ≡ fs
      → s.stopped ≡ false
      → s.pool_size < s.config.max_buffers
      → k < 2 ^ 32
      → Begun s fs
          (flush_swapped regions on_persist n (create regions on_persist s (some (replicate k 0))))
  unfolding swap_master
  fresh-Begun n s fs c k v e o found small =
      let (v', p) = swap_fresh-Inv regions on_persist s c k found small v in
      (
        swap_master regions on_persist (add_buffer regions on_persist s (replicate k 0))
            s.pool_size,
        refl,
        (
          (
            [],
            update c s.pool_size [],
            sym (p ∙ e),
            nothing_yet regions on_persist (progress regions on_persist s),
            v',
            update_same c s.pool_size [],
          ),
          o,
          omega (arith, found, v.loose.count),
        ),
        omega (arith, length-append s.tasks (s.master ∷ [])),
      )

  acquired-Begun :
      (n : ℕ) (s : MmapStore S) (fs : List (List ℕ)) (c : ℕ → List (List ℕ)) (free : List ℕ)
      → AllMapped regions on_persist
      → Inv s c
      → pending s c ≡ fs
      → s.stopped ≡ false
      → 2 ≤ s.config.max_buffers
      → 0 < n
      → s.free ≡ free
      → Begun s fs (flush_swapped regions on_persist n (acquire_from regions on_persist s free))
  acquired-Begun n s fs c (b ∷ rest) all v e o two some_drain q =
      let (ready, more) =
        taken-Ready (progress regions on_persist s) fs s b rest q o two (kept_now s fs c v e) in
      (
        swap_master regions on_persist (record s { free = rest }) b,
        refl,
        ready,
        omega (arith, more),
      )
  acquired-Begun n s fs c [] all v e o two some_drain q =
      let P = λ (r : Acquired × MmapStore S). Begun s fs (flush_swapped regions on_persist n r) in
      elim (Bool-cases (ltb s.pool_size s.config.max_buffers)) [
        | inl found ↦
            let (k, small, mapped) = all s.next_seq in
            if_true P (ltb s.pool_size s.config.max_buffers) _ _ found (
              subst (λ r. P (create regions on_persist s r)) (sym mapped)
                (fresh-Begun n s fs c k v e o (ltb→lt _ _ found) small))
        | inr full ↦
            if_false P (ltb s.pool_size s.config.max_buffers) _ _ full
              (waited-Begun n s fs c v e o q (not_lt _ _ full) two some_drain)
      ]

  pub flush_begin-Begun :
      (n : ℕ) (s : MmapStore S) (fs : List (List ℕ))
      → AllMapped regions on_persist
      → Has regions on_persist s fs
      → s.stopped ≡ false
      → 2 ≤ s.config.max_buffers
      → 0 < n
      → Begun s fs (flush_begin regions on_persist n s)
  unfolding flush_begin acquire
  flush_begin-Begun n s fs all (c, v, e) o two some_drain =
      if_false (Begun s fs) s.stopped _ _ o (elim (Bool-cases (ltb 0 (used (s.heap s.master)))) [
        | inl some_bytes ↦
            if_true (Begun s fs) (ltb 0 (used (s.heap s.master))) _ _ some_bytes
              (acquired-Begun n s fs c s.free all v e o two some_drain refl)
        | inr unused ↦
            let sound = v.loose.buffers s.master v.loose.below.0 in
            let blank =
              no_frames_of_unused (s.heap s.master) (c s.master) (Sound.filled sound)
                (omega (arith, not_lt _ _ unused)) in
            if_false (Begun s fs) (ltb 0 (used (s.heap s.master))) _ _ unused (
              s,
              refl,
              (
                (
                  [],
                  c,
                  sym e,
                  nothing_yet regions on_persist (progress regions on_persist s),
                  v,
                  blank,
                ),
                o,
                two,
              ),
              omega arith,
            )
      ])
