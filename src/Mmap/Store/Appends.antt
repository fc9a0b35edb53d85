-- ===== src/Mmap/Store/Appends.antt =====
-- The loop of Append of mmap/mmap_store.cpp comes to an end for a payload that fits into a buffer, and
-- for no other.
use logger_high.Base.{
  ℕ, ◌+◌, ◌^◌, ◌≤◌, ◌<◌, ◌≡◌, refl, ◌∙◌, ap, sym, inl, inr, Bool, true, false, not, List, [], ◌∷◌,
  ◌++◌, Option, none, some, length, arith, All, ◌==◌, Bool-cases, leb, ltb, subst, replicate,
  ltb→lt, not_lt, if_true, if_false, ==_iff,
}
use logger_high.Mmap.Buffer.{write}
use logger_high.Mmap.Buffer.Fill.{cost, is_oversized, write_lem, extended}
use logger_high.Mmap.Store.{
  MmapStore, update, try_write, swap_master, drains, add_buffer, retry, retried, resume, resumed,
  swapped, acquire, acquire_after_wait, acquire_from, pop_free, create, Acquired, Retry, append,
}
use logger_high.Mmap.Store.Invariant.{Sound, Loose, update_same}
use logger_high.Mmap.Store.Loose.{try_write-Loose}
use logger_high.Mmap.Store.Tidy.{
  Tidied, AllSized, Fresh, missed-Tidied, drains-Tidied, taken-Fresh, mapped-Fresh,
}

module _ {S : Type 0} (regions : ℕ → Option (List ℕ)) (on_persist : S → List ℕ → S × Bool)
    (size : ℕ) where
  abbrev Loop : Type 0
  Loop = MmapStore S → Option (MmapStore S × Bool)

  -- The loop goes on with a fresh master.
  abbrev GoesOn : MmapStore S → Loop → Option (MmapStore S × Bool) → Type 0
  GoesOn s continue r = (t : MmapStore S) × (r ≡ continue t) × Fresh regions on_persist size s t

  -- In a full pool, a drain has made a buffer free by the end of the wait.
  waited-GoesOn :
      (n : ℕ) (s : MmapStore S) (continue : Loop)
      → Tidied regions on_persist size s
      → s.free ≡ []
      → s.config.max_buffers ≤ s.pool_size
      → 2 ≤ s.config.max_buffers
      → 0 < n
      → GoesOn s continue (
          resumed regions on_persist continue
            (resume regions on_persist (drains regions on_persist n s)))
  unfolding resume acquire_after_wait
  waited-GoesOn n s continue v none_free full two some_drain =
      let u = drains regions on_persist n s in
      let ((c', v'), pool, config, fewer) = drains-Tidied regions on_persist size n s v in
      let (c, w) = v in
      let space : 0 < length u.free = omega (
        arith,
        w.loose.count,
        v'.loose.count,
        pool,
        fewer,
        ap length none_free,
        full,
        two,
        some_drain,
      ) in
      if_false
        (λ (r : Acquired × MmapStore S).
          GoesOn s continue (resumed regions on_persist continue (swapped regions on_persist r)))
        u.stopped _ _ v'.running (by_free u u.free refl space config (c', v'))
    where
      by_free :
          (u : MmapStore S) (free : List ℕ)
          → u.free ≡ free
          → 0 < length free
          → u.config ≡ s.config
          → Tidied regions on_persist size u
          → GoesOn s continue (
              resumed regions on_persist continue
                (swapped regions on_persist (pop_free regions on_persist u free)))
      by_free u [] e h config v = absurd (omega (arith, h))
      by_free u (b ∷ rest) e h config v =
          let (tidied, start, same) = taken-Fresh regions on_persist size u b rest e v in
          (
            swap_master regions on_persist (record u { free = rest }) b,
            refl,
            (tidied, start, same ∙ config),
          )

  acquired-GoesOn :
      (n : ℕ) (s : MmapStore S) (continue : Loop) (free : List ℕ)
      → s.free ≡ free
      → AllSized regions on_persist size
      → Tidied regions on_persist size s
      → 2 ≤ s.config.max_buffers
      → 0 < n
      → GoesOn s continue (
          retried regions on_persist n continue
            (swapped regions on_persist (acquire_from regions on_persist s free)))
  acquired-GoesOn n s continue (b ∷ rest) e all v two some_drain = (
    swap_master regions on_persist (record s { free = rest }) b,
    refl,
    taken-Fresh regions on_persist size s b rest e v,
  )
  acquired-GoesOn n s continue [] e all v two some_drain =
      let P = λ (r : Acquired × MmapStore S).
        GoesOn s continue (retried regions on_persist n continue (swapped regions on_persist r)) in
      elim (Bool-cases (ltb s.pool_size s.config.max_buffers)) [
        | inl found ↦ if_true P (ltb s.pool_size s.config.max_buffers) _ _ found (
            subst (λ r. P (create regions on_persist s r)) (sym (all s.next_seq))
              (
                swap_master regions on_persist (add_buffer regions on_persist s (replicate size 0))
                    s.pool_size,
                refl,
                mapped-Fresh regions on_persist size s (ltb→lt _ _ found) v,
              ))
        | inr full ↦
            if_false P (ltb s.pool_size s.config.max_buffers) _ _ full
              (waited-GoesOn n s continue v e (not_lt _ _ full) two some_drain)
      ]

  retried-GoesOn :
      (n : ℕ) (s : MmapStore S) (continue : Loop)
      → AllSized regions on_persist size
      → Tidied regions on_persist size s
      → 2 ≤ s.config.max_buffers
      → 0 < n
      → GoesOn s continue
          (retried regions on_persist n continue (retry regions on_persist s s.master))
  unfolding retry acquire
  retried-GoesOn n s continue all v two some_drain =
      let (c, w) = v in
      let same : not (s.master == s.master) ≡ false = ap not ((==_iff s.master s.master).1 refl) in
      let P =
        λ (r : Retry × MmapStore S). GoesOn s continue (retried regions on_persist n continue r) in
      if_false P s.stopped _ _ w.running (
        if_false P (not (s.master == s.master)) _ _ same
          (acquired-GoesOn n s continue s.free refl all v two some_drain))

  legal_some : (p : List ℕ) → is_oversized p ≡ false → (length p == 0) ≡ false
  legal_some p h = ground arith

  -- A round whose Write finds no room goes on with a fresh master.
  missed-GoesOn :
      (n : ℕ) (rounds : List ℕ) (s : MmapStore S) (p : List ℕ)
      → AllSized regions on_persist size
      → Tidied regions on_persist size s
      → 2 ≤ s.config.max_buffers
      → 0 < n
      → is_oversized p ≡ false
      → (s.heap s.master).offset + cost p < 2 ^ 64
      → size < (s.heap s.master).offset + cost p
      → GoesOn s
          (λ t. append regions on_persist rounds t p)
          (append regions on_persist (n ∷ rounds) s p)
  unfolding append
  missed-GoesOn n rounds s p all v two some_drain legal fits full =
      let (t, missed, tidied, master, config) =
        missed-Tidied regions on_persist size s p v legal fits full in
      let continue : Loop = λ u. append regions on_persist rounds u p in
      let (u, on, (tidied', start, config')) =
        retried-GoesOn n t continue all tidied (subst (λ k. 2 ≤ k.max_buffers) (sym config) two)
          some_drain in
      (
        u,
        rw (legal_some p legal, missed)
            (ap (λ m. retried regions on_persist n continue (retry regions on_persist t m))
                (sym master)
              ∙ on),
        (tidied', start, config' ∙ config),
      )

  -- The payload comes last in the master, and the store is in order.
  abbrev pub Stored : MmapStore S → List ℕ → Type 0
  Stored t p =
      (c : ℕ → List (List ℕ)) × (before : List (List ℕ)) × Loose t c
      × (c t.master ≡ before ++ p ∷ [])

  -- A round whose Write finds room ends the loop.
  found-Stored :
      (n : ℕ) (rounds : List ℕ) (s : MmapStore S) (p : List ℕ)
      → Tidied regions on_persist size s
      → is_oversized p ≡ false
      → (s.heap s.master).offset + cost p < 2 ^ 64
      → (s.heap s.master).offset + cost p ≤ size
      → (t : MmapStore S) × (append regions on_persist (n ∷ rounds) s p ≡ some (t, true))
        × Stored t p
  unfolding append try_write
  found-Stored n rounds s p (c, v) legal fits room =
      let m = s.master in
      let b = s.heap m in
      let below = v.loose.below.0 in
      let sound = v.loose.buffers m below in
      let found : leb (b.offset + cost p) (length b.mem) ≡ true = ground (arith, v.sizes m below) in
      let done : (write b p).1 ≡ true =
        ap (λ r. r.1) (write_lem b p legal (Sound.not_sealed sound) fits) ∙ found in
      let t = (try_write regions on_persist s m p).0 in
      let loose = try_write-Loose regions on_persist s c m p v.loose below fits in
      (
        t,
        rw (legal_some p legal, done) refl,
        (
          update c m (extended (c m) p (write b p).1),
          c m,
          loose,
          update_same c m (extended (c m) p (write b p).1) ∙ ap (extended (c m) p) done,
        ),
      )

  -- Append of a payload of a legal length that fits into a buffer returns true, after two rounds of
  -- its loop at most, and the payload is in the store: for a store in order that is not stopped, whose
  -- free buffers are written from their start, a pool that may have two buffers, files that can be
  -- made and map to `size` bytes of zeros as the buffers do, an offset of the master that keeps to 64
  -- bits, one producer, and a strand that completes a task in a wait.
  pub append-Stored :
      (s : MmapStore S) (p : List ℕ) (n k : ℕ)
      → AllSized regions on_persist size
      → Tidied regions on_persist size s
      → 2 ≤ s.config.max_buffers
      → 0 < n
      → is_oversized p ≡ false
      → cost p ≤ size
      → (s.heap s.master).offset + cost p < 2 ^ 64
      → (t : MmapStore S) × (append regions on_persist (n ∷ k ∷ []) s p ≡ some (t, true))
        × Stored t p
  append-Stored s p n k all v two some_drain legal fits_in small =
      elim (Bool-cases (ltb size ((s.heap s.master).offset + cost p))) [
        | inr room ↦ found-Stored n (k ∷ []) s p v legal small (not_lt _ _ room)
        | inl full ↦
            let (u, on, (tidied, start, _)) =
              missed-GoesOn n (k ∷ []) s p all v two some_drain legal small (ltb→lt _ _ full) in
            let (t, e, stored) =
              found-Stored k [] u p tidied legal (ground arith) (omega (arith, start, fits_in)) in
            (t, on ∙ e, stored)
      ]

  -- Append of a payload of a legal length that is longer than a buffer goes round for ever, under the
  -- same conditions and with a strand that completes a task in every wait: it has not returned after
  -- any number of rounds.
  pub append_loops :
      (rounds : List ℕ) (s : MmapStore S) (p : List ℕ)
      → AllSized regions on_persist size
      → Tidied regions on_persist size s
      → 2 ≤ s.config.max_buffers
      → All (λ n. 0 < n) rounds
      → is_oversized p ≡ false
      → size < cost p
      → (s.heap s.master).offset + cost p < 2 ^ 64
      → append regions on_persist rounds s p ≡ none
  unfolding append
  append_loops [] s p all v two some_drain legal long small = refl
  append_loops (n ∷ rounds) s p all v two (d, ds) legal long small =
      let (u, on, (tidied, start', config)) =
        missed-GoesOn n rounds s p all v two d legal small (omega (arith, long)) in
      on
      ∙ append_loops rounds u p all tidied (subst (λ k. 2 ≤ k.max_buffers) (sym config) two) ds
          legal long (ground arith)
