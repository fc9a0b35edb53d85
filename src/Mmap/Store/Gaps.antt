-- ===== src/Mmap/Store/Gaps.antt =====
-- Flush of mmap/mmap_store.cpp where it does not do what its header says: no buffer to swap in, and a
-- record in a free buffer.
use logger_high.Base.{
  ℕ, zero, suc, ◌+◌, ◌^◌, ◌≤◌, ◌<◌, ◌≡◌, ◌≢◌, refl, ◌∙◌, ap, sym, subst, if_true, if_false, Bool,
  false, List, [], ◌++◌, Option, none, some, ltb, lt→ltb, le→ltb, if◌then◌else◌,
}
use logger_high.Mmap.Buffer.{used}
use logger_high.Mmap.Store.{
  MmapStore, acquire, acquire_from, grow, pop_free, drains, drain_next, drain_first, flush_swapped,
  try_write, flush, then_end, update, flush_taken, flush_begin, flush_end, Acquired, must_wait,
}
use logger_high.Mmap.Store.Invariant.{Loose, update_other}
use logger_high.Mmap.Store.Delivery.{progress}
use logger_high.Mmap.Store.Loose.{try_write-Loose}
use logger_high.Mmap.Buffer.Fill.{cost, extended}
use mathlib.Core.List.{Mem, Nodup-cons, mem-append}
use mathlib.Core.Logic.Or

module _ {S : Type 0} (regions : ℕ → Option (List ℕ)) (on_persist : S → List ℕ → S × Bool) where
  -- With no task, the strand changes nothing.
  drains_idle : (n : ℕ) (s : MmapStore S) → s.tasks ≡ [] → drains regions on_persist n s ≡ s
  unfolding drains drain_next
  drains_idle zero s e = refl
  drains_idle (suc n) s e =
      ap (λ l. drains regions on_persist n (drain_first regions on_persist s l)) e
      ∙ drains_idle n s e

  -- In a store that is not stopped, where the master holds bytes, no buffer is free, waits for its
  -- drain or is in flight, and the pool may grow but the next file cannot be made, Flush returns, and
  -- all that has changed is the number for the next file: nothing is handed out.
  pub flush_skips :
      (s : MmapStore S)
      → s.stopped ≡ false
      → 0 < used (s.heap s.master)
      → s.free ≡ []
      → s.tasks ≡ []
      → s.in_flight ≡ 0
      → s.pool_size < s.config.max_buffers
      → regions s.next_seq ≡ none
      → let t = record s { next_seq = s.next_seq + 1 } in
        (n : ℕ)
        → (flush_begin regions on_persist n s ≡ some t)
          × (flush_end regions on_persist n t ≡ some t)
  unfolding flush_begin flush_end acquire
  flush_skips s o u f k i p m n =
      let some_bytes = lt→ltb 0 (used (s.heap s.master)) u in
      let growing = lt→ltb s.pool_size s.config.max_buffers p in
      let t = record s { next_seq = s.next_seq + 1 } in
      (rw (o, some_bytes, f, growing, m) refl, rw (drains_idle n t k, i) refl)

  -- In a store that is not stopped, where the master holds bytes, no buffer is free or waits for its
  -- drain, and the pool may not grow, the first half of Flush waits on, however many tasks the strand
  -- runs.
  pub flush_hangs :
      (s : MmapStore S)
      → s.stopped ≡ false
      → 0 < used (s.heap s.master)
      → s.free ≡ []
      → s.tasks ≡ []
      → s.config.max_buffers ≤ s.pool_size
      → (n : ℕ) → flush_begin regions on_persist n s ≡ none
  unfolding flush_begin acquire
  flush_hangs s o u f k p n =
      let full : ltb s.pool_size s.config.max_buffers ≡ false = le→ltb _ _ p in
      let Hangs = λ (r : Option (MmapStore S)). r ≡ none in
      let waits : Hangs (flush_swapped regions on_persist n (must_wait, s)) =
        subst
          (λ t. Hangs (
            if t.stopped
            then some t
            else flush_taken regions on_persist (pop_free regions on_persist t t.free)))
          (sym (drains_idle n s k))
          (if_false Hangs s.stopped _ _ o
            (ap (λ l. flush_taken regions on_persist (pop_free regions on_persist s l)) f)) in
      let acquired : Hangs (flush_swapped regions on_persist n (grow regions on_persist s)) =
        if_false (λ (r : Acquired × MmapStore S). Hangs (flush_swapped regions on_persist n r)) _ _
          _ full waits in
      if_false Hangs s.stopped _ _ o (
        if_true Hangs (ltb 0 (used (s.heap s.master))) _ _ (lt→ltb _ _ u) (
          ap (λ l. flush_swapped regions on_persist n (acquire_from regions on_persist s l)) f
          ∙ acquired))

  flush_end_at_rest :
      (s : MmapStore S) (n : ℕ)
      → s.tasks ≡ []
      → s.in_flight ≡ 0
      → flush_end regions on_persist n s ≡ some s
  unfolding flush_end
  flush_end_at_rest s n k i = rw (drains_idle n s k, i) refl

  -- In a store in order that is not stopped, where the master holds no byte and no buffer waits for
  -- its drain or is in flight, let a producer Write to a free buffer, which it read as the master
  -- before that was swapped, with the next offset below 2 ^ 64. Then Flush returns and has changed
  -- nothing: if the Write returned true, the payload comes last in the free buffer, and nothing more
  -- has gone to `on_persist`.
  pub flush_strands :
      (s : MmapStore S) (c : ℕ → List (List ℕ)) (i : ℕ) (p : List ℕ)
      → Loose s c
      → Mem i s.free
      → s.stopped ≡ false
      → used (s.heap s.master) ≡ 0
      → s.tasks ≡ []
      → s.in_flight ≡ 0
      → i < s.pool_size
      → (s.heap i).offset + cost p < 2 ^ 64
      → let (t, done) = try_write regions on_persist s i p in
        (n : ℕ)
        → (flush regions on_persist n t ≡ some t)
          × Loose t (update c i (extended (c i) p done))
          × (progress regions on_persist t ≡ progress regions on_persist s)
  unfolding try_write flush flush_begin
  flush_strands s c i p v m o u k z below fits n =
      let (t, done) = try_write regions on_persist s i p in
      let apart : i ≢ s.master = λ e.
        (Nodup-cons.0 v.once).0
          (subst (λ j. Mem j (s.tasks ++ s.free)) e (mem-append.1 (Or.inr m))) in
      let same : used (t.heap s.master) ≡ 0 =
        ap used (update_other s.heap i s.master _ apart) ∙ u in
      let Still = λ (r : Option (MmapStore S)). r ≡ some t in
      let first : flush_begin regions on_persist n t ≡ some t =
        if_false Still s.stopped _ _ o
          (if_false Still (ltb 0 (used (t.heap s.master))) _ _ (ap (ltb 0) same) refl) in
      (
        ap (then_end regions on_persist n) first ∙ flush_end_at_rest t n k z,
        try_write-Loose regions on_persist s c i p v below fits,
        refl,
      )
