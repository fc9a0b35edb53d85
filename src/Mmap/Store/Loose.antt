-- ===== src/Mmap/Store/Loose.antt =====
-- Each operation of mmap/mmap_store.cpp keeps the pool in order, whatever its buffers hold.
use logger_high.Base.{
  ℕ, ◌+◌, ◌-◌, ◌^◌, ◌<◌, ◌≡◌, refl, ap, inl, inr, Bool, true, List, [], ◌∷◌, ◌++◌, Option, length,
  arith, All, All-append, append_assoc, ◌==◌, Bool-cases, length-append, subst, replicate,
}
use logger_high.Mmap.Buffer.{MmapBuffer, write, seal, reset_for_reuse}
use logger_high.Mmap.Buffer.Fill.{Filled, cost, extended}
use logger_high.Mmap.Buffer.Runs.{for_each_frame-Filled}
use logger_high.Mmap.Buffer.Reuse.{reset_for_reuse-Filled}
use logger_high.Mmap.Store.{
  MmapStore, update, try_write, swap_master, drain_one, drain_next, persist_all, add_buffer,
}
use logger_high.Mmap.Store.Invariant.{Sound, Loose, owners, not_mem_above, buffers-update}
use mathlib.Core.List.{Nodup, Nodup-cons, Perm, perm_append_singleton}
use mathlib.Core.List.Perm
use logger_high.Mmap.Store.Owners.{
  write-Sound, swap-perm, fresh-perm, All-split, All-grow, fresh-Sound,
}

module _ {S : Type 0} (regions : ℕ → Option (List ℕ)) (on_persist : S → List ℕ → S × Bool) where
  -- A Write to any buffer of the pool.
  pub try_write-Loose :
      (s : MmapStore S) (c : ℕ → List (List ℕ)) (i : ℕ) (p : List ℕ)
      → Loose s c
      → i < s.pool_size
      → (s.heap i).offset + cost p < 2 ^ 64
      → let r = try_write regions on_persist s i p in Loose r.0 (update c i (extended (c i) p r.1))
  unfolding try_write
  try_write-Loose s c i p v h k =
      let done = (write (s.heap i) p).1 in
      let sound = write-Sound (s.heap i) (c i) p (v.buffers i h) k in
      record {
        once = v.once;
        below = v.below;
        count = v.count;
        limit = v.limit;
        flying = v.flying;
        buffers =
            buffers-update s c i (write (s.heap i) p).0 (extended (c i) p done) sound v.buffers;
      }

  -- A file that could not be made costs its number only.
  pub failed-Loose :
      (s : MmapStore S) (c : ℕ → List (List ℕ))
      → Loose s c
      → Loose (record s { next_seq = s.next_seq + 1 }) c
  failed-Loose s c v = record {
    once = v.once;
    below = v.below;
    count = v.count;
    limit = v.limit;
    flying = v.flying;
    buffers = v.buffers;
  }

  pub swap_free-Loose :
      (s : MmapStore S) (c : ℕ → List (List ℕ)) (b : ℕ) (rest : List ℕ)
      → s.free ≡ b ∷ rest
      → Loose s c
      → Loose (swap_master regions on_persist (record s { free = rest }) b) c
  unfolding swap_master
  swap_free-Loose s c b rest e v =
      let all = subst (λ l. All (λ i. i < s.pool_size) (s.tasks ++ l)) e v.below.1 in
      let (in_tasks, in_free) = All-split (λ i. i < s.pool_size) s.tasks (b ∷ rest) all in
      record {
        once =
            Perm.nodup (swap-perm s.master b s.tasks rest)
              (subst (λ l. Nodup (s.master ∷ (s.tasks ++ l))) e v.once);
        below = (
          in_free.0,
          All-append (λ i. i < s.pool_size) (s.tasks ++ s.master ∷ []) rest
              (All-append (λ i. i < s.pool_size) s.tasks (s.master ∷ []) in_tasks (v.below.0, tt))
              in_free.1,
        );
        count = omega (arith, v.count, ap length e, length-append s.tasks (s.master ∷ []));
        limit = v.limit;
        flying = omega (arith, v.flying, length-append s.tasks (s.master ∷ []));
        buffers = v.buffers;
      }

  pub swap_fresh-Loose :
      (s : MmapStore S) (c : ℕ → List (List ℕ)) (n : ℕ)
      → s.pool_size < s.config.max_buffers
      → n < 2 ^ 32
      → Loose s c
      → Loose
          (swap_master regions on_persist
            (add_buffer regions on_persist s (replicate n 0))
            s.pool_size)
          (update c s.pool_size [])
  unfolding swap_master
  swap_fresh-Loose s c n room small v =
      let new = s.pool_size in
      let (in_tasks, in_free) = All-split (λ i. i < new) s.tasks s.free v.below.1 in
      let apart = not_mem_above new (owners s) v.below in
      record {
        once = Perm.nodup (fresh-perm s.master new s.tasks s.free) (Nodup-cons.1 (apart, v.once));
        below = (
          omega arith,
          All-append (λ i. i < new + 1) (s.tasks ++ s.master ∷ []) s.free
              (All-append (λ i. i < new + 1) s.tasks (s.master ∷ []) (All-grow new s.tasks in_tasks)
                (omega (arith, v.below.0), tt))
              (All-grow new s.free in_free),
        );
        count = omega (arith, v.count, length-append s.tasks (s.master ∷ []));
        limit = omega arith;
        flying = omega (arith, v.flying, length-append s.tasks (s.master ∷ []));
        buffers = λ i k. elim (Bool-cases (new == i)) [
          | inl e ↦ rw e (fresh-Sound n small)
          | inr e ↦ rw e (v.buffers i (ground arith))
        ];
      }

  pub drain-perm :
      (m id : ℕ) (rest free : List ℕ)
      → Perm (m ∷ id ∷ (rest ++ free)) (m ∷ (rest ++ (free ++ id ∷ [])))
  drain-perm m id rest free =
      subst (λ l. Perm (m ∷ id ∷ (rest ++ free)) (m ∷ l)) (append_assoc rest free (id ∷ []))
        (Perm.cons m (Perm.symm (perm_append_singleton id (rest ++ free))))

  -- What DrainOne_ sees and leaves, for a buffer that no call is using.
  pub drain_one_lem :
      (s : MmapStore S) (id : ℕ) (fs : List (List ℕ))
      → Sound (s.heap id) fs
      → let done = persist_all regions on_persist (s.sink, s.persisted_bytes) fs in
        drain_one regions on_persist s id ≡ record s {
          heap = update s.heap id (reset_for_reuse (record (s.heap id) { sealed = true }));
          sink = done.0;
          persisted_bytes = done.1;
          free = s.free ++ id ∷ [];
          in_flight = s.in_flight - 1;
        }
  unfolding drain_one seal
  drain_one_lem s id fs v =
      let b : MmapBuffer = record (s.heap id) { sealed = true } in
      let f : Filled b fs = record {
        image = v.filled.image;
        mark = v.filled.mark;
        fit = v.filled.fit;
        small = v.filled.small;
      } in
      let z : ((s.heap id).writers == 0) ≡ true = rw v.no_writers refl in
      rw (z, for_each_frame-Filled b fs f) refl

  pub reset-Sound :
      (b : MmapBuffer) (fs : List (List ℕ))
      → Sound b fs
      → Sound (reset_for_reuse (record b { sealed = true })) []
  unfolding reset_for_reuse
  reset-Sound b fs v =
      let sealed : MmapBuffer = record b { sealed = true } in
      let f : Filled sealed fs = record {
        image = v.filled.image;
        mark = v.filled.mark;
        fit = v.filled.fit;
        small = v.filled.small;
      } in
      record {
        filled = (reset_for_reuse-Filled sealed fs f).0;
        not_sealed = refl;
        no_writers = v.no_writers;
      }

  -- The strand's next task.
  pub drain_next-Loose :
      (s : MmapStore S) (c : ℕ → List (List ℕ)) (id : ℕ) (rest : List ℕ)
      → s.tasks ≡ id ∷ rest
      → Loose s c
      → let s' = drain_next regions on_persist s in
        Loose s' (update c id [])
        × ((s'.sink, s'.persisted_bytes)
            ≡ persist_all regions on_persist (s.sink, s.persisted_bytes) (c id))
        × (s'.master ≡ s.master)
        × (s'.tasks ≡ rest)
        × (s'.free ≡ s.free ++ id ∷ [])
  unfolding drain_next
  drain_next-Loose s c id rest e v =
      let all = subst (λ l. All (λ i. i < s.pool_size) (l ++ s.free)) e v.below.1 in
      let (in_rest, in_free) = All-split (λ i. i < s.pool_size) rest s.free all.1 in
      let once = subst (λ l. Nodup (s.master ∷ (l ++ s.free))) e v.once in
      let sound = v.buffers id all.0 in
      let s₁ : MmapStore S = record s { tasks = rest } in
      rw (e, drain_one_lem s₁ id (c id) sound)
        (
          record {
            once = Perm.nodup (drain-perm s.master id rest s.free) once;
            below = (
              v.below.0,
              All-append (λ i. i < s.pool_size) rest (s.free ++ id ∷ []) in_rest
                  (All-append (λ i. i < s.pool_size) s.free (id ∷ []) in_free (all.0, tt)),
            );
            count = omega (arith, v.count, ap length e, length-append s.free (id ∷ []));
            limit = v.limit;
            flying = omega (arith, v.flying, ap length e);
            buffers = buffers-update s c id _ [] (reset-Sound (s.heap id) (c id) sound) v.buffers;
          },
          refl,
          refl,
          refl,
          refl,
        )
