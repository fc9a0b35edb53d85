-- ===== src/Mmap/Store/Producers/Settled.antt =====
-- The store of mmap/mmap_store.cpp as it stands for a drain that is under way.
--
-- While the strand is in DrainOne_ the buffer is in no list of the store. Here it is put back in front
-- of the tasks, as the buffer `b` that holds what the drain has not handed out yet: that store is in
-- order at every step of the drain.
use logger_high.Base.{
  ℕ, ◌-◌, ◌<◌, ◌≡◌, ◌∙◌, ap, sym, Bool, true, List, [], ◌∷◌, ◌++◌, Option, arith, subst, All,
  All-append, length, length-append,
}
use logger_high.Mmap.Buffer.{MmapBuffer, scrub, reset_for_reuse}
use logger_high.Mmap.Store.{MmapStore, update}
use logger_high.Mmap.Store.Invariant.{Sound, Loose, update_same, buffers-update}
use logger_high.Mmap.Store.Owners.{All-split}
use logger_high.Mmap.Store.Loose.{drain-perm, reset-Sound}
use logger_high.Mmap.Store.Delivery.{progress}
use logger_high.Mmap.Store.Producers.{
  Phase, sealed, handed, reopened, cleared, Drain, no_drain, draining,
}
use logger_high.Mmap.Store.Producers.Draining.{update_twice}
use mathlib.Core.List.{Nodup}
use mathlib.Core.List.Perm

-- How the buffer that is being drained and `b` go together.
abbrev pub Meets : Phase → MmapBuffer → MmapBuffer → Type 0
Meets sealed real b = real ≡ record b { sealed = true }
Meets handed real b = (real.sealed ≡ true) × (b ≡ reset_for_reuse real)
Meets (reopened prev_used) real b = b ≡ scrub prev_used real
Meets cleared real b = real ≡ b

module _ {S : Type 0} (regions : ℕ → Option (List ℕ)) (on_persist : S → List ℕ → S × Bool) where
  abbrev pub returned : MmapStore S → ℕ → MmapBuffer → MmapStore S
  returned s id b = record s { tasks = id ∷ s.tasks; heap = update s.heap id b }

  -- `u` is the store with the buffer under way put back.
  abbrev pub Settles : Drain → MmapStore S → MmapStore S → Type 0
  Settles no_drain s u = u ≡ s
  Settles (draining phase id) s u =
      (b : MmapBuffer) × (u ≡ returned s id b) × Meets phase (s.heap id) b

  -- Nothing but the place of one buffer is different.
  pub Settles-sink :
      (d : Drain) (s u : MmapStore S)
      → Settles d s u
      → (progress regions on_persist u ≡ progress regions on_persist s)
        × (u.pool_size ≡ s.pool_size)
  Settles-sink no_drain s u e = (ap (progress regions on_persist) e, ap MmapStore.pool_size e)
  Settles-sink (draining phase id) s u (b, e, m) =
      (ap (progress regions on_persist) e, ap MmapStore.pool_size e)

  -- The drain moves the frames of the buffer out.
  pub handed-Loose :
      (s : MmapStore S) (c : ℕ → List (List ℕ)) (id : ℕ) (b : MmapBuffer) (sink : S) (bytes : ℕ)
      → Loose (returned s id b) c
      → Sound b (c id)
        × Loose
            (returned
              (record s { sink = sink; persisted_bytes = bytes })
              id
              (reset_for_reuse (record b { sealed = true })))
            (update c id [])
  handed-Loose s c id b sink bytes v =
      let below = v.below.1.0 in
      let b' = reset_for_reuse (record b { sealed = true }) in
      let sound : Sound b (c id) =
        subst (λ x. Sound x (c id)) (update_same s.heap id b) (v.buffers id below) in
      let buffers =
        buffers-update (returned s id b) c id b' [] (reset-Sound regions on_persist b (c id) sound)
          v.buffers in
      (
        sound,
        record {
          once = v.once;
          below = v.below;
          count = v.count;
          limit = v.limit;
          flying = v.flying;
          buffers = λ j k.
              subst (λ (h : ℕ → MmapBuffer). Sound (h j) (update c id [] j))
                (update_twice s.heap id b b') (buffers j k);
        },
      )

  -- A buffer goes from the front of the tasks to the free queue.
  pub freed-Loose :
      (u : MmapStore S) (c : ℕ → List (List ℕ)) (id : ℕ) (rest : List ℕ)
      → u.tasks ≡ id ∷ rest
      → Loose u c
      → Loose (record u { tasks = rest; free = u.free ++ id ∷ []; in_flight = u.in_flight - 1 }) c
  freed-Loose u c id rest e v =
      let all = subst (λ l. All (λ i. i < u.pool_size) (l ++ u.free)) e v.below.1 in
      let (in_rest, in_free) = All-split (λ i. i < u.pool_size) rest u.free all.1 in
      record {
        once =
            Perm.nodup (drain-perm regions on_persist u.master id rest u.free)
              (subst (λ l. Nodup (u.master ∷ (l ++ u.free))) e v.once);
        below = (
          v.below.0,
          All-append (λ i. i < u.pool_size) rest (u.free ++ id ∷ []) in_rest
              (All-append (λ i. i < u.pool_size) u.free (id ∷ []) in_free (all.0, tt)),
        );
        count = omega (arith, v.count, ap length e, length-append u.free (id ∷ []));
        limit = v.limit;
        flying = omega (arith, v.flying, ap length e);
        buffers = v.buffers;
      }

  -- What a drain under way does not touch.
  pub Settles-carries :
      (Q : MmapStore S → Type 0) (d : Drain) (s u : MmapStore S)
      → ((id : ℕ) (b : MmapBuffer) → Q s → Q (returned s id b))
      → Q s
      → Settles d s u
      → Q u
  Settles-carries Q no_drain s u h q e = subst Q (sym e) q
  Settles-carries Q (draining phase id) s u h q (b, e, m) = subst Q (sym e) (h id b q)

  -- A step that keeps to the other buffers.
  pub Settles-map :
      (f : MmapStore S → MmapStore S) (d : Drain) (s u : MmapStore S) (c : ℕ → List (List ℕ))
      → ((id : ℕ) (b : MmapBuffer)
          → id < s.pool_size
          → (f (returned s id b) ≡ returned (f s) id b) × ((f s).heap id ≡ s.heap id))
      → Loose u c
      → Settles d s u
      → Settles d (f s) (f u)
  Settles-map f no_drain s u c h v e = ap f e
  Settles-map f (draining phase id) s u c h v (b, e, m) =
      let below = (subst (λ t. Loose t c) e v).below.1.0 in
      let (commutes, same) = h id b below in
      (b, ap f e ∙ commutes, subst (λ x. Meets phase x b) (sym same) m)
