-- ===== src/Mmap/Store/Producers/Strand.antt =====
-- The steps of DrainOne_ in mmap/mmap_store.cpp, one at a time.
use logger_high.Base.{
  ℕ, ◌-◌, ◌<◌, ◌≡◌, refl, ◌∙◌, ap, sym, Bool, true, List, [], ◌∷◌, ◌++◌, Option, some, subst,
  append_assoc, append-nil, All,
}
use logger_high.Mmap.Buffer.{MmapBuffer, seal, reopen, scrub, used, reset_for_reuse, for_each_frame}
use logger_high.Mmap.Buffer.Runs.{for_each_frame-Filled}
use logger_high.Mmap.Store.{MmapStore, update, persist_all}
use logger_high.Mmap.Store.Invariant.{Sound, Loose, update_same}
use logger_high.Mmap.Store.Delivery.{persist_all-append}
use logger_high.Mmap.Store.Producers.{
  sealed, handed, reopened, cleared, Drain, no_drain, draining, drain_on, next_drain, begin_drain,
}
use logger_high.Mmap.Store.Producers.Contents.{contents, contents_drain}
use logger_high.Mmap.Store.Producers.Draining.{update_twice, update_back}
use logger_high.Mmap.Store.Producers.Settled.{Settles, returned, handed-Loose, freed-Loose}
use logger_high.Mmap.Store.Producers.Balance.{Balanced}
use mathlib.Core.List.{Perm}
use mathlib.Core.List.Perm

pub seal_idle : (b : MmapBuffer) → b.writers ≡ 0 → seal b ≡ some (record b { sealed = true })
unfolding seal
seal_idle b w = rw w refl

sealed_frames :
    (b : MmapBuffer) (fs : List (List ℕ))
    → Sound b fs
    → for_each_frame (record b { sealed = true }) ≡ some fs
sealed_frames b fs v = for_each_frame-Filled _ fs record {
  image = v.filled.image;
  mark = v.filled.mark;
  fit = v.filled.fit;
  small = v.filled.small;
}

module _ {S : Type 0} (regions : ℕ → Option (List ℕ)) (on_persist : S → List ℕ → S × Bool)
    (initial : S × ℕ) (accepted delivered : List (List ℕ)) where
  -- What a step of the strand leaves, of a store of `n` buffers.
  abbrev pub Moved : ℕ → Drain × MmapStore S → Type 0
  Moved n r =
      (moved : List (List ℕ)) × (u : MmapStore S) × Settles regions on_persist r.0 r.1 u
      × Balanced regions on_persist initial accepted (delivered ++ moved) u
      × (r.1.pool_size ≡ n)

  abbrev Undone : MmapStore S → Type 0
  Undone = Balanced regions on_persist initial accepted delivered

  -- A step that hands nothing out.
  silent :
      (n : ℕ) (r : Drain × MmapStore S) (u : MmapStore S)
      → Settles regions on_persist r.0 r.1 u
      → Undone u
      → r.1.pool_size ≡ n
      → Moved n r
  silent n r u st b size = (
    [],
    u,
    st,
    subst (λ l. Balanced regions on_persist initial accepted l u) (sym (append-nil delivered)) b,
    size,
  )

  begins :
      (s : MmapStore S) (tasks : List ℕ)
      → s.tasks ≡ tasks
      → Undone s
      → Moved s.pool_size (next_drain regions on_persist s tasks)
  begins s [] e b = silent s.pool_size (no_drain, s) s refl b refl
  begins s (id ∷ rest) e (c, v, d, balance) =
      let (below, _) = subst (λ l. All (λ i. i < s.pool_size) (l ++ s.free)) e v.below.1 in
      let b = s.heap id in
      let shut : MmapBuffer = record b { sealed = true } in
      let t : MmapStore S = record s { tasks = rest; heap = update s.heap id shut } in
      let back : s ≡ returned regions on_persist t id b =
        ap (λ heap. record s { heap = heap })
          (sym (update_twice s.heap id shut b ∙ update_back s.heap id b refl))
        ∙ ap (λ tasks. record (returned regions on_persist t id b) { tasks = tasks }) e in
      let stopped = seal_idle b (Sound.no_writers (v.buffers id below)) in
      subst (λ q. Moved s.pool_size (begin_drain regions on_persist s id rest q)) (sym stopped)
        (silent s.pool_size (draining sealed id, t) s (b, back, update_same s.heap id shut)
          (c, v, d, balance) refl)

  -- ForEachFrame.
  hands :
      (id : ℕ) (s : MmapStore S) (b : MmapBuffer)
      → s.heap id ≡ record b { sealed = true }
      → Undone (returned regions on_persist s id b)
      → Moved s.pool_size (drain_on regions on_persist (draining sealed id) s)
  unfolding drain_on
  hands id s b m (c, v, d, balance) =
      let fs = c id in
      let n = s.pool_size in
      let done = persist_all regions on_persist (s.sink, s.persisted_bytes) fs in
      let (sound, loose) = handed-Loose regions on_persist s c id b done.0 done.1 v in
      let frames : for_each_frame (s.heap id) ≡ some fs =
        ap for_each_frame m ∙ sealed_frames b fs sound in
      let left = contents (update c id []) n in
      let moved : Perm (delivered ++ contents c n) ((delivered ++ fs) ++ left) =
        rw (append_assoc delivered fs left)
          (Perm.append_left delivered (contents_drain c id n v.below.1.0)) in
      let t : MmapStore S = record s { sink = done.0; persisted_bytes = done.1 } in
      let after : Moved n (draining handed id, t) = (
        fs,
        returned regions on_persist t id (reset_for_reuse (record b { sealed = true })),
        (
          reset_for_reuse (record b { sealed = true }),
          refl,
          (ap MmapBuffer.sealed m, ap reset_for_reuse (sym m)),
        ),
        (
          update c id [],
          loose,
          ap (λ r. persist_all regions on_persist r fs) d
              ∙ sym (persist_all-append regions on_persist delivered fs initial),
          Perm.trans balance moved,
        ),
        refl,
      ) in
      rw frames after

  -- The first two stores of ResetForReuse, then its memset.
  reopens :
      (id : ℕ) (s : MmapStore S) (b : MmapBuffer)
      → b ≡ reset_for_reuse (s.heap id)
      → Undone (returned regions on_persist s id b)
      → Moved s.pool_size (drain_on regions on_persist (draining handed id) s)
  unfolding drain_on reset_for_reuse
  reopens id s b m bal =
      let real = s.heap id in
      let t : MmapStore S = record s { heap = update s.heap id (reopen real) } in
      silent s.pool_size (draining (reopened (used real)) id, t)
        (returned regions on_persist s id b)
        (
          b,
          ap (λ heap. record (returned regions on_persist t id b) { heap = heap })
              (sym (update_twice s.heap id (reopen real) b)),
          m ∙ ap (scrub (used real)) (sym (update_same s.heap id (reopen real))),
        )
        bal refl

  clears :
      (id prev_used : ℕ) (s : MmapStore S) (b : MmapBuffer)
      → b ≡ scrub prev_used (s.heap id)
      → Undone (returned regions on_persist s id b)
      → Moved s.pool_size (drain_on regions on_persist (draining (reopened prev_used) id) s)
  unfolding drain_on
  clears id prev_used s b m bal =
      let clear = scrub prev_used (s.heap id) in
      let t : MmapStore S = record s { heap = update s.heap id clear } in
      silent s.pool_size (draining cleared id, t) (returned regions on_persist s id b)
        (
          b,
          ap (λ heap. record (returned regions on_persist t id b) { heap = heap })
              (sym (update_twice s.heap id clear b)),
          update_same s.heap id clear ∙ sym m,
        )
        bal refl

  frees :
      (id : ℕ) (s : MmapStore S) (b : MmapBuffer)
      → s.heap id ≡ b
      → Undone (returned regions on_persist s id b)
      → Moved s.pool_size (drain_on regions on_persist (draining cleared id) s)
  unfolding drain_on
  frees id s b m (c, v, d, balance) =
      let t : MmapStore S = record s { free = s.free ++ id ∷ []; in_flight = s.in_flight - 1 } in
      let loose : Loose t c =
        subst (λ heap. Loose (record t { heap = heap }) c) (update_back s.heap id b m)
          (freed-Loose regions on_persist (returned regions on_persist s id b) c id s.tasks refl
            v) in
      silent s.pool_size (no_drain, t) t refl (c, loose, d, balance) refl

  -- The strand's next step hands out the frames of one buffer, or none.
  pub drain_on-Moved :
      (d : Drain) (s u : MmapStore S)
      → Settles regions on_persist d s u
      → Undone u
      → Moved s.pool_size (drain_on regions on_persist d s)
  unfolding drain_on
  drain_on-Moved no_drain s u e b = begins s s.tasks refl (subst Undone e b)
  drain_on-Moved (draining sealed id) s u (b, e, m) bal = hands id s b m (subst Undone e bal)
  drain_on-Moved (draining handed id) s u (b, e, m) bal = reopens id s b m.1 (subst Undone e bal)
  drain_on-Moved (draining (reopened prev_used) id) s u (b, e, m) bal =
      clears id prev_used s b m (subst Undone e bal)
  drain_on-Moved (draining cleared id) s u (b, e, m) bal = frees id s b m (subst Undone e bal)
