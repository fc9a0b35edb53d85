-- ===== src/Mmap/Store/Producers/Moves.antt =====
-- A Write of mmap/mmap_store.cpp while a drain is under way, and the steps of the drain.
use logger_high.Base.{
  ℕ, ◌+◌, ◌^◌, ◌<◌, ◌≡◌, refl, ◌∙◌, ap, sym, ◌≢◌, inl, inr, Bool, true, false, List, ◌++◌, Option,
  arith, subst, append-nil, ◌==◌, Bool-cases,
}
use logger_high.Mmap.Buffer.{MmapBuffer, write}
use logger_high.Mmap.Buffer.Fill.{cost}
use logger_high.Mmap.Store.{MmapStore, update, try_write}
use logger_high.Mmap.Store.Invariant.{update_same, update_other}
use logger_high.Mmap.Store.Producers.{
  Phase, sealed, handed, reopened, cleared, Drain, no_drain, draining, Settling, accepted_by,
}
use logger_high.Mmap.Store.Producers.Draining.{write_sealed, update_twice, update_back, update_swap}
use logger_high.Mmap.Store.Producers.Settled.{Meets, Settles, returned}
use logger_high.Mmap.Store.Producers.Balance.{Balanced, write-Balanced}

module _ {S : Type 0} (regions : ℕ → Option (List ℕ)) (on_persist : S → List ℕ → S × Bool)
    (initial : S × ℕ) (accepted delivered : List (List ℕ)) where
  -- What a Write of `p` leaves, in a store of `n` buffers.
  abbrev pub Written : Drain → List ℕ → ℕ → MmapStore S × Bool → Type 0
  Written d p n r =
      (u : MmapStore S) × Settles regions on_persist d r.0 u
      × Balanced regions on_persist initial (accepted ++ accepted_by p r.1) delivered u
      × (r.0.pool_size ≡ n)

  abbrev Undone : List (List ℕ) → MmapStore S → Type 0
  Undone = λ acc. Balanced regions on_persist initial acc delivered

  -- A Write that is turned down.
  refused :
      (d : Drain) (s u : MmapStore S) (cur : ℕ) (p : List ℕ)
      → (s.heap cur).sealed ≡ true
      → Settles regions on_persist d s u
      → Undone accepted u
      → Written d p s.pool_size (try_write regions on_persist s cur p)
  unfolding try_write
  refused d s u cur p shut st b =
      let same : (try_write regions on_persist s cur p) ≡ (s, false) =
        ap (λ (w : MmapBuffer × Bool). (record s { heap = update s.heap cur w.0 }, w.1))
          (write_sealed (s.heap cur) p shut)
        ∙ ap (λ heap. (record s { heap = heap }, false))
            (update_back s.heap cur (s.heap cur) refl) in
      subst (Written d p s.pool_size) (sym same)
        (u, st, subst (λ acc. Undone acc u) (sym (append-nil accepted)) b, refl)

  -- A Write to another buffer than the one under way.
  elsewhere :
      (phase : Phase) (id : ℕ) (s : MmapStore S) (b : MmapBuffer) (cur : ℕ) (p : List ℕ)
      → id ≢ cur
      → cur < s.pool_size
      → (s.heap cur).offset + cost p < 2 ^ 64
      → Meets phase (s.heap id) b
      → Undone accepted (returned regions on_persist s id b)
      → Written (draining phase id) p s.pool_size (try_write regions on_persist s cur p)
  unfolding try_write
  elsewhere phase id s b cur p apart below k m bal =
      let u = returned regions on_persist s id b in
      let r = try_write regions on_persist s cur p in
      let there : s.heap cur ≡ u.heap cur = sym (update_other s.heap id cur b apart) in
      let (bal', _) =
        write-Balanced regions on_persist u initial accepted delivered cur p below
          (subst (λ x. x.offset + cost p < 2 ^ 64) there k) bal in
      let swapped : try_write regions on_persist u cur p
          ≡ (returned regions on_persist r.0 id b, r.1) =
        ap
          (λ (x : MmapBuffer). (record u { heap = update u.heap cur (write x p).0 }, (write x p).1))
          (sym there)
        ∙ ap (λ heap. (record u { heap = heap }, r.1))
            (update_swap s.heap id cur b (write (s.heap cur) p).0 apart) in
      (
        returned regions on_persist r.0 id b,
        (
          b,
          refl,
          subst (λ x. Meets phase x b)
              (sym (update_other s.heap cur id (write (s.heap cur) p).0 (λ e. apart (sym e)))) m,
        ),
        subst (λ (q : MmapStore S × Bool). Undone (accepted ++ accepted_by p q.1) q.0) swapped bal',
        refl,
      )

  -- A Write to a buffer that is open and empty again, and not yet in the free queue.
  behind_clearing :
      (id : ℕ) (s : MmapStore S) (b : MmapBuffer) (p : List ℕ)
      → (s.heap id).offset + cost p < 2 ^ 64
      → s.heap id ≡ b
      → Undone accepted (returned regions on_persist s id b)
      → Written (draining cleared id) p s.pool_size (try_write regions on_persist s id p)
  unfolding try_write
  behind_clearing id s b p k m bal =
      let u = returned regions on_persist s id b in
      let r = try_write regions on_persist s id p in
      let w = (write (s.heap id) p).0 in
      let there : s.heap id ≡ u.heap id = m ∙ sym (update_same s.heap id b) in
      let below : id < s.pool_size = bal.1.below.1.0 in
      let (bal', _) =
        write-Balanced regions on_persist u initial accepted delivered id p below
          (subst (λ x. x.offset + cost p < 2 ^ 64) there k) bal in
      let swapped : try_write regions on_persist u id p
          ≡ (returned regions on_persist r.0 id w, r.1) =
        ap (λ (x : MmapBuffer). (record u { heap = update u.heap id (write x p).0 }, (write x p).1))
          (sym there)
        ∙ ap (λ heap. (record u { heap = heap }, r.1))
            (update_twice s.heap id b w ∙ sym (update_twice s.heap id w w)) in
      (
        returned regions on_persist r.0 id w,
        (w, refl, update_same s.heap id w),
        subst (λ (q : MmapStore S × Bool). Undone (accepted ++ accepted_by p q.1) q.0) swapped bal',
        refl,
      )

  -- A Write to any buffer of the pool, the stale one of a thread that read the master long ago
  -- included, at any point of a drain but the one where ResetForReuse is about to clear that buffer.
  pub try_write-Written :
      (d : Drain) (s u : MmapStore S) (cur : ℕ) (p : List ℕ)
      → cur < s.pool_size
      → (s.heap cur).offset + cost p < 2 ^ 64
      → Settling regions on_persist d cur
      → Settles regions on_persist d s u
      → Undone accepted u
      → Written d p s.pool_size (try_write regions on_persist s cur p)
  try_write-Written no_drain s u cur p below k calm e b =
      let (b', size) =
        write-Balanced regions on_persist s initial accepted delivered cur p below k
          (subst (Undone accepted) e b) in
      ((try_write regions on_persist s cur p).0, refl, b', size)
  try_write-Written (draining phase id) s u cur p below k calm (b, e, m) bal =
      elim (Bool-cases (id == cur)) [
        | inr other ↦
            elsewhere phase id s b cur p (ground arith) below k m (subst (Undone accepted) e bal)
        | inl here ↦ let same : id ≡ cur = ground arith in on_it phase same k calm m
      ]
    where
      on_it :
          (ph : Phase)
          → id ≡ cur
          → (s.heap cur).offset + cost p < 2 ^ 64
          → Settling regions on_persist (draining ph id) cur
          → Meets ph (s.heap id) b
          → Written (draining ph id) p s.pool_size (try_write regions on_persist s cur p)
      on_it sealed q k calm m =
          let shut : (s.heap cur).sealed ≡ true =
            ap (λ i. (s.heap i).sealed) (sym q) ∙ ap MmapBuffer.sealed m in
          refused (draining sealed id) s u cur p shut (b, e, m) bal
      on_it handed q k calm m =
          let shut : (s.heap cur).sealed ≡ true = ap (λ i. (s.heap i).sealed) (sym q) ∙ m.0 in
          refused (draining handed id) s u cur p shut (b, e, m) bal
      on_it (reopened prev_used) q k calm m = absurd (calm q)
      on_it cleared q k calm m =
          subst
            (λ i. Written (draining cleared id) p s.pool_size (try_write regions on_persist s i p))
            q
            (behind_clearing id s b p (subst (λ i. (s.heap i).offset + cost p < 2 ^ 64) (sym q) k) m
              (subst (Undone accepted) e bal))
