-- ===== src/Mmap/Store/Producers/Conserved.antt =====
-- What interleavings of Append, Flush and the strand of mmap/mmap_store.cpp do to the records.
use logger_high.Base.{
  ℕ, ◌<◌, ◌≡◌, refl, sym, Bool, List, [], ◌++◌, Option, ◌==◌, append-nil, subst, arith, if_both,
}
use logger_high.Mmap.Store.{MmapStore, update, try_write, retry, resume}
use logger_high.Mmap.Store.Invariant.{Loose}
use logger_high.Mmap.Store.Swaps.{Zeroed}
use logger_high.Mmap.Store.Delivery.{progress, nothing_yet}
use logger_high.Mmap.Store.Producers.Inside.{
  Inside, Inside-grow, next_round-Inside, flush_round-Inside, wrote-Inside,
}
use logger_high.Mmap.Store.Producers.{
  Thread, resting, reading, writing, refused_by, waiting, flushing, World, Event, calls_append,
  calls_flush, moves, strand_moves, no_drain, drain_on, put, begin_flush, advance, play, next_round,
  wrote, flush_round, Reserves, Within, Played, none_played, one_more,
}
use logger_high.Mmap.Store.Producers.Contents.{contents_none}
use logger_high.Mmap.Store.Producers.Settled.{Settles, Settles-sink, Settles-carries}
use logger_high.Mmap.Store.Producers.Balance.{Balanced}
use logger_high.Mmap.Store.Producers.Steps.{
  Standing, retry-Standing, resume-Standing, begin_flush-Standing,
}
use logger_high.Mmap.Store.Producers.Moves.{try_write-Written}
use logger_high.Mmap.Store.Producers.Strand.{drain_on-Moved}
use mathlib.Core.List.Perm

module _ {S : Type 0} (regions : ℕ → Option (List ℕ)) (on_persist : S → List ℕ → S × Bool) where
  -- In the store with the buffer that is being drained put back, the records balance.
  abbrev pub Conserved : S × ℕ → List (List ℕ) → World S → Type 0
  Conserved initial accepted w =
      (delivered : List (List ℕ)) × (u : MmapStore S) × Settles regions on_persist w.drain w.store u
      × Balanced regions on_persist initial accepted delivered u
      × ((k : ℕ) → Inside w.store.pool_size (w.threads k))

  -- A thread has taken a step with `mtx_` held.
  put-Conserved :
      (w : World S) (k : ℕ) (t : Thread) (s : MmapStore S) (initial : S × ℕ)
      (accepted delivered : List (List ℕ))
      → Inside w.store.pool_size t
      → ((j : ℕ) → Inside w.store.pool_size (w.threads j))
      → Standing regions on_persist w.drain w.store.pool_size initial accepted delivered s
      → Conserved initial (accepted ++ []) (put regions on_persist w k (t, s))
  put-Conserved w k t s initial accepted delivered inside others (u, st, (grown, b)) =
      let (_, size) = Settles-sink regions on_persist w.drain s u st in
      let n = w.store.pool_size in
      (
        delivered,
        u,
        st,
        subst (λ l. Balanced regions on_persist initial l delivered u) (sym (append-nil accepted))
            b,
        λ j.
            Inside-grow n s.pool_size (update w.threads k t j) (omega (arith, grown, size))
              (if_both (Inside n) (k == j) t (w.threads j) inside (others j)),
      )

  silent :
      (w : World S) (initial : S × ℕ) (accepted : List (List ℕ))
      → Conserved initial accepted w
      → Conserved initial (accepted ++ []) w
  silent w initial accepted h = subst (λ l. Conserved initial l w) (sym (append-nil accepted)) h

  module _ (w : World S) (initial : S × ℕ) (accepted delivered : List (List ℕ)) (u : MmapStore S)
      (z : Zeroed regions on_persist) (st : Settles regions on_persist w.drain w.store u)
      (b : Balanced regions on_persist initial accepted delivered u)
      (others : (k : ℕ) → Inside w.store.pool_size (w.threads k)) where
    standing :
        Standing regions on_persist w.drain w.store.pool_size initial accepted delivered w.store
    standing =
        let (_, size) = Settles-sink regions on_persist w.drain w.store u st in
        (u, st, (omega (arith, size), b))

    master_below : w.store.master < w.store.pool_size
    master_below =
        let (_, size) = Settles-sink regions on_persist w.drain w.store u st in
        let same : u.master ≡ w.store.master =
          Settles-carries regions on_persist (λ t. t.master ≡ w.store.master) w.drain w.store u
            (λ id x q. q) refl st in
        omega (arith, b.1.below.0, size, same)

    advance-Conserved :
        (k : ℕ) (t : Thread)
        → Inside w.store.pool_size t
        → Reserves regions on_persist w t
        → let (w', ps) = advance regions on_persist w k t in Conserved initial (accepted ++ ps) w'
    unfolding advance
    advance-Conserved k resting inside within =
        silent w initial accepted (delivered, u, st, b, others)
    advance-Conserved k (reading p) inside within =
        put-Conserved w k (writing p w.store.master) w.store initial accepted delivered master_below
          others standing
    advance-Conserved k (writing p cur) inside within =
        let (s, done) = try_write regions on_persist w.store cur p in
        let (u', st', b', size) =
          try_write-Written regions on_persist initial accepted delivered w.drain w.store u cur p
            inside within.0 within.1 st b in
        let n = w.store.pool_size in
        (
          delivered,
          u',
          st',
          b',
          λ j.
              Inside-grow n s.pool_size (update w.threads k (wrote p cur done) j)
                (omega (arith, size))
                (if_both (Inside n) (k == j) (wrote p cur done) (w.threads j)
                  (wrote-Inside n p cur done) (others j)),
        )
    advance-Conserved k (refused_by p cur) inside within =
        let (r, s) = retry regions on_persist w.store cur in
        let n = w.store.pool_size in
        put-Conserved w k (next_round p r) s initial accepted delivered (next_round-Inside n p r)
          others
          (retry-Standing regions on_persist w.drain n initial accepted delivered w.store cur z
            standing)
    advance-Conserved k (waiting p) inside within =
        let (r, s) = resume regions on_persist w.store in
        let n = w.store.pool_size in
        put-Conserved w k (next_round p r) s initial accepted delivered (next_round-Inside n p r)
          others
          (resume-Standing regions on_persist w.drain n initial accepted delivered w.store standing)
    advance-Conserved k flushing inside within =
        let s = (resume regions on_persist w.store).1 in
        let n = w.store.pool_size in
        if_both (λ (r : World S × List (List ℕ)). Conserved initial (accepted ++ r.1) r.0) _ _ _
          (put-Conserved w k resting s initial accepted delivered tt others (
            resume-Standing regions on_persist w.drain n initial accepted delivered w.store
              standing))
          (silent w initial accepted (delivered, u, st, b, others))

    play-Conserved :
        (e : Event)
        → Within regions on_persist w e
        → let (w', ps) = play regions on_persist w e in Conserved initial (accepted ++ ps) w'
    unfolding play
    play-Conserved (calls_append k p) within =
        if_both (λ (r : World S × List (List ℕ)). Conserved initial (accepted ++ r.1) r.0) _ _ _
          (put-Conserved w k (reading p) w.store initial accepted delivered tt others standing)
          (silent w initial accepted (delivered, u, st, b, others))
    play-Conserved (calls_flush k) within =
        let (r, s) = begin_flush regions on_persist w.store in
        let n = w.store.pool_size in
        if_both (λ (r : World S × List (List ℕ)). Conserved initial (accepted ++ r.1) r.0) _ _ _
          (put-Conserved w k (flush_round r) s initial accepted delivered (flush_round-Inside n r)
            others
            (begin_flush-Standing regions on_persist w.drain n initial accepted delivered w.store z
              standing))
          (silent w initial accepted (delivered, u, st, b, others))
    play-Conserved (moves k) within = advance-Conserved k (w.threads k) (others k) within
    play-Conserved strand_moves within =
        let (d, s) = drain_on regions on_persist w.drain w.store in
        let (moved, u', st', b', size) =
          drain_on-Moved regions on_persist initial accepted delivered w.drain w.store u st b in
        silent (record w { store = s; drain = d }) initial accepted
          (
            delivered ++ moved,
            u',
            st',
            b',
            λ k. subst (λ n. Inside n (w.threads k)) (sym size) (others k),
          )

  -- In a store whose buffers hold no frame, where new files map as zeros and are shorter than 4 GiB,
  -- where no thread is in a call and no drain is under way, let events happen in any order, of which
  -- each step of DrainOne_ is one: with the next offset of every buffer that is written to below
  -- 2 ^ 64, and with no Write between the stores and the memset of ResetForReuse on the same buffer.
  -- Then `on_persist` has been called for some payloads in a row, and the payloads for which Append
  -- returned true are, in some order, these and the frames in the buffers of the pool, of a buffer
  -- that is being drained those that were not handed out: none is lost and none is there twice.
  pub Played-Conserved :
      {w v : World S} {ps : List (List ℕ)}
      → Zeroed regions on_persist
      → Loose w.store (λ _. [])
      → ((k : ℕ) → w.threads k ≡ resting)
      → w.drain ≡ no_drain
      → Played regions on_persist w ps v
      → Conserved (progress regions on_persist w.store) ps v
  Played-Conserved {w} z blank idle none_yet none_played =
      let done = progress regions on_persist w.store in
      (
        [],
        w.store,
        subst (λ d. Settles regions on_persist d w.store w.store) (sym none_yet) refl,
        (
          λ _. [],
          blank,
          nothing_yet regions on_persist done,
          rw (contents_none w.store.pool_size) (Perm.refl []),
        ),
        λ k. subst (Inside w.store.pool_size) (sym (idle k)) tt,
      )
  Played-Conserved {w} z blank idle none_yet (one_more {ps} {v} e r within) =
      let (delivered, u, st, b, others) = Played-Conserved z blank idle none_yet r in
      play-Conserved v (progress regions on_persist w.store) ps delivered u z st b others e within
