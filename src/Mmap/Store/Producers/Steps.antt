-- ===== src/Mmap/Store/Producers/Steps.antt =====
-- The locked code of mmap/mmap_store.cpp, while a drain is under way.
use logger_high.Base.{
  ℕ, ◌+◌, ◌^◌, ◌<◌, ◌≡◌, refl, ap, sym, ◌≢◌, Bool, List, ◌∷◌, Option, ltb, arith, if_both,
  replicate,
}
use logger_high.Mmap.Buffer.{MmapBuffer, open_buffer, used}
use logger_high.Mmap.Store.{MmapStore, retry, resume, Retry, swap_master, add_buffer}
use logger_high.Mmap.Store.Invariant.{update_other}
use logger_high.Mmap.Store.Swaps.{Zeroed, retry-keeps, resume-keeps, swapped-acquire}
use logger_high.Mmap.Store.Producers.{Drain, begin_flush}
use logger_high.Mmap.Store.Producers.Draining.{update_swap}
use logger_high.Mmap.Store.Producers.Settled.{Settles, returned, Settles-carries, Settles-map}
use logger_high.Mmap.Store.Producers.Balance.{Grown, failed-Kept, free-Kept, fresh-Kept}

module _ {S : Type 0} (regions : ℕ → Option (List ℕ)) (on_persist : S → List ℕ → S × Bool)
    (d : Drain) (n : ℕ) (initial : S × ℕ) (accepted delivered : List (List ℕ)) where
  -- The records are accounted for in the store with the buffer under way put back.
  abbrev pub Standing : MmapStore S → Type 0
  Standing s =
      (u : MmapStore S) × Settles regions on_persist d s u
      × Grown regions on_persist n initial accepted delivered u

  failed-Standing :
      (s : MmapStore S) → Standing s → Standing (record s { next_seq = s.next_seq + 1 })
  failed-Standing s (u, st, h) =
      let f : MmapStore S → MmapStore S = λ t. record t { next_seq = t.next_seq + 1 } in
      (
        f u,
        Settles-map regions on_persist f d s u h.1.0 (λ id b below. (refl, refl)) h.1.1 st,
        failed-Kept regions on_persist n initial accepted delivered u h,
      )

  free-Standing :
      (s : MmapStore S) (b : ℕ) (rest : List ℕ)
      → s.free ≡ b ∷ rest
      → Standing s
      → Standing (swap_master regions on_persist (record s { free = rest }) b)
  unfolding swap_master
  free-Standing s b rest e (u, st, h) =
      let f : MmapStore S → MmapStore S =
        λ t. swap_master regions on_persist (record t { free = rest }) b in
      let q =
        Settles-carries regions on_persist (λ t. t.free ≡ b ∷ rest) d s u (λ id x q. q) e st in
      (
        f u,
        Settles-map regions on_persist f d s u h.1.0 (λ id x below. (refl, refl)) h.1.1 st,
        free-Kept regions on_persist n initial accepted delivered u b rest q h,
      )

  fresh-Standing :
      (s : MmapStore S) (m : ℕ)
      → s.pool_size < s.config.max_buffers
      → m < 2 ^ 32
      → Standing s
      → Standing (
          swap_master regions on_persist
            (add_buffer regions on_persist s (replicate m 0))
            s.pool_size)
  unfolding swap_master
  fresh-Standing s m room small (u, st, h) =
      let f : MmapStore S → MmapStore S = λ t.
        swap_master regions on_persist (add_buffer regions on_persist t (replicate m 0))
          t.pool_size in
      let q =
        Settles-carries regions on_persist (λ t. t.pool_size < t.config.max_buffers) d s u
          (λ id x q. q) room st in
      let commutes : (id : ℕ) (b : MmapBuffer)
          → id < s.pool_size
          → (f (returned regions on_persist s id b) ≡ returned regions on_persist (f s) id b)
            × ((f s).heap id ≡ s.heap id) =
        λ id b below.
          let apart : id ≢ s.pool_size = λ e. absurd (omega (arith, e, below)) in
          let fresh : MmapBuffer = open_buffer (replicate m 0) in
          (
            ap (λ heap. record (returned regions on_persist (f s) id b) { heap = heap })
                (update_swap s.heap id s.pool_size b fresh apart),
            update_other s.heap s.pool_size id fresh (λ e. apart (sym e)),
          ) in
      (
        f u,
        Settles-map regions on_persist f d s u h.1.0 commutes h.1.1 st,
        fresh-Kept regions on_persist n initial accepted delivered u m q small h,
      )

  pub retry-Standing :
      (s : MmapStore S) (cur : ℕ)
      → Zeroed regions on_persist
      → Standing s
      → Standing (retry regions on_persist s cur).1
  retry-Standing s cur z h =
      retry-keeps regions on_persist Standing failed-Standing free-Standing fresh-Standing s cur z h

  pub resume-Standing : (s : MmapStore S) → Standing s → Standing (resume regions on_persist s).1
  resume-Standing s h =
      resume-keeps regions on_persist Standing failed-Standing free-Standing fresh-Standing s h

  pub begin_flush-Standing :
      (s : MmapStore S)
      → Zeroed regions on_persist
      → Standing s
      → Standing (begin_flush regions on_persist s).1
  unfolding begin_flush
  begin_flush-Standing s z h =
      if_both (λ (r : Retry × MmapStore S). Standing r.1) s.stopped _ _ h
        (if_both (λ (r : Retry × MmapStore S). Standing r.1) (ltb 0 (used (s.heap s.master))) _ _
          (swapped-acquire regions on_persist Standing failed-Standing free-Standing fresh-Standing
            s z h)
          h)
