-- ===== src/Mmap/Store/Flush.antt =====
-- Flush of mmap/mmap_store.cpp: when it returns, and what it has then handed out.
use logger_high.Base.{
  ℕ, ◌≤◌, ◌<◌, ◌≡◌, refl, ◌∙◌, ap, sym, Bool, false, List, [], ◌∷◌, ◌++◌, Option, some, length,
  arith, append-nil, subst,
}
use logger_high.Mmap.Store.{MmapStore, drains, flush_begin, flush_end, persist_all}
use logger_high.Mmap.Store.Invariant.{pending, gather}
use logger_high.Mmap.Store.Start.{AllMapped}
use logger_high.Mmap.Store.Swaps.{Has}
use logger_high.Mmap.Store.Delivery.{progress}
use logger_high.Mmap.Store.Drains.{drains-Keeps}
use logger_high.Mmap.Store.Handover.{Ready, Empty, flush_begin-Begun}

module _ {S : Type 0} (regions : ℕ → Option (List ℕ)) (on_persist : S → List ℕ → S × Bool) where
  -- A store that may be flushed again.
  abbrev pub Again : MmapStore S → Type 0
  Again t = (t.stopped ≡ false) × (2 ≤ t.config.max_buffers) × (length t.tasks ≡ 0)

  -- The last wait of Flush, over as many drains as there are tasks.
  flush_end-Ready :
      (n : ℕ) (initial : S × ℕ) (accepted : List (List ℕ)) (s : MmapStore S)
      → Ready regions on_persist initial accepted s
      → length s.tasks ≤ n
      → (t : MmapStore S) × (flush_end regions on_persist n s ≡ some t)
        × (t.in_flight ≡ 0)
        × (progress regions on_persist t ≡ persist_all regions on_persist initial accepted)
        × Has regions on_persist t []
        × Again t
  unfolding flush_end
  flush_end-Ready n initial accepted s (k, open_still, two) h =
      let t = drains regions on_persist n s in
      let ((delivered, c, e, d, v, m), (_, config, stopped, _, _), fewer) =
        drains-Keeps regions on_persist (Empty regions on_persist) refl n initial accepted s k in
      let idle : length t.tasks ≡ 0 = omega (arith, fewer, h) in
      let nothing : pending t c ≡ [] =
        ap (λ l. gather c t.tasks ++ l) m
        ∙ append-nil (gather c t.tasks)
        ∙ no_tasks c t.tasks idle in
      let landed : t.in_flight ≡ 0 = v.loose.flying ∙ idle in
      (
        t,
        rw landed refl,
        landed,
        d
            ∙ ap (persist_all regions on_persist initial)
                (sym (append-nil delivered) ∙ ap (λ l. delivered ++ l) (sym nothing) ∙ sym e),
        (c, v, nothing),
        (stopped ∙ open_still, subst (λ r. 2 ≤ r.max_buffers) (sym config) two, idle),
      )
    where
      no_tasks : (c : ℕ → List (List ℕ)) (tasks : List ℕ) → length tasks ≡ 0 → gather c tasks ≡ []
      no_tasks c [] z = refl
      no_tasks c (x ∷ xs) z = absurd (omega (arith, z))

  -- Flush returns, once the strand has run the tasks that wait when it is called and the one that it
  -- posts itself (`n` of them in each of its two waits): then no buffer is in flight, the store is
  -- empty and may be flushed again, and `on_persist` has got every payload that the store held, in
  -- their order. This is for a
  -- well-formed store that is not stopped, in a pool of two buffers at least, where every buffer file
  -- can be made and maps as zeros, and with no Append at the same time.
  pub flush-returns :
      (n : ℕ) (s : MmapStore S) (fs : List (List ℕ))
      → AllMapped regions on_persist
      → Has regions on_persist s fs
      → s.stopped ≡ false
      → 2 ≤ s.config.max_buffers
      → length s.tasks < n
      → (t : MmapStore S) × (u : MmapStore S) × (flush_begin regions on_persist n s ≡ some t)
        × (flush_end regions on_persist n t ≡ some u)
        × (u.in_flight ≡ 0)
        × (progress regions on_persist u
            ≡ persist_all regions on_persist (progress regions on_persist s) fs)
        × Has regions on_persist u []
        × Again u
  flush-returns n s fs all has o two enough =
      let (t, begun, ready, few) =
        flush_begin-Begun regions on_persist n s fs all has o two (omega (arith, enough)) in
      let (u, ended, landed, handed, rest, again) =
        flush_end-Ready n (progress regions on_persist s) fs t ready (omega (arith, few, enough)) in
      (t, u, begun, ended, landed, handed, rest, again)
