-- ===== src/Mmap/Store/Operations.antt =====
-- Each operation of mmap/mmap_store.cpp keeps the store well formed, and what it does to the frames
-- in it.
use logger_high.Base.{
  ℕ, ◌+◌, ◌^◌, ◌<◌, ◌≡◌, ◌∙◌, ap, sym, Bool, List, [], ◌∷◌, ◌++◌, Option, All, All-append,
  append_assoc, append-nil, subst, replicate,
}
use logger_high.Mmap.Buffer.{write}
use logger_high.Mmap.Buffer.Fill.{cost, extended}
use logger_high.Mmap.Store.{
  MmapStore, update, try_write, swap_master, drain_next, persist_all, add_buffer,
}
use logger_high.Mmap.Store.Invariant.{
  Inv, owners, gather, pending, update_same, update_other, gather-update, gather-append,
  idle-update, not_mem_above, not_mem_left, not_mem_right, not_mem_tail, not_mem_head,
}
use mathlib.Core.List.{Nodup, Nodup-cons}
use logger_high.Mmap.Store.Loose.{
  try_write-Loose, swap_free-Loose, swap_fresh-Loose, drain_next-Loose,
}
use logger_high.Mmap.Store.Owners.{extended-append}

module _ {S : Type 0} (regions : ℕ → Option (List ℕ)) (on_persist : S → List ℕ → S × Bool) where
  -- A Write to the master keeps the store well formed, and the payload comes last of the frames in
  -- the store if the call returned true; otherwise they are as they were.
  pub try_write-Inv :
      (s : MmapStore S) (c : ℕ → List (List ℕ)) (p : List ℕ)
      → Inv s c
      → (s.heap s.master).offset + cost p < 2 ^ 64
      → let r = try_write regions on_persist s s.master p in
        let c' = update c s.master (extended (c s.master) p r.1) in
        Inv r.0 c' × (pending r.0 c' ≡ extended (pending s c) p r.1)
  unfolding try_write
  try_write-Inv s c p v k =
      let m = s.master in
      let done = (write (s.heap m) p).1 in
      let apart = (Nodup-cons.0 v.loose.once).0 in
      (
        record {
          loose = try_write-Loose regions on_persist s c m p v.loose v.loose.below.0 k;
          idle =
              idle-update c m (extended (c m) p done) s.free (not_mem_right m s.tasks s.free apart)
                v.idle;
        },
        rw
            (
              gather-update c m (extended (c m) p done) s.tasks
                  (not_mem_left m s.tasks s.free apart),
              update_same c m (extended (c m) p done),
            )
            (extended-append (gather c s.tasks) (c m) p done),
      )

  -- A swap to the buffer at the head of the free queue moves no frame.
  pub swap_free-Inv :
      (s : MmapStore S) (c : ℕ → List (List ℕ)) (b : ℕ) (rest : List ℕ)
      → s.free ≡ b ∷ rest
      → Inv s c
      → Inv (swap_master regions on_persist (record s { free = rest }) b) c
        × (pending (swap_master regions on_persist (record s { free = rest }) b) c ≡ pending s c)
  unfolding swap_master
  swap_free-Inv s c b rest e v =
      let idle = subst (All (λ i. c i ≡ [])) e v.idle in
      (
        record { loose = swap_free-Loose regions on_persist s c b rest e v.loose; idle = idle.1 },
        rw (gather-append c s.tasks (s.master ∷ []), idle.0)
            (append-nil _ ∙ ap (λ l. gather c s.tasks ++ l) (append-nil (c s.master))),
      )

  -- Nor does a swap to a buffer that was mapped for it, on a file that reads as zeros.
  pub swap_fresh-Inv :
      (s : MmapStore S) (c : ℕ → List (List ℕ)) (n : ℕ)
      → s.pool_size < s.config.max_buffers
      → n < 2 ^ 32
      → Inv s c
      → let s' =
          swap_master regions on_persist
            (add_buffer regions on_persist s (replicate n 0))
            s.pool_size in
        let c' = update c s.pool_size [] in Inv s' c' × (pending s' c' ≡ pending s c)
  unfolding swap_master
  swap_fresh-Inv s c n room small v =
      let new = s.pool_size in
      let apart = not_mem_above new (owners s) v.loose.below in
      let tasks_apart = not_mem_left new s.tasks s.free (not_mem_tail apart) in
      let free_apart = not_mem_right new s.tasks s.free (not_mem_tail apart) in
      (
        record {
          loose = swap_fresh-Loose regions on_persist s c n room small v.loose;
          idle = idle-update c new [] s.free free_apart v.idle;
        },
        rw
            (
              gather-append (update c new []) s.tasks (s.master ∷ []),
              gather-update c new [] s.tasks tasks_apart,
              update_same c new [],
              update_other c new s.master [] (not_mem_head apart),
            )
            (append-nil _ ∙ ap (λ l. gather c s.tasks ++ l) (append-nil (c s.master))),
      )

  -- The strand's next task: every frame of the oldest retired buffer goes to `on_persist`, in order,
  -- the buffer is empty and free again, and the other frames in the store stay as they were.
  pub drain_next-Inv :
      (s : MmapStore S) (c : ℕ → List (List ℕ)) (id : ℕ) (rest : List ℕ)
      → s.tasks ≡ id ∷ rest
      → Inv s c
      → let s' = drain_next regions on_persist s in
        let c' = update c id [] in
        Inv s' c'
        × ((s'.sink, s'.persisted_bytes)
            ≡ persist_all regions on_persist (s.sink, s.persisted_bytes) (c id))
        × (c id ++ pending s' c' ≡ pending s c)
  drain_next-Inv s c id rest e v =
      let once = subst (λ l. Nodup (s.master ∷ (l ++ s.free))) e v.loose.once in
      let (master_apart, once_tail) = Nodup-cons.0 once in
      let apart = (Nodup-cons.0 once_tail).0 in
      let (loose, handed, master, tasks, free) =
        drain_next-Loose regions on_persist s c id rest e v.loose in
      let idle =
        All-append (λ j. update c id [] j ≡ []) s.free (id ∷ [])
          (idle-update c id [] s.free (not_mem_right id rest s.free apart) v.idle)
          (update_same c id [], tt) in
      (
        record { loose = loose; idle = subst (All (λ j. update c id [] j ≡ [])) (sym free) idle },
        handed,
        rw
            (
              master,
              tasks,
              e,
              gather-update c id [] rest (not_mem_left id rest s.free apart),
              update_other c id s.master [] (λ q. not_mem_head master_apart (sym q)),
            )
            (sym (append_assoc (c id) (gather c rest) (c s.master))),
      )
