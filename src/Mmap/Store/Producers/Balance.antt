-- ===== src/Mmap/Store/Producers/Balance.antt =====
-- The records that several threads get accepted by mmap/mmap_store.cpp, counted against the pool.
use logger_high.Base.{
  ℕ, ◌+◌, ◌^◌, ◌≤◌, ◌<◌, ◌≡◌, refl, sym, Bool, true, false, List, [], ◌∷◌, ◌++◌, Option,
  append_assoc, append-nil, subst, arith, replicate,
}
use logger_high.Mmap.Buffer.Fill.{cost, extended}
use logger_high.Mmap.Store.{MmapStore, update, try_write, swap_master, add_buffer, persist_all}
use logger_high.Mmap.Store.Invariant.{Loose}
use logger_high.Mmap.Store.Loose.{try_write-Loose, failed-Loose, swap_free-Loose, swap_fresh-Loose}
use logger_high.Mmap.Store.Delivery.{progress}
use logger_high.Mmap.Store.Producers.{accepted_by}
use logger_high.Mmap.Store.Producers.Contents.{contents, contents_write, contents_fresh}
use mathlib.Core.List.{Perm}
use mathlib.Core.List.Perm

module _ {S : Type 0} (regions : ℕ → Option (List ℕ)) (on_persist : S → List ℕ → S × Bool) where
  -- The payloads `accepted`, in some order, are those that went to `on_persist`, `delivered` in this
  -- order, and the frames of the buffers.
  abbrev pub Balanced : S × ℕ → List (List ℕ) → List (List ℕ) → MmapStore S → Type 0
  Balanced initial accepted delivered s =
      (c : ℕ → List (List ℕ)) × Loose s c
      × (progress regions on_persist s ≡ persist_all regions on_persist initial delivered)
      × Perm accepted (delivered ++ contents c s.pool_size)

  -- The same, with a pool of `n` buffers at least.
  abbrev pub Grown : ℕ → S × ℕ → List (List ℕ) → List (List ℕ) → MmapStore S → Type 0
  Grown n initial accepted delivered s = (n ≤ s.pool_size) × Balanced initial accepted delivered s

  module _ (n : ℕ) (initial : S × ℕ) (accepted delivered : List (List ℕ)) where
    abbrev Kept : MmapStore S → Type 0
    Kept = Grown n initial accepted delivered

    pub failed-Kept : (s : MmapStore S) → Kept s → Kept (record s { next_seq = s.next_seq + 1 })
    failed-Kept s (k, (c, v, d, p)) = (k, (c, failed-Loose regions on_persist s c v, d, p))

    pub free-Kept :
        (s : MmapStore S) (b : ℕ) (rest : List ℕ)
        → s.free ≡ b ∷ rest
        → Kept s
        → Kept (swap_master regions on_persist (record s { free = rest }) b)
    unfolding swap_master
    free-Kept s b rest e (k, (c, v, d, p)) =
        (k, (c, swap_free-Loose regions on_persist s c b rest e v, d, p))

    pub fresh-Kept :
        (s : MmapStore S) (m : ℕ)
        → s.pool_size < s.config.max_buffers
        → m < 2 ^ 32
        → Kept s
        → Kept (
            swap_master regions on_persist
              (add_buffer regions on_persist s (replicate m 0))
              s.pool_size)
    unfolding swap_master
    fresh-Kept s m room small (k, (c, v, d, p)) = (
      omega (arith, k),
      (
        update c s.pool_size [],
        swap_fresh-Loose regions on_persist s c m room small v,
        d,
        subst (λ l. Perm accepted (delivered ++ l)) (sym (contents_fresh c s.pool_size)) p,
      ),
    )

  extended-accepted_by :
      (fs : List (List ℕ)) (p : List ℕ) (done : Bool)
      → extended fs p done ≡ fs ++ accepted_by p done
  extended-accepted_by fs p true = refl
  extended-accepted_by fs p false = sym (append-nil fs)

  -- A Write to any buffer of the pool adds the payload to its frames exactly when it returns true.
  pub write-Balanced :
      (s : MmapStore S) (initial : S × ℕ) (accepted delivered : List (List ℕ)) (i : ℕ) (p : List ℕ)
      → i < s.pool_size
      → (s.heap i).offset + cost p < 2 ^ 64
      → Balanced initial accepted delivered s
      → let r = try_write regions on_persist s i p in
        Balanced initial (accepted ++ accepted_by p r.1) delivered r.0
        × (r.0.pool_size ≡ s.pool_size)
  unfolding try_write
  write-Balanced s initial accepted delivered i p below k (c, v, d, balance) =
      let done = (try_write regions on_persist s i p).1 in
      let ps = accepted_by p done in
      let n = s.pool_size in
      let loose = try_write-Loose regions on_persist s c i p v below k in
      let added : Perm ((delivered ++ contents c n) ++ ps)
          (delivered ++ contents (update c i (c i ++ ps)) n) =
        rw (append_assoc delivered (contents c n) ps)
          (Perm.append_left delivered (contents_write c i n ps below)) in
      (
        (
          update c i (extended (c i) p done),
          loose,
          d,
          rw (extended-accepted_by (c i) p done) (Perm.trans (Perm.append_right ps balance) added),
        ),
        refl,
      )
