-- ===== src/Mmap/Store/Start.antt =====
-- The constructor of mmap/mmap_store.cpp.
use logger_high.Base.{
  ℕ, zero, suc, ◌+◌, ◌-◌, ◌^◌, ◌≤◌, ◌<◌, ◌≡◌, refl, inl, inr, Bool, true, false, List, [], ◌∷◌,
  ◌++◌, Option, some, ok, arith, All-append, append_assoc, ◌==◌, Bool-cases, length-append, subst,
  replicate,
}
use logger_high.Mmap.Store.{
  Config, MmapStore, normalize, add_buffer, first_buffer, init_loop, new_store,
}
use logger_high.Mmap.Store.Invariant.{Inv, owners, not_mem_above}
use logger_high.Mmap.Store.Owners.{All-grow, All-split, fresh-Sound}
use mathlib.Core.List.{Nodup, Nodup-cons, Nodup-nil, not-mem-nil, perm_append_singleton}
use mathlib.Core.List.Perm

-- The defaults give a pool of one buffer at least, within its own bound.
pub normalize_bounds :
    (c : Config)
    → (0 < (normalize c).min_buffers)
      × ((normalize c).min_buffers ≤ (normalize c).max_buffers)
      × (0 < (normalize c).buffer_bytes)
unfolding normalize
normalize_bounds c = ground arith

module _ {S : Type 0} (regions : ℕ → Option (List ℕ)) (on_persist : S → List ℕ → S × Bool) where
  -- Every file maps, reads as zeros, and is shorter than 4 GiB.
  abbrev pub AllMapped : Type 0
  AllMapped = (q : ℕ) → (n : ℕ) × (n < 2 ^ 32) × (regions q ≡ some (replicate n 0))

  abbrev pub no_frames : ℕ → List (List ℕ)
  no_frames i = []

  add-Inv :
      (s : MmapStore S) (n : ℕ)
      → s.pool_size < s.config.max_buffers
      → n < 2 ^ 32
      → Inv s no_frames
      → Inv
          (record (add_buffer regions on_persist s (replicate n 0)) {
            free = s.free ++ s.pool_size ∷ [];
          })
          no_frames
  add-Inv s n room small v =
      let new = s.pool_size in
      let (in_tasks, in_free) = All-split (λ i. i < new) s.tasks s.free v.loose.below.1 in
      record {
        loose = record {
          once =
              subst (λ l. Nodup (s.master ∷ l)) (append_assoc s.tasks s.free (new ∷ []))
                (Perm.nodup (Perm.symm (perm_append_singleton new (owners s)))
                  (Nodup-cons.1 (not_mem_above new (owners s) v.loose.below, v.loose.once)));
          below = (
            omega (arith, v.loose.below.0),
            All-append (λ i. i < new + 1) s.tasks (s.free ++ new ∷ [])
                (All-grow new s.tasks in_tasks)
                (All-append (λ i. i < new + 1) s.free (new ∷ []) (All-grow new s.free in_free)
                  (omega arith, tt)),
          );
          count = omega (arith, v.loose.count, length-append s.free (new ∷ []));
          limit = omega arith;
          flying = v.loose.flying;
          buffers = λ i k. elim (Bool-cases (new == i)) [
            | inl e ↦ rw e (fresh-Sound n small)
            | inr e ↦ rw e (v.loose.buffers i (ground arith))
          ];
        };
        idle = All-append (λ i. no_frames i ≡ []) s.free (new ∷ []) v.idle (refl, tt);
      }

  pub first-Inv :
      (c : Config) (sink : S) (n : ℕ)
      → 0 < c.max_buffers
      → n < 2 ^ 32
      → Inv (first_buffer regions on_persist c sink (replicate n 0)) no_frames
  first-Inv c sink n h small = record {
    loose = record {
      once = Nodup-cons.1 (not-mem-nil, Nodup-nil);
      below = (omega arith, tt);
      count = omega arith;
      limit = omega (arith, h);
      flying = refl;
      buffers = λ i k. fresh-Sound n small;
    };
    idle = tt;
  }

  -- What the constructor has made of its arguments.
  abbrev pub Made : MmapStore S → S → Type 0
  Made s sink = Inv s no_frames × ((s.sink ≡ sink) × (s.persisted_bytes ≡ 0) × (s.stopped ≡ false))

  init_loop-Made :
      (k : ℕ) (s : MmapStore S) (sink : S)
      → AllMapped
      → s.pool_size + k ≤ s.config.max_buffers
      → Made s sink
      → (t : MmapStore S) × (init_loop regions on_persist k s ≡ ok t)
        × Made t sink
        × (t.pool_size ≡ s.pool_size + k)
  unfolding init_loop
  init_loop-Made zero s sink all h m = (s, refl, m, omega arith)
  init_loop-Made (suc k) s sink all h (v, rest) =
      let (n, small, mapped) = all s.next_seq in
      let s' : MmapStore S = record (add_buffer regions on_persist s (replicate n 0)) {
        free = s.free ++ s.pool_size ∷ [];
      } in
      let (t, done, made, size) =
        init_loop-Made k s' sink all (omega arith) (add-Inv s n (omega arith) small v, rest) in
      (t, rw (mapped, init_loop) done, made, omega arith)

  -- Given a strand, a callback and files of less than 4 GiB that map to zeros, the constructor returns a well-formed
  -- store with an empty pool of `min_buffers` buffers, after the defaults.
  pub new_store-Made :
      (c : Config) (sink : S)
      → AllMapped
      → (s : MmapStore S) × (new_store regions on_persist true true c sink ≡ ok s)
        × Made s sink
        × (s.pool_size ≡ (normalize c).min_buffers)
  unfolding new_store
  new_store-Made c sink all =
      let (some_buffer, fits, bytes) = normalize_bounds c in
      let (n, small, mapped) = all 0 in
      let first = first_buffer regions on_persist (normalize c) sink (replicate n 0) in
      let (t, done, made, size) =
        init_loop-Made ((normalize c).min_buffers - 1) first sink all (omega arith)
          (first-Inv (normalize c) sink n (omega arith) small, (refl, refl, refl)) in
      (t, rw (mapped, new_store) done, made, omega arith)
