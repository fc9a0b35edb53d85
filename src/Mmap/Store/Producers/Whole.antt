-- ===== src/Mmap/Store/Producers/Whole.antt =====
-- DrainOne_ of mmap/mmap_store.cpp step by step, and in one go.
use logger_high.Base.{ℕ, zero, suc, ◌-◌, Bool, List, [], ◌∷◌, ◌++◌, Option}
use logger_high.Mmap.Buffer.{MmapBuffer, reset_for_reuse, for_each_frame}
use logger_high.Mmap.Store.{MmapStore, update, persist_all, frames_or_none}
use logger_high.Mmap.Store.Producers.{Drain, drain_on}

module _ {S : Type 0} (regions : ℕ → Option (List ℕ)) (on_persist : S → List ℕ → S × Bool) where
  abbrev pub strand_steps : ℕ → Drain × MmapStore S → Drain × MmapStore S
  strand_steps zero r = r
  strand_steps (suc n) r = strand_steps n (drain_on regions on_persist r.0 r.1)

  -- The drain of a buffer `b` that is sealed, once its task is gone.
  abbrev drained : MmapStore S → ℕ → MmapBuffer → MmapStore S
  drained s id b =
      let (sink, bytes) =
        persist_all regions on_persist (s.sink, s.persisted_bytes)
          (frames_or_none regions on_persist (for_each_frame b)) in
      record s {
        heap = update s.heap id (reset_for_reuse b);
        sink = sink;
        persisted_bytes = bytes;
        free = s.free ++ id ∷ [];
        in_flight = s.in_flight - 1;
      }
