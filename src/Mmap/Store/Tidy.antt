-- ===== src/Mmap/Store/Tidy.antt =====
-- A store of mmap/mmap_store.cpp whose drained buffers are all ready for a Write, and what Append's
-- locked part finds in it.
use logger_high.Base.{
  ℕ, zero, suc, ◌+◌, ◌-◌, ◌^◌, ◌<◌, ◌≡◌, refl, ◌∙◌, ap, sym, inl, inr, Bool, true, false, List, [],
  ◌∷◌, ◌++◌, Option, some, length, arith, All, All-append, ◌==◌, Bool-cases, leb, subst, replicate,
  length-replicate,
}
use logger_high.Mmap.Buffer.{open_buffer, MmapBuffer, write, reset_for_reuse}
use logger_high.Mmap.Buffer.Fill.{Filled, cost, is_oversized, write_lem, extended}
use logger_high.Mmap.Buffer.Reuse.{reset_for_reuse-Filled}
use logger_high.Mmap.Store.{
  MmapStore, update, try_write, swap_master, drain_next, drain_first, drains, persist_all,
  add_buffer,
}
use logger_high.Mmap.Store.Invariant.{
  Sound, Loose, owners, update_same, update_other, not_mem_right, not_mem_head, not_mem_tail,
  not_mem_above,
}
use logger_high.Mmap.Store.Loose.{
  try_write-Loose, swap_free-Loose, swap_fresh-Loose, drain_next-Loose, drain_one_lem,
}
use logger_high.Mmap.Store.Delivery.{drain_none}
use logger_high.Mmap.Store.Drains.{drain_next-Fixed}
use mathlib.Core.List.{Mem, Nodup, Nodup-cons}

-- A free buffer is written from its start, and every buffer has `size` bytes.
pub record Tidy {S : Type 0} (size : ℕ) (s : MmapStore S) (c : ℕ → List (List ℕ)) : Type 0 where
  pub loose : Loose s c
  pub clean : All (λ i. (s.heap i).offset ≡ 0) s.free
  pub sizes : (i : ℕ) → i < s.pool_size → length (s.heap i).mem ≡ size
  pub running : s.stopped ≡ false

clean-update :
    (heap : ℕ → MmapBuffer) (i : ℕ) (b : MmapBuffer) (xs : List ℕ)
    → ¬ Mem i xs
    → All (λ j. (heap j).offset ≡ 0) xs
    → All (λ j. (update heap i b j).offset ≡ 0) xs
clean-update heap i b [] h a = tt
clean-update heap i b (x ∷ xs) h a = (
  ap MmapBuffer.offset (update_other heap i x b (not_mem_head h)) ∙ a.0,
  clean-update heap i b xs (not_mem_tail h) a.1,
)

sizes-update :
    (heap : ℕ → MmapBuffer) (i size n : ℕ) (b : MmapBuffer)
    → length b.mem ≡ size
    → ((j : ℕ) → j < n → length (heap j).mem ≡ size)
    → (j : ℕ) → j < n
    → length (update heap i b j).mem ≡ size
sizes-update heap i size n b e h j k = elim (Bool-cases (i == j)) [
  | inl same ↦ rw same e
  | inr apart ↦ rw apart (h j k)
]

module _ {S : Type 0} (regions : ℕ → Option (List ℕ)) (on_persist : S → List ℕ → S × Bool)
    (size : ℕ) where
  abbrev pub Tidied : MmapStore S → Type 0
  Tidied s = (c : ℕ → List (List ℕ)) × Tidy size s c

  -- Every file maps, to `size` bytes of zeros.
  abbrev pub AllSized : Type 0
  AllSized = (q : ℕ) → regions q ≡ some (replicate size 0)

  -- A Write that finds no room.
  pub missed-Tidied :
      (s : MmapStore S) (p : List ℕ)
      → Tidied s
      → is_oversized p ≡ false
      → (s.heap s.master).offset + cost p < 2 ^ 64
      → size < (s.heap s.master).offset + cost p
      → (t : MmapStore S) × (try_write regions on_persist s s.master p ≡ (t, false))
        × Tidied t
        × (t.master ≡ s.master)
        × (t.config ≡ s.config)
  unfolding try_write
  missed-Tidied s p (c, v) legal fits full =
      let b = s.heap s.master in
      let below = v.loose.below.0 in
      let sound = v.loose.buffers s.master below in
      let none_left : leb (b.offset + cost p) (length b.mem) ≡ false =
        ground (arith, v.sizes s.master below) in
      let missed : write b p ≡ (record b { offset = b.offset + cost p }, false) =
        rw (write_lem b p legal (Sound.not_sealed sound) fits, none_left) refl in
      let m = s.master in
      let after : MmapBuffer × Bool → MmapStore S = λ w. record s { heap = update s.heap m w.0 } in
      let left : MmapBuffer = record b { offset = b.offset + cost p } in
      let apart = not_mem_right m s.tasks s.free (Nodup-cons.0 v.loose.once).0 in
      (
        after (left, false),
        ap (λ w. (after w, w.1)) missed,
        (
          update c m (c m),
          record {
            loose =
                subst (λ w. Loose (after w) (update c m (extended (c m) p w.1))) missed
                  (try_write-Loose regions on_persist s c m p v.loose below fits);
            clean = clean-update s.heap m left s.free apart v.clean;
            sizes = sizes-update s.heap m size s.pool_size left (v.sizes m below) v.sizes;
            running = v.running;
          },
        ),
        refl,
        refl,
      )

  drained-Tidied :
      (s : MmapStore S) (tasks : List ℕ)
      → s.tasks ≡ tasks
      → Tidied s
      → Tidied (drain_next regions on_persist s)
  unfolding drain_next
  drained-Tidied s [] e t = subst Tidied (sym (drain_none regions on_persist s e)) t
  drained-Tidied s (id ∷ rest) e (c, v) =
      let (loose, _, _, _, _) = drain_next-Loose regions on_persist s c id rest e v.loose in
      let (below, _) = subst (λ l. All (λ i. i < s.pool_size) (l ++ s.free)) e v.loose.below.1 in
      let once = subst (λ l. Nodup (s.master ∷ (l ++ s.free))) e v.loose.once in
      let apart = not_mem_right id rest s.free (Nodup-cons.0 (Nodup-cons.0 once).1).0 in
      let sound = v.loose.buffers id below in
      let s₁ : MmapStore S = record s { tasks = rest } in
      let b : MmapBuffer = record (s.heap id) { sealed = true } in
      let f : Filled b (c id) = record {
        image = Filled.image (Sound.filled sound);
        mark = Filled.mark (Sound.filled sound);
        fit = Filled.fit (Sound.filled sound);
        small = Filled.small (Sound.filled sound);
      } in
      let done = persist_all regions on_persist (s.sink, s.persisted_bytes) (c id) in
      let (_, _, _, same) = reset_for_reuse-Filled b (c id) f in
      let t : MmapStore S = record s₁ {
        heap = update s.heap id (reset_for_reuse b);
        sink = done.0;
        persisted_bytes = done.1;
        free = s.free ++ id ∷ [];
        in_flight = s.in_flight - 1;
      } in
      let drained : drain_next regions on_persist s ≡ t =
        ap (drain_first regions on_persist s) e
        ∙ drain_one_lem regions on_persist s₁ id (c id) sound in
      let started : (update s.heap id (reset_for_reuse b) id).offset ≡ 0 =
        ap MmapBuffer.offset (update_same s.heap id (reset_for_reuse b))
        ∙ (reset_for_reuse-Filled b (c id) f).2 in
      subst Tidied (sym drained) (
        update c id [],
        record {
          loose = subst (λ u. Loose u (update c id [])) drained loose;
          clean =
              All-append (λ j. (update s.heap id (reset_for_reuse b) j).offset ≡ 0) s.free (id ∷ [])
                (clean-update s.heap id (reset_for_reuse b) s.free apart v.clean) (started, tt);
          sizes =
              sizes-update s.heap id size s.pool_size (reset_for_reuse b) (same ∙ v.sizes id below)
                v.sizes;
          running = v.running;
        },
      )

  pub drains-Tidied :
      (n : ℕ) (s : MmapStore S)
      → Tidied s
      → let t = drains regions on_persist n s in
        Tidied t
        × (t.pool_size ≡ s.pool_size)
        × (t.config ≡ s.config)
        × (length t.tasks ≡ length s.tasks - n)
  unfolding drains
  drains-Tidied zero s v = (v, refl, refl, omega arith)
  drains-Tidied (suc n) s v =
      let s' = drain_next regions on_persist s in
      let ((pool, config, _, _, _), fewer) = drain_next-Fixed regions on_persist s s.tasks refl in
      let (v', pool', config', fewer') = drains-Tidied n s' (drained-Tidied s s.tasks refl v) in
      (v', pool' ∙ pool, config' ∙ config, omega (arith, fewer, fewer'))

  -- The store goes on with a master that can be written from its start.
  abbrev pub Fresh : MmapStore S → MmapStore S → Type 0
  Fresh s t = Tidied t × ((t.heap t.master).offset ≡ 0) × (t.config ≡ s.config)

  pub taken-Fresh :
      (s : MmapStore S) (b : ℕ) (rest : List ℕ)
      → s.free ≡ b ∷ rest
      → Tidied s
      → Fresh s (swap_master regions on_persist (record s { free = rest }) b)
  unfolding swap_master
  taken-Fresh s b rest e (c, v) =
      let clean = subst (All (λ i. (s.heap i).offset ≡ 0)) e v.clean in
      (
        (
          c,
          record {
            loose = swap_free-Loose regions on_persist s c b rest e v.loose;
            clean = clean.1;
            sizes = v.sizes;
            running = v.running;
          },
        ),
        clean.0,
        refl,
      )

  pub mapped-Fresh :
      (s : MmapStore S)
      → s.pool_size < s.config.max_buffers
      → Tidied s
      → Fresh s (
          swap_master regions on_persist
            (add_buffer regions on_persist s (replicate size 0))
            s.pool_size)
  unfolding swap_master
  mapped-Fresh s room (c, v) =
      let new = s.pool_size in
      let fresh : MmapBuffer = open_buffer (replicate size 0) in
      let apart = not_mem_above new (owners s) v.loose.below in
      let free_apart = not_mem_right new s.tasks s.free (not_mem_tail apart) in
      let below = v.loose.below.0 in
      let small : size < 2 ^ 32 = omega (
        arith,
        v.sizes s.master below,
        Filled.small (Sound.filled (v.loose.buffers s.master below)),
      ) in
      (
        (
          update c new [],
          record {
            loose = swap_fresh-Loose regions on_persist s c size room small v.loose;
            clean = clean-update s.heap new fresh s.free free_apart v.clean;
            sizes = λ i k. elim (Bool-cases (new == i)) [
              | inl e ↦ rw e (length-replicate size 0)
              | inr e ↦ rw e (v.sizes i (ground arith))
            ];
            running = v.running;
          },
        ),
        ap MmapBuffer.offset (update_same s.heap new fresh),
        refl,
      )
