-- ===== src/Mmap/Store/Drains.antt =====
-- Any number of drains in a row, as Flush of mmap/mmap_store.cpp waits for them.
use logger_high.Base.{
  ℕ, zero, suc, ◌-◌, ◌≡◌, refl, ◌∙◌, ap, sym, subst, Bool, List, [], ◌∷◌, ◌++◌, Option, length,
  arith, append_assoc, ◌==◌, if_both,
}
use logger_high.Mmap.Store.{
  MmapStore, update, drain_next, drain_one, drain_first, drains, persist_all,
}
use logger_high.Mmap.Store.Invariant.{Inv, pending}
use logger_high.Mmap.Store.Operations.{drain_next-Inv}
use logger_high.Mmap.Store.Delivery.{progress, persist_all-append, drain_none}

module _ {S : Type 0} (regions : ℕ → Option (List ℕ)) (on_persist : S → List ℕ → S × Bool) where
  -- What a drain leaves as it was.
  abbrev pub Fixed : MmapStore S → MmapStore S → Type 0
  Fixed s t =
      (t.pool_size ≡ s.pool_size)
      × (t.config ≡ s.config)
      × (t.stopped ≡ s.stopped)
      × (t.next_seq ≡ s.next_seq)
      × (t.master ≡ s.master)

  pub drain_next-Fixed :
      (s : MmapStore S) (tasks : List ℕ)
      → s.tasks ≡ tasks
      → Fixed s (drain_next regions on_persist s)
        × (length (drain_next regions on_persist s).tasks ≡ length tasks - 1)
  unfolding drain_next drain_one
  drain_next-Fixed s [] e =
      let same = sym (drain_none regions on_persist s e) in
      subst (λ t. Fixed s t × (length t.tasks ≡ 0)) same
        ((refl, refl, refl, refl, refl), omega (arith, ap length e))
  drain_next-Fixed s (id ∷ rest) e =
      subst
        (λ l.
          Fixed s (drain_first regions on_persist s l)
          × (length (drain_first regions on_persist s l).tasks ≡ suc (length rest) - 1))
        (sym e) ((refl, refl, refl, refl, refl), omega arith)

  -- The frames of the store and of `on_persist`, where `Q` holds of the frames of the master.
  module _ (Q : List (List ℕ) → Type 0) (q : Q []) where
    abbrev pub Keeps : S × ℕ → List (List ℕ) → MmapStore S → Type 0
    Keeps initial accepted s =
        (delivered : List (List ℕ)) × (c : ℕ → List (List ℕ)) × (accepted
          ≡ delivered ++ pending s c)
        × (progress regions on_persist s ≡ persist_all regions on_persist initial delivered)
        × Inv s c
        × Q (c s.master)

    drain_next-Keeps :
        (initial : S × ℕ) (accepted : List (List ℕ)) (s : MmapStore S) (tasks : List ℕ)
        → s.tasks ≡ tasks
        → Keeps initial accepted s
        → Keeps initial accepted (drain_next regions on_persist s)
    drain_next-Keeps initial accepted s [] t k =
        subst (Keeps initial accepted) (sym (drain_none regions on_persist s t)) k
    drain_next-Keeps initial accepted s (id ∷ rest) t (delivered, c, e, d, v, m) =
        let (v', d', p) = drain_next-Inv regions on_persist s c id rest t v in
        let s' = drain_next regions on_persist s in
        let kept = (drain_next-Fixed s (id ∷ rest) t).0.4 in
        (
          delivered ++ c id,
          update c id [],
          e
              ∙ ap (λ l. delivered ++ l) (sym p)
              ∙ sym (append_assoc delivered (c id) (pending s' (update c id []))),
          d'
              ∙ ap (λ r. persist_all regions on_persist r (c id)) d
              ∙ sym (persist_all-append regions on_persist delivered (c id) initial),
          v',
          subst (λ i. Q (update c id [] i)) (sym kept)
              (if_both Q (id == s.master) [] (c s.master) q m),
        )

    -- After `n` drains: nothing is lost, and `n` tasks fewer wait.
    pub drains-Keeps :
        (n : ℕ) (initial : S × ℕ) (accepted : List (List ℕ)) (s : MmapStore S)
        → Keeps initial accepted s
        → let t = drains regions on_persist n s in
          Keeps initial accepted t × Fixed s t × (length t.tasks ≡ length s.tasks - n)
    unfolding drains
    drains-Keeps zero initial accepted s k = (k, (refl, refl, refl, refl, refl), omega arith)
    drains-Keeps (suc n) initial accepted s k =
        let s' = drain_next regions on_persist s in
        let k' = drain_next-Keeps initial accepted s s.tasks refl k in
        let ((a, b, c, d, m), fewer) = drain_next-Fixed s s.tasks refl in
        let (k'', (a', b', c', d', m'), rest) = drains-Keeps n initial accepted s' k' in
        (k'', (a' ∙ a, b' ∙ b, c' ∙ c, d' ∙ d, m' ∙ m), omega (arith, rest, fewer))
