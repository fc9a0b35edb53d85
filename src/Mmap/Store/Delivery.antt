-- ===== src/Mmap/Store/Delivery.antt =====
-- No record that mmap/mmap_store.cpp accepts is lost or moved, over any run of one producer and the
-- strand.
use logger_high.Base.{
  ℕ, ◌+◌, ◌^◌, ◌<◌, ◌≡◌, refl, ◌∙◌, ap, sym, Bool, true, false, List, [], ◌∷◌, ◌++◌, Option, length,
  append_assoc, append-nil, if◌then◌else◌, subst,
}
use logger_high.Mmap.Buffer.Fill.{cost, extended}
use logger_high.Mmap.Store.{
  MmapStore, update, try_write, retry, resume, drain_next, drain_first, persist_all,
}
use logger_high.Mmap.Store.Invariant.{pending}
use logger_high.Mmap.Store.Operations.{try_write-Inv, drain_next-Inv}
use logger_high.Mmap.Store.Swaps.{Zeroed, Has, Stands, retry-Stands, resume-Stands}

module _ {S : Type 0} (regions : ℕ → Option (List ℕ)) (on_persist : S → List ℕ → S × Bool) where
  abbrev pub progress : MmapStore S → S × ℕ
  progress s = (s.sink, s.persisted_bytes)

  pub persist_all-append :
      (ps qs : List (List ℕ)) (done : S × ℕ)
      → persist_all regions on_persist done (ps ++ qs)
        ≡ persist_all regions on_persist (persist_all regions on_persist done ps) qs
  unfolding persist_all
  persist_all-append [] qs (sink, bytes) = refl
  persist_all-append (p ∷ ps) qs (sink, bytes) =
      persist_all-append ps qs
        ((on_persist sink p).0, if (on_persist sink p).1 then bytes + length p else bytes)

  -- One step of the producer or of the strand, with the payloads that it accepted.
  pub data Step (s : MmapStore S) (ps : List (List ℕ)) (t : MmapStore S) : Type 0 where
    writes :
        (p : List ℕ)
        → (s.heap s.master).offset + cost p < 2 ^ 64
        → t ≡ (try_write regions on_persist s s.master p).0
        → ps ≡ extended [] p (try_write regions on_persist s s.master p).1
        → Step s ps t
    retries : t ≡ (retry regions on_persist s s.master).1 → ps ≡ [] → Step s ps t
    resumes : t ≡ (resume regions on_persist s).1 → ps ≡ [] → Step s ps t
    drains_one : t ≡ drain_next regions on_persist s → ps ≡ [] → Step s ps t

  -- The payloads that a run accepted, in the order of the calls.
  pub data Run (s : MmapStore S) : List (List ℕ) → MmapStore S → Type 0 where
    start : Run s [] s
    next :
        {ps qs : List (List ℕ)} {t u : MmapStore S} → Run s ps t → Step t qs u → Run s (ps ++ qs) u

  -- Of the accepted payloads, some first ones went to `on_persist` and the others are in the store.
  abbrev pub Accounts : S × ℕ → List (List ℕ) → MmapStore S → Type 0
  Accounts initial accepted s =
      (delivered : List (List ℕ)) × (held : List (List ℕ)) × (accepted ≡ delivered ++ held)
      × (progress s ≡ persist_all regions on_persist initial delivered)
      × Has regions on_persist s held

  extended-nil :
      (held : List (List ℕ)) (p : List ℕ) (done : Bool)
      → extended held p done ≡ held ++ extended [] p done
  extended-nil held p true = refl
  extended-nil held p false = sym (append-nil held)

  try_write-progress :
      (s : MmapStore S) (p : List ℕ)
      → progress (try_write regions on_persist s s.master p).0 ≡ progress s
  unfolding try_write
  try_write-progress s p = refl

  write-Accounts :
      (s : MmapStore S) (initial : S × ℕ) (accepted : List (List ℕ)) (p : List ℕ)
      → (s.heap s.master).offset + cost p < 2 ^ 64
      → Accounts initial accepted s
      → let r = try_write regions on_persist s s.master p in
        Accounts initial (accepted ++ extended [] p r.1) r.0
  write-Accounts s initial accepted p k (delivered, held, e, d, h) =
      let (c, v, q) = h in
      let done = (try_write regions on_persist s s.master p).1 in
      let (v', q') = try_write-Inv regions on_persist s c p v k in
      (
        delivered,
        extended held p done,
        ap (λ l. l ++ extended [] p done) e
            ∙ append_assoc delivered held (extended [] p done)
            ∙ ap (λ l. delivered ++ l) (sym (extended-nil held p done)),
        try_write-progress s p ∙ d,
        (update c s.master (extended (c s.master) p done), v', q' ∙ ap (λ l. extended l p done) q),
      )

  pub drain_none : (s : MmapStore S) → s.tasks ≡ [] → drain_next regions on_persist s ≡ s
  unfolding drain_next
  drain_none s e = ap (drain_first regions on_persist s) e

  pub nothing_yet : (r : S × ℕ) → r ≡ persist_all regions on_persist r []
  unfolding persist_all
  nothing_yet (sink, bytes) = refl

  drain-Accounts :
      (s : MmapStore S) (tasks : List ℕ) (initial : S × ℕ) (accepted : List (List ℕ))
      → s.tasks ≡ tasks
      → Accounts initial accepted s
      → Accounts initial accepted (drain_next regions on_persist s)
  drain-Accounts s [] initial accepted e a =
      subst (Accounts initial accepted) (sym (drain_none s e)) a
  drain-Accounts s (id ∷ rest) initial accepted t (delivered, held, e, d, h) =
      let (c, v, q) = h in
      let (v', d', q') = drain_next-Inv regions on_persist s c id rest t v in
      let s' = drain_next regions on_persist s in
      (
        delivered ++ c id,
        pending s' (update c id []),
        e
            ∙ ap (λ l. delivered ++ l) (sym (q' ∙ q))
            ∙ sym (append_assoc delivered (c id) (pending s' (update c id []))),
        d'
            ∙ ap (λ r. persist_all regions on_persist r (c id)) d
            ∙ sym (persist_all-append delivered (c id) initial),
        (update c id [], v', refl),
      )

  quiet-Accounts :
      (s t : MmapStore S) (initial : S × ℕ) (accepted ps : List (List ℕ))
      → ((done : S × ℕ) (fs : List (List ℕ))
          → Stands regions on_persist done fs s
          → Stands regions on_persist done fs t)
      → ps ≡ []
      → Accounts initial accepted s
      → Accounts initial (accepted ++ ps) t
  quiet-Accounts s t initial accepted ps keep none_new (delivered, held, e, d, h) =
      let (d', h') = keep (persist_all regions on_persist initial delivered) held (d, h) in
      rw (none_new, append-nil) (delivered, held, e, d', h')

  -- Every step of the producer or of the strand keeps the account, with what it accepted added last.
  pub Step-Accounts :
      {s t : MmapStore S} {ps : List (List ℕ)} (initial : S × ℕ) (accepted : List (List ℕ))
      → Zeroed regions on_persist
      → Step s ps t
      → Accounts initial accepted s
      → Accounts initial (accepted ++ ps) t
  Step-Accounts {s} {t} {ps} initial accepted z (writes p k e q) a =
      rw (e, q) (write-Accounts s initial accepted p k a)
  Step-Accounts {s} {t} {ps} initial accepted z (retries e q) a = rw e (
      quiet-Accounts s (retry regions on_persist s s.master).1 initial accepted ps
        (λ done fs. retry-Stands regions on_persist s s.master done fs z) q a)
  Step-Accounts {s} {t} {ps} initial accepted z (resumes e q) a = rw e (
      quiet-Accounts s (resume regions on_persist s).1 initial accepted ps
        (resume-Stands regions on_persist s) q a)
  Step-Accounts {s} {t} {ps} initial accepted z (drains_one e q) a =
      rw (e, q, append-nil) (drain-Accounts s s.tasks initial accepted refl a)

  -- After any run of one producer and the strand, a drain being one step beside a producer that writes
  -- to the master only, from a well-formed store without frames, whose buffers are shorter than 4 GiB,
  -- where new files map as zeros and are shorter than 4 GiB, and where the next offset of the master
  -- stays below 2 ^ 64 in each Write: the payloads that were accepted are those that `on_persist` got,
  -- in that order, and then those that are still in the store, so none is lost, doubled or moved.
  pub Run-Accounts :
      {s t : MmapStore S} {ps : List (List ℕ)}
      → Zeroed regions on_persist
      → Has regions on_persist s []
      → Run s ps t
      → Accounts (progress s) ps t
  Run-Accounts {s} z h start = ([], [], refl, nothing_yet (progress s), h)
  Run-Accounts {s} z h (next {ps} r st) = Step-Accounts (progress s) ps z st (Run-Accounts z h r)
