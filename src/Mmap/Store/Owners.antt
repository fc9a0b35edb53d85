-- ===== src/Mmap/Store/Owners.antt =====
-- Who owns the buffers of mmap/mmap_store.cpp, and what a step's update of one of them leaves alone.
use logger_high.Base.{
  ℕ, ◌+◌, ◌^◌, ◌<◌, ◌≡◌, refl, ◌∙◌, sym, Bool, true, false, List, [], ◌∷◌, ◌++◌, arith, All,
  append_assoc, subst, replicate,
}
use logger_high.Mmap.Buffer.{MmapBuffer, open_buffer, write}
use logger_high.Mmap.Buffer.Fill.{cost, extended}
use logger_high.Mmap.Buffer.Runs.{write-Filled, write-sealed, write-writers, fresh-Filled}
use logger_high.Mmap.Store.Invariant.{Sound}
use mathlib.Core.List.{Perm, perm_middle}
use mathlib.Core.List.Perm

pub write-Sound :
    (b : MmapBuffer) (fs : List (List ℕ)) (p : List ℕ)
    → Sound b fs
    → b.offset + cost p < 2 ^ 64
    → Sound (write b p).0 (extended fs p (write b p).1)
write-Sound b fs p v k = record {
  filled = write-Filled b fs p v.filled v.not_sealed k;
  not_sealed = (write-sealed b p v.not_sealed k).0;
  no_writers = write-writers b p v.not_sealed k ∙ v.no_writers;
}

pub extended-append :
    (xs fs : List (List ℕ)) (p : List ℕ) (done : Bool)
    → xs ++ extended fs p done ≡ extended (xs ++ fs) p done
extended-append xs fs p true = sym (append_assoc xs fs (p ∷ []))
extended-append xs fs p false = refl

pub swap-perm :
    (m b : ℕ) (tasks free : List ℕ)
    → Perm (m ∷ (tasks ++ b ∷ free)) (b ∷ ((tasks ++ m ∷ []) ++ free))
swap-perm m b tasks free =
    subst (λ l. Perm (m ∷ (tasks ++ b ∷ free)) (b ∷ l)) (sym (append_assoc tasks (m ∷ []) free))
      (Perm.trans (Perm.cons m (perm_middle tasks free)) (
        Perm.trans (Perm.swap b m (tasks ++ free))
          (Perm.cons b (Perm.symm (perm_middle tasks free)))))

pub fresh-perm :
    (m b : ℕ) (tasks free : List ℕ)
    → Perm (b ∷ m ∷ (tasks ++ free)) (b ∷ ((tasks ++ m ∷ []) ++ free))
fresh-perm m b tasks free =
    subst (λ l. Perm (b ∷ m ∷ (tasks ++ free)) (b ∷ l)) (sym (append_assoc tasks (m ∷ []) free))
      (Perm.cons b (Perm.symm (perm_middle tasks free)))

pub All-split : (P : ℕ → Type 0) (xs ys : List ℕ) → All P (xs ++ ys) → All P xs × All P ys
All-split P [] ys a = (tt, a)
All-split P (x ∷ xs) ys a = let (h, t) = All-split P xs ys a.1 in ((a.0, h), t)

pub All-grow : (n : ℕ) (xs : List ℕ) → All (λ i. i < n) xs → All (λ i. i < n + 1) xs
All-grow n [] a = tt
All-grow n (x ∷ xs) a = (omega (arith, a.0), All-grow n xs a.1)

pub fresh-Sound : (n : ℕ) → n < 2 ^ 32 → Sound (open_buffer (replicate n 0)) []
fresh-Sound n small = record { filled = fresh-Filled n small; not_sealed = refl; no_writers = refl }
