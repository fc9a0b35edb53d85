-- ===== src/Mmap/Store/Invariant.antt =====
-- The well-formedness of the store of mmap/mmap_store.cpp.
use logger_high.Base.{
  ℕ, ◌+◌, ◌≤◌, ◌<◌, ◌≡◌, refl, ◌∙◌, ap, sym, ◌≢◌, inl, inr, true, false, List, [], ◌∷◌, ◌++◌,
  length, arith, All, append_assoc, ◌==◌, Bool-cases,
}
use logger_high.Mmap.Buffer.{MmapBuffer}
use logger_high.Mmap.Buffer.Fill.{Filled}
use logger_high.Mmap.Store.{MmapStore, update}
use mathlib.Core.List.{Mem, Nodup, mem-cons, mem-append, not-mem-nil}
use mathlib.Core.Logic.Or
use mathlib.Core.HLevel.{⊥_prop}

-- A buffer outside a call: no writer inside, not sealed, and holding the frames `fs`.
pub record Sound (b : MmapBuffer) (fs : List (List ℕ)) : Type 0 where
  pub filled : Filled b fs
  pub not_sealed : b.sealed ≡ false
  pub no_writers : b.writers ≡ 0

abbrev pub owners : {S : Type 0} → MmapStore S → List ℕ
owners s = s.master ∷ (s.tasks ++ s.free)

-- `c i` are the frames of buffer `i`. Every buffer of the pool is the master, waits for its drain, or
-- is free, and is so once.
pub record Loose {S : Type 0} (s : MmapStore S) (c : ℕ → List (List ℕ)) : Type 0 where
  pub once : Nodup (owners s)
  pub below : All (λ i. i < s.pool_size) (owners s)
  pub count : length s.tasks + length s.free + 1 ≡ s.pool_size
  pub limit : s.pool_size ≤ s.config.max_buffers
  pub flying : s.in_flight ≡ length s.tasks
  pub buffers : (i : ℕ) → i < s.pool_size → Sound (s.heap i) (c i)

-- With one producer, the free buffers are empty besides.
pub record Inv {S : Type 0} (s : MmapStore S) (c : ℕ → List (List ℕ)) : Type 0 where
  pub loose : Loose s c
  pub idle : All (λ i. c i ≡ []) s.free

abbrev pub gather : (ℕ → List (List ℕ)) → List ℕ → List (List ℕ)
gather c [] = []
gather c (i ∷ is) = c i ++ gather c is

-- The frames that are in the store, oldest first.
abbrev pub pending : {S : Type 0} → MmapStore S → (ℕ → List (List ℕ)) → List (List ℕ)
pending s c = gather c s.tasks ++ c s.master

pub update_same {ℓ} : {A : Type ℓ} (f : ℕ → A) (i : ℕ) (a : A) → update f i a i ≡ a
update_same f i a = let e : (i == i) ≡ true = ground arith in rw e refl

pub update_other {ℓ} : {A : Type ℓ} (f : ℕ → A) (i j : ℕ) (a : A) → i ≢ j → update f i a j ≡ f j
update_other f i j a h = let e : (i == j) ≡ false = ground arith in rw e refl

pub not_mem_tail : {i x : ℕ} {xs : List ℕ} → ¬ Mem i (x ∷ xs) → ¬ Mem i xs
not_mem_tail h m = h (mem-cons.1 (Or.inr m))

pub not_mem_head : {i x : ℕ} {xs : List ℕ} → ¬ Mem i (x ∷ xs) → i ≢ x
not_mem_head h e = h (mem-cons.1 (Or.inl e))

pub gather-update :
    (c : ℕ → List (List ℕ)) (i : ℕ) (fs : List (List ℕ)) (xs : List ℕ)
    → ¬ Mem i xs
    → gather (update c i fs) xs ≡ gather c xs
gather-update c i fs [] h = refl
gather-update c i fs (x ∷ xs) h =
    rw (update_other c i x fs (not_mem_head h), gather-update c i fs xs (not_mem_tail h)) refl

pub gather-append :
    (c : ℕ → List (List ℕ)) (xs ys : List ℕ) → gather c (xs ++ ys) ≡ gather c xs ++ gather c ys
gather-append c [] ys = refl
gather-append c (x ∷ xs) ys =
    ap (λ l. c x ++ l) (gather-append c xs ys)
    ∙ sym (append_assoc (c x) (gather c xs) (gather c ys))

pub idle-update :
    (c : ℕ → List (List ℕ)) (i : ℕ) (fs : List (List ℕ)) (xs : List ℕ)
    → ¬ Mem i xs
    → All (λ j. c j ≡ []) xs
    → All (λ j. update c i fs j ≡ []) xs
idle-update c i fs [] h a = tt
idle-update c i fs (x ∷ xs) h a =
    (update_other c i x fs (not_mem_head h) ∙ a.0, idle-update c i fs xs (not_mem_tail h) a.1)

-- A number that bounds the list is not in it.
pub not_mem_above : (n : ℕ) (xs : List ℕ) → All (λ i. i < n) xs → ¬ Mem n xs
not_mem_above n [] a m = not-mem-nil m
not_mem_above n (x ∷ xs) a m =
    Or.elim ⊥_prop (mem-cons.0 m) (λ e. absurd (omega arith)) (not_mem_above n xs a.1)

pub not_mem_left : (i : ℕ) (xs ys : List ℕ) → ¬ Mem i (xs ++ ys) → ¬ Mem i xs
not_mem_left i xs ys h m = h (mem-append.1 (Or.inl m))

pub not_mem_right : (i : ℕ) (xs ys : List ℕ) → ¬ Mem i (xs ++ ys) → ¬ Mem i ys
not_mem_right i xs ys h m = h (mem-append.1 (Or.inr m))

pub buffers-update :
    {S : Type 0} (s : MmapStore S) (c : ℕ → List (List ℕ)) (i : ℕ) (b : MmapBuffer)
    (fs : List (List ℕ))
    → Sound b fs
    → ((j : ℕ) → j < s.pool_size → Sound (s.heap j) (c j))
    → (j : ℕ) → j < s.pool_size
    → Sound (update s.heap i b j) (update c i fs j)
buffers-update s c i b fs v h j k = elim (Bool-cases (i == j)) [
  | inl e ↦ rw e v
  | inr e ↦ rw e (h j k)
]
