-- ===== src/Mmap/Store/Producers/Contents.antt =====
-- The frames in all the buffers of the pool of mmap/mmap_store.cpp, whoever owns them.
use logger_high.Base.{
  ℕ, zero, suc, ◌+◌, ◌<◌, ◌≡◌, refl, ◌∙◌, ap, sym, ◌≢◌, inl, inr, List, [], ◌++◌, arith,
  append_assoc, append-nil, ◌==◌, Bool-cases, subst,
}
use logger_high.Mmap.Store.{update}
use logger_high.Mmap.Store.Invariant.{update_same, update_other}
use mathlib.Core.List.{Perm, perm_append_comm}
use mathlib.Core.List.Perm

abbrev pub contents : (ℕ → List (List ℕ)) → ℕ → List (List ℕ)
contents c zero = []
contents c (suc n) = contents c n ++ c n

pub contents_same :
    (c d : ℕ → List (List ℕ)) (n : ℕ) → ((j : ℕ) → j < n → c j ≡ d j) → contents c n ≡ contents d n
contents_same c d zero h = refl
contents_same c d (suc n) h =
    ap (λ l. l ++ c n) (contents_same c d n (λ j k. h j (omega (arith, k))))
    ∙ ap (λ l. contents d n ++ l) (h n (omega arith))

-- A buffer's frames can be taken out first, in any order of the others.
pub contents_perm :
    (c d : ℕ → List (List ℕ)) (i n : ℕ)
    → ((j : ℕ) → i ≢ j → d j ≡ c j)
    → i < n
    → Perm (contents d n) (d i ++ contents (update c i []) n)
contents_perm c d i zero h k = absurd (omega (arith, k))
contents_perm c d i (suc n) h k = elim (Bool-cases (i == n)) [
  | inl e ↦
      let u = update c i [] in
      let same : i ≡ n = ground arith in
      let others : contents d n ≡ contents u n = contents_same d u n (λ j q.
        let apart : i ≢ j = λ r. absurd (omega (arith, q, r, same)) in
        h j apart ∙ sym (update_other c i j [] apart)) in
      let gone : u n ≡ [] = ap u (sym same) ∙ update_same c i [] in
      rw (others, gone, append-nil, sym same) (perm_append_comm (contents u i) (d i))
  | inr e ↦
      let u = update c i [] in
      let apart : i ≢ n = ground arith in
      let kept : u n ≡ d n = update_other c i n [] apart ∙ sym (h n apart) in
      let split = contents_perm c d i n h (ground arith) in
      rw (kept, sym (append_assoc (d i) (contents u n) (d n))) (Perm.append_right (d n) split)
]

-- A payload that is added to one of them is added.
pub contents_write :
    (c : ℕ → List (List ℕ)) (i n : ℕ) (ps : List (List ℕ))
    → i < n
    → Perm (contents c n ++ ps) (contents (update c i (c i ++ ps)) n)
contents_write c i n ps k =
    let d = update c i (c i ++ ps) in
    let rest = contents (update c i []) n in
    let before = contents_perm c c i n (λ j h. refl) k in
    let after =
      subst (λ l. Perm (contents d n) (l ++ rest)) (update_same c i (c i ++ ps))
        (contents_perm c d i n (λ j h. update_other c i j (c i ++ ps) h) k) in
    let shuffled : Perm ((c i ++ rest) ++ ps) ((c i ++ ps) ++ rest) =
      rw (append_assoc (c i) rest ps, append_assoc (c i) ps rest)
        (Perm.append_left (c i) (perm_append_comm rest ps)) in
    Perm.trans (Perm.append_right ps before) (Perm.trans shuffled (Perm.symm after))

-- A buffer that is emptied loses its own frames only.
pub contents_drain :
    (c : ℕ → List (List ℕ)) (i n : ℕ)
    → i < n
    → Perm (contents c n) (c i ++ contents (update c i []) n)
contents_drain c i n k = contents_perm c c i n (λ j h. refl) k

pub contents_fresh :
    (c : ℕ → List (List ℕ)) (n : ℕ) → contents (update c n []) (n + 1) ≡ contents c n
contents_fresh c n =
    let next : n + 1 ≡ suc n = omega arith in
    ap (contents (update c n [])) next
    ∙ ap (λ l. contents (update c n []) n ++ l) (update_same c n [])
    ∙ append-nil (contents (update c n []) n)
    ∙ contents_same (update c n []) c n
        (λ j k. update_other c n j [] (λ e. absurd (omega (arith, k, e))))

pub contents_none : (n : ℕ) → contents (λ _. []) n ≡ []
contents_none zero = refl
contents_none (suc n) = ap (λ l. l ++ []) (contents_none n)
