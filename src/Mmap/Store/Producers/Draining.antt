-- ===== src/Mmap/Store/Producers/Draining.antt =====
-- What a Write to a sealed buffer of mmap/mmap_buffer.cpp does, and stores into a heap of buffers.
use logger_high.Base.{
  ℕ, ◌+◌, ◌-◌, ◌≡◌, refl, ◌∙◌, ap, sym, ◌≢◌, inl, inr, true, false, List, arith, ◌==◌, Bool-cases,
}
use mathlib.Core.Path.{fun_ext}
use logger_high.Mmap.Buffer.{MmapBuffer, write}
use logger_high.Mmap.Buffer.Fill.{is_oversized}
use logger_high.Mmap.Store.{update}

-- A sealed buffer turns every Write down, and stays as it is.
pub write_sealed : (b : MmapBuffer) (p : List ℕ) → b.sealed ≡ true → write b p ≡ (b, false)
unfolding write
write_sealed b p s =
    let back : b.writers + 1 - 1 ≡ b.writers = omega arith in
    elim (Bool-cases (is_oversized p)) [
      | inl e ↦ rw e refl
      | inr e ↦ rw (e, s) (ap (λ n. (record b { writers = n; sealed = true }, false)) back)
    ]

module _ {ℓ} {A : Type ℓ} (f : ℕ → A) (i : ℕ) where
  pub update_twice : (a b : A) → update (update f i a) i b ≡ update f i b
  update_twice a b =
      fun_ext (λ j. elim (Bool-cases (i == j)) [ inl e ↦ rw e refl | inr e ↦ rw e refl ])

  pub update_back : (a : A) → f i ≡ a → update f i a ≡ f
  update_back a e = fun_ext (λ j. elim (Bool-cases (i == j)) [
    | inl same ↦ let q : i ≡ j = ground arith in rw same (sym e ∙ ap f q)
    | inr apart ↦ rw apart refl
  ])

  pub update_swap :
      (j : ℕ) (a b : A) → i ≢ j → update (update f i a) j b ≡ update (update f j b) i a
  update_swap j a b h = fun_ext (λ k. elim (Bool-cases (i == k)) [
    | inl e ↦ let q : (j == k) ≡ false = ground arith in rw (e, q) refl
    | inr e ↦ rw e refl
  ])
