-- ===== src/Sinks/EvictionRunner/Sweep.antt =====
-- The removing loop of sinks/eviction_runner.cpp.
use logger_high.Base.{
  ℕ, ◌+◌, ◌-◌, ◌≤◌, ◌≡◌, refl, ◌⊎◌, inl, inr, Bool, true, false, not, ◌||◌, List, [], ◌∷◌, ◌++◌,
  Option, arith, All, leb, Bool-cases, leb→le,
}
use logger_high.Sinks.EvictionRunner.{
  Entry, sum_sizes, is_active, evict, start, stop, run_loop, Runner,
}
use mathlib.Core.List.{Perm, perm_middle}
use mathlib.Core.List.Perm

abbrev pub IsKeeper : Option ℕ → Entry → Type 0
IsKeeper active e = (is_active active e || not e.removable) ≡ true

-- The total that the loop goes by stays the sum of what is left on disk (with whatever `extra` it
-- began with), and is at the cap or below when the loop ends, unless every file left is the active
-- shard or could not be removed.
pub evict_total :
    (cap_bytes : ℕ) (active : Option ℕ) (es : List Entry) (extra total : ℕ)
    → total ≡ extra + sum_sizes es
    → let r = evict cap_bytes active es total in
      (r.total ≡ extra + sum_sizes r.kept) × ((r.total ≤ cap_bytes) ⊎ All (IsKeeper active) r.kept)
unfolding evict
evict_total cap_bytes active [] extra total h = (h, inr tt)
evict_total cap_bytes active (e ∷ es) extra total h = elim (Bool-cases (leb total cap_bytes)) [
  | inl low ↦ rw low (h, inl (leb→le total cap_bytes low))
  | inr high ↦ elim (Bool-cases (is_active active e || not e.removable)) [
    | inl keeper ↦
        let (sum, ends) = evict_total cap_bytes active es (extra + e.size) total (omega arith) in
        rw (high, keeper)
          (omega (arith, sum), elim ends [ inl low ↦ inl low | inr rest ↦ inr (keeper, rest) ])
    | inr goes ↦
        rw (high, goes) (evict_total cap_bytes active es extra (total - e.size) (omega arith))
  ]
]

-- No sweep removes the active shard, nor a file that the file system holds on to.
pub evict_spares :
    (cap_bytes : ℕ) (active : Option ℕ) (es : List Entry) (total : ℕ)
    → All
        (λ e. (is_active active e ≡ false) × (e.removable ≡ true))
        (evict cap_bytes active es total).removed
unfolding evict
evict_spares cap_bytes active [] total = tt
evict_spares cap_bytes active (e ∷ es) total = ground (
  arith,
  evict_spares cap_bytes active es total,
  evict_spares cap_bytes active es (total - e.size),
)

-- Every file is either removed or left, and none is made up.
pub evict-perm :
    (cap_bytes : ℕ) (active : Option ℕ) (es : List Entry) (total : ℕ)
    → let r = evict cap_bytes active es total in Perm (r.removed ++ r.kept) es
unfolding evict
evict-perm cap_bytes active [] total = Perm.nil
evict-perm cap_bytes active (e ∷ es) total = elim (Bool-cases (leb total cap_bytes)) [
  | inl low ↦ rw low (Perm.refl (e ∷ es))
  | inr high ↦ elim (Bool-cases (is_active active e || not e.removable)) [
    | inl keeper ↦
        let r = evict cap_bytes active es total in
        rw (high, keeper)
          (Perm.trans (perm_middle r.removed r.kept)
            (Perm.cons e (evict-perm cap_bytes active es total)))
    | inr goes ↦ rw (high, goes) (Perm.cons e (evict-perm cap_bytes active es (total - e.size)))
  ]
]

-- Once a runner was stopped, a second Start does start a thread, but that thread never sweeps, however
-- often it is woken and whatever `stop_` would be then.
pub restart_dead :
    (r : Runner) (wakes : List Bool)
    → r.started ≡ true
    → let again = start (stop r) in
      (again.started ≡ true) × (again.joinable ≡ true) × (run_loop again.stop_flag wakes ≡ 0)
unfolding start stop run_loop
restart_dead r [] h = rw h (refl, refl, refl)
restart_dead r (w ∷ wakes) h = rw h (refl, refl, refl)
