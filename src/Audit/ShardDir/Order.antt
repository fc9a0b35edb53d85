-- ===== src/Audit/ShardDir/Order.antt =====
-- The sorting of names in DecodeShardDir of audit/shard_reader.cpp.
use logger_high.Base.{
  ℕ, ◌≡◌, refl, ◌∙◌, ap, sym, inl, inr, List, [], ◌∷◌, Bool-cases, if◌then◌else◌,
}
use logger_high.Names.{name_lt, name_eq, name_lt-asym, name_lt_trans}
use logger_high.Audit.ShardDir.{insert_name, sort_names}
use mathlib.Core.List.{Perm, Permᴰ}
use mathlib.Core.Logic.{∥∥₁_elim}

-- Two names at the front of a list, in either order of going in.
front_comm :
    (a b : List ℕ) (l : List (List ℕ))
    → (if name_lt b a then b ∷ a ∷ l else a ∷ b ∷ l)
      ≡ (if name_lt a b then a ∷ b ∷ l else b ∷ a ∷ l)
front_comm a b l = elim (Bool-cases (name_lt a b)) [
  | inl p ↦ rw (p, name_lt-asym a b p) refl
  | inr p ↦ elim (Bool-cases (name_lt b a)) [
    | inl q ↦ rw (p, q) refl
    | inr q ↦ let e = name_eq a b p q in rw (p, q) (λ i. e i ∷ sym e i ∷ l)
  ]
]

-- Two names go in by either order.
insert_comm :
    (a b : List ℕ) (l : List (List ℕ))
    → insert_name a (insert_name b l) ≡ insert_name b (insert_name a l)
unfolding insert_name
insert_comm a b [] = front_comm a b []
insert_comm a b (x ∷ l) = elim (Bool-cases (name_lt x a)) [
  | inl p ↦ elim (Bool-cases (name_lt x b)) [
    | inl q ↦ rw (p, q, p) (ap (λ m. x ∷ m) (insert_comm a b l))
    | inr q ↦ rw (p, q, name_lt_trans x a b p q, p) refl
  ]
  | inr p ↦ elim (Bool-cases (name_lt x b)) [
    | inl q ↦ rw (p, q, name_lt_trans x b a q p, p) refl
    | inr q ↦ rw (p, q, p) (front_comm a b (x ∷ l))
  ]
]

sort_by_derivation : {l m : List (List ℕ)} → Permᴰ l m → sort_names l ≡ sort_names m
unfolding sort_names
sort_by_derivation Permᴰ.nil = refl
sort_by_derivation (Permᴰ.cons e d) = λ i. insert_name (e i) (sort_by_derivation d i)
sort_by_derivation (Permᴰ.swap {a} {b} {l = l} e f) =
    insert_comm a b (sort_names l) ∙ (λ i. insert_name (f i) (insert_name (e i) (sort_names l)))
sort_by_derivation (Permᴰ.trans d e) = sort_by_derivation d ∙ sort_by_derivation e

-- The order of a listing does not show in the sorted names.
pub sort-perm : {l m : List (List ℕ)} → Perm l m → sort_names l ≡ sort_names m
sort-perm p = ∥∥₁_elim p (hlevel) sort_by_derivation
