-- ===== src/Rosca/Pending/Seats.antt =====
-- The order of a pending circle: free and taken places.

-- How many places are taken.
use dotcircles.Prelude.{
  List, Option, [], arith, get_elem?, if◌then◌else◌, length, none, refl, set, some, suc, zero, ℕ,
  ◌+◌, ◌==◌, ◌∷◌, ◌≡◌, ◌≤◌,
}

abbrev pub filled : List (Option ℕ) → ℕ
filled [] = 0
filled (none ∷ r) = filled r
filled (some a ∷ r) = suc (filled r)

pub get_elem?-set {ℓ} :
    {A : Type ℓ} (xs : List A) (i j : ℕ) (v : A) {w : A}
    → get_elem? xs i ≡ some w
    → get_elem? (set xs i v) j ≡ (if i == j then some v else get_elem? xs j)
get_elem?-set [] i j v h = cc
get_elem?-set (x ∷ xs) zero zero v h = refl
get_elem?-set (x ∷ xs) zero (suc j) v h = ground arith
get_elem?-set (x ∷ xs) (suc i) zero v h = ground arith
get_elem?-set (x ∷ xs) (suc i) (suc j) v h = ground (arith, get_elem?-set xs i j v h)

pub filled-set-some :
    (o : List (Option ℕ)) (i a : ℕ)
    → get_elem? o i ≡ some none
    → filled (set o i (some a)) ≡ filled o + 1
filled-set-some [] i a h = cc
filled-set-some (none ∷ r) zero a h = omega arith
filled-set-some (some b ∷ r) zero a h = cc
filled-set-some (none ∷ r) (suc i) a h = filled-set-some r i a h
filled-set-some (some b ∷ r) (suc i) a h = omega (arith, filled-set-some r i a h)

pub filled-set-none :
    (o : List (Option ℕ)) (i a : ℕ)
    → get_elem? o i ≡ some (some a)
    → filled (set o i none) + 1 ≡ filled o
filled-set-none [] i a h = cc
filled-set-none (none ∷ r) zero a h = ground arith
filled-set-none (some b ∷ r) zero a h = omega arith
filled-set-none (none ∷ r) (suc i) a h = filled-set-none r i a h
filled-set-none (some b ∷ r) (suc i) a h = omega (arith, filled-set-none r i a h)

pub filled-le-length : (o : List (Option ℕ)) → filled o ≤ length o
filled-le-length [] = omega arith
filled-le-length (none ∷ r) = omega (arith, filled-le-length r)
filled-le-length (some a ∷ r) = omega (arith, filled-le-length r)
