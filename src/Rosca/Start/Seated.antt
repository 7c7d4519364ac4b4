-- ===== src/Rosca/Start/Seated.antt =====
-- The accounts of an order with free places, without the free ones.
use dotcircles.Prelude.{
  Bool-cases, List, Option, SameItems, [], arith, count, get_elem?, inl, inr, length, none, refl,
  reverse, some, suc, zero, ℕ, ◌+◌, ◌<◌, ◌==◌, ◌∷◌, ◌≡◌, ◌≢◌, ◌≤◌,
}
use dotcircles.Rosca.Start.{compact}
use dotcircles.Rosca.Pending.Seats.{filled}
use mathlib.Core.List.{reverse_aux}

nobody :
    (o : List (Option ℕ)) (a : ℕ)
    → ((i : ℕ) → get_elem? o i ≢ some (some a))
    → count (compact o) a ≡ 0
unfolding compact
nobody [] a h = refl
nobody (none ∷ r) a h = nobody r a (λ i. h (suc i))
nobody (some b ∷ r) a h = ground (arith, h 0, nobody r a (λ i. h (suc i)))

-- An account with one place is counted at most once.
pub count-compact :
    (o : List (Option ℕ)) (a : ℕ)
    → ((i j : ℕ) → get_elem? o i ≡ some (some a) → get_elem? o j ≡ some (some a) → i ≡ j)
    → count (compact o) a ≤ 1
unfolding compact
count-compact [] a h = omega arith
count-compact (none ∷ r) a h = count-compact r a (λ i j p q. omega (arith, h (suc i) (suc j) p q))
count-compact (some b ∷ r) a h = elim (Bool-cases (a == b)) [
  | inl here ↦
      let same : some (some b) ≡ some (some a) = ground (arith, here) in
      ground (arith, here, nobody r a (λ i p. omega (arith, h 0 (suc i) same p)))
  | inr there ↦
      ground (arith, there, count-compact r a (λ i j p q. omega (arith, h (suc i) (suc j) p q)))
]

-- An account with a place is counted.
pub counted_seat :
    (o : List (Option ℕ)) (i a : ℕ) → get_elem? o i ≡ some (some a) → 0 < count (compact o) a
unfolding compact
counted_seat [] i a h = cc
counted_seat (none ∷ r) zero a h = cc
counted_seat (none ∷ r) (suc i) a h = counted_seat r i a h
counted_seat (some b ∷ r) zero a h = ground arith
counted_seat (some b ∷ r) (suc i) a h = ground (arith, counted_seat r i a h)

-- Reversing the places keeps the accounts.
count-compact-reverse_aux :
    (o r : List (Option ℕ)) (a : ℕ)
    → count (compact (reverse_aux o r)) a ≡ count (compact o) a + count (compact r) a
unfolding compact
count-compact-reverse_aux [] r a = omega arith
count-compact-reverse_aux (none ∷ o) r a = count-compact-reverse_aux o (none ∷ r) a
count-compact-reverse_aux (some b ∷ o) r a =
    ground (arith, count-compact-reverse_aux o (some b ∷ r) a)

pub SameItems-reverse : (o : List (Option ℕ)) → SameItems (compact (reverse o)) (compact o)
unfolding compact
SameItems-reverse o a = omega (arith, count-compact-reverse_aux o [] a)

length-compact-reverse_aux :
    (o r : List (Option ℕ)) → length (compact (reverse_aux o r)) ≡ filled o + filled r
unfolding compact
length-compact-reverse_aux [] [] = refl
length-compact-reverse_aux [] (none ∷ r) = length-compact-reverse_aux [] r
length-compact-reverse_aux [] (some b ∷ r) = omega (arith, length-compact-reverse_aux [] r)
length-compact-reverse_aux (none ∷ o) r = length-compact-reverse_aux o (none ∷ r)
length-compact-reverse_aux (some b ∷ o) r =
    ground (arith, length-compact-reverse_aux o (some b ∷ r))

-- As many as there are places taken.
pub length-compact-reverse : (o : List (Option ℕ)) → length (compact (reverse o)) ≡ filled o
unfolding compact
length-compact-reverse o = omega (arith, length-compact-reverse_aux o [])
