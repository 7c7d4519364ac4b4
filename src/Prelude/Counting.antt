-- ===== src/Prelude/Counting.antt =====
-- How often an account stands in a list: the view of a list that forgets its order.
use Prim.Native.Nat.{ℕ, suc, ◌+◌, ◌<◌, ◌≤◌}
use mathlib.Core.Path.{◌≡◌, refl}
use mathlib.Core.Bool.{true, false}
use mathlib.Core.List.{List, [], ◌∷◌, ◌++◌}
use mathlib.Core.Option.{some}
use native.Mathlib.Omega.{arith}
use dotcircles.Prelude.Tests.{◌==◌, if◌then◌else◌}
use dotcircles.Prelude.Lists.{contains, Distinct, last?, init}

abbrev pub count : List ℕ → ℕ → ℕ
count [] a = 0
count (x ∷ xs) a = if a == x then suc (count xs a) else count xs a

-- The same accounts, as often.
abbrev pub SameItems : List ℕ → List ℕ → Type 0
SameItems xs ys = (a : ℕ) → count xs a ≡ count ys a

pub contains-count : (xs : List ℕ) (a : ℕ) → contains xs a ≡ true → 0 < count xs a
contains-count [] a h = cc
contains-count (x ∷ xs) a h = ground (arith, contains-count xs a)

pub count-contains : (xs : List ℕ) (a : ℕ) → 0 < count xs a → contains xs a ≡ true
count-contains [] a h = absurd (omega arith)
count-contains (x ∷ xs) a h = ground (arith, count-contains xs a)

pub not_contains-count : (xs : List ℕ) (a : ℕ) → contains xs a ≡ false → count xs a ≡ 0
not_contains-count [] a h = refl
not_contains-count (x ∷ xs) a h = ground (arith, not_contains-count xs a)

pub count-not_contains : (xs : List ℕ) (a : ℕ) → count xs a ≡ 0 → contains xs a ≡ false
count-not_contains [] a h = refl
count-not_contains (x ∷ xs) a h = ground (arith, count-not_contains xs a)

pub Distinct-count : (xs : List ℕ) → Distinct xs → (a : ℕ) → count xs a ≤ 1
Distinct-count [] v a = omega arith
Distinct-count (x ∷ xs) v a = ground (arith, Distinct-count xs v.1 a, not_contains-count xs x v.0)

pub count-Distinct : (xs : List ℕ) → ((a : ℕ) → count xs a ≤ 1) → Distinct xs
count-Distinct [] h = tt
count-Distinct (x ∷ xs) h =
    (count-not_contains xs x (ground (arith, h x)), count-Distinct xs (λ a. ground (arith, h a)))

pub SameItems-Distinct : (xs ys : List ℕ) → SameItems xs ys → Distinct xs → Distinct ys
SameItems-Distinct xs ys e v = count-Distinct ys (λ a. omega (arith, e a, Distinct-count xs v a))

pub SameItems-contains :
    (xs ys : List ℕ) → SameItems xs ys → (a : ℕ) → contains xs a ≡ true → contains ys a ≡ true
SameItems-contains xs ys e a h = count-contains ys a (omega (arith, e a, contains-count xs a h))

pub count-append : (xs ys : List ℕ) (a : ℕ) → count (xs ++ ys) a ≡ count xs a + count ys a
count-append [] ys a = omega arith
count-append (x ∷ xs) ys a = ground (arith, count-append xs ys a)

-- An order that is not empty has a last account.
pub last?-some : (x : ℕ) (xs : List ℕ) → (l : ℕ) × (last? (x ∷ xs) ≡ some l)
last?-some x [] = (x, refl)
last?-some x (y ∷ r) = last?-some y r

-- Moving the last account to the front keeps the items.
pub count-rotate :
    (x : ℕ) (xs : List ℕ) (l a : ℕ)
    → last? (x ∷ xs) ≡ some l
    → count (l ∷ init (x ∷ xs)) a ≡ count (x ∷ xs) a
count-rotate x [] l a h = ground arith
count-rotate x (y ∷ r) l a h = ground (arith, count-rotate y r l a)
