-- ===== src/Rosca/Start/Shuffle.antt =====
-- `shuffle_participants`: the order is the same accounts, in another order.
use dotcircles.Prelude.{
  List, SameItems, [], ap, arith, count, get_elem?, length, ltb, none, of_some, refl, remove_at,
  some, suc, sym, true, zero, ℕ, ◌%◌, ◌<◌, ◌∙◌, ◌∷◌, ◌≡◌,
}
use dotcircles.Rosca.Start.{draw}
use dotcircles.Rosca.Effects.{ok, ◌>>=◌}
use dotcircles.Rosca.Storage.{Runtime, State}
use mathlib.Core.List.{map}
use native.Mathlib.Nat.{mod-lt}

-- An index within the list picks an element, and leaves the rest.
pub picked {ℓ} :
    {A : Type ℓ} (xs : List A) (i : ℕ) → i < length xs → (x : A) × (get_elem? xs i ≡ some x)
picked [] i h = absurd (omega arith)
picked (x ∷ xs) zero h = (x, refl)
picked (x ∷ xs) (suc i) h = picked xs i (omega arith)

length-remove_at {ℓ} :
    {A : Type ℓ} (xs : List A) (i : ℕ) → i < length xs → suc (length (remove_at xs i)) ≡ length xs
length-remove_at [] i h = absurd (omega arith)
length-remove_at (x ∷ xs) zero h = refl
length-remove_at (x ∷ xs) (suc i) h = ap suc (length-remove_at xs i (omega arith))

count-remove_at :
    (xs : List ℕ) (i x a : ℕ) → get_elem? xs i ≡ some x → count (x ∷ remove_at xs i) a ≡ count xs a
count-remove_at [] i x a h = cc
count-remove_at (y ∷ xs) zero x a h = ground arith
count-remove_at (y ∷ xs) (suc i) x a h = ground (arith, count-remove_at xs i x a h)

-- The elements that the loop takes out, one after the other, as long as its index is within range.
pub drawn_from {ℓ} : {A : Type ℓ} → ℕ → ℕ → List A → List A
drawn_from byte zero available = []
drawn_from byte (suc k) available =
    let i : ℕ = byte % length available in
    let rest = drawn_from byte k (remove_at available i) in
    elim (get_elem? available i) [ none ↦ rest | some x ↦ x ∷ rest ]

-- A step of the loop takes the element out and goes on with the rest.
Drawn {ℓ} : {A : Type ℓ} (b k : ℕ) → List A → Type ℓ
Drawn {A = A} b k xs =
    (x : A) × (get_elem? xs (b % length xs) ≡ some x)
    × (drawn_from b (suc k) xs ≡ x ∷ drawn_from b k (remove_at xs (b % length xs)))
    × (k ≡ length (remove_at xs (b % length xs)))

draw-suc {ℓ} : {A : Type ℓ} (b k : ℕ) (xs : List A) → suc k ≡ length xs → Drawn b k xs
unfolding drawn_from Drawn
draw-suc b k xs e =
    let i : ℕ = b % length xs in
    let inside : i < length xs = mod-lt b (omega arith) in
    let (x, at) = picked xs i inside in
    (
      x,
      at,
      ap
          (λ o. elim o [
            | none ↦ drawn_from b k (remove_at xs i)
            | some y ↦ y ∷ drawn_from b k (remove_at xs i)
          ])
          at,
      omega (arith, length-remove_at xs i inside),
    )

-- Each drawn once: the result has the items of the list that is drawn from.
pub count-drawn_from : (b k : ℕ) (xs : List ℕ) → k ≡ length xs → SameItems (drawn_from b k xs) xs
unfolding drawn_from Drawn
count-drawn_from b zero [] e a = refl
count-drawn_from b zero (x ∷ xs) e a = absurd (omega arith)
count-drawn_from b (suc k) xs e a =
    let (x, at, step, shorter) = draw-suc b k xs e in
    rw step (
      ground (
        arith,
        count-drawn_from b k (remove_at xs (b % length xs)) shorter a,
        count-remove_at xs (b % length xs) x a at,
      ))

-- The loop draws indices; it could as well drawn_from the elements.
module _ {ℓ ℓ'} {A : Type ℓ} {B : Type ℓ'} (f : A → B) where
  length-map_lem : (xs : List A) → length (map f xs) ≡ length xs
  length-map_lem [] = refl
  length-map_lem (x ∷ xs) = ap suc (length-map_lem xs)

  map-remove_at : (xs : List A) (i : ℕ) → map f (remove_at xs i) ≡ remove_at (map f xs) i
  map-remove_at [] i = refl
  map-remove_at (x ∷ xs) zero = refl
  map-remove_at (x ∷ xs) (suc i) = ap (λ t. f x ∷ t) (map-remove_at xs i)

  get_elem?-map :
      (xs : List A) (i : ℕ) (x : A) → get_elem? xs i ≡ some x → get_elem? (map f xs) i ≡ some (f x)
  get_elem?-map [] i x h = cc
  get_elem?-map (y ∷ xs) zero x h = ground arith
  get_elem?-map (y ∷ xs) (suc i) x h = get_elem?-map xs i x h

  pub map-drawn_from :
      (b k : ℕ) (xs : List A)
      → k ≡ length xs
      → map f (drawn_from b k xs) ≡ drawn_from b k (map f xs)
  unfolding drawn_from Drawn
  map-drawn_from b zero xs e = refl
  map-drawn_from b (suc k) xs e =
      let (x, at, step, shorter) = draw-suc b k xs e in
      let n = length-map_lem xs in
      let at' : get_elem? (map f xs) (b % length (map f xs)) ≡ some (f x) =
        rw n (get_elem?-map xs (b % length xs) x at) in
      let (y, aty, step', shorter') = draw-suc b k (map f xs) (e ∙ sym n) in
      let same : y ≡ f x = of_some (sym aty ∙ at') in
      rw (step, step', same, n, ← map-remove_at xs (b % length xs))
        (ap (λ t. f x ∷ t) (map-drawn_from b k (remove_at xs (b % length xs)) shorter))

pub length-drawn_from : (b k : ℕ) (xs : List ℕ) → k ≡ length xs → length (drawn_from b k xs) ≡ k
unfolding drawn_from Drawn
length-drawn_from b zero xs e = refl
length-drawn_from b (suc k) xs e =
    let (x, at, step, shorter) = draw-suc b k xs e in
    rw step (ap suc (length-drawn_from b k (remove_at xs (b % length xs)) shorter))

module _ (rt : Runtime) where
  -- The loop ends within as many steps as there are indices, none of which is out of range.
  pub draw_lem :
      (b k : ℕ) (xs : List ℕ) (s : State rt.Ledger)
      → k ≡ length xs
      → draw rt k b xs s ≡ (ok (drawn_from b k xs), s)
  unfolding draw drawn_from Drawn ◌>>=◌
  draw_lem b zero [] s e = refl
  draw_lem b zero (x ∷ xs) s e = absurd (omega arith)
  draw_lem b (suc k) [] s e = absurd (omega arith)
  draw_lem b (suc k) (x ∷ xs) s e =
      let (y, at, step, shorter) = draw-suc b k (x ∷ xs) e in
      let inside : ltb (b % length (x ∷ xs)) (length (x ∷ xs)) ≡ true =
        (let lt : b % length (x ∷ xs) < length (x ∷ xs) = mod-lt b (omega arith) in
          ground (arith, lt)) in
      rw (step, at, inside, draw_lem b k (remove_at (x ∷ xs) (b % length (x ∷ xs))) s shorter) refl
