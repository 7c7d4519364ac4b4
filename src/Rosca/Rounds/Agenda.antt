-- ===== src/Rosca/Rounds/Agenda.antt =====
-- The rounds that a running circle has before it: who receives, and by when.
use dotcircles.Prelude.{
  List, [], ap, append_assoc, arith, init, last?, none, refl, some, suc, sym, zero, ℕ, ◌++◌, ◌+◌,
  ◌-◌, ◌<◌, ◌∙◌, ◌∷◌, ◌≡◌,
}
use dotcircles.Rosca.Rounds.Invariant.{IsActive}
use dotcircles.Rosca.Storage.{State}

-- A list that another one ends with.
abbrev pub IsSuffix {ℓ} : {A : Type ℓ} → List A → List A → Type ℓ
IsSuffix {A = A} ys xs = (zs : List A) × (zs ++ ys ≡ xs)

pub IsSuffix-refl {ℓ} : {A : Type ℓ} (xs : List A) → IsSuffix xs xs
IsSuffix-refl xs = ([], refl)

pub IsSuffix-trans {ℓ} :
    {A : Type ℓ} (xs ys zs : List A) → IsSuffix xs ys → IsSuffix ys zs → IsSuffix xs zs
IsSuffix-trans xs ys zs (p, e) (q, f) = (q ++ p, append_assoc q p xs ∙ ap (λ t. q ++ t) e ∙ f)

-- The order of the round after: the last account comes to the front.
abbrev pub rotated : List ℕ → List ℕ
rotated order = elim (last? order) [ none ↦ [] | some l ↦ l ∷ init order ]

-- `n` rounds, from the cutoff `next` on: the recipient of each and its cutoff.
abbrev pub agenda : (n next frequency : ℕ) → List ℕ → List (ℕ × ℕ)
agenda zero next frequency order = []
agenda (suc n) next frequency [] = []
agenda (suc n) next frequency (c ∷ r) =
    (c, next) ∷ agenda n (next + frequency) frequency (rotated (c ∷ r))

-- The round that runs, and those that are left.
abbrev pub agenda_of :
    {L : Type 0} {rosca_id : ℕ} {s : State L} → IsActive rosca_id s → List (ℕ × ℕ)
agenda_of v = agenda (suc v.left) v.next v.details.contribution_frequency (v.claimant ∷ v.rest)

pub rotated_lem : (order : List ℕ) (l : ℕ) → last? order ≡ some l → rotated order ≡ l ∷ init order
rotated_lem order l h = rw (h, rotated) refl

-- The agenda of the round after is the tail.
pub agenda-IsSuffix :
    (n next f c l : ℕ) (r : List ℕ)
    → 0 < n
    → last? (c ∷ r) ≡ some l
    → IsSuffix
        (agenda (suc (n - 1)) (next + f) f (l ∷ init (c ∷ r)))
        (agenda (suc n) next f (c ∷ r))
agenda-IsSuffix n next f c l r more h =
    let whole : suc (n - 1) ≡ n = omega arith in
    (
      (c, next) ∷ [],
      ap (λ t. (c, next) ∷ t)
          (ap (λ k. agenda k (next + f) f (l ∷ init (c ∷ r))) whole
            ∙ ap (agenda n (next + f) f) (sym (rotated_lem (c ∷ r) l h))),
    )
