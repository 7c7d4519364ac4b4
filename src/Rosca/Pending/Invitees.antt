-- ===== src/Rosca/Pending/Invitees.antt =====
-- The list of the invited after `sort` and `dedup`, and the loop that records it.

-- Ascending from `lo`, equal neighbours allowed.
use dotcircles.Prelude.{
  Bool, Bool-cases, Distinct, DoubleMap, List, [], append-nil, append_assoc, arith, contains, false,
  if◌then◌else◌, inl, inr, insert₂, length, length-append, ltb, refl, subst, sym, true, ℕ, ◌++◌,
  ◌+◌, ◌<◌, ◌==◌, ◌∙◌, ◌∷◌, ◌≡◌, ◌≤◌,
}
use dotcircles.Rosca.Pending.{dedup, dedup_after, insert_sorted, invite_all, sort, try_push}
use dotcircles.Rosca.Effects.{ok, ◌>>=◌}
use dotcircles.Rosca.Storage.{Runtime, State}

abbrev pub Ascending : ℕ → List ℕ → Type 0
Ascending lo [] = Unit
Ascending lo (x ∷ xs) = (lo ≤ x) × Ascending x xs

-- Strictly ascending above `lo`.
abbrev pub Above : ℕ → List ℕ → Type 0
Above lo [] = Unit
Above lo (x ∷ xs) = (lo < x) × Above x xs

insert_sorted-Ascending :
    (lo a : ℕ) (xs : List ℕ) → lo ≤ a → Ascending lo xs → Ascending lo (insert_sorted a xs)
unfolding insert_sorted
insert_sorted-Ascending lo a [] h v = (h, tt)
insert_sorted-Ascending lo a (x ∷ xs) h v = ground (arith, insert_sorted-Ascending x a xs)

sort-Ascending : (xs : List ℕ) → Ascending 0 (sort xs)
unfolding sort
sort-Ascending [] = tt
sort-Ascending (x ∷ xs) = insert_sorted-Ascending 0 x (sort xs) (omega arith) (sort-Ascending xs)

contains-insert_sorted :
    (a b : ℕ) (xs : List ℕ)
    → contains (insert_sorted a xs) b ≡ (if b == a then true else contains xs b)
unfolding insert_sorted
contains-insert_sorted a b [] = refl
contains-insert_sorted a b (x ∷ xs) = ground (arith, contains-insert_sorted a b xs)

contains-sort : (xs : List ℕ) (b : ℕ) → contains (sort xs) b ≡ contains xs b
unfolding sort
contains-sort [] b = refl
contains-sort (x ∷ xs) b = ground (arith, contains-insert_sorted x b (sort xs), contains-sort xs b)

dedup_after-Above : (a : ℕ) (xs : List ℕ) → Ascending a xs → Above a (dedup_after a xs)
unfolding dedup_after
dedup_after-Above a [] v = tt
dedup_after-Above a (x ∷ xs) v = elim (Bool-cases (x == a)) [
  | inl e ↦
      let p : x ≡ a = ground arith in
      rw e (subst (λ t. Above t (dedup_after x xs)) p (dedup_after-Above x xs v.1))
  | inr e ↦ rw e (ground arith, dedup_after-Above x xs v.1)
]

contains-dedup_after :
    (a b : ℕ) (xs : List ℕ)
    → (if b == a then true else contains (dedup_after a xs) b)
      ≡ (if b == a then true else contains xs b)
unfolding dedup_after
contains-dedup_after a b [] = refl
contains-dedup_after a b (x ∷ xs) = ground (arith, contains-dedup_after x b xs)

contains-Above : (a b : ℕ) (xs : List ℕ) → Above a xs → b ≤ a → contains xs b ≡ false
contains-Above a b [] v h = refl
contains-Above a b (x ∷ xs) v h = ground (arith, contains-Above x b xs)

Above-Distinct : (a : ℕ) (xs : List ℕ) → Above a xs → Distinct xs
Above-Distinct a [] v = tt
Above-Distinct a (x ∷ xs) v = (contains-Above x x xs v.1 (omega arith), Above-Distinct x xs v.1)

dedup-Distinct : (xs : List ℕ) → Ascending 0 xs → Distinct (dedup xs)
unfolding dedup
dedup-Distinct [] v = tt
dedup-Distinct (x ∷ xs) v =
    let h = dedup_after-Above x xs v.1 in
    (contains-Above x x (dedup_after x xs) h (omega arith), Above-Distinct x (dedup_after x xs) h)

contains-dedup : (xs : List ℕ) (b : ℕ) → contains (dedup xs) b ≡ contains xs b
unfolding dedup
contains-dedup [] b = refl
contains-dedup (x ∷ xs) b = contains-dedup_after x b xs

length-insert_sorted : (a : ℕ) (xs : List ℕ) → length (insert_sorted a xs) ≡ length xs + 1
unfolding insert_sorted
length-insert_sorted a [] = omega arith
length-insert_sorted a (x ∷ xs) = ground (arith, length-insert_sorted a xs)

length-sort : (xs : List ℕ) → length (sort xs) ≡ length xs
unfolding sort
length-sort [] = refl
length-sort (x ∷ xs) = omega (arith, length-insert_sorted x (sort xs), length-sort xs)

length-dedup_after : (a : ℕ) (xs : List ℕ) → length (dedup_after a xs) ≤ length xs
unfolding dedup_after
length-dedup_after a [] = omega arith
length-dedup_after a (x ∷ xs) = ground (arith, length-dedup_after x xs)

length-dedup : (xs : List ℕ) → length (dedup xs) ≤ length xs
unfolding dedup
length-dedup [] = omega arith
length-dedup (x ∷ xs) = omega (arith, length-dedup_after x xs)

-- The invitees that a call records.
abbrev pub invitees : List ℕ → List ℕ
invitees invited = dedup (sort invited)

-- They are the invited, each once, and no more than were named.
pub invitees_lem :
    (invited : List ℕ)
    → Distinct (invitees invited)
      × ((a : ℕ) → contains (invitees invited) a ≡ contains invited a)
      × (length (invitees invited) ≤ length invited)
invitees_lem invited = (
  dedup-Distinct (sort invited) (sort-Ascending invited),
  (λ a. contains-dedup (sort invited) a ∙ contains-sort invited a),
  omega (arith, length-dedup (sort invited), length-sort invited),
)

-- The flags of the invited after the loop over `xs`.
abbrev pub mark_all : ℕ → List ℕ → DoubleMap Bool → DoubleMap Bool
mark_all rosca_id [] m = m
mark_all rosca_id (a ∷ rest) m = mark_all rosca_id rest (insert₂ m rosca_id a true)

pub mark_all_lem :
    (rosca_id : ℕ) (xs : List ℕ) (m : DoubleMap Bool) (j a : ℕ)
    → mark_all rosca_id xs m j a
      ≡ (if rosca_id == j then (if contains xs a then true else m j a) else m j a)
mark_all_lem rosca_id [] m j a = ground arith
mark_all_lem rosca_id (x ∷ xs) m j a =
    ground (arith, mark_all_lem rosca_id xs (insert₂ m rosca_id x true) j a)

-- The list that the event carries.
abbrev pub push_all : ℕ → List ℕ → List ℕ → List ℕ
push_all bound [] eligible = eligible
push_all bound (a ∷ rest) eligible = push_all bound rest (try_push bound eligible a)

pub push_all_lem :
    (bound : ℕ) (xs eligible : List ℕ)
    → length eligible + length xs ≤ bound
    → push_all bound xs eligible ≡ eligible ++ xs
push_all_lem bound [] eligible h = sym (append-nil eligible)
push_all_lem bound (a ∷ rest) eligible h =
    let room : ltb (length eligible) bound ≡ true = ground arith in
    rw room (
      push_all_lem bound rest (eligible ++ a ∷ []) (omega (arith, length-append eligible (a ∷ [])))
      ∙ append_assoc eligible (a ∷ []) rest)

module _ (rt : Runtime) where
  pub invite_all_lem :
      (rosca_id : ℕ) (xs eligible : List ℕ) (s : State rt.Ledger)
      → invite_all rt rosca_id xs eligible s ≡ (
        ok (push_all rt.max_participants xs eligible),
        record s {
          rosca_invited_preverified_participants =
              mark_all rosca_id xs s.rosca_invited_preverified_participants;
        },
      )
  unfolding invite_all ◌>>=◌
  invite_all_lem rosca_id [] eligible s = refl
  invite_all_lem rosca_id (a ∷ rest) eligible s =
      invite_all_lem rosca_id rest (try_push rt.max_participants eligible a) (record s {
        rosca_invited_preverified_participants =
            insert₂ s.rosca_invited_preverified_participants rosca_id a true;
      })
