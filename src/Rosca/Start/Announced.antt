-- ===== src/Rosca/Start/Announced.antt =====
-- The rounds that `generate_rounds` puts into the event.
use dotcircles.Prelude.{
  Bool, List, [], ap, append-nil, append_assoc, arith, contains, false, get_elem?, if◌then◌else◌,
  inl, inr, length, length-append, of_some, refl, reverse, some, suc, sym, true, u32_mod, zero, ℕ,
  ◌%◌, ◌*◌, ◌++◌, ◌+◌, ◌==◌, ◌∙◌, ◌∷◌, ◌≡◌, ◌⊎◌,
}
use dotcircles.Rosca.Start.{add_rounds, generate_rounds, others}
use dotcircles.Rosca.Effects.{ok}
use dotcircles.Rosca.Effects.Returns.{Returns, of_ensure, of_ok_or, of_pure, weaken}
use dotcircles.Rosca.Storage.{Runtime, State}
use dotcircles.Rosca.Types.{RoundInfo}
use mathlib.Core.List.{map, map-append}

-- The recipient of a round.
abbrev pub recipient_of : RoundInfo → ℕ
recipient_of r = r.recipient

-- The round `k` ends `k + 1` frequencies after the time `t`, and is paid by everyone in
-- `participants` but its recipient.
abbrev pub IsAnnounced : (participants : List ℕ) (t frequency : ℕ) → List RoundInfo → Type 0
IsAnnounced participants t frequency rounds =
    (k : ℕ) (r : RoundInfo)
    → get_elem? rounds k ≡ some r
    → (r.payment_cutoff ≡ t + (k + 1) * frequency)
      × ((a : ℕ)
          → contains r.expected_contributors a
            ≡ (if a == r.recipient then false else contains participants a))

others_lem :
    (x : ℕ) (ps : List ℕ) (a : ℕ)
    → contains (others x ps) a ≡ (if a == x then false else contains ps a)
unfolding others
others_lem x [] a = ground arith
others_lem x (p ∷ ps) a = ground (arith, others_lem x ps a)

last_or_before :
    (xs : List RoundInfo) (x : RoundInfo) (k : ℕ) (r : RoundInfo)
    → get_elem? (xs ++ x ∷ []) k ≡ some r
    → (get_elem? xs k ≡ some r) ⊎ ((k ≡ length xs) × (x ≡ r))
last_or_before [] x zero r h = inr (refl, of_some h)
last_or_before [] x (suc k) r h = absurd cc
last_or_before (y ∷ xs) x zero r h = inl h
last_or_before (y ∷ xs) x (suc k) r h = elim (last_or_before xs x k r h) [
  | inl before ↦ inl before
  | inr (e, same) ↦ inr (ap suc e, same)
]

module _ (rt : Runtime) {safe : Bool} (participants : List ℕ) (t frequency : ℕ) where
  add_rounds-IsAnnounced :
      (rest : List ℕ) (i cutoff : ℕ) (rounds : List RoundInfo) (s : State rt.Ledger)
      → cutoff ≡ t + (length rounds + 1) * frequency
      → IsAnnounced participants t frequency rounds
      → Returns safe s (add_rounds rt participants frequency rest i cutoff rounds) (λ all s'.
        (s' ≡ s)
        × (map recipient_of all ≡ map recipient_of rounds ++ rest)
        × IsAnnounced participants t frequency all)
  unfolding add_rounds
  add_rounds-IsAnnounced [] i cutoff rounds s at v =
      of_pure rounds (refl, sym (append-nil (map recipient_of rounds)), v)
  add_rounds-IsAnnounced (recipient ∷ rest) i cutoff rounds s at v = of_ensure _ _ _ λ few.
      of_ensure _ _ _ λ room. of_ok_or _ _ _ λ next en.
        let x : RoundInfo = record {
          round_number = (i + 1) % u32_mod;
          payment_cutoff = cutoff;
          expected_contributors = others recipient participants;
          recipient = recipient;
        } in
        weaken _
          (add_rounds-IsAnnounced rest (i + 1) next (rounds ++ x ∷ []) s
            (later cutoff next (length rounds) (length (rounds ++ x ∷ [])) at (ground (arith, en))
              (length-append rounds (x ∷ [])))
            (one_more x rounds v at (others_lem recipient participants)))
          λ all s' (same, names, w). (
            same,
            names
                ∙ ap (λ ys. ys ++ rest) (map-append recipient_of rounds (x ∷ []))
                ∙ append_assoc (map recipient_of rounds) (recipient ∷ []) rest,
            w,
          )
    where
      later :
          (c n k m : ℕ)
          → c ≡ t + (k + 1) * frequency
          → n ≡ c + frequency
          → m ≡ k + 1
          → n ≡ t + (m + 1) * frequency
      later c n k m e f g = grind arith

      one_more :
          (x : RoundInfo) (rounds : List RoundInfo)
          → IsAnnounced participants t frequency rounds
          → x.payment_cutoff ≡ t + (length rounds + 1) * frequency
          → ((a : ℕ)
              → contains x.expected_contributors a
                ≡ (if a == x.recipient then false else contains participants a))
          → IsAnnounced participants t frequency (rounds ++ x ∷ [])
      one_more x rounds v e o k r h = elim (last_or_before rounds x k r h) [
        | inl before ↦ v k r before
        | inr (last, same) ↦ rw (last, ← same) (e, o)
      ]

  pub generate_rounds-Returns :
      (s : State rt.Ledger)
      → Returns safe s (generate_rounds rt participants t frequency) (λ all s'.
        (s' ≡ s)
        × (map recipient_of all ≡ reverse participants)
        × IsAnnounced participants t frequency all)
  unfolding generate_rounds
  generate_rounds-Returns s = of_ok_or _ _ _ λ cutoff e.
      add_rounds-IsAnnounced (reverse participants) 0 cutoff [] s (first cutoff (ground (arith, e)))
        (λ k r h. absurd cc)
    where
      first : (c : ℕ) → c ≡ t + frequency → c ≡ t + (0 + 1) * frequency
      first c e = grind arith

module _ (rt : Runtime) (participants : List ℕ) (t frequency : ℕ) (s s' : State rt.Ledger)
    (rounds : List RoundInfo) where
  -- The rounds that `generate_rounds` answers have the participants as their recipients, from the
  -- last to the first; the round `k` ends `k + 1` frequencies after the start, without wrapping,
  -- and is paid by exactly the participants other than its recipient.
  pub generate_rounds-IsAnnounced :
      generate_rounds rt participants t frequency s ≡ (ok rounds, s')
      → (map recipient_of rounds ≡ reverse participants)
        × IsAnnounced participants t frequency rounds
  generate_rounds-IsAnnounced h =
      let p =
        (generate_rounds-Returns rt {safe = true} participants t frequency s).at rounds s' h in
      (p.1, p.2)
