-- ===== src/Rosca/Start/Backing.antt =====
-- The start of any circle keeps the deposits of the circle `j` covered.
use dotcircles.Prelude.{
  Bool-cases, List, [], arith, inl, inr, insert, reverse, some, suc, zero, ℕ, ◌+◌, ◌==◌, ◌∷◌, ◌≡◌,
}
use dotcircles.Rosca.Start.{add_rounds, compact, extend_cutoff, generate_rounds, start_rosca}
use dotcircles.Rosca.Backing.{Backed, Journal}
use dotcircles.Rosca.Effects.Keeps.{
  Keeps, keep_bind, keep_check, keep_ensure, keep_event, keep_get, keep_if, keep_index, keep_learn,
  keep_pure, keep_read, keep_signer, keep_some, keep_write,
}
use dotcircles.Rosca.Start.Placing.{shuffle_participants-Keeps}
use dotcircles.Rosca.Storage.{Runtime, State}
use dotcircles.Rosca.Types.{RoscaDetails, RoundInfo, id}

module _ (rt : Runtime) (journal : Journal rt) (j p : ℕ) where
  add_rounds-Backed :
      (ps : List ℕ) (f : ℕ) (rest : List ℕ) (i cutoff : ℕ) (rounds : List RoundInfo)
      → Keeps (Backed rt journal j p) (add_rounds rt ps f rest i cutoff rounds)
  unfolding add_rounds
  add_rounds-Backed ps f [] i cutoff rounds = keep_pure rounds
  add_rounds-Backed ps f (a ∷ rest) i cutoff rounds = keep_bind _ _ (keep_ensure _ _) λ _.
      keep_bind _ _ (keep_ensure _ _)
        λ _. keep_some _ _ _ λ next. add_rounds-Backed ps f rest (i + 1) next _

  generate_rounds-Backed :
      (ps : List ℕ) (t f : ℕ) → Keeps (Backed rt journal j p) (generate_rounds rt ps t f)
  unfolding generate_rounds
  generate_rounds-Backed ps t f =
      keep_some _ _ _ λ cutoff. add_rounds-Backed ps f (reverse ps) 0 cutoff []

  extend_cutoff-Backed :
      (f n cutoff : ℕ) → Keeps (Backed rt journal j p) (extend_cutoff rt f n cutoff)
  unfolding extend_cutoff
  extend_cutoff-Backed f zero cutoff = keep_pure cutoff
  extend_cutoff-Backed f (suc n) cutoff = keep_some _ _ _ λ next. extend_cutoff-Backed f n next

  pub start_rosca-Backed :
      (i : ℕ) (origin : rt.Origin) → Keeps (Backed rt journal j p) (start_rosca rt origin i)
  unfolding start_rosca
  start_rosca-Backed i origin = keep_bind _ _ (keep_signer _) λ signer. keep_check _ _ _ _ (
      keep_read _ _ _ λ place.
        keep_learn _ _ _ (λ r. i ≡ j → id r.payment_asset ≡ p) (λ s r b h e. b.2 r (rw (← e) h))
          λ rosca priced. keep_read _ _ _ λ pending. keep_get _ _ λ now.
            keep_bind _ _ (keep_ensure _ _) λ _. keep_read _ _ _ λ count.
              keep_bind _ _ (keep_ensure _ _) λ _. keep_bind _ _ (keep_ensure _ _) λ _.
                keep_bind _ _
                  (keep_if _ _ _ (shuffle_participants-Keeps rt (compact (reverse pending)))
                    (keep_pure (compact (reverse pending))))
                  λ order. keep_bind _ _ (generate_rounds-Backed order now _) λ rounds.
                    keep_bind _ _ (keep_index _) λ first.
                      keep_write _ _ (λ s b. b)
                        (keep_some _ _ _ λ rotated.
                          keep_write _ _ (λ s b. b)
                            (keep_some _ _ _ λ next.
                              keep_bind _ _ (extend_cutoff-Backed _ _ next) λ final.
                                keep_write _ _
                                  (λ s b. (
                                    b.0,
                                    λ r h. began s r rosca priced (b.1 r) h,
                                    λ r h. b.2 r (ground (arith, h)),
                                    b.3,
                                  ))
                                  (keep_event _ (λ s b. b)))))
    where
      began :
          (s : State rt.Ledger) (r rosca : RoscaDetails)
          → (i ≡ j → id rosca.payment_asset ≡ p)
          → (s.active_roscas j ≡ some r → id r.payment_asset ≡ p)
          → insert s.active_roscas i (some rosca) j ≡ some r
          → id r.payment_asset ≡ p
      began s r rosca priced old h = elim (Bool-cases (i == j)) [
        | inl here ↦ (let q = priced (ground (arith, here)) in ground (arith, here, h, q))
        | inr there ↦ old (ground (arith, there, h))
      ]
