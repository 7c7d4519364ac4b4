-- ===== src/Rosca/Start/Isolation.antt =====
-- The start of one circle leaves every ne circle as it is.
use dotcircles.Prelude.{List, [], arith, reverse, suc, zero, ℕ, ◌+◌, ◌∷◌, ◌≢◌}
use dotcircles.Rosca.Start.{add_rounds, compact, extend_cutoff, generate_rounds, start_rosca}
use dotcircles.Rosca.Effects.Keeps.{
  Keeps, keep_bind, keep_check, keep_ensure, keep_get, keep_if, keep_index, keep_pure, keep_read,
  keep_signer, keep_some, keep_write,
}
use dotcircles.Rosca.Elsewhere.{Untouched, keep_log}
use dotcircles.Rosca.Start.Placing.{shuffle_participants-Keeps}
use dotcircles.Rosca.Storage.{Runtime, State}
use dotcircles.Rosca.Types.{RoundInfo}

module _ (rt : Runtime) (j : ℕ) (s₀ : State rt.Ledger) where
  add_rounds-Keeps :
      (ps : List ℕ) (f : ℕ) (rest : List ℕ) (i cutoff : ℕ) (rounds : List RoundInfo)
      → Keeps (Untouched j s₀) (add_rounds rt ps f rest i cutoff rounds)
  unfolding add_rounds
  add_rounds-Keeps ps f [] i cutoff rounds = keep_pure rounds
  add_rounds-Keeps ps f (a ∷ rest) i cutoff rounds = keep_bind _ _ (keep_ensure _ _) λ _.
      keep_bind _ _ (keep_ensure _ _)
        λ _. keep_some _ _ _ λ next. add_rounds-Keeps ps f rest (i + 1) next _

  generate_rounds-Keeps :
      (ps : List ℕ) (t f : ℕ) → Keeps (Untouched j s₀) (generate_rounds rt ps t f)
  unfolding generate_rounds
  generate_rounds-Keeps ps t f =
      keep_some _ _ _ λ cutoff. add_rounds-Keeps ps f (reverse ps) 0 cutoff []

  extend_cutoff-Keeps : (f n cutoff : ℕ) → Keeps (Untouched j s₀) (extend_cutoff rt f n cutoff)
  unfolding extend_cutoff
  extend_cutoff-Keeps f zero cutoff = keep_pure cutoff
  extend_cutoff-Keeps f (suc n) cutoff = keep_some _ _ _ λ next. extend_cutoff-Keeps f n next

  pub start_rosca-Keeps :
      (rosca_id : ℕ) (origin : rt.Origin)
      → j ≢ rosca_id
      → Keeps (Untouched j s₀) (start_rosca rt origin rosca_id)
  unfolding start_rosca
  start_rosca-Keeps rosca_id origin ne = keep_bind _ _ (keep_signer _) λ signer.
      keep_check _ _ _ _ (
        keep_read _ _ _ λ place. keep_read _ _ _ λ rosca. keep_read _ _ _ λ pending.
          keep_get _ _ λ now. keep_bind _ _ (keep_ensure _ _) λ _. keep_read _ _ _ λ count.
            keep_bind _ _ (keep_ensure _ _) λ _. keep_bind _ _ (keep_ensure _ _) λ _.
              keep_bind _ _
                (keep_if _ _ _ (shuffle_participants-Keeps rt (compact (reverse pending)))
                  (keep_pure (compact (reverse pending))))
                λ order. keep_bind _ _ (generate_rounds-Keeps order now _) λ rounds.
                  keep_bind _ _ (keep_index _) λ first.
                    keep_write _ _ (λ s v. ground arith)
                      (keep_some _ _ _ λ rotated.
                        keep_write _ _ (λ s v. ground arith)
                          (keep_some _ _ _ λ next.
                            keep_bind _ _ (extend_cutoff-Keeps _ _ next)
                              λ final. keep_write _ _ (λ s v. ground arith) (keep_log rt j s₀ _))))
