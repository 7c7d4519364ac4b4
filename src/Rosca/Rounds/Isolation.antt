-- ===== src/Rosca/Rounds/Isolation.antt =====
-- The rounds of one circle leave every ne circle as it is.
use dotcircles.Prelude.{List, [], arith, false, suc, true, zero, ℕ, ◌∷◌, ◌≢◌}
use dotcircles.Rosca.Rounds.{
  advance_rosca_round, check_and_complete_rosca, complete, pay_full, pay_rest, process_defaulters,
  record_default, settle_all, settle_missed, settle_participant,
}
use dotcircles.Rosca.Effects.Keeps.{
  Keeps, keep_bind, keep_get, keep_if, keep_index, keep_pure, keep_read, keep_some, keep_write,
}
use dotcircles.Rosca.Elsewhere.{Untouched, keep_log, keep_pay}
use dotcircles.Rosca.Storage.{Runtime, State}
use dotcircles.Rosca.Types.{RoscaDetails}

module _ (rt : Runtime) (rosca_id j : ℕ) (ne : j ≢ rosca_id) (s₀ : State rt.Ledger) where
  pay_rest-Keeps :
      (r : RoscaDetails) (c p d : ℕ) → Keeps (Untouched j s₀) (pay_rest rt rosca_id r c p d)
  unfolding pay_rest
  pay_rest-Keeps r c p zero = keep_pure tt
  pay_rest-Keeps r c p (suc d) =
      keep_bind _ _ (keep_pay rt j s₀ _ _ _ _)
        λ _. keep_write _ _ (λ s v. ground arith) (keep_log rt j s₀ _)

  pay_full-Keeps :
      (r : RoscaDetails) (c p d : ℕ) → Keeps (Untouched j s₀) (pay_full rt rosca_id r c p d)
  unfolding pay_full
  pay_full-Keeps r c p d =
      keep_bind _ _ (keep_pay rt j s₀ _ _ _ _)
        λ _. keep_write _ _ (λ s v. ground arith) (keep_log rt j s₀ _)

  record_default-Keeps : (c p : ℕ) → Keeps (Untouched j s₀) (record_default rt rosca_id c p)
  unfolding record_default
  record_default-Keeps c p = keep_write _ _ (λ s v. ground arith) (keep_log rt j s₀ _)

  settle_missed-Keeps :
      (r : RoscaDetails) (c p : ℕ) → Keeps (Untouched j s₀) (settle_missed rt rosca_id r c p)
  unfolding settle_missed
  settle_missed-Keeps r c p = keep_get _ _ λ d.
      keep_if _ _ _ (keep_bind _ _ (pay_rest-Keeps r c p d) λ _. record_default-Keeps c p)
        (pay_full-Keeps r c p d)

  settle_participant-Keeps :
      (r : RoscaDetails) (c p : ℕ) → Keeps (Untouched j s₀) (settle_participant rt rosca_id r c p)
  unfolding settle_participant
  settle_participant-Keeps r c p =
      keep_if _ _ _ (keep_pure tt)
        (keep_get _ _ λ b. keep_if _ _ _ (keep_pure tt) (settle_missed-Keeps r c p))

  settle_all-Keeps :
      (r : RoscaDetails) (c : ℕ) (order : List ℕ)
      → Keeps (Untouched j s₀) (settle_all rt rosca_id r c order)
  unfolding settle_all
  settle_all-Keeps r c [] = keep_pure tt
  settle_all-Keeps r c (p ∷ rest) =
      keep_bind _ _ (settle_participant-Keeps r c p) λ _. settle_all-Keeps r c rest

  pub process_defaulters-Keeps : Keeps (Untouched j s₀) (process_defaulters rt rosca_id)
  unfolding process_defaulters
  process_defaulters-Keeps =
      keep_read _ _ _ λ r. keep_read _ _ _ λ c. keep_read _ _ _ λ o. settle_all-Keeps r c o

  pub advance_rosca_round-Keeps : Keeps (Untouched j s₀) (advance_rosca_round rt rosca_id)
  unfolding advance_rosca_round
  advance_rosca_round-Keeps = keep_read _ _ _ λ r. keep_read _ _ _ λ n. keep_some _ _ _ λ next.
      keep_write _ _ (λ s v. ground arith)
        (keep_read _ _ _ λ o. keep_bind _ _ (keep_index _) λ l.
          keep_write _ _ (λ s v. ground arith)
            (keep_some _ _ _ λ rotated. keep_write _ _ (λ s v. ground arith) (keep_log rt j s₀ _)))

  pub complete-Keeps : Keeps (Untouched j s₀) (complete rt rosca_id)
  unfolding complete
  complete-Keeps = keep_write _ _ (λ s v. ground arith) (keep_log rt j s₀ _)

  pub check_and_complete_rosca-Keeps : Keeps (Untouched j s₀) (check_and_complete_rosca rt rosca_id)
  unfolding check_and_complete_rosca
  check_and_complete_rosca-Keeps = keep_read _ _ _ λ r. keep_read _ _ _ λ f.
      keep_read _ _ _
        λ n. keep_if _ _ _ (keep_bind _ _ complete-Keeps λ _. keep_pure true) (keep_pure false)
