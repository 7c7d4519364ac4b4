-- ===== src/Rosca/Active/Isolation.antt =====
-- A contribution to one circle, and its end by hand, leave every ne circle as it is.
use dotcircles.Prelude.{Option, arith, none, some, suc, zero, ℕ, ◌≢◌}
use dotcircles.Rosca.Active.{
  Round, catch_up, close_round, contribute_now, contribute_to_rosca, manually_end_rosca, next_round,
  one_round, resume, rounds_to, wind_up,
}
use dotcircles.Rosca.Effects.{Exec}
use dotcircles.Rosca.Effects.Keeps.{
  Keeps, keep_bind, keep_check, keep_ensure, keep_get, keep_if, keep_index, keep_pure, keep_read,
  keep_signer, keep_some, keep_stuck, keep_write,
}
use dotcircles.Rosca.Elsewhere.{Untouched, keep_log, keep_pay}
use dotcircles.Rosca.Rounds.Isolation.{
  advance_rosca_round-Keeps, check_and_complete_rosca-Keeps, complete-Keeps,
  process_defaulters-Keeps,
}
use dotcircles.Rosca.Storage.{Runtime, State}
use dotcircles.Rosca.Types.{RoscaDetails}

module _ (rt : Runtime) (rosca_id j : ℕ) (ne : j ≢ rosca_id) (s₀ : State rt.Ledger) where
  next_round-Keeps : Keeps (Untouched j s₀) (next_round rt rosca_id)
  unfolding next_round
  next_round-Keeps = keep_read _ _ _ λ n. keep_read _ _ _ λ o. keep_read _ _ _ λ c. keep_pure _

  one_round-Keeps : Keeps (Untouched j s₀) (one_round rt rosca_id)
  unfolding one_round
  one_round-Keeps = keep_bind _ _ (process_defaulters-Keeps rt rosca_id j ne s₀) λ _.
      keep_bind _ _ (advance_rosca_round-Keeps rt rosca_id j ne s₀) λ _.
        keep_bind _ _ (check_and_complete_rosca-Keeps rt rosca_id j ne s₀) λ done.
          keep_if _ _ _ (keep_pure none) (keep_bind _ _ next_round-Keeps λ r. keep_pure (some r))

  resume-Keeps :
      (loop : Round → Exec rt.Ledger (Option Round)) (o : Option Round)
      → ((r : Round) → Keeps (Untouched j s₀) (loop r))
      → Keeps (Untouched j s₀) (resume rt rosca_id loop o)
  unfolding resume
  resume-Keeps loop none k = keep_pure none
  resume-Keeps loop (some r) k = k r

  catch_up-Keeps :
      (fuel now : ℕ) (r : Round) → Keeps (Untouched j s₀) (catch_up rt rosca_id fuel now r)
  unfolding catch_up
  catch_up-Keeps zero now r = keep_stuck
  catch_up-Keeps (suc fuel) now r =
      keep_if _ _ _
        (keep_bind _ _ one_round-Keeps λ o. resume-Keeps _ o (λ r'. catch_up-Keeps fuel now r'))
        (keep_pure (some r))

  close_round-Keeps :
      (rosca : RoscaDetails) (final : ℕ) (r : Round)
      → Keeps (Untouched j s₀) (close_round rt rosca_id rosca final r)
  unfolding close_round
  close_round-Keeps rosca final r = keep_some _ _ _ λ next.
      keep_if _ _ _ (complete-Keeps rt rosca_id j ne s₀) (
        keep_write _ _ (λ s v. ground arith)
          (keep_bind _ _ (keep_index _) λ c.
            keep_write _ _ (λ s v. ground arith)
              (keep_some _ _ _
                λ rotated. keep_write _ _ (λ s v. ground arith) (keep_log rt j s₀ _))))

  contribute_now-Keeps :
      (rosca : RoscaDetails) (signer final : ℕ) (o : Option Round)
      → Keeps (Untouched j s₀) (contribute_now rt rosca_id rosca signer final o)
  unfolding contribute_now
  contribute_now-Keeps rosca signer final none = keep_pure tt
  contribute_now-Keeps rosca signer final (some r) = keep_bind _ _ (keep_pay rt j s₀ _ _ _ _) λ _.
      keep_write _ _ (λ s v. ground arith)
        (keep_get _ _ λ paid. keep_some _ _ _ λ count.
          keep_write _ _ (λ s v. ground arith)
            (keep_bind _ _ (keep_log rt j s₀ _)
              λ _. keep_if _ _ _ (close_round-Keeps rosca final r) (keep_pure tt)))

  pub contribute_to_rosca-Keeps :
      (origin : rt.Origin) → Keeps (Untouched j s₀) (contribute_to_rosca rt rosca_id origin)
  unfolding contribute_to_rosca
  contribute_to_rosca-Keeps origin = keep_bind _ _ (keep_signer _) λ signer. keep_check _ _ _ _ (
      keep_check _ _ _ _ (
        keep_read _ _ _ λ rosca. keep_read _ _ _ λ claimant. keep_bind _ _ (keep_ensure _ _) λ _.
          keep_check _ _ _ _ (
            keep_get _ _ λ now. keep_read _ _ _ λ final. keep_read _ _ _ λ next.
              keep_read _ _ _ λ order.
                keep_bind _ _
                  (catch_up-Keeps (rounds_to next final) now
                    (record { next = next; order = order; claimant = claimant }))
                  λ o. contribute_now-Keeps rosca signer final o)))

  wind_up-Keeps : (fuel final : ℕ) → Keeps (Untouched j s₀) (wind_up rt rosca_id fuel final)
  unfolding wind_up
  wind_up-Keeps zero final = keep_stuck
  wind_up-Keeps (suc fuel) final = keep_get _ _ λ next.
      keep_if _ _ _
        (keep_bind _ _ (process_defaulters-Keeps rt rosca_id j ne s₀) λ _.
          keep_bind _ _ (advance_rosca_round-Keeps rt rosca_id j ne s₀)
            λ _. wind_up-Keeps fuel final)
        (keep_pure tt)

  pub manually_end_rosca-Keeps :
      (origin : rt.Origin) → Keeps (Untouched j s₀) (manually_end_rosca rt rosca_id origin)
  unfolding manually_end_rosca
  manually_end_rosca-Keeps origin = keep_bind _ _ (keep_signer _) λ signer. keep_read _ _ _ λ rosca.
      keep_get _ _ λ now. keep_read _ _ _ λ final. keep_bind _ _ (keep_ensure _ _) λ _.
        keep_get _ _ λ start. keep_bind _ _ (wind_up-Keeps (rounds_to start final) final) λ _.
          keep_read _ _ _ λ next.
            keep_some _ _ _
              λ last. keep_bind _ _ (keep_ensure _ _) λ _. complete-Keeps rt rosca_id j ne s₀
