-- ===== src/Rosca/Active/Backing.antt =====
-- A contribution to any circle, and its end by hand, keep the deposits of the circle `j` covered.
use dotcircles.Prelude.{Option, ap, none, some, suc, zero, ℕ, ◌∙◌, ◌≢◌}
use dotcircles.Rosca.Active.{
  Round, catch_up, close_round, contribute_now, contribute_to_rosca, manually_end_rosca, next_round,
  one_round, resume, rounds_to, wind_up,
}
use dotcircles.Rosca.Backing.{Backed, Journal}
use dotcircles.Rosca.Backing.Flow.{CoveredAt-past, Guarded}
use dotcircles.Rosca.Effects.{Exec}
use dotcircles.Rosca.Effects.Keeps.{
  Keeps, keep_bind, keep_check, keep_ensure, keep_event, keep_get, keep_if, keep_index, keep_paid,
  keep_pure, keep_read, keep_signed, keep_signer, keep_some, keep_stuck, keep_write,
}
use dotcircles.Rosca.Rounds.Backing.{
  advance_rosca_round-Backed, check_and_complete_rosca-Backed, complete-Backed,
  process_defaulters-Backed,
}
use dotcircles.Rosca.Storage.{Runtime}
use dotcircles.Rosca.Types.{RoscaDetails}

module _ (rt : Runtime) (journal : Journal rt) (j p : ℕ) (guarded : Guarded rt j) (i : ℕ) where
  next_round-Backed : Keeps (Backed rt journal j p) (next_round rt i)
  unfolding next_round
  next_round-Backed = keep_read _ _ _ λ n. keep_read _ _ _ λ o. keep_read _ _ _ λ c. keep_pure _

  pub one_round-Backed : Keeps (Backed rt journal j p) (one_round rt i)
  unfolding one_round
  one_round-Backed = keep_bind _ _ (process_defaulters-Backed rt journal j p guarded i) λ _.
      keep_bind _ _ (advance_rosca_round-Backed rt journal j p guarded i) λ _.
        keep_bind _ _ (check_and_complete_rosca-Backed rt journal j p guarded i) λ done.
          keep_if _ _ _ (keep_pure none) (keep_bind _ _ next_round-Backed λ r. keep_pure (some r))

  resume-Backed :
      (loop : Round → Exec rt.Ledger (Option Round)) (o : Option Round)
      → ((r : Round) → Keeps (Backed rt journal j p) (loop r))
      → Keeps (Backed rt journal j p) (resume rt i loop o)
  unfolding resume
  resume-Backed loop none k = keep_pure none
  resume-Backed loop (some r) k = k r

  pub catch_up-Backed :
      (fuel now : ℕ) (r : Round) → Keeps (Backed rt journal j p) (catch_up rt i fuel now r)
  unfolding catch_up
  catch_up-Backed zero now r = keep_stuck
  catch_up-Backed (suc fuel) now r =
      keep_if _ _ _
        (keep_bind _ _ one_round-Backed λ o. resume-Backed _ o (λ r'. catch_up-Backed fuel now r'))
        (keep_pure (some r))

  close_round-Backed :
      (rosca : RoscaDetails) (final : ℕ) (r : Round)
      → Keeps (Backed rt journal j p) (close_round rt i rosca final r)
  unfolding close_round
  close_round-Backed rosca final r = keep_some _ _ _ λ next.
      keep_if _ _ _ (complete-Backed rt journal j p guarded i) (
        keep_write _ _ (λ s b. b)
          (keep_bind _ _ (keep_index _) λ c.
            keep_write _ _ (λ s b. b)
              (keep_some _ _ _ λ rotated. keep_write _ _ (λ s b. b) (keep_event _ (λ s b. b)))))

  contribute_now-Backed :
      (rosca : RoscaDetails) (signer final : ℕ) (o : Option Round)
      → signer ≢ rt.sub_account j
      → Keeps (Backed rt journal j p) (contribute_now rt i rosca signer final o)
  unfolding contribute_now
  contribute_now-Backed rosca signer final none other = keep_pure tt
  contribute_now-Backed rosca signer final (some r) other =
      keep_bind _ _
        (keep_paid rt _ _ _ _ (λ l s h b. (
          b.0,
          b.1,
          b.2,
          CoveredAt-past rt journal j p _ _ _ _ s.ledger l h (s.rosca_security_deposits j) other
              b.3,
        )))
        λ _.
          keep_write _ _ (λ s b. b)
            (keep_get _ _ λ paid. keep_some _ _ _ λ count.
              keep_write _ _ (λ s b. b)
                (keep_bind _ _ (keep_event _ (λ s b. b))
                  λ _. keep_if _ _ _ (close_round-Backed rosca final r) (keep_pure tt)))

  pub contribute_to_rosca-Backed :
      (origin : rt.Origin) → Keeps (Backed rt journal j p) (contribute_to_rosca rt i origin)
  unfolding contribute_to_rosca
  contribute_to_rosca-Backed origin = keep_signed _ _ λ signer signed. keep_check _ _ _ _ (
      keep_check _ _ _ _ (
        keep_read _ _ _ λ rosca. keep_read _ _ _ λ claimant. keep_bind _ _ (keep_ensure _ _) λ _.
          keep_check _ _ _ _ (
            keep_get _ _ λ now. keep_read _ _ _ λ final. keep_read _ _ _ λ next.
              keep_read _ _ _ λ order.
                keep_bind _ _
                  (catch_up-Backed (rounds_to next final) now
                    (record { next = next; order = order; claimant = claimant }))
                  λ o.
                    contribute_now-Backed rosca signer final o
                      (λ e. guarded.keyless origin (signed ∙ ap some e)))))

  wind_up-Backed : (fuel final : ℕ) → Keeps (Backed rt journal j p) (wind_up rt i fuel final)
  unfolding wind_up
  wind_up-Backed zero final = keep_stuck
  wind_up-Backed (suc fuel) final = keep_get _ _ λ next.
      keep_if _ _ _
        (keep_bind _ _ (process_defaulters-Backed rt journal j p guarded i) λ _.
          keep_bind _ _ (advance_rosca_round-Backed rt journal j p guarded i)
            λ _. wind_up-Backed fuel final)
        (keep_pure tt)

  pub manually_end_rosca-Backed :
      (origin : rt.Origin) → Keeps (Backed rt journal j p) (manually_end_rosca rt i origin)
  unfolding manually_end_rosca
  manually_end_rosca-Backed origin = keep_bind _ _ (keep_signer _) λ signer.
      keep_read _ _ _ λ rosca. keep_get _ _ λ now. keep_read _ _ _ λ final.
        keep_bind _ _ (keep_ensure _ _) λ _. keep_get _ _ λ start.
          keep_bind _ _ (wind_up-Backed (rounds_to start final) final) λ _. keep_read _ _ _ λ next.
            keep_some _ _ _
              λ last. keep_bind _ _ (keep_ensure _ _) λ _. complete-Backed rt journal j p guarded i
