-- ===== src/Rosca/Active/Wealth.antt =====
-- What payments of the circle leave true of the ledger, the rounds that a contribution catches up on
-- leave true.
use dotcircles.Prelude.{Option, none, some, suc, zero, ℕ, ◌≡◌}
use dotcircles.Rosca.Active.{Round, catch_up, next_round, one_round, resume}
use dotcircles.Rosca.Effects.{Exec}
use dotcircles.Rosca.Effects.Keeps.{Keeps, keep_bind, keep_if, keep_pure, keep_read, keep_stuck}
use dotcircles.Rosca.Rounds.Wealth.{
  CanPay, advance_rosca_round-CanPay, check_and_complete_rosca-CanPay, process_defaulters-CanPay,
}
use dotcircles.Rosca.Storage.{Runtime, moved}

module _ (rt : Runtime) (j : ℕ) (Wealth : rt.Ledger → Type 0)
    (stays : (unit to sum : ℕ) (l l' : rt.Ledger)
      → rt.transfer unit (rt.sub_account j) to sum l ≡ moved l'
      → Wealth l
      → Wealth l') where
  next_round-CanPay : Keeps (CanPay rt j Wealth stays) (next_round rt j)
  unfolding next_round
  next_round-CanPay = keep_read _ _ _ λ n. keep_read _ _ _ λ o. keep_read _ _ _ λ c. keep_pure _

  pub one_round-CanPay : Keeps (CanPay rt j Wealth stays) (one_round rt j)
  unfolding one_round
  one_round-CanPay = keep_bind _ _ (process_defaulters-CanPay rt j Wealth stays) λ _.
      keep_bind _ _ (advance_rosca_round-CanPay rt j Wealth stays) λ _.
        keep_bind _ _ (check_and_complete_rosca-CanPay rt j Wealth stays) λ done.
          keep_if _ _ _ (keep_pure none) (keep_bind _ _ next_round-CanPay λ r. keep_pure (some r))

  resume-CanPay :
      (loop : Round → Exec rt.Ledger (Option Round)) (o : Option Round)
      → ((r : Round) → Keeps (CanPay rt j Wealth stays) (loop r))
      → Keeps (CanPay rt j Wealth stays) (resume rt j loop o)
  unfolding resume
  resume-CanPay loop none k = keep_pure none
  resume-CanPay loop (some r) k = k r

  pub catch_up-CanPay :
      (fuel now : ℕ) (r : Round) → Keeps (CanPay rt j Wealth stays) (catch_up rt j fuel now r)
  unfolding catch_up
  catch_up-CanPay zero now r = keep_stuck
  catch_up-CanPay (suc fuel) now r =
      keep_if _ _ _
        (keep_bind _ _ one_round-CanPay λ o. resume-CanPay _ o (λ r'. catch_up-CanPay fuel now r'))
        (keep_pure (some r))
