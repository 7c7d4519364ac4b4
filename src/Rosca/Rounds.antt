-- ===== src/Rosca/Rounds.antt =====
-- The rounds of a started circle: `process_defaulters`, `advance_rosca_round`,
-- `check_and_complete_rosca`.
pub mod Isolation
pub mod Backing
pub mod Solvent
pub mod Wealth
pub mod Payees
pub mod Agenda
pub mod Owing
pub mod Participant
pub mod Settle
pub mod Complete
pub mod Advance
pub mod Invariant
use dotcircles.Prelude.{
  Bool, List, Option, [], checked_add, checked_sub, contains, false, if◌then◌else◌, init, insert,
  insert₂, last?, length, ltb, none, saturating_add, some, suc, true, u32_mod, u64_mod, zero, ℕ,
  ◌-◌, ◌==◌, ◌∷◌,
}
use dotcircles.Rosca.Effects.{
  Exec, deposit_event, gets, index, modify, ok_or, pure, transfer, ◌>>=◌, ◌>>◌,
}
use dotcircles.Rosca.Pending.{unwrap_or}
use dotcircles.Rosca.Storage.{Runtime}
use dotcircles.Rosca.Types.{
  RoscaDetails, arithmetic_error, arithmetic_overflow, deposit_deducted,
  final_pay_by_timestamp_not_found, id, new_round_started, no_eligble_claimant,
  no_next_pay_by_timestamp, participant_defaulted, rosca_complete, rosca_not_active,
  rosca_participants_not_found,
}

-- `try_rotate_right(1)`: the last account comes to the front; an empty order is refused.
unfoldable pub try_rotate_right : List ℕ → Option (List ℕ)
try_rotate_right order = elim (last? order) [ none ↦ none | some a ↦ some (a ∷ init order) ]

module _ (rt : Runtime) (rosca_id : ℕ) where
  -- A deposit below the contribution: what there is of it is paid.
  pub pay_rest : RoscaDetails → ℕ → ℕ → ℕ → Exec rt.Ledger Unit
  pay_rest rosca claimant participant zero = pure tt
  pay_rest rosca claimant participant (suc d) = do
    transfer rt (id rosca.payment_asset) (rt.sub_account rosca_id) claimant (suc d)
    modify λ s. record s {
      rosca_security_deposits = insert₂ s.rosca_security_deposits rosca_id participant (some 0);
    }
    deposit_event (deposit_deducted rosca_id participant claimant (suc d) false)

  -- A deposit that covers the contribution.
  pub pay_full : RoscaDetails → ℕ → ℕ → ℕ → Exec rt.Ledger Unit
  pay_full rosca claimant participant deposit = do
    transfer rt (id rosca.payment_asset) (rt.sub_account rosca_id) claimant
        rosca.contribution_amount
    modify λ s. record s {
      rosca_security_deposits =
          insert₂ s.rosca_security_deposits rosca_id participant
            (some (unwrap_or (checked_sub deposit rosca.contribution_amount) 0));
    }
    deposit_event (deposit_deducted rosca_id participant claimant rosca.contribution_amount true)

  -- The `defaulter` flag is set: the count of the participant goes up by one.
  pub record_default : ℕ → ℕ → Exec rt.Ledger Unit
  record_default claimant participant = do
    modify λ s. record s {
      default_count =
          insert₂ s.default_count rosca_id participant
            (saturating_add u32_mod (s.default_count rosca_id participant) 1);
    }
    deposit_event (participant_defaulted rosca_id claimant participant)

  -- A participant who has not contributed.
  pub settle_missed : RoscaDetails → ℕ → ℕ → Exec rt.Ledger Unit
  unfolding pay_rest pay_full record_default
  settle_missed rosca claimant participant = do
    deposit ← gets (λ s. unwrap_or (s.rosca_security_deposits rosca_id participant) 0)
    if ltb deposit rosca.contribution_amount
        then pay_rest rosca claimant participant deposit >> record_default claimant participant
        else pay_full rosca claimant participant deposit

  pub settle_participant : RoscaDetails → ℕ → ℕ → Exec rt.Ledger Unit
  unfolding settle_missed
  settle_participant rosca claimant participant = if participant == claimant then pure tt else do
    contributed ← gets (λ s. contains (s.current_contributors rosca_id) participant)
    if contributed then pure tt else settle_missed rosca claimant participant

  -- The loop over the order.
  pub settle_all : RoscaDetails → ℕ → List ℕ → Exec rt.Ledger Unit
  unfolding settle_participant
  settle_all rosca claimant [] = pure tt
  settle_all rosca claimant (p ∷ rest) =
      settle_participant rosca claimant p >> settle_all rosca claimant rest

  unfoldable pub process_defaulters : Exec rt.Ledger Unit
  unfolding settle_all
  process_defaulters = do
    rosca ← ok_or (← gets (λ s. s.active_roscas rosca_id)) rosca_not_active
    claimant ← ok_or (← gets (λ s. s.eligible_claimant rosca_id)) no_eligble_claimant
    order ←
        ok_or (← gets (λ s. s.active_rosca_participants_order rosca_id))
          rosca_participants_not_found
    settle_all rosca claimant order

  unfoldable pub advance_rosca_round : Exec rt.Ledger Unit
  unfolding try_rotate_right
  advance_rosca_round = do
    rosca ← ok_or (← gets (λ s. s.active_roscas rosca_id)) rosca_not_active
    cutoff ← ok_or (← gets (λ s. s.next_pay_by_timestamp rosca_id)) no_next_pay_by_timestamp
    next ← ok_or (checked_add u64_mod cutoff rosca.contribution_frequency) arithmetic_overflow
    modify λ s. record s {
      next_pay_by_timestamp = insert s.next_pay_by_timestamp rosca_id (some next);
    }
    order ←
        ok_or (← gets (λ s. s.active_rosca_participants_order rosca_id))
          rosca_participants_not_found
    -- `active_order[active_order.len() - 1]` panics on an empty order
    new_eligible ← index (last? order)
    modify λ s. record s {
      eligible_claimant = insert s.eligible_claimant rosca_id (some new_eligible);
    }
    rotated ← ok_or (try_rotate_right order) arithmetic_error
    modify λ s. record s {
      active_rosca_participants_order =
          insert s.active_rosca_participants_order rosca_id (some rotated);
      current_contributors =
          insert s.current_contributors rosca_id
            (rt.clear_prefix (length rotated - 1) (s.current_contributors rosca_id));
      current_contribution_count = insert s.current_contribution_count rosca_id 0;
    }
    deposit_event (new_round_started rosca_id new_eligible next)

  -- The circle is marked complete and leaves the active ones.
  unfoldable pub complete : Exec rt.Ledger Unit
  complete = do
    modify λ s. record s {
      completed_roscas = insert s.completed_roscas rosca_id true;
      active_roscas = insert s.active_roscas rosca_id none;
    }
    deposit_event (rosca_complete rosca_id)

  unfoldable pub check_and_complete_rosca : Exec rt.Ledger Bool
  unfolding complete
  check_and_complete_rosca = do
    ok_or (← gets (λ s. s.active_roscas rosca_id)) rosca_not_active
    final ← ok_or (← gets (λ s. s.final_pay_by_timestamp rosca_id)) final_pay_by_timestamp_not_found
    next ← ok_or (← gets (λ s. s.next_pay_by_timestamp rosca_id)) no_next_pay_by_timestamp
    if ltb final next then complete >> pure true else pure false
