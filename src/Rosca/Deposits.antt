-- ===== src/Rosca/Deposits.antt =====
-- The calls on security deposits: `claim_security_deposit`, `add_to_security_deposit`.
pub mod Claims
pub mod Exact
pub mod Isolation
pub mod Backing
pub mod Solvent
use dotcircles.Prelude.{
  checked_add, insert₂, is_some, ltb, none, not, or_else, some, u32_mod, ℕ, ◌||◌,
}
use dotcircles.Rosca.Effects.{
  Exec, deposit_event, ensure, gets, modify, ok_or, signer_of, transfer, ◌>>=◌, ◌>>◌,
}
use dotcircles.Rosca.Pending.{unwrap_or}
use dotcircles.Rosca.Storage.{Runtime}
use dotcircles.Rosca.Types.{
  PaymentAssets, arithmetic_overflow, final_pay_by_timestamp_must_be_past,
  final_pay_by_timestamp_not_found, id, not_a_participant, rosca_already_completed, rosca_not_found,
  rosca_still_active, security_deposit_claimed, security_deposit_contribution,
  security_deposit_is_zero, security_deposit_not_found,
}

module _ (rt : Runtime) (rosca_id : ℕ) where
  unfoldable pub claim_security_deposit : rt.Origin → PaymentAssets → Exec rt.Ledger Unit
  claim_security_deposit origin asset = do
    signer ← signer_of (rt.ensure_signed origin)
    now ← gets (λ s. s.now)
    final ← ok_or (← gets (λ s. s.final_pay_by_timestamp rosca_id)) final_pay_by_timestamp_not_found
    ensure (ltb final now) final_pay_by_timestamp_must_be_past
    over ← gets (λ s. is_some (s.pending_rosca_details rosca_id) || s.completed_roscas rosca_id)
    ensure over rosca_still_active
    deposit ←
        ok_or (← gets (λ s. s.rosca_security_deposits rosca_id signer)) security_deposit_not_found
    ensure (ltb 0 deposit) security_deposit_is_zero
    transfer rt (id asset) (rt.sub_account rosca_id) signer deposit
    modify λ s. record s {
      rosca_security_deposits = insert₂ s.rosca_security_deposits rosca_id signer none;
    }
    deposit_event (security_deposit_claimed rosca_id signer deposit)

  unfoldable pub add_to_security_deposit : rt.Origin → ℕ → Exec rt.Ledger Unit
  add_to_security_deposit origin amount = do
    signer ← signer_of (rt.ensure_signed origin)
    ensure (is_some (← gets (λ s. s.rosca_participants rosca_id signer))) not_a_participant
    ensure (not (← gets (λ s. s.completed_roscas rosca_id))) rosca_already_completed
    rosca ←
        ok_or (← gets (λ s. or_else (s.active_roscas rosca_id) (s.pending_rosca_details rosca_id)))
          rosca_not_found
    transfer rt (id rosca.payment_asset) signer (rt.sub_account rosca_id) amount
    held ← gets (λ s. unwrap_or (s.rosca_security_deposits rosca_id signer) 0)
    more ← ok_or (checked_add u32_mod held amount) arithmetic_overflow
    modify λ s. record s {
      rosca_security_deposits = insert₂ s.rosca_security_deposits rosca_id signer (some more);
    }
    deposit_event (security_deposit_contribution rosca_id signer amount)
