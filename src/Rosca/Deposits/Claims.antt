-- ===== src/Rosca/Deposits/Claims.antt =====
-- The deposit of an account through `add_to_security_deposit` and `claim_security_deposit`.
use dotcircles.Prelude.{arith, is_some, ltb, none, some, true, ℕ, ◌||◌, ◌≡◌}
use dotcircles.Rosca.Deposits.{claim_security_deposit}
use dotcircles.Rosca.Effects.{err, module_error, ok, ◌>>=◌}
use dotcircles.Rosca.Effects.Returns.{
  Returns, last_event, of_ensure, of_gets, of_modify, of_read, of_signer, of_transfer,
}
use dotcircles.Rosca.Storage.{Runtime, State}
use dotcircles.Rosca.Types.{PaymentAssets, security_deposit_claimed, security_deposit_not_found}

module _ (rt : Runtime) (rosca_id : ℕ) (origin : rt.Origin) (s s' : State rt.Ledger) where
  -- The call of an account without a deposit, once the circle is over.
  claims_nothing :
      (asset : PaymentAssets) (signer final : ℕ) (t : State rt.Ledger)
      → rt.ensure_signed origin ≡ some signer
      → t.final_pay_by_timestamp rosca_id ≡ some final
      → ltb final t.now ≡ true
      → (is_some (t.pending_rosca_details rosca_id) || t.completed_roscas rosca_id) ≡ true
      → t.rosca_security_deposits rosca_id signer ≡ none
      → claim_security_deposit rt rosca_id origin asset t
        ≡ (err (module_error security_deposit_not_found), t)
  unfolding claim_security_deposit ◌>>=◌
  claims_nothing asset signer final t e ef late over nothing =
      ground (arith, e, ef, late, over, nothing)

  claim_security_deposit-Returns :
      (asset asset' : PaymentAssets)
      → Returns true s (claim_security_deposit rt rosca_id origin asset) (λ _ s'.
        claim_security_deposit rt rosca_id origin asset' s'
        ≡ (err (module_error security_deposit_not_found), s'))
  unfolding claim_security_deposit
  claim_security_deposit-Returns asset asset' = of_signer _ _ λ signer e. of_gets _ _ (
      of_read _ _ _ λ final ef. of_ensure _ _ _ λ late. of_gets _ _ (
        of_ensure _ _ _ λ over. of_read _ _ _ λ deposit ed. of_ensure _ _ _ λ some_held.
          of_transfer rt _ _ _ _ _ λ l paid. of_modify _ _ (
            last_event (security_deposit_claimed rosca_id signer deposit)
              (claims_nothing asset' signer final _ e ef late over (ground arith)))))

  -- A deposit is paid out once: after a claim that returns, the same account's next claim, in
  -- whatever asset, fails since there is no deposit, and changes nothing.
  pub claim_security_deposit-claim_security_deposit :
      (asset asset' : PaymentAssets)
      → claim_security_deposit rt rosca_id origin asset s ≡ (ok tt, s')
      → claim_security_deposit rt rosca_id origin asset' s'
        ≡ (err (module_error security_deposit_not_found), s')
  claim_security_deposit-claim_security_deposit asset asset' h =
      (claim_security_deposit-Returns asset asset').at tt s' h
