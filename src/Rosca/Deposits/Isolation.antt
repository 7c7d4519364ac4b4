-- ===== src/Rosca/Deposits/Isolation.antt =====
-- The calls on the deposits of one circle leave every other circle as it is.
use dotcircles.Prelude.{arith, ℕ, ◌≢◌}
use dotcircles.Rosca.Deposits.{add_to_security_deposit, claim_security_deposit}
use dotcircles.Rosca.Effects.Keeps.{
  Keeps, keep_bind, keep_check, keep_ensure, keep_get, keep_read, keep_signer, keep_some,
  keep_write,
}
use dotcircles.Rosca.Elsewhere.{Untouched, keep_log, keep_pay}
use dotcircles.Rosca.Storage.{Runtime, State}
use dotcircles.Rosca.Types.{PaymentAssets}

module _ (rt : Runtime) (rosca_id j : ℕ) (ne : j ≢ rosca_id) (s₀ : State rt.Ledger) where
  pub claim_security_deposit-Keeps :
      (origin : rt.Origin) (asset : PaymentAssets)
      → Keeps (Untouched j s₀) (claim_security_deposit rt rosca_id origin asset)
  unfolding claim_security_deposit
  claim_security_deposit-Keeps origin asset = keep_bind _ _ (keep_signer _) λ signer.
      keep_get _ _ λ now. keep_read _ _ _ λ final. keep_bind _ _ (keep_ensure _ _) λ _.
        keep_get _ _ λ over. keep_bind _ _ (keep_ensure _ _) λ _. keep_read _ _ _ λ deposit.
          keep_bind _ _ (keep_ensure _ _) λ _.
            keep_bind _ _ (keep_pay rt j s₀ _ _ _ _)
              λ _. keep_write _ _ (λ s v. ground arith) (keep_log rt j s₀ _)

  pub add_to_security_deposit-Keeps :
      (origin : rt.Origin) (amount : ℕ)
      → Keeps (Untouched j s₀) (add_to_security_deposit rt rosca_id origin amount)
  unfolding add_to_security_deposit
  add_to_security_deposit-Keeps origin amount = keep_bind _ _ (keep_signer _) λ signer.
      keep_check _ _ _ _ (
        keep_check _ _ _ _ (
          keep_read _ _ _ λ rosca. keep_bind _ _ (keep_pay rt j s₀ _ _ _ _) λ _.
            keep_get _ _ λ held.
              keep_some _ _ _ λ more. keep_write _ _ (λ s v. ground arith) (keep_log rt j s₀ _)))
