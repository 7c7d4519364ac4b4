-- ===== src/Rosca/Pending/Isolation.antt =====
-- Joining and leaving one circle leave every other circle as it is.
use dotcircles.Prelude.{List, Option, arith, none, some, suc, zero, ℕ, ◌≢◌}
use dotcircles.Rosca.Pending.{join_rosca, leave_rosca, refund, take_position}
use dotcircles.Rosca.Effects.Keeps.{
  Keeps, keep_bind, keep_check, keep_ensure, keep_get, keep_index, keep_pure, keep_read,
  keep_signer, keep_some, keep_write,
}
use dotcircles.Rosca.Elsewhere.{Untouched, keep_log, keep_pay}
use dotcircles.Rosca.Storage.{Runtime, State}
use dotcircles.Rosca.Types.{PaymentAssets}

module _ (rt : Runtime) (rosca_id j : ℕ) (ne : j ≢ rosca_id) (s₀ : State rt.Ledger) where
  take_position-Keeps :
      (position : Option ℕ) (signer : ℕ) (order : List (Option ℕ))
      → Keeps (Untouched j s₀) (take_position rt position signer order)
  unfolding take_position
  take_position-Keeps none signer order = keep_some _ _ _ λ i. keep_pure _
  take_position-Keeps (some i) signer order =
      keep_some _ _ _ λ c. keep_bind _ _ (keep_ensure _ _) λ _. keep_pure _

  pub join_rosca-Keeps :
      (origin : rt.Origin) (position : Option ℕ)
      → Keeps (Untouched j s₀) (join_rosca rt origin rosca_id position)
  unfolding join_rosca
  join_rosca-Keeps origin position = keep_bind _ _ (keep_signer _) λ signer. keep_check _ _ _ _ (
      keep_check _ _ _ _ (
        keep_check _ _ _ _ (
          keep_read _ _ _ λ rosca. keep_check _ _ _ _ (
            keep_read _ _ _ λ order.
              keep_bind _ _ (take_position-Keeps position signer order) λ placed.
                keep_write _ _ (λ s v. ground arith)
                  (keep_read _ _ _ λ count.
                    keep_some _ _ _
                      λ more. keep_write _ _ (λ s v. ground arith) (keep_log rt j s₀ _))))))

  refund-Keeps :
      (signer : ℕ) (asset : PaymentAssets) (d : ℕ)
      → Keeps (Untouched j s₀) (refund rt rosca_id signer asset d)
  unfolding refund
  refund-Keeps signer asset zero = keep_pure tt
  refund-Keeps signer asset (suc d) =
      keep_bind _ _ (keep_pay rt j s₀ _ _ _ _)
        λ _. keep_write _ _ (λ s v. ground arith) (keep_log rt j s₀ _)

  pub leave_rosca-Keeps :
      (origin : rt.Origin) → Keeps (Untouched j s₀) (leave_rosca rt origin rosca_id)
  unfolding leave_rosca
  leave_rosca-Keeps origin = keep_bind _ _ (keep_signer _) λ signer. keep_check _ _ _ _ (
      keep_read _ _ _ λ place. keep_read _ _ _ λ rosca. keep_read _ _ _ λ order.
        keep_bind _ _ (keep_index _) λ _.
          keep_write _ _ (λ s v. ground arith)
            (keep_read _ _ _ λ count. keep_some _ _ _ λ fewer.
              keep_write _ _ (λ s v. ground arith)
                (keep_get _ _
                  λ d. keep_bind _ _ (refund-Keeps signer _ d) λ _. keep_log rt j s₀ _)))
