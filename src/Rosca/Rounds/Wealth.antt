-- ===== src/Rosca/Rounds/Wealth.antt =====
-- What payments of the circle leave true of the ledger, its rounds leave true.
use dotcircles.Prelude.{List, [], false, suc, true, zero, ℕ, ◌∷◌, ◌≡◌, ◌≢◌}
use dotcircles.Rosca.Rounds.{
  advance_rosca_round, check_and_complete_rosca, complete, pay_full, pay_rest, process_defaulters,
  record_default, settle_all, settle_missed, settle_participant,
}
use dotcircles.Rosca.Effects.{transfer}
use dotcircles.Rosca.Effects.Keeps.{
  Keeps, keep_bind, keep_event, keep_get, keep_if, keep_index, keep_paid, keep_pure, keep_read,
  keep_some, keep_write,
}
use dotcircles.Rosca.Storage.{Runtime, State, moved}
use dotcircles.Rosca.Types.{RoscaDetails}

-- While `Wealth` holds of the ledger, the account can pay the amount to any payee; payments of others
-- leave it so.
pub record Affords (rt : Runtime) (account asset amount : ℕ) (Payee : ℕ → Type 0)
    (Wealth : rt.Ledger → Type 0) : Type 0 where
  pub pays :
      (to : ℕ) (l : rt.Ledger)
      → Payee to
      → Wealth l
      → (l' : rt.Ledger) × (rt.transfer asset account to amount l ≡ moved l')
  pub stays :
      (other from to sum : ℕ) (l l' : rt.Ledger)
      → from ≢ account
      → rt.transfer other from to sum l ≡ moved l'
      → Wealth l
      → Wealth l'

module _ (rt : Runtime) (j : ℕ) (Wealth : rt.Ledger → Type 0)
    (stays : (unit to sum : ℕ) (l l' : rt.Ledger)
      → rt.transfer unit (rt.sub_account j) to sum l ≡ moved l'
      → Wealth l
      → Wealth l') where
  abbrev pub CanPay : State rt.Ledger → Type 0
  CanPay s = Wealth s.ledger

  spare : (unit to sum : ℕ) → Keeps CanPay (transfer rt unit (rt.sub_account j) to sum)
  spare unit to sum = keep_paid rt _ _ _ _ (λ l s h w. stays unit to sum s.ledger l h w)

  pay_rest-CanPay : (r : RoscaDetails) (c a d : ℕ) → Keeps CanPay (pay_rest rt j r c a d)
  unfolding pay_rest
  pay_rest-CanPay r c a zero = keep_pure tt
  pay_rest-CanPay r c a (suc d) =
      keep_bind _ _ (spare _ _ _) λ _. keep_write _ _ (λ s w. w) (keep_event _ (λ s w. w))

  pay_full-CanPay : (r : RoscaDetails) (c a d : ℕ) → Keeps CanPay (pay_full rt j r c a d)
  unfolding pay_full
  pay_full-CanPay r c a d =
      keep_bind _ _ (spare _ _ _) λ _. keep_write _ _ (λ s w. w) (keep_event _ (λ s w. w))

  pub settle_participant-CanPay :
      (r : RoscaDetails) (c a : ℕ) → Keeps CanPay (settle_participant rt j r c a)
  unfolding settle_participant settle_missed record_default
  settle_participant-CanPay r c a = keep_if _ _ _ (keep_pure tt) (
      keep_get _ _ λ b. keep_if _ _ _ (keep_pure tt) (
        keep_get _ _ λ d.
          keep_if _ _ _
            (keep_bind _ _ (pay_rest-CanPay r c a d)
              λ _. keep_write _ _ (λ s w. w) (keep_event _ (λ s w. w)))
            (pay_full-CanPay r c a d)))

  settle_all-CanPay :
      (r : RoscaDetails) (c : ℕ) (order : List ℕ) → Keeps CanPay (settle_all rt j r c order)
  unfolding settle_all
  settle_all-CanPay r c [] = keep_pure tt
  settle_all-CanPay r c (a ∷ rest) =
      keep_bind _ _ (settle_participant-CanPay r c a) λ _. settle_all-CanPay r c rest

  pub process_defaulters-CanPay : Keeps CanPay (process_defaulters rt j)
  unfolding process_defaulters
  process_defaulters-CanPay =
      keep_read _ _ _ λ r. keep_read _ _ _ λ c. keep_read _ _ _ λ o. settle_all-CanPay r c o

  pub advance_rosca_round-CanPay : Keeps CanPay (advance_rosca_round rt j)
  unfolding advance_rosca_round
  advance_rosca_round-CanPay = keep_read _ _ _ λ r. keep_read _ _ _ λ n. keep_some _ _ _ λ next.
      keep_write _ _ (λ s w. w)
        (keep_read _ _ _ λ o. keep_bind _ _ (keep_index _) λ l.
          keep_write _ _ (λ s w. w)
            (keep_some _ _ _ λ rotated. keep_write _ _ (λ s w. w) (keep_event _ (λ s w. w))))

  pub check_and_complete_rosca-CanPay : Keeps CanPay (check_and_complete_rosca rt j)
  unfolding check_and_complete_rosca complete
  check_and_complete_rosca-CanPay = keep_read _ _ _ λ r. keep_read _ _ _ λ f. keep_read _ _ _ λ n.
      keep_if _ _ _
        (keep_bind _ _ (keep_write _ _ (λ s w. w) (keep_event _ (λ s w. w))) λ _. keep_pure true)
        (keep_pure false)
