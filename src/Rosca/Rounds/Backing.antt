-- ===== src/Rosca/Rounds/Backing.antt =====
-- The rounds of any circle keep the deposits of the circle `j` covered.
use dotcircles.Prelude.{
  List, Option, [], arith, checked_sub, false, insert₂, ltb, some, suc, true, zero, ℕ, ◌+◌, ◌∷◌,
  ◌≡◌, ◌≤◌,
}
use dotcircles.Rosca.Rounds.{
  advance_rosca_round, check_and_complete_rosca, complete, pay_full, pay_rest, process_defaulters,
  record_default, settle_all, settle_missed, settle_participant,
}
use dotcircles.Rosca.Backing.{Backed, Journal}
use dotcircles.Rosca.Backing.Flow.{CoveredAt-out, Guarded}
use dotcircles.Rosca.Effects.{deposit_event, modify, transfer, ◌>>=◌, ◌>>◌}
use dotcircles.Rosca.Effects.Keeps.{
  Keeps, keep_bind, keep_event, keep_get, keep_if, keep_index, keep_pure, keep_read, keep_some,
  keep_write,
}
use dotcircles.Rosca.Effects.Kept.{kept_get, kept_if, kept_on, kept_paying}
use dotcircles.Rosca.Pending.{unwrap_or}
use dotcircles.Rosca.Rounds.Owing.{held}
use dotcircles.Rosca.Storage.{Runtime, State}
use dotcircles.Rosca.Types.{Event, RoscaDetails}

module _ (rt : Runtime) (journal : Journal rt) (j p : ℕ) (guarded : Guarded rt j) (i : ℕ) where
  -- A deposit pays, and falls by no less.
  pay_out :
      (asset to amount a : ℕ) (v : Option ℕ) (e : Event) (s : State rt.Ledger)
      → unwrap_or v 0 + amount ≤ held i s a
      → Backed rt journal j p s
      → Backed rt journal j p
          ((transfer rt asset (rt.sub_account i) to amount
              >> (modify (λ s. record s {
                rosca_security_deposits = insert₂ s.rosca_security_deposits i a v;
              })
                  >> deposit_event e))
            s).1
  unfolding ◌>>=◌
  pay_out asset to amount a v e s less b =
      kept_paying rt (Backed rt journal j p) asset (rt.sub_account i) to amount _ s
        (λ l h. (
          b.0,
          b.1,
          b.2,
          CoveredAt-out rt journal j p guarded i a asset amount v s.rosca_security_deposits s.ledger
              l b.3 to h less,
        ))
        b

  pay_rest-Backed :
      (r : RoscaDetails) (c a d : ℕ) (s : State rt.Ledger)
      → d ≤ held i s a
      → Backed rt journal j p s
      → Backed rt journal j p (pay_rest rt i r c a d s).1
  unfolding pay_rest
  pay_rest-Backed r c a zero s le b = (keep_pure {P = Backed rt journal j p} tt).at s b
  pay_rest-Backed r c a (suc d) s le b = pay_out _ c (suc d) a (some 0) _ s (omega (arith, le)) b

  pay_full-Backed :
      (r : RoscaDetails) (c a : ℕ) (s : State rt.Ledger)
      → ltb (held i s a) r.contribution_amount ≡ false
      → Backed rt journal j p s
      → Backed rt journal j p (pay_full rt i r c a (held i s a) s).1
  unfolding pay_full
  pay_full-Backed r c a s enough b =
      pay_out _ c r.contribution_amount a
        (some (unwrap_or (checked_sub (held i s a) r.contribution_amount) 0)) _ s
        (ground (arith, enough)) b

  record_default-Backed : (c a : ℕ) → Keeps (Backed rt journal j p) (record_default rt i c a)
  unfolding record_default
  record_default-Backed c a = keep_write _ _ (λ s b. b) (keep_event _ (λ s b. b))

  settle_missed-Backed :
      (r : RoscaDetails) (c a : ℕ) → Keeps (Backed rt journal j p) (settle_missed rt i r c a)
  unfolding settle_missed
  settle_missed-Backed r c a = kept_get _ _ λ s b.
      kept_if (Backed rt journal j p) (ltb (held i s a) r.contribution_amount) _ _ s
        (λ short.
          kept_on (Backed rt journal j p) (pay_rest rt i r c a (held i s a))
            (λ _. record_default rt i c a) s (pay_rest-Backed r c a (held i s a) s (omega arith) b)
            (λ _. record_default-Backed c a))
        (λ enough. pay_full-Backed r c a s enough b)

  pub settle_participant-Backed :
      (r : RoscaDetails) (c a : ℕ) → Keeps (Backed rt journal j p) (settle_participant rt i r c a)
  unfolding settle_participant
  settle_participant-Backed r c a =
      keep_if _ _ _ (keep_pure tt)
        (keep_get _ _ λ b. keep_if _ _ _ (keep_pure tt) (settle_missed-Backed r c a))

  settle_all-Backed :
      (r : RoscaDetails) (c : ℕ) (order : List ℕ)
      → Keeps (Backed rt journal j p) (settle_all rt i r c order)
  unfolding settle_all
  settle_all-Backed r c [] = keep_pure tt
  settle_all-Backed r c (a ∷ rest) =
      keep_bind _ _ (settle_participant-Backed r c a) λ _. settle_all-Backed r c rest

  pub process_defaulters-Backed : Keeps (Backed rt journal j p) (process_defaulters rt i)
  unfolding process_defaulters
  process_defaulters-Backed =
      keep_read _ _ _ λ r. keep_read _ _ _ λ c. keep_read _ _ _ λ o. settle_all-Backed r c o

  pub advance_rosca_round-Backed : Keeps (Backed rt journal j p) (advance_rosca_round rt i)
  unfolding advance_rosca_round
  advance_rosca_round-Backed = keep_read _ _ _ λ r. keep_read _ _ _ λ n. keep_some _ _ _ λ next.
      keep_write _ _ (λ s b. b)
        (keep_read _ _ _ λ o. keep_bind _ _ (keep_index _) λ l.
          keep_write _ _ (λ s b. b)
            (keep_some _ _ _ λ rotated. keep_write _ _ (λ s b. b) (keep_event _ (λ s b. b))))

  pub complete-Backed : Keeps (Backed rt journal j p) (complete rt i)
  unfolding complete
  complete-Backed =
      keep_write _ _ (λ s b. (b.0, λ r h. b.1 r (ground (arith, h)), b.2, b.3))
        (keep_event _ (λ s b. b))

  pub check_and_complete_rosca-Backed :
      Keeps (Backed rt journal j p) (check_and_complete_rosca rt i)
  unfolding check_and_complete_rosca
  check_and_complete_rosca-Backed = keep_read _ _ _ λ r. keep_read _ _ _ λ f.
      keep_read _ _ _
        λ n. keep_if _ _ _ (keep_bind _ _ complete-Backed λ _. keep_pure true) (keep_pure false)
