-- ===== src/Rosca/Rounds/Participant.antt =====
-- `process_defaulters` on one participant: what the deposit and the default count become.
-- The deposits and default counts after the participants of `order` have been gone through.
use dotcircles.Prelude.{
  Bool, List, [], arith, contains, false, if◌then◌else◌, insert₂, ltb, refl, saturating_add, some,
  suc, true, u32_mod, zero, ℕ, ◌&&◌, ◌-◌, ◌==◌, ◌∷◌, ◌≡◌, ◌≢◌,
}
use dotcircles.Rosca.Rounds.{pay_full, pay_rest, record_default, settle_missed, settle_participant}
use dotcircles.Rosca.Effects.{◌>>◌}
use dotcircles.Rosca.Effects.Returns.{
  Returns, last_event, of_bind, of_gets, of_if, of_modify, of_pure, of_transfer,
}
use dotcircles.Rosca.Rounds.Owing.{held, owes}
use dotcircles.Rosca.Storage.{Runtime, State}
use dotcircles.Rosca.Types.{RoscaDetails, deposit_deducted}

pub record Settled {L : Type 0} (rosca_id : ℕ) (rosca : RoscaDetails) (claimant : ℕ)
    (order : List ℕ) (s s' : State L) : Type 0 where
  pub frame : s' ≡ record s {
    ledger = s'.ledger;
    rosca_security_deposits = s'.rosca_security_deposits;
    default_count = s'.default_count;
    events = s'.events;
  }
  -- who owes loses the contribution, or what there is of it
  pub deposits :
      (a : ℕ)
      → held rosca_id s' a ≡ (
          if owes claimant order (s.current_contributors rosca_id) a
          then held rosca_id s a - rosca.contribution_amount
          else held rosca_id s a)
  -- who owes more than the deposit has one default more
  pub defaults :
      (a : ℕ)
      → s'.default_count rosca_id a ≡ (
          if owes claimant order (s.current_contributors rosca_id) a
            && ltb (held rosca_id s a) rosca.contribution_amount
          then saturating_add u32_mod (s.default_count rosca_id a) 1
          else s.default_count rosca_id a)
  -- no other circle is touched
  pub elsewhere :
      (j a : ℕ)
      → j ≢ rosca_id
      → (s'.rosca_security_deposits j a ≡ s.rosca_security_deposits j a)
        × (s'.default_count j a ≡ s.default_count j a)

-- What there was of the deposit, `d + 1`, has gone to the claimant.
abbrev rest_paid : {L : Type 0} → ℕ → ℕ → ℕ → ℕ → L → State L → State L
rest_paid rosca_id claimant p d l s = record s {
  ledger = l;
  rosca_security_deposits = insert₂ s.rosca_security_deposits rosca_id p (some 0);
  events = deposit_deducted rosca_id p claimant (suc d) false ∷ s.events;
}

module _ (rt : Runtime) (rosca_id : ℕ) (rosca : RoscaDetails) (claimant : ℕ) where
  pub Settled-none : (s : State rt.Ledger) → Settled rosca_id rosca claimant [] s s
  Settled-none s = record {
    frame = refl;
    deposits = λ a. refl;
    defaults = λ a. refl;
    elsewhere = λ j a h. (refl, refl);
  }

  -- One who owes nothing.
  Settled-quit :
      (p : ℕ) (s : State rt.Ledger)
      → owes claimant (p ∷ []) (s.current_contributors rosca_id) p ≡ false
      → Settled rosca_id rosca claimant (p ∷ []) s s
  Settled-quit p s h = record {
    frame = refl;
    deposits = λ a. ground arith;
    defaults = λ a. ground arith;
    elsewhere = λ j a h. (refl, refl);
  }

  module _ {safe : Bool} (p : ℕ) (s : State rt.Ledger)
      (h : owes claimant (p ∷ []) (s.current_contributors rosca_id) p ≡ true) where
    pay_full-Returns :
        (d : ℕ)
        → held rosca_id s p ≡ d
        → ltb d rosca.contribution_amount ≡ false
        → Returns safe s
            (pay_full rt rosca_id rosca claimant p d)
            (λ _ s'. Settled rosca_id rosca claimant (p ∷ []) s s')
    unfolding pay_full
    pay_full-Returns d e enough = of_transfer rt _ _ _ _ _ λ l paid. of_modify _ _ (
        last_event _ (record {
          frame = refl;
          deposits = λ a. ground arith;
          defaults = λ a. ground arith;
          elsewhere = λ j a h. ground arith;
        }))

    pay_rest-Returns :
        (d : ℕ)
        → held rosca_id s p ≡ d
        → ltb d rosca.contribution_amount ≡ true
        → Returns safe s
            (pay_rest rt rosca_id rosca claimant p d >> record_default rt rosca_id claimant p)
            (λ _ s'. Settled rosca_id rosca claimant (p ∷ []) s s')
    unfolding pay_rest record_default
    pay_rest-Returns zero e short =
        of_bind _ _ (λ _ s'. s' ≡ s) (of_pure tt refl)
          λ _ s₁ same. rw same (
            of_modify _ _ (
              last_event _ (record {
                frame = refl;
                deposits = λ a. ground arith;
                defaults = λ a. ground arith;
                elsewhere = λ j a h. ground arith;
              })))
    pay_rest-Returns (suc d) e short =
        of_bind _ _ (λ _ s'. (l : rt.Ledger) × (s' ≡ rest_paid rosca_id claimant p d l s))
          (of_transfer rt _ _ _ _ _ λ l paid. of_modify _ _ (last_event _ (l, refl)))
          λ _ s₁ (l, same). rw same (
            of_modify _ _ (
              last_event _ (record {
                frame = refl;
                deposits = λ a. ground arith;
                defaults = λ a. ground arith;
                elsewhere = λ j a h. ground arith;
              })))

    settle_missed-Returns :
        Returns safe s
          (settle_missed rt rosca_id rosca claimant p)
          (λ _ s'. Settled rosca_id rosca claimant (p ∷ []) s s')
    unfolding settle_missed
    settle_missed-Returns =
        let d : ℕ = held rosca_id s p in
        of_gets _ _ (
          of_if (ltb d rosca.contribution_amount) _ _ (pay_rest-Returns d refl)
            (pay_full-Returns d refl))

  module _ {safe : Bool} where
    pub settle_participant-Returns :
        (p : ℕ) (s : State rt.Ledger)
        → Returns safe s
            (settle_participant rt rosca_id rosca claimant p)
            (λ _ s'. Settled rosca_id rosca claimant (p ∷ []) s s')
    unfolding settle_participant
    settle_participant-Returns p s =
        of_if (p == claimant) _ _ (λ e. of_pure tt (Settled-quit p s (ground arith)))
          λ ne. of_gets _ _ (
            of_if (contains (s.current_contributors rosca_id) p) _ _
              (λ paid. of_pure tt (Settled-quit p s (ground arith)))
              (λ missed. settle_missed-Returns p s (ground arith)))
