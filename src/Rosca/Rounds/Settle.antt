-- ===== src/Rosca/Rounds/Settle.antt =====
-- `process_defaulters`: each participant of the order in turn.
use dotcircles.Prelude.{
  Bool, Distinct, List, [], ap, arith, contains, false, some, true, ℕ, ◌∙◌, ◌∷◌, ◌≡◌,
}
use dotcircles.Rosca.Rounds.{process_defaulters, settle_all}
use dotcircles.Rosca.Effects.{ok}
use dotcircles.Rosca.Effects.Returns.{Returns, of_bind, of_pure, of_read, weaken}
use dotcircles.Rosca.Rounds.Owing.{default_after, deposit_after}
use dotcircles.Rosca.Rounds.Participant.{Settled, Settled-none, settle_participant-Returns}
use dotcircles.Rosca.Storage.{Runtime, State}
use dotcircles.Rosca.Types.{RoscaDetails}

module _ (rt : Runtime) (rosca_id : ℕ) (rosca : RoscaDetails) (claimant : ℕ) where
  -- One participant, then the rest of an order in which that one does not stand again.
  Settled-cons :
      (p : ℕ) (rest : List ℕ) (s s₁ s' : State rt.Ledger)
      → contains rest p ≡ false
      → Settled rosca_id rosca claimant (p ∷ []) s s₁
      → Settled rosca_id rosca claimant rest s₁ s'
      → Settled rosca_id rosca claimant (p ∷ rest) s s'
  Settled-cons p rest s s₁ s' new v w =
      let same : s₁.current_contributors ≡ s.current_contributors =
        ap (λ (t : State rt.Ledger). t.current_contributors) v.frame in
      let same_id : s₁.current_contributors rosca_id ≡ s.current_contributors rosca_id =
        ap (λ (f : ℕ → List ℕ). f rosca_id) same in
      record {
        frame =
            w.frame
            ∙ ap
                (λ (t : State rt.Ledger). record t {
                  ledger = s'.ledger;
                  rosca_security_deposits = s'.rosca_security_deposits;
                  default_count = s'.default_count;
                  events = s'.events;
                })
                v.frame;
        deposits = λ a.
            deposit_after p a claimant rest (s.current_contributors rosca_id) new
              rosca.contribution_amount _ _ _ (v.deposits a) (rw (← same_id) (w.deposits a));
        defaults = λ a.
            default_after p a claimant rest (s.current_contributors rosca_id) new
              rosca.contribution_amount _ _ _ _ _ (v.deposits a) (v.defaults a)
              (rw (← same_id) (w.defaults a));
        elsewhere = λ j a h. ground (arith, v.elsewhere j a h, w.elsewhere j a h);
      }

  module _ {safe : Bool} where
    settle_all-Returns :
        (order : List ℕ) (s : State rt.Ledger)
        → Distinct order
        → Returns safe s
            (settle_all rt rosca_id rosca claimant order)
            (λ _ s'. Settled rosca_id rosca claimant order s s')
    unfolding settle_all
    settle_all-Returns [] s v = of_pure tt (Settled-none rt rosca_id rosca claimant s)
    settle_all-Returns (p ∷ rest) s v =
        of_bind _ _ _ (settle_participant-Returns rt rosca_id rosca claimant p s) λ _ s₁ first.
          weaken _ (settle_all-Returns rest s₁ v.1)
            λ _ s' then'. Settled-cons p rest s s₁ s' v.0 first then'

module _ (rt : Runtime) (rosca_id : ℕ) {safe : Bool} where
  -- From a circle whose order names each participant once, `process_defaulters` ends, does not
  -- panic and, where it returns, has settled every participant of the order.
  pub process_defaulters-Returns :
      (rosca : RoscaDetails) (claimant : ℕ) (order : List ℕ) (s : State rt.Ledger)
      → s.active_roscas rosca_id ≡ some rosca
      → s.eligible_claimant rosca_id ≡ some claimant
      → s.active_rosca_participants_order rosca_id ≡ some order
      → Distinct order
      → Returns safe s
          (process_defaulters rt rosca_id)
          (λ _ s'. Settled rosca_id rosca claimant order s s')
  unfolding process_defaulters
  process_defaulters-Returns rosca claimant order s active eligible ordered distinct =
      of_read _ _ _ λ r er. of_read _ _ _ λ c ec. of_read _ _ _ λ o eo.
        let r' : r ≡ rosca = ground arith in
        let c' : c ≡ claimant = ground arith in
        let o' : o ≡ order = ground arith in
        rw (r', c', o') (settle_all-Returns rt rosca_id rosca claimant order s distinct)

module _ (rt : Runtime) (rosca_id : ℕ) (s s' : State rt.Ledger) where
  -- On an active circle whose order names each participant once, a call of `process_defaulters`
  -- that returns has taken from the deposit of each who owes the contribution, or what there was of
  -- it, has counted one more default for each whose deposit was below it, and has left all others,
  -- all other circles and the rest of storage as they were.
  pub process_defaulters-Settled :
      (rosca : RoscaDetails) (claimant : ℕ) (order : List ℕ)
      → s.active_roscas rosca_id ≡ some rosca
      → s.eligible_claimant rosca_id ≡ some claimant
      → s.active_rosca_participants_order rosca_id ≡ some order
      → Distinct order
      → process_defaulters rt rosca_id s ≡ (ok tt, s')
      → Settled rosca_id rosca claimant order s s'
  process_defaulters-Settled rosca claimant order active eligible ordered distinct h =
      (process_defaulters-Returns rt rosca_id {safe = true} rosca claimant order s active eligible
          ordered distinct).at
        tt s' h
