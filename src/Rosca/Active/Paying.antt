-- ===== src/Rosca/Active/Paying.antt =====
-- `contribute_to_rosca`, from its first test to its last write.
use dotcircles.Prelude.{
  List, Option, [], arith, contains, false, inl, inr, length, none, not, refl, some, true, ℕ, ◌<◌,
  ◌==◌, ◌∷◌, ◌≡◌, ◌≢◌,
}
use dotcircles.Rosca.Active.{Round, contribute_now, contribute_to_rosca, rounds_to}
use dotcircles.Rosca.Active.CatchUp.{catch_up-Returns}
use dotcircles.Rosca.Active.Contribute.{Ended, EndedFrom, EndedFrom-Ended, contribute_now-Returns}
use dotcircles.Rosca.Active.Reached.{Reached}
use dotcircles.Rosca.Effects.{diverge, ok, panic}
use dotcircles.Rosca.Effects.Returns.{
  Returns, of_bind, of_check, of_ensure, of_gets, of_pure, of_read, of_signer, weaken,
}
use dotcircles.Rosca.Rounds.Agenda.{IsSuffix-trans}
use dotcircles.Rosca.Rounds.Invariant.{Clears, IsActive, IsOpen}
use dotcircles.Rosca.Storage.{Runtime, State}

-- A member who is not the claimant is not alone.
pub not_alone :
    (claimant signer : ℕ) (rest : List ℕ)
    → contains (claimant ∷ rest) signer ≡ true
    → not (claimant == signer) ≡ true
    → 0 < length rest
not_alone claimant signer [] h unlike = ground arith
not_alone claimant signer (a ∷ rest) h unlike = omega arith

module _ (rt : Runtime) (clears : Clears rt) (rosca_id : ℕ) where
  pays-Reached :
      (signer : ℕ) (s : State rt.Ledger) (v : IsActive rosca_id s) (o : Option Round)
      (s₁ : State rt.Ledger)
      → Reached rosca_id s v s.now o s₁
      → contains (s.current_contributors rosca_id) signer ≡ false
      → 0 < length v.rest
      → Returns true s₁
          (contribute_now rt rosca_id v.details signer v.final o)
          (λ _ s'. EndedFrom rt rosca_id v s')
  unfolding contribute_now
  pays-Reached signer s v none s₁ over new big = of_pure tt (inl over)
  pays-Reached signer s v (some r) s₁ (c, current) new big = weaken _ paid (λ _ s'. whole s')
    where
      paid :
          Returns true s₁
            (contribute_now rt rosca_id v.details signer v.final (some r))
            (λ _ s'. EndedFrom rt rosca_id c.now_active s')
      paid =
          rw (← c.details, ← c.final)
            (contribute_now-Returns rt clears rosca_id signer s₁ c.now_active r c.at_round c.is_open
              (c.keys signer new) (omega (arith, c.size, big)))

      whole :
          (s' : State rt.Ledger)
          → EndedFrom rt rosca_id c.now_active s'
          → EndedFrom rt rosca_id v s'
      whole s' (inl over) = inl over
      whole s' (inr (w, op, turns)) = inr (w, op, IsSuffix-trans _ _ _ turns c.turns)

  pub contribute_to_rosca-Returns :
      (origin : rt.Origin) (s : State rt.Ledger) (v : IsActive rosca_id s)
      → IsOpen v
      → Returns true s (contribute_to_rosca rt rosca_id origin) (λ _ s'. EndedFrom rt rosca_id v s')
  unfolding contribute_to_rosca
  contribute_to_rosca-Returns origin s v op = of_signer _ _ λ signer e. of_check _ _ _ _ λ member.
      of_check _ _ _ _ λ running. of_read _ _ _ λ rosca er. of_read _ _ _ λ claimant ec.
        of_ensure _ _ _ λ unlike. of_check _ _ _ _ λ new. of_gets _ _ (
          of_read _ _ _ λ final ef. of_read _ _ _ λ next en. of_read _ _ _ λ order eo.
            let details : rosca ≡ v.details = ground (arith, v.active, er) in
            let final' : final ≡ v.final = ground (arith, v.final_at, ef) in
            let next' : next ≡ v.next = ground (arith, v.next_at, en) in
            let order' : order ≡ v.claimant ∷ v.rest = ground (arith, v.ordered, eo) in
            let claimant' : claimant ≡ v.claimant = ground (arith, v.eligible, ec) in
            rw (details, final', next', order', claimant')
              (of_bind _ _ _
                (catch_up-Returns rt clears rosca_id (rounds_to v.next v.final) s.now
                  (record { next = v.next; order = v.claimant ∷ v.rest; claimant = v.claimant }) s v
                  (refl, refl, refl) op (omega arith))
                λ o s₁ reached. pays-Reached signer s v o s₁ reached (ground (arith, new)) (
                  not_alone v.claimant signer v.rest (v.members signer member)
                    (rw (← claimant') unlike))))

module _ (rt : Runtime) (clears : Clears rt) (rosca_id : ℕ) (origin : rt.Origin)
    (s s' : State rt.Ledger) where
  -- On a running circle in an open round, where `clear_prefix` removes all keys that its limit
  -- covers, a contribution that returns, with every round that it has caught up on and with the end
  -- of the round that it may have completed, leaves the circle over, or running in an open round
  -- with the invariant.
  pub contribute_to_rosca-Ended :
      (v : IsActive rosca_id s)
      → IsOpen v
      → contribute_to_rosca rt rosca_id origin s ≡ (ok tt, s')
      → Ended rt rosca_id s'
  contribute_to_rosca-Ended v op h =
      EndedFrom-Ended rt rosca_id v s'
        ((contribute_to_rosca-Returns rt clears rosca_id origin s v op).at tt s' h)

  -- On a running circle in an open round, where `clear_prefix` removes all keys that its limit
  -- covers, and whatever the time, the loop of the call ends within the rounds that the model grants
  -- and no index of the call is out of range: the call returns or fails with an error.
  pub contribute_to_rosca-ends :
      (v : IsActive rosca_id s)
      → IsOpen v
      → (contribute_to_rosca rt rosca_id origin s ≢ (diverge, s'))
        × (contribute_to_rosca rt rosca_id origin s ≢ (panic, s'))
  contribute_to_rosca-ends v op =
      let p = contribute_to_rosca-Returns rt clears rosca_id origin s v op in
      (p.ends s', p.calm s' refl)
