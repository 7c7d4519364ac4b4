-- ===== src/Rosca/Active/WindUp.antt =====
-- `manually_end_rosca` on a circle with the invariant.
use dotcircles.Prelude.{
  Bool, Nat-cases, Option, arith, false, inl, inr, none, refl, some, suc, true, zero, ℕ, ◌*◌, ◌+◌,
  ◌-◌, ◌<◌, ◌∷◌, ◌≡◌, ◌≢◌,
}
use dotcircles.Rosca.Active.{due, manually_end_rosca, rounds_to, wind_up}
use dotcircles.Rosca.Effects.{diverge, ok, panic}
use dotcircles.Rosca.Effects.Returns.{
  Returns, of_bind, of_ensure, of_gets, of_if, of_ok_or, of_pure, of_read, of_signer, weaken,
}
use dotcircles.Rosca.Pending.{unwrap_or}
use dotcircles.Rosca.Rounds.Advance.{advance_rosca_round-Returns}
use dotcircles.Rosca.Rounds.Complete.{
  Advanced-IsActive, Advanced-late, complete-Returns, finished-IsOver,
}
use dotcircles.Rosca.Rounds.Invariant.{Clears, IsActive, IsOver, Settled-IsActive}
use dotcircles.Rosca.Rounds.Settle.{process_defaulters-Returns}
use dotcircles.Rosca.Storage.{Runtime, State}

-- The test of the loop past the final cutoff, and whole rounds before it.
pub due-past : (o : Option ℕ) (past final : ℕ) → o ≡ some past → final < past → due o final ≡ false
due-past none past final e h = cc
due-past (some n) past final e h = ground arith

pub due-early : (n m k f : ℕ) (o : Option ℕ) → o ≡ some n → n + k * f ≡ m → due o m ≡ true
due-early n m k f none e h = cc
due-early n m k f (some n') e h = ground (arith, e, h)

-- The rounds are over: the cutoff is one frequency past the final one.
pub record WoundUp {L : Type 0} (rosca_id : ℕ) (past : ℕ) (s : State L) : Type 0 where
  pub next_at : s.next_pay_by_timestamp rosca_id ≡ some past
  pub gone : s.pending_rosca_details rosca_id ≡ none

module _ (rt : Runtime) (rosca_id : ℕ) {safe : Bool} where
  -- Past the final cutoff the loop stops.
  wind_up-past :
      (fuel final past : ℕ) (s : State rt.Ledger)
      → 0 < fuel
      → final < past
      → WoundUp rosca_id past s
      → Returns safe s (wind_up rt rosca_id fuel final) (λ _ s'. WoundUp rosca_id past s')
  unfolding wind_up
  wind_up-past zero final past s some_fuel late w = absurd (omega arith)
  wind_up-past (suc fuel) final past s some_fuel late w = of_gets _ _ (
      of_if (due (s.next_pay_by_timestamp rosca_id) final) _ _
        (λ is_due.
          absurd
            (cc (due-past (s.next_pay_by_timestamp rosca_id) past final w.next_at late, is_due)))
        (λ _. of_pure tt w))

module _ (rt : Runtime) (clears : Clears rt) (rosca_id : ℕ) {safe : Bool} where
  -- With the rounds that the model grants, the loop ends after the last round.
  pub wind_up-Returns :
      (fuel : ℕ) (s : State rt.Ledger) (v : IsActive rosca_id s)
      → suc v.final - v.next < fuel
      → Returns safe s
          (wind_up rt rosca_id fuel v.final)
          (λ _ s'. WoundUp rosca_id (v.final + v.details.contribution_frequency) s')
  unfolding wind_up Settled-IsActive Advanced-IsActive
  wind_up-Returns zero s v enough = absurd (omega arith)
  wind_up-Returns (suc fuel) s v enough = of_gets _ _ (
      of_if (due (s.next_pay_by_timestamp rosca_id) v.final) _ _
        (λ is_due.
          of_bind _ _ _
            (process_defaulters-Returns rt rosca_id v.details v.claimant (v.claimant ∷ v.rest) s
              v.active v.eligible v.ordered v.distinct)
            λ _ s₁ settled.
              let u = Settled-IsActive settled v in
              of_bind _ _ _ (advance_rosca_round-Returns rt clears rosca_id s₁ u) λ _ s₂ a.
                elim (Nat-cases v.left) [
                  | inl none_left ↦
                      wind_up-past rt rosca_id fuel v.final
                        (v.final + v.details.contribution_frequency) s₂
                        (omega (arith, v.rounds, enough)) (omega (arith, v.positive))
                        (record {
                          next_at = Advanced-late rosca_id s₁ u s₂ a none_left;
                          gone = rw a.state u.gone;
                        })
                  | inr more ↦
                      let w = Advanced-IsActive rosca_id s₁ u s₂ a more in
                      wind_up-Returns fuel s₂ w (omega (arith, v.rounds, v.positive, enough))
                ])
        (λ not_due. absurd (
          cc (
            due-early v.next v.final v.left v.details.contribution_frequency
                (s.next_pay_by_timestamp rosca_id) v.next_at v.rounds,
            not_due,
          ))))

  pub manually_end_rosca-Returns :
      (origin : rt.Origin) (s : State rt.Ledger)
      → IsActive rosca_id s
      → Returns safe s (manually_end_rosca rt rosca_id origin) (λ _ s'. IsOver rosca_id s')
  unfolding manually_end_rosca
  manually_end_rosca-Returns origin s v = of_signer _ _ λ signer e. of_read _ _ _ λ rosca er.
      of_gets _ _ (
        of_read _ _ _ λ final ef. of_ensure _ _ _ λ late. of_gets _ _ (
          let final' : final ≡ v.final = ground (arith, v.final_at, ef) in
          let start : unwrap_or (s.next_pay_by_timestamp rosca_id) 0 ≡ v.next =
            ground (arith, v.next_at) in
          rw (final', start)
            (of_bind _ _ _ (wind_up-Returns (rounds_to v.next v.final) s v (omega arith)) λ _ s₁ w.
              of_read _ _ _ λ next en. of_ok_or _ _ _ λ last el. of_ensure _ _ _ λ same.
                weaken _ (complete-Returns rt rosca_id s₁)
                  λ _ s' done. rw done (finished-IsOver s₁ w.gone))))

module _ (rt : Runtime) (clears : Clears rt) (rosca_id : ℕ) (origin : rt.Origin)
    (s s' : State rt.Ledger) where
  -- Ending a running circle by hand, where `clear_prefix` removes all keys that its limit covers,
  -- leaves it over, if the call returns: it is marked complete and is not active.
  pub manually_end_rosca-IsOver :
      IsActive rosca_id s
      → manually_end_rosca rt rosca_id origin s ≡ (ok tt, s')
      → IsOver rosca_id s'
  manually_end_rosca-IsOver v h =
      (manually_end_rosca-Returns rt clears rosca_id {safe = true} origin s v).at tt s' h

  -- On a running circle, where `clear_prefix` removes all keys that its limit covers, the
  -- `while let` loop of the call ends within the rounds that the model grants, and no index of the
  -- call is out of range.
  pub manually_end_rosca-ends :
      IsActive rosca_id s
      → (manually_end_rosca rt rosca_id origin s ≢ (diverge, s'))
        × (manually_end_rosca rt rosca_id origin s ≢ (panic, s'))
  manually_end_rosca-ends v =
      let p = manually_end_rosca-Returns rt clears rosca_id {safe = true} origin s v in
      (p.ends s', p.calm s' refl)
