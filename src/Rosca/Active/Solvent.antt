-- ===== src/Rosca/Active/Solvent.antt =====
-- A circle whose deposits are covered can be ended by hand.
use dotcircles.Prelude.{
  Nat-cases, arith, inl, inr, some, suc, true, u64_mod, zero, ℕ, ◌*◌, ◌+◌, ◌-◌, ◌<◌, ◌∷◌, ◌≡◌,
}
use dotcircles.Rosca.Active.{due, manually_end_rosca, rounds_to, wind_up}
use dotcircles.Rosca.Active.WindUp.{due-early, due-past, manually_end_rosca-IsOver, wind_up-Returns}
use dotcircles.Rosca.Backing.{Backed, Journal}
use dotcircles.Rosca.Backing.Flow.{Able, Guarded, Solvent}
use dotcircles.Rosca.Effects.{ok}
use dotcircles.Rosca.Effects.Kept.{kept_both}
use dotcircles.Rosca.Effects.Succeeds.{
  Succeeds, ok_bind, ok_ensure, ok_get, ok_if, ok_pure, ok_read, ok_signer, ok_some,
}
use dotcircles.Rosca.Pending.{unwrap_or}
use dotcircles.Rosca.Rounds.Advance.{advance_rosca_round-Returns}
use dotcircles.Rosca.Rounds.Agenda.{agenda-IsSuffix, agenda_of}
use dotcircles.Rosca.Rounds.Backing.{advance_rosca_round-Backed, process_defaulters-Backed}
use dotcircles.Rosca.Rounds.Complete.{Advanced-IsActive, Advanced-late}
use dotcircles.Rosca.Rounds.Invariant.{Clears, IsActive, IsOver, Settled-IsActive}
use dotcircles.Rosca.Rounds.Payees.{AllPayees, AllPayees-suffix}
use dotcircles.Rosca.Rounds.Settle.{process_defaulters-Returns}
use dotcircles.Rosca.Rounds.Solvent.{
  advance_rosca_round-Succeeds, complete-Succeeds, process_defaulters-Succeeds,
}
use dotcircles.Rosca.Rounds.Wealth.{advance_rosca_round-CanPay, process_defaulters-CanPay}
use dotcircles.Rosca.Storage.{Runtime, State}

module _ (rt : Runtime) (j : ℕ) where
  wind_up-past :
      (fuel final past : ℕ) (s : State rt.Ledger)
      → 0 < fuel
      → s.next_pay_by_timestamp j ≡ some past
      → final < past
      → Succeeds (wind_up rt j fuel final) s
  unfolding wind_up
  wind_up-past zero final past s some_fuel at late = absurd (omega arith)
  wind_up-past (suc fuel) final past s some_fuel at late = ok_get _ _ (
      ok_if (due (s.next_pay_by_timestamp j) final) _ _
        (λ is_due. absurd (cc (due-past (s.next_pay_by_timestamp j) past final at late, is_due)))
        (λ _. ok_pure tt))

module _ (rt : Runtime) (clears : Clears rt) (journal : Journal rt) (j p : ℕ)
    (guarded : Guarded rt j) (Payee : ℕ → Type 0) (Ready : rt.Ledger → Type 0)
    (solvent : Solvent rt journal (rt.sub_account j) p Payee Ready) where
  wind_up-Succeeds :
      (fuel : ℕ) (s : State rt.Ledger) (v : IsActive j s)
      → suc v.final - v.next < fuel
      → v.final + v.details.contribution_frequency < u64_mod
      → AllPayees Payee (agenda_of v)
      → Able rt journal j p Ready s
      → Succeeds (wind_up rt j fuel v.final) s
  unfolding wind_up Settled-IsActive Advanced-IsActive
  wind_up-Succeeds zero s v enough fits payees b = absurd (omega arith)
  wind_up-Succeeds (suc fuel) s v enough fits payees b = ok_get _ _ (
      ok_if (due (s.next_pay_by_timestamp j) v.final) _ _
        (λ is_due.
          let k =
            process_defaulters-Succeeds rt journal j p guarded Payee Ready solvent s v payees.0 b in
          let settled =
            (process_defaulters-Returns rt j {safe = true} v.details v.claimant
                (v.claimant ∷ v.rest) s v.active v.eligible v.ordered v.distinct).at
              k.value k.after k.returns in
          let u = Settled-IsActive settled v in
          let b₁ =
            kept_both (Backed rt journal j p) (λ s. Ready s.ledger) _ s k.after (ok k.value)
              (process_defaulters-Backed rt journal j p guarded j)
              (process_defaulters-CanPay rt j Ready solvent.stays) k.returns b in
          let k' =
            advance_rosca_round-Succeeds rt j k.after u
              (before v.next v.left v.details.contribution_frequency v.final v.rounds fits) in
          let a =
            (advance_rosca_round-Returns rt clears j k.after u {safe = true}).at k'.value k'.after
              k'.returns in
          let b₂ =
            kept_both (Backed rt journal j p) (λ s. Ready s.ledger) _ k.after k'.after (ok k'.value)
              (advance_rosca_round-Backed rt journal j p guarded j)
              (advance_rosca_round-CanPay rt j Ready solvent.stays) k'.returns b₁ in
          ok_bind _ _ k.value k.after k.returns (
            ok_bind _ _ k'.value k'.after k'.returns (elim (Nat-cases v.left) [
              | inl none_left ↦
                  wind_up-past rt j fuel v.final (v.final + v.details.contribution_frequency)
                    k'.after (omega (arith, v.rounds, enough))
                    (Advanced-late j k.after u k'.after a none_left) (omega (arith, v.positive))
              | inr more ↦
                  let w = Advanced-IsActive j k.after u k'.after a more in
                  wind_up-Succeeds fuel k'.after w (omega (arith, v.rounds, v.positive, enough))
                    fits
                    (AllPayees-suffix Payee _ _
                      (agenda-IsSuffix v.left v.next v.details.contribution_frequency v.claimant
                        a.claimant v.rest more a.last)
                      payees)
                    b₂
            ])))
        (λ not_due. absurd (
          cc (
            due-early v.next v.final v.left v.details.contribution_frequency
                (s.next_pay_by_timestamp j) v.next_at v.rounds,
            not_due,
          ))))
    where
      before : (n k f m : ℕ) → n + k * f ≡ m → m + f < u64_mod → n + f < u64_mod
      before n k f m e h = omega (arith, e, h)

  -- A running circle past its final cutoff can be ended by hand, however many rounds have been
  -- missed: where `clear_prefix` removes all keys that its limit covers, transfers are kept in a
  -- journal, nobody signs as the account of the circle, which is no other circle's, the deposits at
  -- the circle are covered in its asset by that journal, which may set a least balance aside, the
  -- ledger lets that account pay the recipients of the rounds that are left out of what it has been
  -- paid in the asset and has not spent, and the final cutoff and one frequency more do not
  -- overflow, the call of any signed account returns, and the circle is then over.
  pub manually_end_rosca-succeeds :
      (origin : rt.Origin) (signer : ℕ) (s : State rt.Ledger) (v : IsActive j s)
      → rt.ensure_signed origin ≡ some signer
      → v.final < s.now
      → v.final + v.details.contribution_frequency < u64_mod
      → AllPayees Payee (agenda_of v)
      → Able rt journal j p Ready s
      → (s' : State rt.Ledger) × (manually_end_rosca rt j origin s ≡ (ok tt, s')) × IsOver j s'
  unfolding manually_end_rosca
  manually_end_rosca-succeeds origin signer s v signed late fits payees b =
      let start : unwrap_or (s.next_pay_by_timestamp j) 0 ≡ v.next = ground (arith, v.next_at) in
      let k = wind_up-Succeeds (rounds_to v.next v.final) s v (omega arith) fits payees b in
      let w =
        (wind_up-Returns rt clears j {safe = true} (rounds_to v.next v.final) s v (omega arith)).at
          k.value k.after k.returns in
      let e : Succeeds (manually_end_rosca rt j origin) s = ok_signer _ _ signer signed (
        ok_read _ _ _ v.details v.active (
          ok_get _ _ (
            ok_read _ _ _ v.final v.final_at (
              ok_ensure _ _ _ (ground (arith, late)) (
                ok_get _ _ (
                  rw start (
                    ok_bind _ _ k.value k.after k.returns (
                      ok_read _ _ _ (v.final + v.details.contribution_frequency) w.next_at (
                        ok_some _ _ _ (v.final + v.details.contribution_frequency)
                          (ground (arith, fits))
                          (ok_ensure _ _ _ (ground arith)
                            (complete-Succeeds rt j k.after))))))))))) in
      (e.after, e.returns, manually_end_rosca-IsOver rt clears j origin s e.after v e.returns)
