-- ===== src/Rosca/Active/Late.antt =====
-- A contribution goes through, however many rounds have been missed.
use dotcircles.Prelude.{
  Bool, List, Option, ap, arith, false, init, inl, inr, last?, last?-some, leb, ltb, none, some,
  suc, true, u64_mod, zero, ℕ, ◌+◌, ◌-◌, ◌<◌, ◌∙◌, ◌∷◌, ◌≡◌, ◌≤◌,
}
use dotcircles.Rosca.Active.{Round, catch_up, close_round, next_round, one_round, resume}
use dotcircles.Rosca.Active.Backing.{one_round-Backed}
use dotcircles.Rosca.Active.CatchUp.{one_round-Returns}
use dotcircles.Rosca.Active.Reached.{IsAt, Onward}
use dotcircles.Rosca.Active.Wealth.{one_round-CanPay}
use dotcircles.Rosca.Backing.{Backed, Journal}
use dotcircles.Rosca.Backing.Flow.{Able, Guarded, Solvent}
use dotcircles.Rosca.Effects.{ok, pure, ◌>>=◌}
use dotcircles.Rosca.Effects.Kept.{kept_both}
use dotcircles.Rosca.Effects.Succeeds.{
  Succeeds, ok_bind, ok_event, ok_if, ok_index, ok_modify, ok_pure, ok_read, ok_some,
}
use dotcircles.Rosca.Rounds.{check_and_complete_rosca}
use dotcircles.Rosca.Rounds.Advance.{advance_rosca_round-Returns, try_rotate_right_lem}
use dotcircles.Rosca.Rounds.Agenda.{agenda_of}
use dotcircles.Rosca.Rounds.Complete.{check_and_complete_rosca-Returns}
use dotcircles.Rosca.Rounds.Invariant.{Clears, IsActive, Settled-IsActive}
use dotcircles.Rosca.Rounds.Payees.{AllPayees, AllPayees-suffix}
use dotcircles.Rosca.Rounds.Settle.{process_defaulters-Returns}
use dotcircles.Rosca.Rounds.Solvent.{
  advance_rosca_round-Succeeds, check_and_complete_rosca-Succeeds, complete-Succeeds,
  process_defaulters-Succeeds,
}
use dotcircles.Rosca.Storage.{Runtime, State}
use dotcircles.Rosca.Types.{RoscaDetails}

module _ (rt : Runtime) (j : ℕ) where
  next_round-Succeeds :
      (s : State rt.Ledger) (next claimant : ℕ) (order : List ℕ)
      → s.next_pay_by_timestamp j ≡ some next
      → s.active_rosca_participants_order j ≡ some order
      → s.eligible_claimant j ≡ some claimant
      → Succeeds (next_round rt j) s
  unfolding next_round
  next_round-Succeeds s next claimant order en eo ec =
      ok_read _ _ _ next en (ok_read _ _ _ order eo (ok_read _ _ _ claimant ec (ok_pure _)))

  pub close_round-Succeeds :
      (s : State rt.Ledger) (v : IsActive j s) (r : Round)
      → IsAt v r
      → v.next + v.details.contribution_frequency < u64_mod
      → Succeeds (close_round rt j v.details v.final r) s
  unfolding close_round
  close_round-Succeeds s v r at_r fits =
      let (l, last) = last?-some v.claimant v.rest in
      let last' : last? r.order ≡ some l = ap last? (at_r.1) ∙ last in
      let next : ℕ = v.next + v.details.contribution_frequency in
      ok_some _ _ _ next (ground (arith, at_r.0, fits)) (
        ok_if (ltb v.final next) _ _ (λ late. complete-Succeeds rt j s)
          (λ early. ok_modify _ _ (
            ok_index _ _ l last' (
              ok_modify _ _ (
                ok_some _ _ _ (l ∷ init r.order) (try_rotate_right_lem r.order l last')
                  (ok_modify _ _ (ok_event _ _)))))))

module _ (rt : Runtime) (clears : Clears rt) (journal : Journal rt) (j p : ℕ)
    (guarded : Guarded rt j) (Payee : ℕ → Type 0) (Ready : rt.Ledger → Type 0)
    (solvent : Solvent rt journal (rt.sub_account j) p Payee Ready) where
  one_round-Succeeds :
      (s : State rt.Ledger) (v : IsActive j s)
      → v.next + v.details.contribution_frequency < u64_mod
      → Payee v.claimant
      → Able rt journal j p Ready s
      → Succeeds (one_round rt j) s
  unfolding one_round Settled-IsActive
  one_round-Succeeds s v fits payee b =
      let k = process_defaulters-Succeeds rt journal j p guarded Payee Ready solvent s v payee b in
      let settled =
        (process_defaulters-Returns rt j {safe = true} v.details v.claimant (v.claimant ∷ v.rest) s
            v.active v.eligible v.ordered v.distinct).at
          k.value k.after k.returns in
      let u = Settled-IsActive settled v in
      let k' = advance_rosca_round-Succeeds rt j k.after u fits in
      let a =
        (advance_rosca_round-Returns rt clears j k.after u {safe = true}).at k'.value k'.after
          k'.returns in
      let next : ℕ = v.next + v.details.contribution_frequency in
      let final_at : k'.after.final_pay_by_timestamp j ≡ some v.final = rw a.state u.final_at in
      let next_at : k'.after.next_pay_by_timestamp j ≡ some next = rw a.state (ground arith) in
      let k'' =
        check_and_complete_rosca-Succeeds rt j k'.after v.details next v.final (rw a.state u.active)
          final_at next_at in
      ok_bind _ _ k.value k.after k.returns (
        ok_bind _ _ k'.value k'.after k'.returns (
          ok_bind _ _ k''.value k''.after k''.returns (
            ok_if k''.value _ _ (λ completed. ok_pure none)
              (λ more.
                go_on k'.after k''.after next a.claimant (a.claimant ∷ init (v.claimant ∷ v.rest))
                  (same k'.after k''.after k''.value next v.final final_at next_at k''.returns more)
                  next_at (rw a.state (ground arith)) (rw a.state (ground arith))))))
    where
      same :
          (s s' : State rt.Ledger) (done : Bool) (next final : ℕ)
          → s.final_pay_by_timestamp j ≡ some final
          → s.next_pay_by_timestamp j ≡ some next
          → check_and_complete_rosca rt j s ≡ (ok done, s')
          → done ≡ false
          → s' ≡ s
      same s s' done next final ef en h more =
          elim ((check_and_complete_rosca-Returns rt j {safe = true} s next final ef en).at done s'
            h) [ inl (is_done, _, _) ↦ absurd (cc (is_done, more)) | inr (_, _, e) ↦ e ]

      go_on :
          (s s' : State rt.Ledger) (next claimant : ℕ) (order : List ℕ)
          → s' ≡ s
          → s.next_pay_by_timestamp j ≡ some next
          → s.active_rosca_participants_order j ≡ some order
          → s.eligible_claimant j ≡ some claimant
          → Succeeds (next_round rt j >>= λ r. pure (some r)) s'
      go_on s s' next claimant order e en eo ec =
          let k = next_round-Succeeds rt j s next claimant order en eo ec in
          rw e (ok_bind _ _ k.value k.after k.returns (ok_pure (some k.value)))

  resume-Succeeds :
      (fuel now : ℕ) (s : State rt.Ledger) (v : IsActive j s) (o : Option Round)
      (s₁ : State rt.Ledger)
      → Onward j s v o s₁
      → suc v.final - v.next < suc fuel
      → v.next ≤ v.final
      → v.final + v.details.contribution_frequency < u64_mod
      → AllPayees Payee (agenda_of v)
      → Able rt journal j p Ready s₁
      → ((r : Round) (s : State rt.Ledger) (w : IsActive j s)
          → IsAt w r
          → suc w.final - w.next < fuel
          → w.final + w.details.contribution_frequency < u64_mod
          → AllPayees Payee (agenda_of w)
          → Able rt journal j p Ready s
          → Succeeds (catch_up rt j fuel now r) s)
      → Succeeds (resume rt j (catch_up rt j fuel now) o) s₁
  unfolding resume
  resume-Succeeds fuel now s v none s₁ over enough early fits payees b loop = ok_pure none
  resume-Succeeds fuel now s v (some r) s₁ (c, later) enough early fits payees b loop =
      loop r s₁ c.now_active c.at_round (omega (arith, c.final))
        (omega (arith, c.final, ap (λ (d : RoscaDetails). d.contribution_frequency) c.details))
        (AllPayees-suffix Payee _ _ c.turns payees) b

  pub catch_up-Succeeds :
      (fuel now : ℕ) (r : Round) (s : State rt.Ledger) (v : IsActive j s)
      → IsAt v r
      → suc v.final - v.next < fuel
      → v.final + v.details.contribution_frequency < u64_mod
      → AllPayees Payee (agenda_of v)
      → Able rt journal j p Ready s
      → Succeeds (catch_up rt j fuel now r) s
  unfolding catch_up
  catch_up-Succeeds zero now r s v at_r enough fits payees b = absurd (omega arith)
  catch_up-Succeeds (suc fuel) now r s v at_r enough fits payees b =
      ok_if (leb r.next now) _ _
        (λ due.
          let k = one_round-Succeeds s v (omega (arith, v.rounds)) payees.0 b in
          let onward =
            (one_round-Returns rt clears j {safe = true} s v).at k.value k.after k.returns in
          let b' =
            kept_both (Backed rt journal j p) (λ s. Ready s.ledger) _ s k.after (ok k.value)
              (one_round-Backed rt journal j p guarded j)
              (one_round-CanPay rt j Ready solvent.stays) k.returns b in
          ok_bind _ _ k.value k.after k.returns (
            resume-Succeeds fuel now s v k.value k.after onward enough (omega (arith, v.rounds))
              fits payees b'
              (λ r' s' w at' lt fits' all b'.
                catch_up-Succeeds fuel now r' s' w at' lt fits' all b')))
        (λ current. ok_pure (some r))
