-- ===== src/Rosca/Rounds/Solvent.antt =====
-- The rounds of a circle whose deposits are covered go through.
use dotcircles.Prelude.{
  List, [], arith, contains, false, init, last?-some, ltb, refl, some, suc, true, u64_mod, zero, ℕ,
  ◌+◌, ◌<◌, ◌==◌, ◌∷◌, ◌≡◌, ◌≤◌,
}
use dotcircles.Rosca.Rounds.{
  advance_rosca_round, check_and_complete_rosca, complete, pay_full, pay_rest, process_defaulters,
  record_default, settle_all, settle_missed, settle_participant,
}
use dotcircles.Rosca.Backing.{Backed, Journal}
use dotcircles.Rosca.Backing.Flow.{Able, Guarded, Solvent}
use dotcircles.Rosca.Effects.{Exec, ok, transfer, ◌>>◌}
use dotcircles.Rosca.Effects.Kept.{kept_both}
use dotcircles.Rosca.Effects.Succeeds.{
  Succeeds, ok_bind, ok_event, ok_get, ok_if, ok_index, ok_modify, ok_pure, ok_read, ok_some,
  ok_transfer,
}
use dotcircles.Rosca.Rounds.Advance.{try_rotate_right_lem}
use dotcircles.Rosca.Rounds.Backing.{settle_participant-Backed}
use dotcircles.Rosca.Rounds.Invariant.{IsActive}
use dotcircles.Rosca.Rounds.Owing.{held}
use dotcircles.Rosca.Rounds.Wealth.{settle_participant-CanPay}
use dotcircles.Rosca.Storage.{Runtime, State, moved}
use dotcircles.Rosca.Types.{RoscaDetails, id}

module _ (rt : Runtime) (journal : Journal rt) (j p : ℕ) (guarded : Guarded rt j)
    (Payee : ℕ → Type 0) (Ready : rt.Ledger → Type 0)
    (solvent : Solvent rt journal (rt.sub_account j) p Payee Ready) where
  -- What is held of a deposit can be paid.
  pub payable :
      (a to amount : ℕ) (s : State rt.Ledger)
      → Payee to
      → Able rt journal j p Ready s
      → amount ≤ held j s a
      → (l : rt.Ledger) × (rt.transfer p (rt.sub_account j) to amount s.ledger ≡ moved l)
  payable a to amount s payee (b, ready) le =
      solvent.pays to amount s.ledger payee ready (omega (arith, b.3 (a ∷ []) (refl, tt), le))

  module _ (r : RoscaDetails) (c : ℕ) (payee : Payee c) (priced : id r.payment_asset ≡ p) where
    pay_out-Succeeds :
        (a amount : ℕ) (s : State rt.Ledger) (m : Exec rt.Ledger Unit)
        → Able rt journal j p Ready s
        → amount ≤ held j s a
        → ((l : rt.Ledger) → Succeeds m (record s { ledger = l }))
        → Succeeds (transfer rt (id r.payment_asset) (rt.sub_account j) c amount >> m) s
    pay_out-Succeeds a amount s m b le k =
        let (l, paid) = payable a c amount s payee b le in
        ok_transfer rt _ _ _ _ _ l (rw priced paid) (k l)

    record_default-Succeeds : (a : ℕ) (s : State rt.Ledger) → Succeeds (record_default rt j c a) s
    unfolding record_default
    record_default-Succeeds a s = ok_modify _ _ (ok_event _ _)

    pay_rest-Succeeds :
        (a d : ℕ) (s : State rt.Ledger)
        → Able rt journal j p Ready s
        → d ≤ held j s a
        → Succeeds (pay_rest rt j r c a d) s
    unfolding pay_rest
    pay_rest-Succeeds a zero s b le = ok_pure tt
    pay_rest-Succeeds a (suc d) s b le =
        pay_out-Succeeds a (suc d) s _ b le (λ l. ok_modify _ _ (ok_event _ _))

    settle_missed-Succeeds :
        (a : ℕ) (s : State rt.Ledger)
        → Able rt journal j p Ready s
        → Succeeds (settle_missed rt j r c a) s
    unfolding settle_missed pay_full
    settle_missed-Succeeds a s b = ok_get _ _ (
        ok_if (ltb (held j s a) r.contribution_amount) _ _
          (λ short.
            let k = pay_rest-Succeeds a (held j s a) s b (omega arith) in
            ok_bind _ _ k.value k.after k.returns (record_default-Succeeds a k.after))
          (λ enough.
            pay_out-Succeeds a r.contribution_amount s _ b (ground (arith, enough))
              (λ l. ok_modify _ _ (ok_event _ _))))

    settle_participant-Succeeds :
        (a : ℕ) (s : State rt.Ledger)
        → Able rt journal j p Ready s
        → Succeeds (settle_participant rt j r c a) s
    unfolding settle_participant
    settle_participant-Succeeds a s b =
        ok_if (a == c) _ _ (λ _. ok_pure tt)
          (λ _. ok_get _ _ (
            ok_if (contains (s.current_contributors j) a) _ _ (λ _. ok_pure tt)
              (λ _. settle_missed-Succeeds a s b)))

    settle_all-Succeeds :
        (order : List ℕ) (s : State rt.Ledger)
        → Able rt journal j p Ready s
        → Succeeds (settle_all rt j r c order) s
    unfolding settle_all
    settle_all-Succeeds [] s b = ok_pure tt
    settle_all-Succeeds (a ∷ rest) s b =
        let k = settle_participant-Succeeds a s b in
        ok_bind _ _ k.value k.after k.returns (
          settle_all-Succeeds rest k.after (
            kept_both (Backed rt journal j p) (λ s. Ready s.ledger) _ s k.after (ok k.value)
              (settle_participant-Backed rt journal j p guarded j r c a)
              (settle_participant-CanPay rt j Ready solvent.stays r c a) k.returns b))

  pub process_defaulters-Succeeds :
      (s : State rt.Ledger) (v : IsActive j s)
      → Payee v.claimant
      → Able rt journal j p Ready s
      → Succeeds (process_defaulters rt j) s
  unfolding process_defaulters
  process_defaulters-Succeeds s v payee b = ok_read _ _ _ v.details v.active (
      ok_read _ _ _ v.claimant v.eligible (
        ok_read _ _ _ (v.claimant ∷ v.rest) v.ordered (
          settle_all-Succeeds v.details v.claimant payee (b.0.1 v.details v.active)
            (v.claimant ∷ v.rest) s b)))

pub advance_rosca_round-Succeeds :
    (rt : Runtime) (j : ℕ) (s : State rt.Ledger) (v : IsActive j s)
    → v.next + v.details.contribution_frequency < u64_mod
    → Succeeds (advance_rosca_round rt j) s
unfolding advance_rosca_round
advance_rosca_round-Succeeds rt j s v fits =
    let (l, last) = last?-some v.claimant v.rest in
    ok_read _ _ _ v.details v.active (
      ok_read _ _ _ v.next v.next_at (
        ok_some _ _ _ (v.next + v.details.contribution_frequency) (ground (arith, fits)) (
          ok_modify _ _ (
            ok_read _ _ _ (v.claimant ∷ v.rest) v.ordered (
              ok_index _ _ l last (
                ok_modify _ _ (
                  ok_some _ _ _ (l ∷ init (v.claimant ∷ v.rest))
                    (try_rotate_right_lem (v.claimant ∷ v.rest) l last)
                    (ok_modify _ _ (ok_event _ _)))))))))

pub complete-Succeeds : (rt : Runtime) (j : ℕ) (s : State rt.Ledger) → Succeeds (complete rt j) s
unfolding complete
complete-Succeeds rt j s = ok_modify _ _ (ok_event _ _)

pub check_and_complete_rosca-Succeeds :
    (rt : Runtime) (j : ℕ) (s : State rt.Ledger) (r : RoscaDetails) (next final : ℕ)
    → s.active_roscas j ≡ some r
    → s.final_pay_by_timestamp j ≡ some final
    → s.next_pay_by_timestamp j ≡ some next
    → Succeeds (check_and_complete_rosca rt j) s
unfolding check_and_complete_rosca
check_and_complete_rosca-Succeeds rt j s r next final er ef en = ok_read _ _ _ r er (
    ok_read _ _ _ final ef (
      ok_read _ _ _ next en (
        ok_if (ltb final next) _ _
          (λ late.
            let k = complete-Succeeds rt j s in
            ok_bind _ _ k.value k.after k.returns (ok_pure true))
          (λ early. ok_pure false))))
