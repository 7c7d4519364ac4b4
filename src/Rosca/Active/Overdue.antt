-- ===== src/Rosca/Active/Overdue.antt =====
-- `contribute_to_rosca`, at any time: the call of a member who can pay goes through.
use dotcircles.Prelude.{
  Option, ap, arith, contains, false, is_some, length, none, refl, some, sym, true, u32_mod,
  u64_mod, ℕ, ◌+◌, ◌-◌, ◌<◌, ◌==◌, ◌∙◌, ◌∷◌, ◌≡◌,
}
use dotcircles.Rosca.Active.{Round, contribute_now, contribute_to_rosca, rounds_to}
use dotcircles.Rosca.Active.CatchUp.{catch_up-Returns}
use dotcircles.Rosca.Active.Contribute.{Ended, contributed-IsActive}
use dotcircles.Rosca.Active.Late.{catch_up-Succeeds, close_round-Succeeds}
use dotcircles.Rosca.Active.Paying.{contribute_to_rosca-Ended, not_alone}
use dotcircles.Rosca.Active.Reached.{IsAt, Reached}
use dotcircles.Rosca.Active.Wealth.{catch_up-CanPay}
use dotcircles.Rosca.Backing.{Journal}
use dotcircles.Rosca.Backing.Flow.{Able, Guarded, Solvent}
use dotcircles.Rosca.Effects.{ok}
use dotcircles.Rosca.Effects.Kept.{kept_to}
use dotcircles.Rosca.Effects.Succeeds.{
  Succeeds, ok_bind, ok_ensure, ok_get, ok_if, ok_log, ok_modify, ok_pure, ok_read, ok_signer,
  ok_some, ok_transfer,
}
use dotcircles.Rosca.Rounds.Agenda.{agenda_of}
use dotcircles.Rosca.Rounds.Invariant.{Clears, IsActive, IsOpen}
use dotcircles.Rosca.Rounds.Payees.{AllPayees, AllPayees-suffix}
use dotcircles.Rosca.Rounds.Wealth.{Affords}
use dotcircles.Rosca.Storage.{Runtime, State, moved}
use dotcircles.Rosca.Types.{id}

module _ (rt : Runtime) (j : ℕ) where
  pays_claimant :
      (signer : ℕ) (l : rt.Ledger) (s : State rt.Ledger) (v : IsActive j s) (r : Round)
      → IsAt v r
      → IsOpen v
      → contains (s.current_contributors j) signer ≡ false
      → 0 < length v.rest
      → length v.rest + 1 < u32_mod
      → v.final + v.details.contribution_frequency < u64_mod
      → rt.transfer
          (id v.details.payment_asset)
          signer
          r.claimant
          v.details.contribution_amount
          s.ledger
        ≡ moved l
      → Succeeds (contribute_now rt j v.details signer v.final (some r)) s
  unfolding contribute_now contributed-IsActive
  pays_claimant signer l s v r at_r op new big few fits paid =
      let w =
        contributed-IsActive rt j s v op signer r.claimant v.details.contribution_amount l new
          big in
      ok_transfer rt _ _ _ _ _ l paid (
        ok_modify _ _ (
          ok_get _ _ (
            ok_some _ _ _ (s.current_contribution_count j + 1)
              (ground (arith, v.counted, v.bounded, few))
              (ok_modify _ _ (
                ok_log _ _ (
                  ok_if (s.current_contribution_count j + 1 == length r.order - 1) _ _
                    (λ full.
                      close_round-Succeeds rt j _ w r at_r
                        (omega (arith, v.rounds, v.positive, fits)))
                    (λ more. ok_pure tt)))))))

  pays_late :
      (signer : ℕ) (Payee : ℕ → Type 0) (Wealth : rt.Ledger → Type 0) (s : State rt.Ledger)
      (v : IsActive j s) (o : Option Round) (s₁ : State rt.Ledger)
      → Affords rt signer (id v.details.payment_asset) v.details.contribution_amount Payee Wealth
      → Reached j s v s.now o s₁
      → contains (s.current_contributors j) signer ≡ false
      → 0 < length v.rest
      → length v.rest + 1 < u32_mod
      → v.final + v.details.contribution_frequency < u64_mod
      → AllPayees Payee (agenda_of v)
      → Wealth s₁.ledger
      → Succeeds (contribute_now rt j v.details signer v.final o) s₁
  unfolding contribute_now
  pays_late signer Payee Wealth s v none s₁ affords over new big few fits payees wealth = ok_pure tt
  pays_late signer Payee Wealth s v (some r) s₁ affords (c, current) new big few fits payees
        wealth =
      let (l, paid) =
        affords.pays r.claimant s₁.ledger
          (rw c.at_round.2 (AllPayees-suffix Payee _ _ c.turns payees).0) wealth in
      rw (← c.details, ← c.final)
        (pays_claimant signer l s₁ c.now_active r c.at_round c.is_open (c.keys signer new)
          (omega (arith, c.size, big)) (omega (arith, c.size, few)) (rw (c.details, c.final) fits)
          (rw c.details paid))

-- One who may pay at any time: a member who is not the claimant and has not paid, and who can pay
-- the contribution to any payee while `Wealth` holds of the ledger, as it does now.
pub record MayPayLate (rt : Runtime) (j : ℕ) (origin : rt.Origin) (signer : ℕ) (Payee : ℕ → Type 0)
    (Wealth : rt.Ledger → Type 0) (s : State rt.Ledger) (v : IsActive j s) : Type 0 where
  pub signed : rt.ensure_signed origin ≡ some signer
  pub member : is_some (s.rosca_participants j signer) ≡ true
  pub unlike : (v.claimant == signer) ≡ false
  pub new : contains (s.current_contributors j) signer ≡ false
  pub affords :
      Affords rt signer (id v.details.payment_asset) v.details.contribution_amount Payee Wealth
  pub wealth : Wealth s.ledger

module _ (rt : Runtime) (clears : Clears rt) (journal : Journal rt) (j p : ℕ)
    (guarded : Guarded rt j) (Payee : ℕ → Type 0) (Ready : rt.Ledger → Type 0)
    (solvent : Solvent rt journal (rt.sub_account j) p Payee Ready) where
  -- However many rounds have been missed: on a running circle in an open round, where
  -- `clear_prefix` removes all keys that its limit covers, transfers are kept in a journal, nobody
  -- signs as the account of the circle, which is no other circle's, the deposits at the circle are
  -- covered in its asset by that journal, which may set a least balance aside, the ledger lets that
  -- account pay the recipients of the rounds that are left out of what it has been paid in the
  -- asset and has not spent, the final cutoff and one frequency more do not overflow, and neither
  -- does the number of members, the call of a member who is not the claimant of the round in
  -- storage, has not paid in it and can pay the contribution to those recipients, whatever others
  -- pay before, returns, and leaves the circle over, or running in an open round. That holds also
  -- where the caller is the recipient of the round that is reached.
  pub contribute_to_rosca-catches_up :
      (origin : rt.Origin) (signer : ℕ) (Wealth : rt.Ledger → Type 0) (s : State rt.Ledger)
      (v : IsActive j s)
      → IsOpen v
      → MayPayLate rt j origin signer Payee Wealth s v
      → length v.rest + 1 < u32_mod
      → v.final + v.details.contribution_frequency < u64_mod
      → AllPayees Payee (agenda_of v)
      → Able rt journal j p Ready s
      → (s' : State rt.Ledger) × (contribute_to_rosca rt j origin s ≡ (ok tt, s')) × Ended rt j s'
  unfolding contribute_to_rosca
  contribute_to_rosca-catches_up origin signer Wealth s v op m few fits payees b =
      let start : Round = record {
        next = v.next;
        order = v.claimant ∷ v.rest;
        claimant = v.claimant;
      } in
      let fuel : ℕ = rounds_to v.next v.final in
      let k =
        catch_up-Succeeds rt clears journal j p guarded Payee Ready solvent fuel s.now start s v
          (refl, refl, refl) (omega arith) fits payees b in
      let reached =
        (catch_up-Returns rt clears j {safe = true} fuel s.now start s v (refl, refl, refl) op
            (omega arith)).at
          k.value k.after k.returns in
      let wealth =
        kept_to _ _ s k.after (ok k.value)
          (catch_up-CanPay rt j Wealth
            (λ unit to sum l l' h w.
              m.affords.stays unit (rt.sub_account j) to sum l l'
                (λ e. guarded.keyless origin (m.signed ∙ ap some (sym e))) h w)
            fuel s.now start)
          k.returns m.wealth in
      let k' =
        pays_late rt j signer Payee Wealth s v k.value k.after m.affords reached m.new
          (not_alone v.claimant signer v.rest (v.members signer m.member)
            (ground (arith, m.unlike)))
          few fits payees wealth in
      let e : Succeeds (contribute_to_rosca rt j origin) s = ok_signer _ _ signer m.signed (
        ok_get _ _ (
          ok_ensure _ _ _ m.member (
            ok_get _ _ (
              ok_ensure _ _ _ (ground (arith, v.running)) (
                ok_read _ _ _ v.details v.active (
                  ok_read _ _ _ v.claimant v.eligible (
                    ok_ensure _ _ _ (ground (arith, m.unlike)) (
                      ok_get _ _ (
                        ok_ensure _ _ _ (ground (arith, m.new)) (
                          ok_get _ _ (
                            ok_read _ _ _ v.final v.final_at (
                              ok_read _ _ _ v.next v.next_at (
                                ok_read _ _ _ (v.claimant ∷ v.rest) v.ordered
                                  (ok_bind _ _ k.value k.after k.returns k')))))))))))))) in
      (e.after, e.returns, contribute_to_rosca-Ended rt clears j origin s e.after v op e.returns)
