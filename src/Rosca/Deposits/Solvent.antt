-- ===== src/Rosca/Deposits/Solvent.antt =====
-- A deposit that is covered can be claimed.
use dotcircles.Prelude.{arith, insert₂, is_some, none, refl, some, true, ℕ, ◌<◌, ◌||◌, ◌∷◌, ◌≡◌}
use dotcircles.Rosca.Deposits.{claim_security_deposit}
use dotcircles.Rosca.Backing.{Journal}
use dotcircles.Rosca.Backing.Flow.{Able, Guarded, Solvent}
use dotcircles.Rosca.Deposits.Backing.{Claimed-Backed}
use dotcircles.Rosca.Deposits.Exact.{Claimed, claim_security_deposit_lem}
use dotcircles.Rosca.Effects.{ok}
use dotcircles.Rosca.Rounds.Solvent.{payable}
use dotcircles.Rosca.Storage.{Runtime, State}
use dotcircles.Rosca.Types.{PaymentAssets, id, security_deposit_claimed}

module _ (rt : Runtime) (journal : Journal rt) (j : ℕ) (asset : PaymentAssets)
    (guarded : Guarded rt j) (Payee : ℕ → Type 0) (Ready : rt.Ledger → Type 0)
    (solvent : Solvent rt journal (rt.sub_account j) (id asset) Payee Ready) where
  -- A deposit can be had back: where transfers are kept in a journal, nobody signs as the account
  -- of the circle, which is no other circle's, the deposits at the circle are covered in the asset
  -- by that journal, which may set a least balance aside, and the ledger lets that account pay the
  -- caller out of what it has been paid in the asset and has not spent, the claim of a signed
  -- account with a positive deposit, in that asset, past the final cutoff of a circle that is
  -- complete or still pending, returns. The deposit is gone then, the last transfer is that of the
  -- whole deposit from the circle's account to the caller, and the other deposits are still
  -- covered.
  pub claim_security_deposit-succeeds :
      (origin : rt.Origin) (signer final deposit : ℕ) (s : State rt.Ledger)
      → rt.ensure_signed origin ≡ some signer
      → s.final_pay_by_timestamp j ≡ some final
      → final < s.now
      → (is_some (s.pending_rosca_details j) || s.completed_roscas j) ≡ true
      → s.rosca_security_deposits j signer ≡ some deposit
      → 0 < deposit
      → Payee signer
      → Able rt journal j (id asset) Ready s
      → (s' : State rt.Ledger) × (claim_security_deposit rt j origin asset s ≡ (ok tt, s'))
        × (s'.rosca_security_deposits j signer ≡ none)
        × (journal.entries s'.ledger
            ≡ record { asset = id asset; from = rt.sub_account j; to = signer; amount = deposit }
              ∷ journal.entries s.ledger)
        × Able rt journal j (id asset) Ready s'
  claim_security_deposit-succeeds origin signer final deposit s signed at late over has positive
        payee b =
      let (l, paid) =
        payable rt journal j (id asset) guarded Payee Ready solvent signer signer deposit s payee b
          (rw has (omega arith)) in
      let s' : State rt.Ledger = record s {
        ledger = l;
        rosca_security_deposits = insert₂ s.rosca_security_deposits j signer none;
        events = security_deposit_claimed j signer deposit ∷ s.events;
      } in
      let c : Claimed rt j origin asset s s' = record {
        signer = signer;
        final = final;
        deposit = deposit;
        l = l;
        signed = signed;
        ends = at;
        late = late;
        over = over;
        held = has;
        positive = positive;
        paid = paid;
        left = refl;
      } in
      (
        s',
        (claim_security_deposit_lem rt j origin s asset s').1 c,
        ground arith,
        journal.writes (id asset) (rt.sub_account j) signer deposit s.ledger l paid,
        (
          Claimed-Backed rt journal j (id asset) guarded j origin asset s s' c b.0,
          solvent.stays (id asset) signer deposit s.ledger l paid b.1,
        ),
      )
