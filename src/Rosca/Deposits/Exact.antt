-- ===== src/Rosca/Deposits/Exact.antt =====
-- Just when the calls on deposits return, and what they leave.
use dotcircles.Prelude.{
  arith, false, insert₂, is_some, ltb, none, or_else, refl, some, true, u32_mod, ℕ, ◌+◌, ◌<◌, ◌||◌,
  ◌↔◌, ◌∷◌, ◌≡◌,
}
use dotcircles.Rosca.Deposits.{add_to_security_deposit, claim_security_deposit}
use dotcircles.Rosca.Effects.{ok, ◌>>=◌}
use dotcircles.Rosca.Effects.Returns.{
  Returns, last_event, of_check, of_ensure, of_gets, of_modify, of_ok_or, of_read, of_signer,
  of_transfer,
}
use dotcircles.Rosca.Pending.{unwrap_or}
use dotcircles.Rosca.Storage.{Runtime, State, moved}
use dotcircles.Rosca.Types.{
  PaymentAssets, RoscaDetails, id, security_deposit_claimed, security_deposit_contribution,
}

-- A claim that is paid out.
pub record Claimed (rt : Runtime) (rosca_id : ℕ) (origin : rt.Origin) (asset : PaymentAssets)
    (s s' : State rt.Ledger) : Type 0 where
  pub signer : ℕ
  pub final : ℕ
  pub deposit : ℕ
  pub l : rt.Ledger
  pub signed : rt.ensure_signed origin ≡ some signer
  pub ends : s.final_pay_by_timestamp rosca_id ≡ some final
  pub late : final < s.now
  pub over : (is_some (s.pending_rosca_details rosca_id) || s.completed_roscas rosca_id) ≡ true
  pub held : s.rosca_security_deposits rosca_id signer ≡ some deposit
  pub positive : 0 < deposit
  pub paid : rt.transfer (id asset) (rt.sub_account rosca_id) signer deposit s.ledger ≡ moved l
  pub left : s' ≡ record s {
    ledger = l;
    rosca_security_deposits = insert₂ s.rosca_security_deposits rosca_id signer none;
    events = security_deposit_claimed rosca_id signer deposit ∷ s.events;
  }

-- An addition that is taken.
pub record Added (rt : Runtime) (rosca_id : ℕ) (origin : rt.Origin) (amount : ℕ)
    (s s' : State rt.Ledger) : Type 0 where
  pub signer : ℕ
  pub rosca : RoscaDetails
  pub l : rt.Ledger
  pub signed : rt.ensure_signed origin ≡ some signer
  pub member : is_some (s.rosca_participants rosca_id signer) ≡ true
  pub running : s.completed_roscas rosca_id ≡ false
  pub found : or_else (s.active_roscas rosca_id) (s.pending_rosca_details rosca_id) ≡ some rosca
  pub paid :
      rt.transfer (id rosca.payment_asset) signer (rt.sub_account rosca_id) amount s.ledger
      ≡ moved l
  pub fits : unwrap_or (s.rosca_security_deposits rosca_id signer) 0 + amount < u32_mod
  pub left : s' ≡ record s {
    ledger = l;
    rosca_security_deposits =
        insert₂ s.rosca_security_deposits rosca_id signer
          (some (unwrap_or (s.rosca_security_deposits rosca_id signer) 0 + amount));
    events = security_deposit_contribution rosca_id signer amount ∷ s.events;
  }

module _ (rt : Runtime) (rosca_id : ℕ) (origin : rt.Origin) (s : State rt.Ledger) where
  claim_security_deposit-Claimed :
      (asset : PaymentAssets)
      → Returns true s
          (claim_security_deposit rt rosca_id origin asset)
          (λ _ s'. Claimed rt rosca_id origin asset s s')
  unfolding claim_security_deposit
  claim_security_deposit-Claimed asset = of_signer _ _ λ signer e. of_gets _ _ (
      of_read _ _ _ λ final ef. of_ensure _ _ _ λ late. of_gets _ _ (
        of_ensure _ _ _ λ over. of_read _ _ _ λ deposit ed. of_ensure _ _ _ λ some_held.
          of_transfer rt _ _ _ _ _ λ l paid. of_modify _ _ (
            last_event _ (record {
              signer = signer;
              final = final;
              deposit = deposit;
              l = l;
              signed = e;
              ends = ef;
              late = ground (arith, late);
              over = over;
              held = ed;
              positive = ground (arith, some_held);
              paid = paid;
              left = refl;
            }))))

  claim_returns :
      (asset : PaymentAssets) (s' : State rt.Ledger)
      → Claimed rt rosca_id origin asset s s'
      → claim_security_deposit rt rosca_id origin asset s ≡ (ok tt, s')
  unfolding claim_security_deposit ◌>>=◌
  claim_returns asset s' c =
      let late : ltb c.final s.now ≡ true = ground (arith, c.late) in
      let positive : ltb 0 c.deposit ≡ true = ground (arith, c.positive) in
      rw c.left (ground (arith, c.signed, c.ends, late, c.over, c.held, positive, c.paid))

  add_to_security_deposit-Added :
      (amount : ℕ)
      → Returns true s
          (add_to_security_deposit rt rosca_id origin amount)
          (λ _ s'. Added rt rosca_id origin amount s s')
  unfolding add_to_security_deposit
  add_to_security_deposit-Added amount = of_signer _ _ λ signer e. of_check _ _ _ _ λ member.
      of_check _ _ _ _ λ running. of_read _ _ _ λ rosca er. of_transfer rt _ _ _ _ _ λ l paid.
        of_gets _ _ (
          of_ok_or _ _ _ λ more em. of_modify _ _ (
            let fits : unwrap_or (s.rosca_security_deposits rosca_id signer) 0 + amount < u32_mod =
              ground (arith, em) in
            let sum : more ≡ unwrap_or (s.rosca_security_deposits rosca_id signer) 0 + amount =
              ground (arith, em) in
            rw sum (
              last_event _ (record {
                signer = signer;
                rosca = rosca;
                l = l;
                signed = e;
                member = member;
                running = ground (arith, running);
                found = er;
                paid = paid;
                fits = fits;
                left = refl;
              }))))

  add_returns :
      (amount : ℕ) (s' : State rt.Ledger)
      → Added rt rosca_id origin amount s s'
      → add_to_security_deposit rt rosca_id origin amount s ≡ (ok tt, s')
  unfolding add_to_security_deposit ◌>>=◌
  add_returns amount s' c =
      rw c.left (ground (arith, c.signed, c.member, c.running, c.found, c.paid, c.fits))

  -- A claim returns just when the caller is signed, the final cutoff has passed, the circle is
  -- complete or still pending, the caller's deposit is positive, and the ledger accepts its transfer,
  -- in the asset that the call names, to the caller. The deposit is then gone, and the event told.
  pub claim_security_deposit_lem :
      (asset : PaymentAssets) (s' : State rt.Ledger)
      → (claim_security_deposit rt rosca_id origin asset s ≡ (ok tt, s'))
        ↔ Claimed rt rosca_id origin asset s s'
  claim_security_deposit_lem asset s' =
      ((claim_security_deposit-Claimed asset).at tt s', claim_returns asset s')

  -- An addition to a deposit returns just when the caller is a signed participant, the circle is
  -- active or pending and not complete, the ledger accepts the transfer in the asset of the circle,
  -- and the sum is a number of 32 bits. The deposit is then the sum, and the event told.
  pub add_to_security_deposit_lem :
      (amount : ℕ) (s' : State rt.Ledger)
      → (add_to_security_deposit rt rosca_id origin amount s ≡ (ok tt, s'))
        ↔ Added rt rosca_id origin amount s s'
  add_to_security_deposit_lem amount s' =
      ((add_to_security_deposit-Added amount).at tt s', add_returns amount s')
