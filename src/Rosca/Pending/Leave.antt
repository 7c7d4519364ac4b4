-- ===== src/Rosca/Pending/Leave.antt =====
-- What a call of `leave_rosca` has found and done when it returns.
use dotcircles.Prelude.{
  Bool, List, Option, arith, checked_sub, false, get_elem?, insert, insert₂, none, refl, set, some,
  suc, true, zero, ℕ, ◌-◌, ◌∷◌, ◌≡◌, ◌≢◌, ◌≤◌,
}
use dotcircles.Rosca.Pending.{leave_rosca, refund, unwrap_or}
use dotcircles.Rosca.Effects.{log, ok}
use dotcircles.Rosca.Effects.Returns.{
  Returns, last_event, of_bind, of_check, of_gets, of_index, of_modify, of_ok_or, of_pure, of_read,
  of_signer, of_transfer,
}
use dotcircles.Rosca.Storage.{Runtime, State, moved}
use dotcircles.Rosca.Types.{PaymentAssets, RoscaDetails, id, left_rosca, security_deposit_claimed}

-- The state in which `signer` has given up the place `i` of `order`.
abbrev pub unseated : {L : Type 0} → ℕ → ℕ → ℕ → List (Option ℕ) → ℕ → State L → State L
unseated rosca_id signer i order count s = record s {
  rosca_participants = insert₂ s.rosca_participants rosca_id signer none;
  pending_rosca_participants_order =
      insert s.pending_rosca_participants_order rosca_id (some (set order i none));
  rosca_participants_count = insert s.rosca_participants_count rosca_id (some count);
}

-- The state in which the deposit `d` has been paid back out of the ledger `l`.
abbrev pub repaid : {L : Type 0} → ℕ → ℕ → ℕ → L → State L → State L
repaid rosca_id signer d l s = record s {
  ledger = l;
  rosca_security_deposits = insert₂ s.rosca_security_deposits rosca_id signer none;
  events = security_deposit_claimed rosca_id signer d ∷ s.events;
}

-- A deposit of zero, or none, is left as it is; any other is transferred and removed.
abbrev pub Refunded :
    (rt : Runtime) → ℕ → ℕ → PaymentAssets → ℕ → State rt.Ledger → State rt.Ledger → Type 0
Refunded rt rosca_id signer asset zero s s' = s' ≡ s
Refunded rt rosca_id signer asset (suc d) s s' =
    (l : rt.Ledger) × (rt.transfer (id asset) (rt.sub_account rosca_id) signer (suc d) s.ledger
      ≡ moved l)
    × (s' ≡ repaid rosca_id signer (suc d) l s)

-- What a call that returned has found, and the state `s'` that it left.
pub record Left (rt : Runtime) (who : Option ℕ) (rosca_id : ℕ) (s s' : State rt.Ledger)
    : Type 0 where
  pub signer : ℕ
  pub order : List (Option ℕ)
  pub i : ℕ
  pub count : ℕ
  pub rosca : RoscaDetails
  pub seat : Option ℕ
  pub paid : State rt.Ledger
  pub signed : who ≡ some signer
  pub inactive : s.active_roscas rosca_id ≡ none
  pub place : s.rosca_participants rosca_id signer ≡ some i
  pub pending : s.pending_rosca_details rosca_id ≡ some rosca
  pub ordered : s.pending_rosca_participants_order rosca_id ≡ some order
  pub in_order : get_elem? order i ≡ some seat
  pub counted : s.rosca_participants_count rosca_id ≡ some count
  pub some_left : 1 ≤ count
  pub refunded :
      Refunded rt rosca_id signer rosca.payment_asset
        (unwrap_or (s.rosca_security_deposits rosca_id signer) 0)
        (unseated rosca_id signer i order (count - 1) s)
        paid
  pub left : s' ≡ log (left_rosca rosca_id signer) paid

module _ (rt : Runtime) {safe : Bool} where
  refund-Returns :
      (rosca_id signer : ℕ) (asset : PaymentAssets) (d : ℕ) (s : State rt.Ledger)
      → Returns safe s
          (refund rt rosca_id signer asset d)
          (λ _ s'. Refunded rt rosca_id signer asset d s s')
  unfolding refund
  refund-Returns rosca_id signer asset zero s = of_pure tt refl
  refund-Returns rosca_id signer asset (suc d) s =
      of_transfer rt _ _ _ _ _ λ l done. of_modify _ _ (last_event _ (l, done, refl))

  -- The place of the signer has to be in the order for the call to be safe.
  pub leave_rosca-Returns :
      (origin : rt.Origin) (rosca_id : ℕ) (s : State rt.Ledger)
      → (safe ≡ true
          → (signer i : ℕ) (order : List (Option ℕ)) → s.rosca_participants rosca_id signer ≡ some i
          → s.pending_rosca_participants_order rosca_id ≡ some order
          → get_elem? order i ≢ none)
      → Returns safe s
          (leave_rosca rt origin rosca_id)
          (λ _ s'. Left rt (rt.ensure_signed origin) rosca_id s s')
  unfolding leave_rosca
  leave_rosca-Returns origin rosca_id s inside = of_signer _ _ λ signer e.
      of_check _ _ _ _ λ inactive. of_read _ _ _ λ i place. of_read _ _ _ λ rosca pending.
        of_read _ _ _ λ order ordered.
          of_index _ _ (λ b. inside b signer i order place ordered)
            λ seat in_order. of_modify _ _ (
              of_read _ _ _ λ count counted. of_ok_or _ _ _ λ fewer some_left. of_modify _ _ (
                of_gets _ _ (
                  of_bind _ _ _ (refund-Returns rosca_id signer rosca.payment_asset _ _)
                    λ _ paid refunded. last_event _ (record {
                      signer = signer;
                      order = order;
                      i = i;
                      count = count;
                      rosca = rosca;
                      seat = seat;
                      paid = paid;
                      signed = e;
                      inactive = ground arith;
                      place = place;
                      pending = pending;
                      ordered = ordered;
                      in_order = in_order;
                      counted = counted;
                      some_left = ground arith;
                      refunded = rw (fewer_lem count fewer some_left) at refunded;
                      left = refl;
                    }))))
    where
      fewer_lem : (a b : ℕ) → checked_sub a 1 ≡ some b → b ≡ a - 1
      fewer_lem a b h = ground arith

module _ (rt : Runtime) (origin : rt.Origin) (rosca_id : ℕ) (s s' : State rt.Ledger) where
  -- A call of leave that returns was signed by an account with a place in a circle that has not
  -- started; it has freed the place and lowered the count by one, and has paid back the deposit of
  -- the account, where there was one, in the asset of the circle.
  pub leave_rosca-Left :
      leave_rosca rt origin rosca_id s ≡ (ok tt, s')
      → Left rt (rt.ensure_signed origin) rosca_id s s'
  leave_rosca-Left h =
      (leave_rosca-Returns rt {safe = false} origin rosca_id s (λ e. absurd cc)).at tt s' h
