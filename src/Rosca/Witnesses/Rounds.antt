-- ===== src/Rosca/Witnesses/Rounds.antt =====
-- The theorems on running circles, at the circle `underway` of Tests.antt.
-- The rounds: `underway` is the circle in its first round, for the claimant 1.
use dotcircles.Prelude.{
  [], arith, contains, inl, insert, is_some, none, refl, some, true, ℕ, ◌+◌, ◌↔◌, ◌∷◌, ◌≡◌, ◌⊎◌,
}
use dotcircles.Rosca.Witnesses.{mock-Clears}
use dotcircles.Rosca.Active.{contribute_to_rosca}
use dotcircles.Rosca.Active.Contribute.{Ended, contributed}
use dotcircles.Rosca.Active.Live.{MayPay, Spares, contribute_to_rosca-succeeds}
use dotcircles.Rosca.Active.Paying.{contribute_to_rosca-Ended}
use dotcircles.Rosca.Deposits.{claim_security_deposit}
use dotcircles.Rosca.Deposits.Exact.{Claimed, claim_security_deposit_lem}
use dotcircles.Rosca.Effects.{ok, ◌>>=◌}
use dotcircles.Rosca.Rounds.{advance_rosca_round, process_defaulters}
use dotcircles.Rosca.Rounds.Advance.{Advanced, advance_rosca_round-Advanced}
use dotcircles.Rosca.Rounds.Invariant.{IsActive}
use dotcircles.Rosca.Rounds.Participant.{Settled}
use dotcircles.Rosca.Rounds.Settle.{process_defaulters-Settled}
use dotcircles.Rosca.Storage.{State}
use dotcircles.Rosca.Tests.{Balances, at_time, genesis, mock, terms, underway}
use dotcircles.Rosca.Types.{id, usdt}

underway-members :
    (a : ℕ) → is_some (underway.rosca_participants 0 a) ≡ true → contains (1 ∷ 3 ∷ 2 ∷ []) a ≡ true
underway-members a h = ground arith

underway-IsActive : (t : ℕ) → IsActive 0 (at_time t underway)
underway-IsActive t = record {
  details = terms;
  claimant = 1;
  rest = 3 ∷ 2 ∷ [];
  next = 50;
  final = 150;
  left = 2;
  active = refl;
  running = refl;
  gone = refl;
  eligible = refl;
  ordered = refl;
  distinct = (refl, (refl, (refl, tt)));
  next_at = refl;
  final_at = refl;
  positive = omega arith;
  pays = omega arith;
  rounds = refl;
  few = omega arith;
  counted = refl;
  bounded = omega arith;
  members = underway-members;
}

settled : State Balances
settled = (process_defaulters mock 0 underway).1

process_defaulters-Settled_example : Settled 0 terms 1 (1 ∷ 3 ∷ 2 ∷ []) underway settled
unfolding process_defaulters ◌>>=◌ settled id
process_defaulters-Settled_example =
    process_defaulters-Settled mock 0 underway settled terms 1 (1 ∷ 3 ∷ 2 ∷ []) refl refl refl
      (refl, (refl, (refl, tt))) refl

next_state : State Balances
next_state = (advance_rosca_round mock 0 underway).1

advance_rosca_round-Advanced_example : Advanced 0 underway (underway-IsActive 0) next_state
unfolding advance_rosca_round ◌>>=◌ next_state
advance_rosca_round-Advanced_example =
    advance_rosca_round-Advanced mock mock-Clears 0 underway next_state (underway-IsActive 0) refl

-- Member 3 pays at time 60, after one round that has gone by.
paid_late : State Balances
paid_late = (contribute_to_rosca mock 0 (some 3) (at_time 60 underway)).1

contribute_to_rosca-Ended_example : Ended mock 0 paid_late
unfolding contribute_to_rosca ◌>>=◌ paid_late id
contribute_to_rosca-Ended_example =
    contribute_to_rosca-Ended mock mock-Clears 0 (some 3) (at_time 60 underway) paid_late
      (underway-IsActive 60) (inl refl) refl

-- The circle is over, and 2 has 130 left.
over : State Balances
over = at_time 151 (record underway {
  completed_roscas = insert genesis.completed_roscas 0 true;
  active_roscas = insert genesis.active_roscas 0 none;
})

claimed : State Balances
claimed = (claim_security_deposit mock 0 (some 2) usdt over).1

claim_security_deposit_lem_example :
    (claim_security_deposit mock 0 (some 2) usdt over ≡ (ok tt, claimed))
    ↔ Claimed mock 0 (some 2) usdt over claimed
claim_security_deposit_lem_example = claim_security_deposit_lem mock 0 (some 2) over usdt claimed

-- Member 3 pays in time.
paid_early : State Balances
paid_early = (contribute_to_rosca mock 0 (some 3) (at_time 10 underway)).1

three-MayPay :
    MayPay mock 0 (some 3) 3 paid_early.ledger (at_time 10 underway) (underway-IsActive 10)
unfolding contribute_to_rosca ◌>>=◌ paid_early id underway-IsActive
three-MayPay = record {
  signed = refl;
  member = refl;
  unlike = refl;
  new = refl;
  in_time = refl;
  paid = refl;
}

contribute_to_rosca-succeeds_example :
    (s' : State Balances) × (contribute_to_rosca mock 0 (some 3) (at_time 10 underway)
      ≡ (ok tt, s'))
    × Spares paid_early.ledger (at_time 10 underway) s'
    × Ended mock 0 s'
    × ((0 + 1 ≡ 2)
        ⊎ (s'
            ≡ contributed 0 3 1 terms.contribution_amount paid_early.ledger (at_time 10 underway)))
unfolding underway-IsActive
contribute_to_rosca-succeeds_example =
    contribute_to_rosca-succeeds mock mock-Clears 0 (some 3) 3 paid_early.ledger
      (at_time 10 underway) (underway-IsActive 10) (inl refl) three-MayPay (omega arith)
      (omega arith)
