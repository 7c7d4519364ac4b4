-- ===== src/Rosca/Witnesses/Backing/Calls.antt =====
-- The calls that go through where deposits are covered, at circles that are written out.
use dotcircles.Prelude.{
  List, [], arith, contains, false, insert, is_some, none, refl, some, true, ℕ, ◌++◌, ◌∷◌, ◌≡◌,
}
use dotcircles.Rosca.Witnesses.{drop_all}
use dotcircles.Rosca.Active.{manually_end_rosca}
use dotcircles.Rosca.Active.Solvent.{manually_end_rosca-succeeds}
use dotcircles.Rosca.Backing.{Covered-raise, Entry, total}
use dotcircles.Rosca.Backing.Flow.{Able}
use dotcircles.Rosca.Deposits.{claim_security_deposit}
use dotcircles.Rosca.Deposits.Solvent.{claim_security_deposit-succeeds}
use dotcircles.Rosca.Effects.{ok}
use dotcircles.Rosca.Rounds.Invariant.{IsActive, IsOver}
use dotcircles.Rosca.Storage.{State}
use dotcircles.Rosca.Tests.{terms, unused}
use dotcircles.Rosca.Types.{id, usdt}
use dotcircles.Rosca.Witnesses.Backing.Sparing.{
  AnyLedger, Small, kept_aside, spare_notes, sparing, sparing-Guarded, sparing-Solvent,
}

two_seats :
    (a : ℕ)
    → is_some {A = ℕ} (insert (insert (λ a. none) 1 (some 0)) 2 (some 1) a) ≡ true
    → contains (1 ∷ 2 ∷ []) a ≡ true
two_seats a h = ground (arith, h)

-- 2 has paid a deposit of 120 into the account of the circle 0, and 9 its least balance.
abbrev pub ledger_of_two : List Entry
ledger_of_two =
    record { asset = 1984; from = 2; to = 1000; amount = 120 }
    ∷ record { asset = 1984; from = 9; to = 1000; amount = 70 }
    ∷ []

-- A circle of 1 and 2, past its final cutoff, of whose rounds none has been settled.
abbrev behind : State (List Entry)
behind = record (unused ledger_of_two) {
  next_rosca_id = 1;
  active_roscas = insert (λ r. none) 0 (some (terms));
  rosca_participants = insert (λ r a. none) 0 (insert (insert (λ a. none) 1 (some 0)) 2 (some 1));
  rosca_security_deposits = insert (λ r a. none) 0 (insert (λ a. none) 2 (some 120));
  active_rosca_participants_order = insert (λ r. none) 0 (some (1 ∷ 2 ∷ []));
  next_pay_by_timestamp = insert (λ r. none) 0 (some 50);
  final_pay_by_timestamp = insert (λ r. none) 0 (some 100);
  eligible_claimant = insert (λ r. none) 0 (some 1);
  now = 101;
}

behind-IsActive : IsActive 0 behind
behind-IsActive = record {
  details = terms;
  claimant = 1;
  rest = 2 ∷ [];
  next = 50;
  final = 100;
  left = 1;
  active = refl;
  running = refl;
  gone = refl;
  eligible = refl;
  ordered = refl;
  distinct = (refl, (refl, tt));
  next_at = refl;
  final_at = refl;
  positive = omega arith;
  pays = omega arith;
  rounds = refl;
  few = omega arith;
  counted = refl;
  bounded = omega arith;
  members = two_seats;
}

pub none_held : (xs : List ℕ) → total (λ a. none) xs ≡ 0
none_held [] = refl
none_held (x ∷ xs) = omega (arith, none_held xs)

behind-Able : Able sparing spare_notes 0 1984 AnyLedger behind
unfolding id spare_notes
behind-Able = (
  (
    omega arith,
    λ r e. cc,
    λ r e. cc,
    Covered-raise (λ a. none) 2 (some 120) 120 70 70 (λ xs d. omega (arith, none_held xs))
        (omega arith),
  ),
  tt,
)

manually_end_rosca-succeeds_example :
    (s' : State (List Entry)) × (manually_end_rosca sparing 0 (some 5) behind ≡ (ok tt, s'))
    × IsOver 0 s'
unfolding behind-IsActive
manually_end_rosca-succeeds_example =
    manually_end_rosca-succeeds sparing drop_all spare_notes 0 1984 sparing-Guarded Small AnyLedger
      sparing-Solvent (some 5) 5 behind behind-IsActive refl (omega arith) (omega arith)
      (omega arith, (omega arith, tt)) behind-Able

-- Member 2 leaves before the start, with the deposit of 120.
abbrev waiting : State (List Entry)
waiting = record (unused ledger_of_two) {
  next_rosca_id = 1;
  pending_rosca_details = insert (λ r. none) 0 (some (terms));
  pending_rosca_participants_order = insert (λ r. none) 0 (some (some 1 ∷ some 2 ∷ none ∷ []));
  rosca_participants = insert (λ r a. none) 0 (insert (insert (λ a. none) 1 (some 0)) 2 (some 1));
  rosca_participants_count = insert (λ r. none) 0 (some 2);
  rosca_invited_preverified_participants = insert (λ r a. false) 0 (λ a. true);
  rosca_security_deposits = insert (λ r a. none) 0 (insert (λ a. none) 2 (some 120));
}

-- The circle is over, after one missed round has been paid for out of the deposit of 120: the 20 that
-- are left come back.
abbrev over_with_rest : State (List Entry)
over_with_rest = record behind {
  ledger = record { asset = 1984; from = 1000; to = 1; amount = 100 } ∷ ledger_of_two;
  active_roscas = λ r. none;
  completed_roscas = insert (λ r. false) 0 true;
  rosca_security_deposits = insert (λ r a. none) 0 (insert (λ a. none) 2 (some 20));
}

over_with_rest-Able : Able sparing spare_notes 0 1984 AnyLedger over_with_rest
unfolding id spare_notes
over_with_rest-Able = (
  (
    omega arith,
    λ r e. cc,
    λ r e. cc,
    Covered-raise (λ a. none) 2 (some 20) 20 170 170 (λ xs d. omega (arith, none_held xs))
        (omega arith),
  ),
  tt,
)

claim_security_deposit-succeeds_example :
    (s' : State (List Entry)) × (claim_security_deposit sparing 0 (some 2) usdt over_with_rest
      ≡ (ok tt, s'))
    × (s'.rosca_security_deposits 0 2 ≡ none)
    × (s'.ledger ++ (kept_aside ∷ [])
        ≡ record { asset = 1984; from = 1000; to = 2; amount = 20 } ∷ over_with_rest.ledger
          ++ (kept_aside ∷ []))
    × Able sparing spare_notes 0 1984 AnyLedger s'
unfolding id spare_notes
claim_security_deposit-succeeds_example =
    claim_security_deposit-succeeds sparing spare_notes 0 usdt sparing-Guarded Small AnyLedger
      sparing-Solvent (some 2) 2 100 20 over_with_rest refl refl (omega arith) refl refl
      (omega arith) (omega arith) over_with_rest-Able
