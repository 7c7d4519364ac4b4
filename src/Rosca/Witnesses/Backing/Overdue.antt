-- ===== src/Rosca/Witnesses/Backing/Overdue.antt =====
-- A contribution after the cutoff, at a circle that is written out.
use dotcircles.Prelude.{
  List, [], arith, contains, inl, insert, is_some, none, refl, some, true, ℕ, ◌+◌, ◌∷◌, ◌≡◌, ◌≢◌,
  ◌≤◌,
}
use dotcircles.Rosca.Witnesses.{drop_all}
use dotcircles.Rosca.Active.{contribute_to_rosca}
use dotcircles.Rosca.Active.Contribute.{Ended}
use dotcircles.Rosca.Active.Overdue.{MayPayLate, contribute_to_rosca-catches_up}
use dotcircles.Rosca.Backing.{Covered-raise, Entry, banked, drawn}
use dotcircles.Rosca.Backing.Flow.{Able}
use dotcircles.Rosca.Effects.{ok, ◌>>=◌}
use dotcircles.Rosca.Rounds.Invariant.{IsActive}
use dotcircles.Rosca.Rounds.Wealth.{Affords}
use dotcircles.Rosca.Storage.{State, moved}
use dotcircles.Rosca.Tests.{terms, unused}
use dotcircles.Rosca.Types.{id}
use dotcircles.Rosca.Witnesses.Backing.Calls.{ledger_of_two, none_held}
use dotcircles.Rosca.Witnesses.Backing.Sparing.{
  AnyLedger, Small, spare_note, spare_notes, spare_pays, spared, sparing, sparing-Guarded,
  sparing-Solvent,
}

three_seats :
    (a : ℕ)
    → is_some {A = ℕ} (insert (insert (insert (λ a. none) 1 (some 0)) 2 (some 1)) 3 (some 2) a)
      ≡ true
    → contains (1 ∷ 2 ∷ 3 ∷ []) a ≡ true
three_seats a h = ground (arith, h)

-- The round of 1, which ended at 50, is missed by 2 and 3; 2 has a deposit of 120.
abbrev missed : State (List Entry)
missed = record (unused ledger_of_two) {
  next_rosca_id = 1;
  active_roscas = insert (λ r. none) 0 (some (terms));
  rosca_participants =
      insert (λ r a. none) 0
        (insert (insert (insert (λ a. none) 1 (some 0)) 2 (some 1)) 3 (some 2));
  rosca_security_deposits = insert (λ r a. none) 0 (insert (λ a. none) 2 (some 120));
  active_rosca_participants_order = insert (λ r. none) 0 (some (1 ∷ 2 ∷ 3 ∷ []));
  next_pay_by_timestamp = insert (λ r. none) 0 (some 50);
  final_pay_by_timestamp = insert (λ r. none) 0 (some 150);
  eligible_claimant = insert (λ r. none) 0 (some 1);
  now = 60;
}

missed-IsActive : IsActive 0 missed
missed-IsActive = record {
  details = terms;
  claimant = 1;
  rest = 2 ∷ 3 ∷ [];
  next = 50;
  final = 150;
  left = 2;
  active = refl;
  running = refl;
  gone = refl;
  eligible = refl;
  ordered = refl;
  distinct = (refl, (refl, (refl, tt)));
  next_at = refl;
  final_at = refl;
  positive = omega arith;
  pays = omega arith;
  rounds = refl;
  few = omega arith;
  counted = refl;
  bounded = omega arith;
  members = three_seats;
}

missed-Able : Able sparing spare_notes 0 1984 AnyLedger missed
unfolding id spare_notes
missed-Able = (
  (
    omega arith,
    λ r e. cc,
    λ r e. cc,
    Covered-raise (λ a. none) 2 (some 120) 120 70 70 (λ xs d. omega (arith, none_held xs))
        (omega arith),
  ),
  tt,
)

-- What 2 began with and has been paid, and has not spent, covers a contribution.
abbrev Provided : List Entry → Type 0
Provided l = drawn 1984 2 l + 100 + 70 ≤ 10000 + banked 1984 2 l

unspent :
    (other from to sum : ℕ) (l l' : List Entry)
    → from ≢ 2
    → spare_note other from to sum l ≡ moved l'
    → Provided l
    → Provided l'
unspent other from to sum l l' ne h w = rw (spared other from to sum l l' h) (ground (arith, ne, w))

two-Affords : Affords sparing 2 1984 100 Small Provided
two-Affords = record { pays = λ to l small w. spare_pays 2 to 100 l small w; stays = unspent }

two-MayPayLate : MayPayLate sparing 0 (some 2) 2 Small Provided missed missed-IsActive
unfolding missed-IsActive id
two-MayPayLate = record {
  signed = refl;
  member = refl;
  unlike = refl;
  new = refl;
  affords = two-Affords;
  wealth = omega arith;
}

-- The first round is settled, and 2 pays 3, who is the claimant of the second.
caught_up :
    ((contribute_to_rosca sparing 0 (some 2) missed).1.eligible_claimant 0 ≡ some 3)
    × (banked 1984 3 (contribute_to_rosca sparing 0 (some 2) missed).1.ledger ≡ 100)
unfolding contribute_to_rosca ◌>>=◌ id
caught_up = (refl, refl)

contribute_to_rosca-catches_up_example :
    (s' : State (List Entry)) × (contribute_to_rosca sparing 0 (some 2) missed ≡ (ok tt, s'))
    × Ended sparing 0 s'
unfolding missed-IsActive
contribute_to_rosca-catches_up_example =
    contribute_to_rosca-catches_up sparing drop_all spare_notes 0 1984 sparing-Guarded Small
      AnyLedger sparing-Solvent (some 2) 2 Provided missed missed-IsActive (inl refl) two-MayPayLate
      (omega arith) (omega arith) (omega arith, (omega arith, (omega arith, tt))) missed-Able
