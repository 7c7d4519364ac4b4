-- ===== src/Rosca/Witnesses.antt =====
-- Each theorem at a circle of three accounts, on the runtime of Tests.antt.
mod Rounds
mod World
mod Backing
use dotcircles.Prelude.{
  List, SameItems, [], arith, false, length, none, refl, some, suc, zero, ℕ, ◌↔◌, ◌∷◌, ◌≡◌, ◌≤◌,
}
use dotcircles.Rosca.Deposits.{add_to_security_deposit}
use dotcircles.Rosca.Deposits.Exact.{Added, add_to_security_deposit_lem}
use dotcircles.Rosca.Effects.{ok, panic, ◌>>=◌}
use dotcircles.Rosca.Life.{InLife, Steps, goes_on, joins, starts, stays}
use dotcircles.Rosca.Life.Safety.{create_rosca-InLife}
use dotcircles.Rosca.Pending.{create_rosca, join_rosca, leave_rosca}
use dotcircles.Rosca.Pending.Create.{Created, create}
use dotcircles.Rosca.Pending.Creation.{Accepts, create_rosca-IsPending, create_rosca_panics}
use dotcircles.Rosca.Pending.Exact.{join_rosca_lem, leave_rosca_lem}
use dotcircles.Rosca.Pending.Invariant.{IsPending, join_rosca-IsPending}
use dotcircles.Rosca.Pending.Join.{Joined}
use dotcircles.Rosca.Pending.Leave.{Left}
use dotcircles.Rosca.Pending.Opening.{create_rosca-returns}
use dotcircles.Rosca.Pending.RoundTrip.{Restored, leave_rosca-join_rosca}
use dotcircles.Rosca.Rounds.Invariant.{Clears}
use dotcircles.Rosca.Start.{generate_rounds, others, shuffle_participants, start_rosca}
use dotcircles.Rosca.Start.Announced.{IsAnnounced, generate_rounds-IsAnnounced, recipient_of}
use dotcircles.Rosca.Start.Placing.{shuffle_participants-SameItems}
use dotcircles.Rosca.Start.Starting.{IsUnplayed}
use dotcircles.Rosca.Storage.{State}
use dotcircles.Rosca.Tests.{Balances, drop, genesis, mock, opened, request}
use dotcircles.Rosca.Types.{RoundInfo}
use mathlib.Core.List.{map}

drop_all : (limit : ℕ) (keys : List ℕ) → length keys ≤ limit → drop limit keys ≡ []
drop_all zero [] h = refl
drop_all zero (x ∷ keys) h = elim h [ ]
drop_all (suc limit) [] h = refl
drop_all (suc limit) (x ∷ keys) h = drop_all limit keys (omega arith)

mock-Clears : Clears mock
mock-Clears = drop_all

-- Creation: `opened` is the circle 0 of accounts 1, 2 and 3.

create_rosca-returns_example :
    (create mock (some 1) (request false) none genesis ≡ (ok tt, opened))
    ↔ Created mock (some 1) (request false) none genesis opened
create_rosca-returns_example =
    create_rosca-returns mock (some 1) (request false) none genesis opened

beyond-Accepts : Accepts mock 1 (request false) (some 7) genesis
unfolding create_rosca ◌>>=◌
beyond-Accepts = record {
  pays = omega arith;
  positive = omega arith;
  bounds = omega arith;
  others = refl;
  threshold = omega arith;
  place_fits = omega arith;
  in_time = omega arith;
  bounded = omega arith;
}

create_rosca_panics_example :
    create mock (some 1) (request false) (some 7) genesis ≡ (panic, genesis)
unfolding create_rosca ◌>>=◌
create_rosca_panics_example =
    create_rosca_panics mock (some 1) 1 (request false) (some 7) genesis refl beyond-Accepts
      (omega arith)

opened-IsPending : IsPending 150 0 opened
unfolding create_rosca ◌>>=◌
opened-IsPending =
    create_rosca-IsPending mock (some 1) (request false) none genesis opened refl
      (record { inactive = refl; nobody = λ a. refl })

-- Joining and leaving.

entered : State Balances
entered = (join_rosca mock (some 2) 0 none opened).1

join_rosca_lem_example :
    (join_rosca mock (some 2) 0 none opened ≡ (ok tt, entered))
    ↔ Joined (some 2) 0 none opened entered
join_rosca_lem_example = join_rosca_lem mock (some 2) 0 opened entered none

left : State Balances
left = (leave_rosca mock (some 2) 0 entered).1

leave_rosca_lem_example :
    (leave_rosca mock (some 2) 0 entered ≡ (ok tt, left)) ↔ Left mock (some 2) 0 entered left
leave_rosca_lem_example = leave_rosca_lem mock (some 2) 0 entered left

added : State Balances
added = (add_to_security_deposit mock 0 (some 2) 5 entered).1

add_to_security_deposit_lem_example :
    (add_to_security_deposit mock 0 (some 2) 5 entered ≡ (ok tt, added))
    ↔ Added mock 0 (some 2) 5 entered added
add_to_security_deposit_lem_example = add_to_security_deposit_lem mock 0 (some 2) entered 5 added

entered-IsPending : IsPending 150 0 entered
unfolding create_rosca join_rosca ◌>>=◌ entered
entered-IsPending =
    join_rosca-IsPending mock (some 2) 150 0 opened entered none refl opened-IsPending

leave_rosca-join_rosca_example : Restored mock (some 2) 0 none opened entered left
unfolding create_rosca join_rosca leave_rosca ◌>>=◌ entered left
leave_rosca-join_rosca_example =
    leave_rosca-join_rosca mock (some 2) 0 none opened entered left refl refl

-- The start, by 2, of the circle that 1 and 2 are in.

entered-IsUnplayed : IsUnplayed 0 entered
unfolding create_rosca join_rosca ◌>>=◌ entered
entered-IsUnplayed = record { running = refl; contributors = refl; contributions = refl }

begun_by_two : State Balances
begun_by_two = (start_rosca mock (some 2) 0 entered).1

two_joins : join_rosca mock (some 2) 0 none opened ≡ (ok tt, entered)
unfolding create_rosca join_rosca ◌>>=◌ entered
two_joins = refl

two_starts : start_rosca mock (some 2) 0 entered ≡ (ok tt, begun_by_two)
unfolding create_rosca join_rosca start_rosca ◌>>=◌ entered begun_by_two
two_starts = refl

two-Steps : Steps mock 0 opened begun_by_two
two-Steps =
    goes_on {s₁ = entered} (goes_on {s₁ = opened} stays (joins (some 2) none two_joins))
      (starts (some 2) two_starts)

genesis-IsUnplayed : IsUnplayed 0 genesis
genesis-IsUnplayed = record { running = refl; contributors = refl; contributions = refl }

create_rosca-InLife_example : InLife mock 0 begun_by_two
unfolding create_rosca ◌>>=◌
create_rosca-InLife_example =
    create_rosca-InLife mock mock-Clears (some 1) (request false) none genesis opened begun_by_two
      (record { inactive = refl; nobody = λ a. refl }) genesis-IsUnplayed refl two-Steps

announced : List RoundInfo
announced =
    record { round_number = 1; payment_cutoff = 60; expected_contributors = 2 ∷ []; recipient = 3 }
    ∷ record {
      round_number = 2;
      payment_cutoff = 110;
      expected_contributors = 3 ∷ [];
      recipient = 2;
    }
    ∷ []

generate_rounds-IsAnnounced_example :
    (map recipient_of announced ≡ 3 ∷ 2 ∷ []) × IsAnnounced (2 ∷ 3 ∷ []) 10 50 announced
unfolding generate_rounds ◌>>=◌ announced
generate_rounds-IsAnnounced_example =
    generate_rounds-IsAnnounced mock (2 ∷ 3 ∷ []) 10 50 genesis genesis announced refl

shuffle_participants-SameItems_example :
    (order : List ℕ) × (shuffle_participants mock (1 ∷ 2 ∷ 3 ∷ []) genesis ≡ (ok order, genesis))
    × SameItems order (1 ∷ 2 ∷ 3 ∷ [])
shuffle_participants-SameItems_example =
    shuffle_participants-SameItems mock (1 ∷ 2 ∷ 3 ∷ []) genesis
