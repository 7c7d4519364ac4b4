-- ===== src/Rosca/Witnesses/Backing.antt =====
-- The theorems on the cover of deposits, at the circle of 1, 2 and 3 with a ledger that keeps its
-- transfers.
mod Sparing
mod Calls
mod Overdue
use dotcircles.Prelude.{
  List, Option, [], arith, false, if◌then◌else◌, leb, ltb, none, refl, some, ℕ, ◌+◌, ◌∷◌, ◌≡◌, ◌≢◌,
  ◌≤◌,
}
use dotcircles.Rosca.Witnesses.{drop_all}
use dotcircles.Rosca.Active.{manually_end_rosca}
use dotcircles.Rosca.Backing.{Entry, Journal, banked, drawn, total}
use dotcircles.Rosca.Backing.Flow.{Guarded}
use dotcircles.Rosca.Deposits.{add_to_security_deposit}
use dotcircles.Rosca.Effects.{ok, transfer, ◌>>=◌}
use dotcircles.Rosca.Life.{adds, ends, joins, passes, starts}
use dotcircles.Rosca.Pending.{create_rosca, join_rosca}
use dotcircles.Rosca.Pending.Create.{create}
use dotcircles.Rosca.Rounds.Invariant.{Clears}
use dotcircles.Rosca.Start.{start_rosca}
use dotcircles.Rosca.Storage.{Runtime, State, Transfer, moved, refused}
use dotcircles.Rosca.Tests.{drop, request, unused}
use dotcircles.Rosca.Types.{id}
use dotcircles.Rosca.World.{IsBlank, Moves, acts, moves_on, rests}
use dotcircles.Rosca.World.Backing.{SparedMoves, create_rosca-Covered}

-- The key of an account: the pallet's accounts, from 1000 on, have none.
abbrev keyed : Option ℕ → Option ℕ
keyed none = none
keyed (some a) = if ltb a 1000 then some a else none

-- Every account below 10 begins with 10000 of each asset.
abbrev note : ℕ → ℕ → ℕ → ℕ → List Entry → Transfer (List Entry)
note asset from to amount es =
    if leb (drawn asset from es + amount)
      ((if ltb from 10 then 10000 else 0) + banked asset from es)
    then moved (record { asset = asset; from = from; to = to; amount = amount } ∷ es)
    else refused 0

abbrev noting : Runtime
noting = record {
  Origin = Option ℕ;
  ensure_signed = keyed;
  Ledger = List Entry;
  transfer = note;
  max_participants = 150;
  max_invited_participants = 149;
  sub_account = λ rosca_id. 1000 + rosca_id;
  clear_prefix = drop;
  block_hash = λ b. b ∷ [];
  blake2_128 = λ bytes. 7 ∷ bytes;
}

noted :
    (asset from to amount : ℕ) (l l' : List Entry)
    → note asset from to amount l ≡ moved l'
    → l' ≡ record { asset = asset; from = from; to = to; amount = amount } ∷ l
noted asset from to amount l l' h = ground (arith, h)

notes : Journal noting
notes = record { entries = λ l. l; writes = noted }

keyed-small : (o : Option ℕ) (j : ℕ) → keyed o ≢ some (1000 + j)
keyed-small none j h = cc
keyed-small (some a) j h = ground arith

noting-Guarded : (j : ℕ) → Guarded noting j
noting-Guarded j = record { keyless = λ o. keyed-small o j; unshared = λ i e. omega (arith, e) }

noting-Clears : Clears noting
noting-Clears = drop_all

announced : State (List Entry)
announced = (create noting (some 1) (request false) none (unused [])).1

entered : State (List Entry)
entered = (join_rosca noting (some 2) 0 none announced).1

secured : State (List Entry)
secured = (add_to_security_deposit noting 0 (some 2) 120 entered).1

begun : State (List Entry)
begun = (start_rosca noting (some 1) 0 secured).1

overdue : State (List Entry)
overdue = record begun { now = 101; block_number = 2; ledger = begun.ledger }

wound_up : State (List Entry)
wound_up = (manually_end_rosca noting 0 (some 5) overdue).1

-- One of the two rounds is paid for out of the deposit of 120.
runs :
    (wound_up.rosca_security_deposits 0 2 ≡ some 20)
    × (wound_up.default_count 0 1 ≡ 1)
    × (drawn 1984 1000 wound_up.ledger ≡ 100)
    × (banked 1984 1000 wound_up.ledger ≡ 120)
unfolding create_rosca join_rosca add_to_security_deposit start_rosca manually_end_rosca ◌>>=◌
    announced entered secured begun overdue wound_up id
runs = (refl, refl, refl, refl)

one_announces : create noting (some 1) (request false) none (unused []) ≡ (ok tt, announced)
unfolding create_rosca ◌>>=◌ announced
one_announces = refl

two_joins : join_rosca noting (some 2) 0 none announced ≡ (ok tt, entered)
unfolding create_rosca join_rosca ◌>>=◌ announced entered
two_joins = refl

two_secures : add_to_security_deposit noting 0 (some 2) 120 entered ≡ (ok tt, secured)
unfolding create_rosca join_rosca add_to_security_deposit ◌>>=◌ announced entered secured
two_secures = refl

one_begins : start_rosca noting (some 1) 0 secured ≡ (ok tt, begun)
unfolding create_rosca join_rosca add_to_security_deposit start_rosca ◌>>=◌ announced entered
    secured begun
one_begins = refl

five_ends : manually_end_rosca noting 0 (some 5) overdue ≡ (ok tt, wound_up)
unfolding create_rosca join_rosca add_to_security_deposit start_rosca manually_end_rosca ◌>>=◌
    announced entered secured begun overdue wound_up id
five_ends = refl

to_overdue : Moves noting announced overdue
unfolding overdue
to_overdue =
    moves_on {s₁ = begun}
      (moves_on {s₁ = secured}
        (moves_on {s₁ = entered}
          (moves_on {s₁ = announced} rests (acts 0 (joins (some 2) none two_joins)))
          (acts 0 (adds (some 2) 120 two_secures)))
        (acts 0 (starts (some 1) one_begins)))
      (acts 0 (passes 101 2 begun.ledger))

to_end : Moves noting announced wound_up
to_end = moves_on {s₁ = overdue} to_overdue (acts 0 (ends (some 5) five_ends))

unused-IsBlank : IsBlank 0 (unused {L = List Entry} [])
unused-IsBlank = record {
  inactive = refl;
  nobody = λ a. refl;
  unopened = refl;
  running = refl;
  contributors = refl;
  contributions = refl;
}

to_overdue-Spared : SparedMoves noting notes 0 1984 to_overdue
unfolding to_overdue overdue
to_overdue-Spared = ((((tt, tt), tt), tt), (omega arith, omega arith))

to_end-Spared : SparedMoves noting notes 0 1984 to_end
unfolding to_end
to_end-Spared = (to_overdue-Spared, tt)

create_rosca-Covered_example :
    total (wound_up.rosca_security_deposits 0) (1 ∷ 2 ∷ []) + drawn 1984 1000 wound_up.ledger
    ≤ banked 1984 1000 wound_up.ledger
unfolding notes id
create_rosca-Covered_example =
    create_rosca-Covered noting notes (some 1) (request false) none (unused []) announced wound_up
      (noting-Guarded 0) (omega arith) unused-IsBlank (λ a. refl) (omega arith) one_announces to_end
      to_end-Spared (1 ∷ 2 ∷ []) (refl, (refl, tt))
