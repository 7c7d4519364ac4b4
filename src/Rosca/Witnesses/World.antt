-- ===== src/Rosca/Witnesses/World.antt =====
-- The theorems on all circles together and on the announced rounds, at the circle of 1, 2 and 3.
use dotcircles.Prelude.{List, arith, false, map, none, refl, some, ◌≡◌}
use dotcircles.Rosca.Witnesses.{
  begun_by_two, entered, entered-IsPending, entered-IsUnplayed, mock-Clears, two_joins, two_starts,
}
use dotcircles.Rosca.Effects.{ok, ◌>>=◌}
use dotcircles.Rosca.Elsewhere.{Untouched}
use dotcircles.Rosca.Life.{Steps, goes_on, joins, passes, stays}
use dotcircles.Rosca.Life.Schedule.{Follows, Steps-keep_announced}
use dotcircles.Rosca.Pending.{create_rosca}
use dotcircles.Rosca.Pending.Create.{create}
use dotcircles.Rosca.Start.Calling.{IsAsAnnounced, Told, start_rosca-IsAsAnnounced}
use dotcircles.Rosca.Start.Schedule.{turn_of}
use dotcircles.Rosca.Storage.{State}
use dotcircles.Rosca.Tests.{Balances, genesis, mock, opened, request}
use dotcircles.Rosca.Types.{RoundInfo, usdt}
use dotcircles.Rosca.World.{IsSound, Moves, acts, creates, moves_on, rests}
use dotcircles.Rosca.World.Calm.{AllCalm, IsSound-calm}
use dotcircles.Rosca.World.Others.{Step-Untouched}
use dotcircles.Rosca.World.Soundness.{Moves-IsSound}

genesis-IsSound : IsSound mock genesis
genesis-IsSound j = (
  λ lt. absurd (omega (arith, lt)),
  λ le. record {
    inactive = refl;
    nobody = λ a. refl;
    unopened = refl;
    running = refl;
    contributors = refl;
    contributions = refl;
  },
)

one_creates : create mock (some 1) (request false) none genesis ≡ (ok tt, opened)
unfolding create_rosca ◌>>=◌
one_creates = refl

two-Moves : Moves mock genesis entered
two-Moves =
    moves_on {s₁ = opened}
      (moves_on {s₁ = genesis} rests
        (creates (some 1) (request false) none (omega arith) one_creates))
      (acts 0 (joins (some 2) none two_joins))

Moves-IsSound_example : IsSound mock entered
Moves-IsSound_example = Moves-IsSound mock mock-Clears two-Moves genesis-IsSound

-- Two accounts have places in the circle 0, which can be left, joined and started.
IsSound-calm_example : AllCalm mock mock-Clears 0 (some 2) entered opened none usdt 5
IsSound-calm_example =
    IsSound-calm mock mock-Clears 0 (some 2) entered opened none usdt 5
      (Moves-IsSound mock mock-Clears two-Moves genesis-IsSound)

Step-Untouched_example : Untouched 1 opened entered
Step-Untouched_example =
    Step-Untouched mock 0 1 (λ e. omega (arith, e)) (joins (some 2) none two_joins)

start_rosca-IsAsAnnounced_example :
    (rounds : List RoundInfo) × IsAsAnnounced 0 entered begun_by_two rounds
start_rosca-IsAsAnnounced_example =
    start_rosca-IsAsAnnounced mock (some 2) 150 0 entered begun_by_two entered-IsPending
      entered-IsUnplayed two_starts

begun_later : State Balances
begun_later = record begun_by_two { now = 20; block_number = 3; ledger = genesis.ledger }

begun-Steps : Steps mock 0 begun_by_two begun_later
unfolding begun_later
begun-Steps = goes_on {s₁ = begun_by_two} stays (passes 20 3 genesis.ledger)

Steps-keep_announced_example :
    (rounds : List RoundInfo) × Told 0 rounds entered begun_by_two
    × Follows 0 (map turn_of rounds) begun_later
Steps-keep_announced_example =
    Steps-keep_announced mock mock-Clears (some 2) 150 0 entered begun_by_two begun_later
      entered-IsPending entered-IsUnplayed two_starts begun-Steps
