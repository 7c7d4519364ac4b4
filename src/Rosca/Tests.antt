-- ===== src/Rosca/Tests.antt =====
-- A runtime on which the calls run, as in the pallet's mock.rs: 150 participants, 149 invited.
use dotcircles.Prelude.{
  Bool, List, Option, [], false, if◌then◌else◌, insert, insert₂, leb, ltb, none, refl, some, suc,
  zero, ℕ, ◌+◌, ◌-◌, ◌==◌, ◌∷◌, ◌≡◌,
}
use dotcircles.Rosca.Active.{contribute_to_rosca, manually_end_rosca}
use dotcircles.Rosca.Effects.{ok, ◌>>=◌}
use dotcircles.Rosca.Pending.{create_rosca, join_rosca}
use dotcircles.Rosca.Pending.Create.{Request, create}
use dotcircles.Rosca.Start.{start_rosca}
use dotcircles.Rosca.Storage.{Runtime, State, Transfer, moved, refused}
use dotcircles.Rosca.Types.{RoscaDetails, id, usdt}

-- Balances by asset and account.
abbrev pub Balances : Type 0
Balances = ℕ → ℕ → ℕ

abbrev pub pay : ℕ → ℕ → ℕ → ℕ → Balances → Transfer Balances
pay asset from to amount l =
    if leb amount (l asset from)
    then (let less : Balances = insert₂ l asset from (l asset from - amount) in
        moved (insert₂ less asset to (less asset to + amount)))
    else refused 0

abbrev pub drop : ℕ → List ℕ → List ℕ
drop zero xs = xs
drop (suc n) [] = []
drop (suc n) (x ∷ xs) = drop n xs

abbrev pub mock : Runtime
mock = record {
  Origin = Option ℕ;
  ensure_signed = λ o. o;
  Ledger = Balances;
  transfer = pay;
  max_participants = 150;
  max_invited_participants = 149;
  sub_account = λ rosca_id. 1000 + rosca_id;
  clear_prefix = drop;
  block_hash = λ b. b ∷ [];
  blake2_128 = λ bytes. 7 ∷ bytes;
}

-- Nothing stored yet.
abbrev pub unused : {L : Type 0} → L → State L
unused l = record {
  next_rosca_id = 0;
  active_roscas = λ r. none;
  completed_roscas = λ r. false;
  rosca_participants = λ r a. none;
  rosca_invited_preverified_participants = λ r a. false;
  rosca_participants_count = λ r. none;
  rosca_security_deposits = λ r a. none;
  pending_rosca_participants_order = λ r. none;
  active_rosca_participants_order = λ r. none;
  pending_rosca_details = λ r. none;
  next_pay_by_timestamp = λ r. none;
  final_pay_by_timestamp = λ r. none;
  eligible_claimant = λ r. none;
  rosca_accounts = λ r. none;
  current_contributors = λ r. [];
  current_contribution_count = λ r. 0;
  default_count = λ r a. 0;
  now = 0;
  block_number = 1;
  ledger = l;
  events = [];
}

-- Every account below 10 holds 10000 of each asset.
abbrev pub genesis : State Balances
genesis = unused (λ asset a. if ltb a 10 then 10000 else 0)

abbrev pub request : Bool → Request
request random = record {
  random_order = random;
  invited = 3 ∷ 2 ∷ 3 ∷ [];
  threshold = 2;
  amount = 100;
  asset = usdt;
  frequency = 50;
  start_by = 40;
  name = [];
}

abbrev pub at_time : ℕ → State Balances → State Balances
at_time t s = record s { now = t }

-- The circle of 1, 2 and 3, joined by all.
abbrev pub opened : State Balances
opened = (create mock (some 1) (request false) none genesis).1

abbrev pub joined : State Balances
joined = (join_rosca mock (some 3) 0 (some 2) (join_rosca mock (some 2) 0 none opened).1).1

abbrev pub started : State Balances
started = (start_rosca mock (some 2) 0 joined).1

runs :
    ((create mock (some 1) (request false) none genesis).0 ≡ ok tt)
    × (joined.rosca_participants_count 0 ≡ some 3)
    × (joined.pending_rosca_participants_order 0 ≡ some (some 1 ∷ some 2 ∷ some 3 ∷ []))
unfolding create_rosca join_rosca ◌>>=◌
runs = (refl, refl, refl)

runs2 :
    ((start_rosca mock (some 2) 0 joined).0 ≡ ok tt)
    × (started.active_rosca_participants_order 0 ≡ some (1 ∷ 3 ∷ 2 ∷ []))
    × (started.final_pay_by_timestamp 0 ≡ some 150)
unfolding create_rosca join_rosca start_rosca ◌>>=◌
runs2 = (refl, refl, refl)

paid : State Balances
paid = (contribute_to_rosca mock 0 (some 3) (contribute_to_rosca mock 0 (some 2) started).1).1

runs3 :
    (paid.ledger 1984 1 ≡ 10200)
    × (paid.eligible_claimant 0 ≡ some 2)
    × (paid.next_pay_by_timestamp 0 ≡ some 100)
unfolding create_rosca join_rosca start_rosca contribute_to_rosca ◌>>=◌ paid id
runs3 = (refl, refl, refl)

-- Member 2 pays at time 60, in the second round, in which 2 is the claimant.
pays_self :
    (contribute_to_rosca mock 0 (some 2) (at_time 60 started)).1.current_contributors 0 ≡ 2 ∷ []
unfolding create_rosca join_rosca start_rosca contribute_to_rosca ◌>>=◌
pays_self = refl

ended : (manually_end_rosca mock 0 (some 9) (at_time 151 started)).0 ≡ ok tt
unfolding create_rosca join_rosca start_rosca manually_end_rosca ◌>>=◌
ended = refl

-- The same circle in its first round, written out: the claimant is 1, and 2 and 3 are to pay.
abbrev pub terms : RoscaDetails
terms = record {
  random_order = false;
  number_of_participants = 3;
  minimum_participant_threshold = 2;
  contribution_amount = 100;
  payment_asset = usdt;
  contribution_frequency = 50;
  start_by_timestamp = 40;
  name = [];
}

abbrev pub underway : State Balances
underway = record genesis {
  active_roscas = insert genesis.active_roscas 0 (some terms);
  rosca_participants =
      insert₂ (insert₂ (insert₂ genesis.rosca_participants 0 1 (some 0)) 0 2 (some 1)) 0 3 (some 2);
  rosca_security_deposits = insert₂ genesis.rosca_security_deposits 0 2 (some 130);
  active_rosca_participants_order =
      insert genesis.active_rosca_participants_order 0 (some (1 ∷ 3 ∷ 2 ∷ []));
  eligible_claimant = insert genesis.eligible_claimant 0 (some 1);
  next_pay_by_timestamp = insert genesis.next_pay_by_timestamp 0 (some 50);
  final_pay_by_timestamp = insert genesis.final_pay_by_timestamp 0 (some 150);
  ledger = λ asset a. if ltb a 10 then 10000 else (if a == 1000 then 130 else 0);
}
