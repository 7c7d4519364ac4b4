-- ===== src/Fuzzer.antt =====
-- The fuzzer of the runtime: template-fuzzer/src/main.rs.
-- `none` is a panic: of an `unwrap`, an assertion, or an addition that overflows.
pub mod Blocks
pub mod Checks
use dotcircles.Prelude.{
  Bool, List, Option, [], checked_add, false, if◌then◌else◌, leb, ltb, none, not, saturating_add,
  some, true, u32_mod, u64_mod, ℕ, ◌%◌, ◌&&◌, ◌*◌, ◌+◌, ◌/◌, ◌==◌, ◌∷◌,
}
use dotcircles.Currency.{u128_mod}

infixl 20 ◌>>=◌
abbrev pub ◌>>=◌ : {A B : Type 0} → Option A → (A → Option B) → Option B
none >>= f = none
some a >>= f = f a

infixl 20 ◌>>◌
abbrev pub ◌>>◌ : {A B : Type 0} → Option A → Option B → Option B
a >> b = a >>= λ _. b

-- `assert!(b)`
abbrev pub assert : Bool → Option {0} Unit
assert true = some tt
assert false = none

-- `Header::new(number, .., parent_hash, digest)`: the hash is that of the header before, or the
-- default; the digest has the slot, or nothing.
pub record Header : Type 0 where
  pub number : ℕ
  pub parent : Option ℕ
  pub slot : Option ℕ

-- The data of `set_validation_data` that the fuzzer fills in: the header before, the block's number
-- for the relay chain, and, for the state of the relay chain, the slot there, the parachain and the
-- header that is included.
pub record ValidationData : Type 0 where
  pub parent_head : Header
  pub relay_parent_number : ℕ
  pub max_pov_size : ℕ
  pub current_slot : ℕ
  pub para_id : ℕ
  pub included_para_head : Header

-- An account in the storage of the chain, with its locks and its holds.
pub record Account : Type 0 where
  pub consumers : ℕ
  pub providers : ℕ
  pub free : ℕ
  pub reserved : ℕ
  pub frozen : ℕ
  pub locks : List ℕ
  pub holds : List ℕ

-- What the packages of the runtime and of the fuzzer do: `X` is the state of the mock chain.
pub record Mock : Type 1 where
  pub X : Type 0
  pub Call : Type 0
  pub genesis : X
  pub initial_timestamp : ℕ
  pub max_time_for_block : ℕ
  pub weight_ref_time_per_second : ℕ
  pub hash : Header → ℕ
  pub finalize_block : X → Option (Header × X)
  pub initialize_block : Header → X → Option X
  pub set_timestamp : ℕ → X → Option X
  pub set_validation_data : ValidationData → X → Option X
  pub dispatch_weight : Call → X → ℕ
  pub dispatch : (account : ℕ) → Call → X → Option X
  pub duration : (account : ℕ) → Call → X → ℕ
  pub as_secs : ℕ → ℕ
  pub try_state : ℕ → X → Option X
  pub accounts : X → List Account
  pub total_issuance : X → ℕ
  pub integrity_test : X → Option X

-- `SLOT_DURATION` of the runtime.
abbrev slot_duration : ℕ
slot_duration = 6000

-- What the fuzzer prints of the blocks and the calls of a run. A call is printed with its account; its weight stands for it.
pub data Line : Type 0 where
  initializing : (block : ℕ) → Line
  skipping : Line
  called : (account weight : ℕ) → Line

-- The variables of the loop, the mock chain, and the lines printed, the last one first.
pub record Fuzzing (m : Mock) : Type 0 where
  pub current_block : ℕ
  pub current_weight : ℕ
  pub elapsed : ℕ
  pub externalities : m.X
  pub printed : List Line

-- `.max().unwrap_or_default()` and `.sum()`
abbrev pub max_of : List ℕ → ℕ
max_of [] = 0
max_of (a ∷ rest) = let b = max_of rest in if leb b a then a else b

abbrev pub sum_of : List ℕ → Option ℕ
sum_of [] = some 0
sum_of (a ∷ rest) = sum_of rest >>= λ b. checked_add u128_mod a b

-- The loop over the accounts, with the sums so far.
unfoldable pub count_accounts : List Account → (free reserved : ℕ) → Option (ℕ × ℕ)
count_accounts [] free reserved = some (free, reserved)
count_accounts (acc ∷ rest) free reserved = do
  assert (not (ltb 0 acc.consumers && (acc.providers == 0)))
  counted_free ← checked_add u128_mod free acc.free
  counted_reserved ← checked_add u128_mod reserved acc.reserved
  assert (max_of acc.locks == acc.frozen)
  sum_holds ← sum_of acc.holds
  assert (leb sum_holds acc.reserved)
  count_accounts rest counted_free counted_reserved

module _ (m : Mock) where
  -- `prev_header`
  abbrev close_block : ℕ → m.X → Option (Option Header × m.X)
  close_block next_block x =
      if next_block == 1
      then some (none, x)
      else (do (header, x') ← m.finalize_block x; some (some header, x'))

  abbrev hash_of : Option Header → Option ℕ
  hash_of none = none
  hash_of (some header) = some (m.hash header)

  abbrev head_of : Option Header → Header → Header
  head_of none header = header
  head_of (some prev) header = prev

  -- The closure `start_block`, without the line that it prints.
  abbrev pub open_block : ℕ → m.X → Option m.X
  open_block next_block x = do
    let current_timestamp = m.initial_timestamp + next_block * slot_duration
    let slot =
        if current_timestamp == m.initial_timestamp
        then none
        else some (current_timestamp / slot_duration)
    (prev_header, closed) ← close_block next_block x
    number ← checked_add u32_mod next_block 1
    let header : Header = record { number = number; parent = hash_of prev_header; slot = slot }
    opened ← m.initialize_block header closed
    timed ← m.set_timestamp current_timestamp opened
    m.set_validation_data
        (record {
          parent_head = head_of prev_header header;
          relay_parent_number = next_block;
          max_pov_size = 1000;
          current_slot = 2 * current_timestamp / slot_duration;
          para_id = 100;
          included_para_head = head_of prev_header header;
        })
        timed

  unfoldable pub start_block : (block lapse : ℕ) → Fuzzing m → Option (Fuzzing m)
  start_block block lapse f = do
    next_block ← checked_add u32_mod block lapse
    x ← open_block next_block f.externalities
    some (record f { externalities = x; printed = initializing next_block ∷ f.printed })

  -- `if let Some(lapse) = maybe_lapse`
  unfoldable pub next_block : Option ℕ → Fuzzing m → Option (Fuzzing m)
  unfolding start_block
  next_block none f = some f
  next_block (some lapse) f = do
    started ← start_block f.current_block lapse (record f { current_weight = 0; elapsed = 0 })
    number ← checked_add u32_mod started.current_block lapse
    some (record started { current_block = number })

  -- There are five endowed accounts. The weight is counted before the test, also that of a call that
  -- is skipped.
  unfoldable pub call_extrinsic : (origin : ℕ) → m.Call → Fuzzing m → Option (Fuzzing m)
  call_extrinsic origin extrinsic f =
      let weight = m.dispatch_weight extrinsic f.externalities in
      let current_weight = saturating_add u64_mod f.current_weight weight in
      let account = origin % 5 in
      if leb (m.weight_ref_time_per_second * 2) current_weight
      then some (record f { current_weight = current_weight; printed = skipping ∷ f.printed })
      else (do
        x ← m.dispatch account extrinsic f.externalities
        some (record f {
          current_weight = current_weight;
          elapsed = f.elapsed + m.duration account extrinsic f.externalities;
          externalities = x;
          printed = called account weight ∷ f.printed;
        }))

  -- The loop over the extrinsics.
  unfoldable pub run : List (Option ℕ × ℕ × m.Call) → Fuzzing m → Option (Fuzzing m)
  unfolding next_block call_extrinsic
  run [] f = some f
  run ((maybe_lapse, origin, extrinsic) ∷ rest) f = do
    started ← next_block maybe_lapse f
    dispatched ← call_extrinsic origin extrinsic started
    run rest dispatched

  unfoldable pub check_balances : m.X → Option {0} Unit
  unfolding count_accounts
  check_balances x = do
    (free, reserved) ← count_accounts (m.accounts x) 0 0
    counted_issuance ← checked_add u128_mod free reserved
    assert (leb (m.total_issuance x) counted_issuance)

  -- The closure of `ziggy::fuzz!`, from the extrinsics on.
  unfoldable pub fuzz : List (Option ℕ × ℕ × m.Call) → Option (Option (Fuzzing m))
  unfolding run start_block check_balances
  fuzz [] = some none
  fuzz (e ∷ rest) = do
    started ← start_block 1 0 (record {
      current_block = 1;
      current_weight = 0;
      elapsed = 0;
      externalities = m.genesis;
      printed = [];
    })
    ended ← run (e ∷ rest) started
    assert (leb (m.as_secs ended.elapsed) m.max_time_for_block)
    (header, closed) ← m.finalize_block ended.externalities
    tried ← m.try_state ended.current_block closed
    check_balances tried
    x ← m.integrity_test tried
    some (some (record ended { externalities = x }))
