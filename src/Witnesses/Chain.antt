-- ===== src/Witnesses/Chain.antt =====
-- The theorems on the fuzzer and on the genesis, at a chain that counts and at a small genesis.
use dotcircles.Prelude.{
  [], arith, contains, get_elem?, map, none, refl, some, true, ℕ, ◌+◌, ◌↔◌, ◌∷◌, ◌≡◌, ◌≤◌,
}
use dotcircles.Fuzzer.{Account, Fuzzing, Mock, called, check_balances, fuzz, initializing, skipping}
use dotcircles.Fuzzer.Blocks.{IsSteady, fuzz-IsSteady}
use dotcircles.Fuzzer.Checks.{IsCovered, balances, check_balances_lem}
use dotcircles.Genesis.{Keys, account_of, testnet_genesis}
use dotcircles.Genesis.Consistent.{IsConsistent, testnet_genesis-IsConsistent}

-- A chain whose state is a number, and on which every call weighs its number.
abbrev counting : Mock
counting = record {
  X = ℕ;
  Call = ℕ;
  genesis = 0;
  initial_timestamp = 0;
  max_time_for_block = 6;
  weight_ref_time_per_second = 1000;
  hash = λ h. h.number;
  finalize_block = λ x. some (record { number = x; parent = none; slot = none }, x);
  initialize_block = λ h x. some h.number;
  set_timestamp = λ t x. some x;
  set_validation_data = λ d x. some x;
  dispatch_weight = λ c x. c;
  dispatch = λ a c x. some (x + c);
  duration = λ a c x. 1;
  as_secs = λ t. t;
  try_state = λ n x. some x;
  accounts = λ x. covered ∷ [];
  total_issuance = λ x. 70;
  integrity_test = λ x. some x;
}
  where
    covered : Account
    covered = record {
      consumers = 1;
      providers = 1;
      free = 50;
      reserved = 20;
      frozen = 9;
      locks = 4 ∷ 9 ∷ [];
      holds = 8 ∷ 12 ∷ [];
    }

-- Two blocks; the last call is too heavy for the second.
fuzzed : Fuzzing counting
fuzzed = record {
  current_block = 3;
  current_weight = 2300;
  elapsed = 1;
  externalities = 1504;
  printed = skipping ∷ called 2 1500 ∷ initializing 3 ∷ called 1 900 ∷ initializing 1 ∷ [];
}

fuzz-IsSteady_example : IsSteady fuzzed
unfolding fuzz fuzzed
fuzz-IsSteady_example =
    fuzz-IsSteady counting (omega arith) ((none, 6, 900) ∷ (some 2, 7, 1500) ∷ (none, 1, 800) ∷ [])
      fuzzed refl

check_balances_lem_example : (check_balances counting 5 ≡ some tt) ↔ (
    (70 ≤ balances (counting.accounts 5))
    × ((i : ℕ) (acc : Account) → get_elem? (counting.accounts 5) i ≡ some acc → IsCovered acc))
check_balances_lem_example = check_balances_lem counting 5 (omega arith)

-- Keys that are the same for every seed.
abbrev same_keys : Keys
same_keys = record { AuraId = ℕ; account_of_seed = λ s. 1; aura_of_seed = λ s. 11; xcm_version = 4 }

within_two :
    (a : ℕ)
    → contains (map (account_of {A = ℕ}) ((1, 11) ∷ [])) a ≡ true
    → contains (1 ∷ 2 ∷ []) a ≡ true
within_two a h = ground arith

testnet_genesis-IsConsistent_example :
    IsConsistent (testnet_genesis same_keys ((1, 11) ∷ []) (1 ∷ 2 ∷ []) 1 1000)
testnet_genesis-IsConsistent_example =
    testnet_genesis-IsConsistent same_keys ((1, 11) ∷ []) (1 ∷ 2 ∷ []) 1 1000 within_two
