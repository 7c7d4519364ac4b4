-- ===== src/Genesis.antt =====
-- The chain specifications of the node: node/src/chain_spec.rs.
use dotcircles.Prelude.{Bool, List, Option, [], map, none, some, true, ℕ, ◌*◌, ◌^◌, ◌∷◌}
use dotcircles.Currency.{existential_deposit}
use Prim.Native.String.{String}
pub mod Consistent

-- What other packages give: the accounts and the keys of collators, which are made from seeds, and
-- the version of XCM. An account is a number.
pub record Keys : Type 1 where
  pub AuraId : Type 0
  pub account_of_seed : String → ℕ
  pub aura_of_seed : String → AuraId
  pub xcm_version : ℕ

-- `get_account_id_from_seed` and `get_collator_keys_from_seed`
module _ (k : Keys) where
  abbrev get_account_id_from_seed : String → ℕ
  get_account_id_from_seed seed = k.account_of_seed seed

  abbrev get_collator_keys_from_seed : String → k.AuraId
  get_collator_keys_from_seed seed = k.aura_of_seed seed

pub record SessionKeys (k : Keys) : Type 0 where
  pub aura : k.AuraId

pub record AssetInfo : Type 0 where
  pub asset : ℕ
  pub owner : ℕ
  pub is_sufficient : Bool
  pub min_balance : ℕ

pub record Metadata : Type 0 where
  pub asset : ℕ
  pub name : String
  pub symbol : String
  pub decimals : ℕ

-- The object that `testnet_genesis` answers, field by field.
pub record Genesis (k : Keys) : Type 0 where
  pub balances : List (ℕ × ℕ)
  pub parachain_id : ℕ
  pub invulnerables : List ℕ
  pub candidacy_bond : ℕ
  pub keys : List (ℕ × ℕ × SessionKeys k)
  pub safe_xcm_version : Option ℕ
  pub sudo_key : Option ℕ
  pub assets : List AssetInfo
  pub metadata : List Metadata
  pub accounts : List (ℕ × ℕ × ℕ)

-- A value of the properties.
pub data Property : Type 0 where
  text : String → Property
  numeral : ℕ → Property

pub data ChainType : Type 0 where
  development local : ChainType

pub record ChainSpec (k : Keys) : Type 0 where
  -- the runtime's code
  pub code : List ℕ
  pub relay_chain : String
  pub para_id : ℕ
  pub name : String
  pub id : String
  pub chain_type : ChainType
  pub genesis : Genesis k
  pub protocol_id : Option String
  pub properties : Option (List (String × Property))

abbrev pub account_of : {A : Type 0} → ℕ × A → ℕ
account_of (acc, aura) = acc

-- `(k, 1u64 << 60)`
abbrev pub endowment : ℕ → ℕ × ℕ
endowment a = (a, 2 ^ 60)

module _ (k : Keys) where
  abbrev template_session_keys : k.AuraId → SessionKeys k
  template_session_keys keys = record { aura = keys }

  abbrev pub session_of : ℕ × k.AuraId → ℕ × ℕ × SessionKeys k
  session_of (acc, aura) = (acc, acc, template_session_keys aura)

  unfoldable pub testnet_genesis :
      List (ℕ × k.AuraId) → (endowed_accounts : List ℕ) (root id : ℕ) → Genesis k
  testnet_genesis invulnerables endowed_accounts root id = record {
    balances = map endowment endowed_accounts;
    parachain_id = id;
    invulnerables = map account_of invulnerables;
    candidacy_bond = existential_deposit * 16;
    keys = map session_of invulnerables;
    safe_xcm_version = some k.xcm_version;
    sudo_key = some root;
    assets =
        record { asset = 1984; owner = root; is_sufficient = true; min_balance = 70000 }
        ∷ record { asset = 1337; owner = root; is_sufficient = true; min_balance = 70000 }
        ∷ [];
    metadata =
        record { asset = 1984; name = "USDT"; symbol = "USDT"; decimals = 6 }
        ∷ record { asset = 1337; name = "USDC"; symbol = "USDC"; decimals = 6 }
        ∷ [];
    accounts = (1984, root, 1000000) ∷ (1337, root, 1000000) ∷ [];
  }

  -- The collators and the accounts of both configurations.
  abbrev pub collators : List (ℕ × k.AuraId)
  collators =
      (get_account_id_from_seed k "Alice", get_collator_keys_from_seed k "Alice")
      ∷ (get_account_id_from_seed k "Bob", get_collator_keys_from_seed k "Bob")
      ∷ []

  abbrev pub endowed : List ℕ
  endowed =
      get_account_id_from_seed k "Alice"
      ∷ get_account_id_from_seed k "Bob"
      ∷ get_account_id_from_seed k "Charlie"
      ∷ get_account_id_from_seed k "Dave"
      ∷ get_account_id_from_seed k "Eve"
      ∷ get_account_id_from_seed k "Ferdie"
      ∷ get_account_id_from_seed k "Alice//stash"
      ∷ get_account_id_from_seed k "Bob//stash"
      ∷ get_account_id_from_seed k "Charlie//stash"
      ∷ get_account_id_from_seed k "Dave//stash"
      ∷ get_account_id_from_seed k "Eve//stash"
      ∷ get_account_id_from_seed k "Ferdie//stash"
      ∷ []

  -- `none` is the panic of `WASM_BINARY.expect(..)`.
  unfoldable pub development_config : (wasm_binary : Option (List ℕ)) → Option (ChainSpec k)
  unfolding testnet_genesis
  development_config none = none
  development_config (some code) = some (record {
    code = code;
    relay_chain = "rococo-local";
    para_id = 1000;
    name = "Development";
    id = "dev";
    chain_type = development;
    genesis = testnet_genesis collators endowed (get_account_id_from_seed k "Alice") 1000;
    -- the properties that the function makes are not handed to the builder
    protocol_id = none;
    properties = none;
  })

  unfoldable pub local_testnet_config : (wasm_binary : Option (List ℕ)) → Option (ChainSpec k)
  unfolding testnet_genesis
  local_testnet_config none = none
  local_testnet_config (some code) = some (record {
    code = code;
    relay_chain = "rococo-local";
    para_id = 1000;
    name = "Local Testnet";
    id = "local_testnet";
    chain_type = local;
    genesis = testnet_genesis collators endowed (get_account_id_from_seed k "Alice") 1000;
    protocol_id = some "template-local";
    properties = some (
        ("tokenSymbol", text "UNIT")
        ∷ ("tokenDecimals", numeral 12)
        ∷ ("ss58Format", numeral 42)
        ∷ []);
  })
