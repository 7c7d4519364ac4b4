-- ===== src/Witnesses/Node.antt =====
-- The theorems on the node, at a collator whose libraries answer at once.
use dotcircles.Prelude.{
  Bool, List, [], arith, false, if◌then◌else◌, none, refl, some, true, ℕ, ◌==◌, ◌∷◌, ◌≡◌, ◌⊎◌,
}
use dotcircles.Genesis.{Keys, local, testnet_genesis}
use dotcircles.Node.Packages.{
  Answer, Packages, Started, done, err, failed, hardware_telemetry, hardware_warning,
  offchain_workers, ok, rpc_servers, telemetry_worker, ◌>>=◌,
}
use dotcircles.Node.Service.{start_parachain_node}
use dotcircles.Node.Service.Order.{KeysAuthorities, start_parachain_node-fails}
use dotcircles.Node.Starts.{idle}
use Prim.Native.String.{String}

-- Keys that are the same for every seed.
abbrev one_key : Keys
one_key = record {
  AuraId = Unit;
  account_of_seed = λ seed. 7;
  aura_of_seed = λ seed. tt;
  xcm_version = 4;
}

-- A configuration says whether the node is an authority; a benchmark says whether it is fast.
abbrev answering : Packages one_key
answering = record {
  PathBuf = String;
  RelayArgs = List String;
  RelaySpec = String;
  Cmd = Bool;
  CollatorOptions = ℕ;
  Config = Bool;
  RelayConfig = ℕ;
  chain_spec = λ c. record {
    code = [];
    relay_chain = "rococo-local";
    para_id = 1000;
    name = "Local Testnet";
    id = "local_testnet";
    chain_type = local;
    genesis = testnet_genesis one_key [] [] 7 1000;
    protocol_id = none;
    properties = none;
  };
  base_path = λ c. "data";
  telemetry_endpoints = λ c. some ("wss" ∷ []);
  default_heap_pages = λ c. none;
  is_authority = λ c. c;
  offchain_worker_enabled = λ c. true;
  join = λ p q. q;
  wasm_binary = none;
  from_json_file = λ p. failed "no file";
  get_extension = λ s. some (record { relay_chain = s.relay_chain; para_id = s.para_id });
  create_runner = λ c. done c;
  normalize = λ c. c;
  collator_options = λ c. 0;
  shared_chain = λ c. none;
  executable_name = "node";
  parse_from = λ args. args;
  relay_args_chain_id = λ args dev. done "";
  relay_args_base_path = λ args. done none;
  relay_load_spec = λ id. done id;
  create_configuration = λ o. done o.p2p_listen_port;
  Parts = ℕ;
  Relay = ℕ;
  CollatorKey = ℕ;
  HwBench = Bool;
  Overseer = ℕ;
  new_telemetry_worker = λ n. done tt;
  new_full_parts = λ c t h. done 1;
  slot_duration = λ p. done 6000;
  prepare_node_config = λ c. c;
  build_relay_chain_interface = λ r c t o h. done (0, if c then some 5 else none);
  build_network = λ c id r. done tt;
  spawn_tasks = λ c p. done tt;
  check_hardware = λ b. b;
  overseer_handle = λ r. done 0;
  start_relay_chain_tasks = λ id r o. if id == 0 then failed "no parachain" else done tt;
  gather_hwbench = λ c. some false;
}

answering-KeysAuthorities : KeysAuthorities one_key answering
answering-KeysAuthorities r c t o h relay key e a n = ground (arith, e, a, n)

-- The tasks of the relay chain are refused.
abbrev half_started : List Started
half_started =
    hardware_telemetry ∷ hardware_warning ∷ rpc_servers ∷ offchain_workers ∷ telemetry_worker ∷ []

abbrev refusal : Answer ℕ
refusal = err "no parachain"

start_parachain_node-fails_example :
    ((parts : ℕ) × (refusal ≡ ok parts))
    ⊎ ((e : String) × (refusal ≡ err e) × (idle half_started ≡ true))
unfolding start_parachain_node ◌>>=◌
start_parachain_node-fails_example =
    start_parachain_node-fails one_key answering answering-KeysAuthorities true 30334 0 0
      (some false) refusal half_started refl
