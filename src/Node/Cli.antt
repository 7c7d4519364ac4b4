-- ===== src/Node/Cli.antt =====
-- The command lines of the node and of its relay chain: node/src/cli.rs, and the answers that
-- node/src/command.rs gives for them.
use dotcircles.Prelude.{Bool, List, Option, false, if◌then◌else◌, none, or_else, some, true, ◌||◌}
use dotcircles.Node.Packages.{
  Extensions, Overrides, Packages, Result, Starting, bind, call, done, expect,
}
use dotcircles.Genesis.{ChainSpec, Keys, development_config, local_testnet_config}
use Prim.Native.String.{String, compare}
use Prim.Native.Nat.{Ordering}

-- The test of a `match` on a text.
abbrev pub is : String → String → Bool
is a b = elim (compare a b) [ Ordering.eq ↦ true | _ ↦ false ]

abbrev pub or_empty : Option String → String
or_empty none = ""
or_empty (some s) = s

abbrev pub relay_chain_of : Option Extensions → Option String
relay_chain_of none = none
relay_chain_of (some e) = some e.relay_chain

pub data BenchmarkCmd (Cmd : Type 0) : Type 0 where
  pallet block storage machine other : Cmd → BenchmarkCmd Cmd

pub data Subcommand (Cmd : Type 0) : Type 0 where
  build_spec check_block export_blocks export_state import_blocks : Cmd → Subcommand Cmd
  revert purge_chain export_genesis_head export_genesis_wasm : Cmd → Subcommand Cmd
  benchmark : Cmd → BenchmarkCmd Cmd → Subcommand Cmd
  try_runtime : Subcommand Cmd

module _ (k : Keys) (pk : Packages k) where
  pub record Cli : Type 0 where
    pub subcommand : Option (Subcommand pk.Cmd)
    pub run_cmd : pk.Cmd
    pub no_hardware_benchmarks : Bool
    pub relay_chain_args : List String

  pub load_spec : String → Starting (ChainSpec k)
  load_spec id =
      if is id "dev"
      then expect (development_config k pk.wasm_binary)
      else if is id "template-paseo"
      then expect (local_testnet_config k pk.wasm_binary)
      else if is id "" || is id "local"
      then expect (local_testnet_config k pk.wasm_binary)
      else call (pk.from_json_file id)

  pub record RelayChainCli : Type 0 where
    pub base : pk.RelayArgs
    pub chain_id : Option String
    pub base_path : Option pk.PathBuf

  unfoldable pub new : pk.Config → List String → RelayChainCli
  new para_config relay_chain_args =
      let extension = pk.get_extension (pk.chain_spec para_config) in
      record {
        base = pk.parse_from relay_chain_args;
        chain_id = relay_chain_of extension;
        base_path = some (pk.join (pk.base_path para_config) "polkadot");
      }

  unfoldable pub relay_chain_id : RelayChainCli → Bool → Result String
  relay_chain_id cli is_dev =
      bind (pk.relay_args_chain_id cli.base is_dev)
        λ id. if is id "" then done (or_empty cli.chain_id) else done id

  unfoldable pub relay_base_path : RelayChainCli → Result (Option pk.PathBuf)
  relay_base_path cli =
      bind (pk.relay_args_base_path cli.base) λ path. done (or_else path cli.base_path)

  -- The other answers of the trait are those of the arguments.
  unfoldable pub overrides : RelayChainCli → Overrides pk.RelayArgs pk.RelaySpec pk.PathBuf
  overrides cli = record {
    args = cli.base;
    chain_id = relay_chain_id cli;
    base_path = relay_base_path cli;
    load_spec = pk.relay_load_spec;
    p2p_listen_port = 30334;
    rpc_listen_port = 9945;
    prometheus_listen_port = 9616;
  }
