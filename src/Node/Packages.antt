-- ===== src/Node/Packages.antt =====
-- What other packages do for the node, and the steps in which the node calls them.
use dotcircles.Prelude.{Bool, List, Option, none, some, ℕ, ◌∷◌}
use dotcircles.Genesis.{ChainSpec, Keys}
use Prim.Native.String.{String}

-- The answer of another package's function that may fail.
pub data Result (A : Type 0) : Type 0 where
  done : A → Result A
  failed : String → Result A

pub data DaRecoveryProfile : Type 0 where
  for_collator for_full_node : DaRecoveryProfile

-- What the node starts by a step of its own; what a library starts within a call is left out.
pub data Started : Type 0 where
  telemetry_worker offchain_workers rpc_servers : Started
  hardware_warning hardware_telemetry : Started
  relay_chain_tasks :
      (para_id relay_chain_slot_duration : ℕ) (profile : DaRecoveryProfile) → Started
  aura_collator : (para_id relay_chain_slot_duration authoring_duration : ℕ) → Started
  network_starter : Started

pub data Answer (A : Type 0) : Type 0 where
  ok : A → Answer A
  err : String → Answer A
  panic : Answer A

-- A step of the node: it starts tasks, the latest first, and returns, fails or panics.
abbrev pub Starting : Type 0 → Type 0
Starting A = List Started → Answer A × List Started

module _ {A : Type 0} where
  pub pure : A → Starting A
  pure a s = (ok a, s)

  pub fail : String → Starting A
  fail e s = (err e, s)

  -- `f()?`; the wrapping of an error in another type is left out.
  pub call : Result A → Starting A
  call (done a) s = (ok a, s)
  call (failed e) s = (err e, s)

  -- `o.ok_or(e)?` and `o.expect(..)`
  pub ok_or : Option A → String → Starting A
  ok_or none e s = (err e, s)
  ok_or (some a) e s = (ok a, s)

  pub expect : Option A → Starting A
  expect none s = (panic, s)
  expect (some a) s = (ok a, s)

pub start : Started → Starting Unit
start t s = (ok tt, t ∷ s)

abbrev pub continue : {A B : Type 0} → Answer A → (A → Starting B) → Starting B
continue (ok a) f s = f a s
continue (err e) f s = (err e, s)
continue panic f s = (panic, s)

infixl 5 ◌>>=◌ ◌>>◌
-- Opening this opens the steps above too.
unfoldable pub ◌>>=◌ : {A B : Type 0} → Starting A → (A → Starting B) → Starting B
unfolding pure fail call ok_or expect start
◌>>=◌ m f s = let (r, s') = m s in continue r f s'

abbrev pub ◌>>◌ : {A B : Type 0} → Starting A → Starting B → Starting B
m >> n = m >>= λ _. n

-- The same for answers alone.
abbrev pub bind : {A B : Type 0} → Result A → (A → Result B) → Result B
bind (done a) f = f a
bind (failed e) f = failed e

-- The extension of a chain specification.
pub record Extensions : Type 0 where
  pub relay_chain : String
  pub para_id : ℕ

-- What the trait implementations of the relay chain's command line answer to `sc_cli`.
pub record Overrides (RelayArgs RelaySpec PathBuf : Type 0) : Type 0 where
  pub args : RelayArgs
  pub chain_id : Bool → Result String
  pub base_path : Result (Option PathBuf)
  pub load_spec : String → Result RelaySpec
  pub p2p_listen_port : ℕ
  pub rpc_listen_port : ℕ
  pub prometheus_listen_port : ℕ

pub record Packages (k : Keys) : Type 1 where
  -- `PathBuf`, `RunCmd` and a chain specification of Polkadot, the arguments of a subcommand, and the
  -- options of a collator
  pub PathBuf : Type 0
  pub RelayArgs : Type 0
  pub RelaySpec : Type 0
  pub Cmd : Type 0
  pub CollatorOptions : Type 0
  -- `sc_service::Configuration`, of the parachain and of the relay chain, and what it has
  pub Config : Type 0
  pub RelayConfig : Type 0
  pub chain_spec : Config → ChainSpec k
  pub base_path : Config → PathBuf
  pub telemetry_endpoints : Config → Option (List String)
  pub default_heap_pages : Config → Option ℕ
  pub is_authority : Config → Bool
  pub offchain_worker_enabled : Config → Bool
  pub join : PathBuf → String → PathBuf
  -- the command lines
  pub wasm_binary : Option (List ℕ)
  pub from_json_file : String → Result (ChainSpec k)
  pub get_extension : ChainSpec k → Option Extensions
  pub create_runner : Cmd → Result Config
  pub normalize : Cmd → Cmd
  pub collator_options : Cmd → CollatorOptions
  pub shared_chain : Cmd → Option String
  pub executable_name : String
  pub parse_from : List String → RelayArgs
  pub relay_args_chain_id : RelayArgs → Bool → Result String
  pub relay_args_base_path : RelayArgs → Result (Option PathBuf)
  pub relay_load_spec : String → Result RelaySpec
  pub create_configuration : Overrides RelayArgs RelaySpec PathBuf → Result RelayConfig
  -- the service: `Parts` are the client, the backend, the keystore and the tasks
  pub Parts : Type 0
  pub Relay : Type 0
  pub CollatorKey : Type 0
  pub HwBench : Type 0
  pub Overseer : Type 0
  pub new_telemetry_worker : ℕ → Result Unit
  pub new_full_parts : Config → (telemetry : Bool) (extra_pages : Option ℕ) → Result Parts
  pub slot_duration : Parts → Result ℕ
  pub prepare_node_config : Config → Config
  pub build_relay_chain_interface :
      RelayConfig
      → Config
      → (telemetry : Bool) → CollatorOptions
      → Option HwBench
      → Result (Relay × Option CollatorKey)
  pub build_network : Config → (para_id : ℕ) → Relay → Result Unit
  pub spawn_tasks : Config → Parts → Result Unit
  pub check_hardware : HwBench → Bool
  pub overseer_handle : Relay → Result Overseer
  pub start_relay_chain_tasks : (para_id : ℕ) → Relay → Overseer → Result Unit
  pub gather_hwbench : Config → Option HwBench
