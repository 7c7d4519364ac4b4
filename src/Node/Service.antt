-- ===== src/Node/Service.antt =====
-- The service of a parachain node: node/src/service.rs.
use dotcircles.Prelude.{Bool, List, Option, [], false, if◌then◌else◌, none, some, true, ℕ, ◌∷◌}
use dotcircles.Node.Packages.{
  DaRecoveryProfile, Packages, Starting, aura_collator, call, expect, for_collator, for_full_node,
  hardware_telemetry, hardware_warning, network_starter, offchain_workers, pure, relay_chain_tasks,
  rpc_servers, start, telemetry_worker, ◌>>=◌, ◌>>◌,
}
use dotcircles.Genesis.{Keys}
pub mod Order
use Prim.Native.String.{String}

module _ (k : Keys) (pk : Packages k) where
  -- `PartialComponents`, as far as the node looks at them.
  pub record Partials : Type 0 where
    pub parts : pk.Parts
    pub telemetry : Bool
    pub slot_duration : ℕ
    pub pool_of_authority : Bool

  -- The endpoints of the telemetry, if there are any.
  abbrev pub has_telemetry : Option (List String) → Bool
  has_telemetry none = false
  has_telemetry (some []) = false
  has_telemetry (some (x ∷ xs)) = true

  pub build_import_queue : pk.Parts → Starting ℕ
  build_import_queue parts = call (pk.slot_duration parts)

  pub new_partial : pk.Config → Starting Partials
  unfolding build_import_queue
  new_partial config = do
    let telemetry = has_telemetry (pk.telemetry_endpoints config)
    if telemetry then call (pk.new_telemetry_worker 16) else pure tt
    parts ← call (pk.new_full_parts config telemetry (pk.default_heap_pages config))
    if telemetry then start telemetry_worker else pure tt
    slot ← build_import_queue parts
    pure (record {
      parts = parts;
      telemetry = telemetry;
      slot_duration = slot;
      pool_of_authority = pk.is_authority config;
    })

  -- The hardware benchmark: its warning and its telemetry.
  pub report_hardware : (validator telemetry : Bool) → Option pk.HwBench → Starting Unit
  report_hardware validator telemetry none = pure tt
  report_hardware validator telemetry (some bench) = do
    if pk.check_hardware bench
        then pure tt
        else (if validator then start hardware_warning else pure tt)
    if telemetry then start hardware_telemetry else pure tt

  -- The authoring time is 1500 milliseconds.
  pub start_consensus : (para_id : ℕ) → Option pk.CollatorKey → Starting Unit
  start_consensus para_id key = do expect key; start (aura_collator para_id 6 1500)

  abbrev pub profile_of : Bool → DaRecoveryProfile
  profile_of validator = if validator then for_collator else for_full_node

  pub start_node_impl :
      pk.Config
      → pk.RelayConfig
      → pk.CollatorOptions
      → (para_id : ℕ) → Option pk.HwBench
      → Starting pk.Parts
  unfolding new_partial report_hardware start_consensus
  start_node_impl parachain_config polkadot_config options para_id hwbench = do
    let config = pk.prepare_node_config parachain_config
    params ← new_partial config
    relay ←
        call
          (pk.build_relay_chain_interface polkadot_config config params.telemetry options hwbench)
    let validator = pk.is_authority config
    call (pk.build_network config para_id relay.0)
    if pk.offchain_worker_enabled config then start offchain_workers else pure tt
    call (pk.spawn_tasks config params.parts)
    start rpc_servers
    report_hardware validator params.telemetry hwbench
    overseer ← call (pk.overseer_handle relay.0)
    call (pk.start_relay_chain_tasks para_id relay.0 overseer)
    start (relay_chain_tasks para_id 6 (profile_of validator))
    if validator then start_consensus para_id relay.1 else pure tt
    start network_starter
    pure params.parts

  unfoldable pub start_parachain_node :
      pk.Config
      → pk.RelayConfig
      → pk.CollatorOptions
      → (para_id : ℕ) → Option pk.HwBench
      → Starting pk.Parts
  unfolding start_node_impl
  start_parachain_node parachain_config polkadot_config options para_id hwbench =
      start_node_impl parachain_config polkadot_config options para_id hwbench
