-- ===== src/Node/Command.antt =====
-- The run of the node: `run` of node/src/command.rs.
use dotcircles.Prelude.{Bool, if◌then◌else◌, none, some, ◌∷◌}
use dotcircles.Node.Cli.{
  BenchmarkCmd, Cli, Subcommand, benchmark, block, build_spec, check_block, export_blocks,
  export_genesis_head, export_genesis_wasm, export_state, import_blocks, load_spec, machine, new,
  or_empty, other, overrides, pallet, purge_chain, revert, storage, try_runtime,
}
use dotcircles.Node.Packages.{Packages, Result, Starting, call, fail, ok_or, pure, ◌>>=◌, ◌>>◌}
use dotcircles.Node.Service.{new_partial, start_parachain_node}
use dotcircles.Genesis.{ChainSpec, Keys}

module _ (k : Keys) (pk : Packages k) where
  -- What the subcommands run, with what they are given.
  pub data Job : Type 0 where
    build_spec_job benchmark_pallet_job benchmark_machine_job : pk.Cmd → pk.Config → Job
    check_block_job import_blocks_job revert_job : pk.Cmd → pk.Parts → Job
    export_genesis_head_job benchmark_block_job : pk.Cmd → pk.Parts → Job
    export_blocks_job export_state_job benchmark_storage_job : pk.Cmd → pk.Parts → pk.Config → Job
    purge_chain_job : pk.Cmd → pk.Config → pk.RelayConfig → Job
    export_genesis_wasm_job : pk.Cmd → ChainSpec k → Job

  -- What is not the node's own: the run of a job, which may start tasks, fail or panic, and whether
  -- the benchmarks are built in.
  pub record Jobs : Type 0 where
    pub run_job : Job → Starting Unit
    pub runtime_benchmarks : Bool

  -- The relay chain's configuration, made from that of the parachain.
  pub polkadot_config_of : Cli k pk → pk.Config → Result pk.RelayConfig
  polkadot_config_of cli config =
      pk.create_configuration
        (overrides k pk (new k pk config (pk.executable_name ∷ cli.relay_chain_args)))

  -- `construct_async_run!`, and the closures that begin with `new_partial`
  pub with_partials : pk.Cmd → (pk.Parts → pk.Config → Starting Unit) → Starting Unit
  with_partials cmd f = do
    config ← call (pk.create_runner cmd)
    partials ← new_partial k pk config
    f partials.parts config

  module _ (jobs : Jobs) where
    pub run_benchmark : pk.Cmd → BenchmarkCmd pk.Cmd → Starting Unit
    unfolding with_partials
    run_benchmark top (pallet cmd) = do
      config ← call (pk.create_runner top)
      if jobs.runtime_benchmarks
          then jobs.run_job (benchmark_pallet_job cmd config)
          else fail
              "Benchmarking wasn't enabled when building the node. You can enable it with `--features runtime-benchmarks`."
    run_benchmark top (block cmd) =
        with_partials top λ parts config. jobs.run_job (benchmark_block_job cmd parts)
    run_benchmark top (storage cmd) =
        if jobs.runtime_benchmarks
        then with_partials top
            (λ parts config. jobs.run_job (benchmark_storage_job cmd parts config))
        else (do
          config ← call (pk.create_runner top)
          fail "Compile with --features=runtime-benchmarks to enable storage benchmarks.")
    run_benchmark top (machine cmd) = do
      config ← call (pk.create_runner top)
      jobs.run_job (benchmark_machine_job cmd config)
    run_benchmark top (other cmd) = do
      config ← call (pk.create_runner top)
      fail "Benchmarking sub-command unsupported"

    pub run_subcommand : Cli k pk → Subcommand pk.Cmd → Starting Unit
    unfolding with_partials run_benchmark polkadot_config_of
    run_subcommand cli (build_spec cmd) = do
      config ← call (pk.create_runner cmd)
      jobs.run_job (build_spec_job cmd config)
    run_subcommand cli (check_block cmd) =
        with_partials cmd λ parts config. jobs.run_job (check_block_job cmd parts)
    run_subcommand cli (export_blocks cmd) =
        with_partials cmd λ parts config. jobs.run_job (export_blocks_job cmd parts config)
    run_subcommand cli (export_state cmd) =
        with_partials cmd λ parts config. jobs.run_job (export_state_job cmd parts config)
    run_subcommand cli (import_blocks cmd) =
        with_partials cmd λ parts config. jobs.run_job (import_blocks_job cmd parts)
    run_subcommand cli (revert cmd) =
        with_partials cmd λ parts config. jobs.run_job (revert_job cmd parts)
    run_subcommand cli (purge_chain cmd) = do
      config ← call (pk.create_runner cmd)
      polkadot_config ← call (polkadot_config_of cli config)
      jobs.run_job (purge_chain_job cmd config polkadot_config)
    run_subcommand cli (export_genesis_head cmd) =
        with_partials cmd λ parts config. jobs.run_job (export_genesis_head_job cmd parts)
    run_subcommand cli (export_genesis_wasm cmd) = do
      config ← call (pk.create_runner cmd)
      spec ← load_spec k pk (or_empty (pk.shared_chain cmd))
      jobs.run_job (export_genesis_wasm_job cmd spec)
    run_subcommand cli (benchmark cmd sub) = run_benchmark cmd sub
    run_subcommand cli try_runtime =
        fail
          "The `try-runtime` subcommand has been migrated to a standalone CLI (https://github.com/paritytech/try-runtime-cli). It is no longer being maintained here and will be removed entirely some time after January 2024. Please remove this subcommand from your runtime and use the standalone CLI."

    -- Without a subcommand the node is started.
    pub run_node : Cli k pk → Starting Unit
    unfolding polkadot_config_of start_parachain_node
    run_node cli = do
      config ← call (pk.create_runner (pk.normalize cli.run_cmd))
      let options = pk.collator_options cli.run_cmd
      let hwbench = if cli.no_hardware_benchmarks then none else pk.gather_hwbench config
      extension ←
          ok_or (pk.get_extension (pk.chain_spec config))
            "Could not find parachain ID in chain-spec."
      polkadot_config ← call (polkadot_config_of cli config)
      start_parachain_node k pk config polkadot_config options extension.para_id hwbench
      pure tt

    unfoldable pub run : Cli k pk → Starting Unit
    unfolding run_subcommand run_node
    run cli = elim cli.subcommand [ none ↦ run_node cli | some sub ↦ run_subcommand cli sub ]
