-- ===== src/Node/Service/Order.antt =====
-- What the service starts, in which order, and what it leaves out when it fails.
use dotcircles.Prelude.{
  Bool, List, Option, [], ap, arith, false, if◌then◌else◌, inl, inr, none, not, refl, some, sym,
  true, ℕ, ◌&&◌, ◌∙◌, ◌∷◌, ◌≡◌, ◌≢◌, ◌⊎◌,
}
use dotcircles.Node.Service.{
  build_import_queue, has_telemetry, new_partial, profile_of, report_hardware, start_consensus,
  start_node_impl, start_parachain_node,
}
use dotcircles.Node.Packages.{
  Answer, Packages, Started, aura_collator, done, err, hardware_telemetry, hardware_warning,
  network_starter, offchain_workers, ok, panic, pure, relay_chain_tasks, rpc_servers, start,
  telemetry_worker,
}
use dotcircles.Node.Starts.{
  Starts, idle, starts_bind, starts_call, starts_expect, starts_if, starts_pure, starts_result,
  starts_task, weaken_starts,
}
use dotcircles.Genesis.{Keys}
use Prim.Native.String.{String}

abbrev pub when : Bool → Started → List Started → List Started
when b t s = if b then t ∷ s else s

module _ (k : Keys) (pk : Packages k) where
  abbrev pub hardware_reports :
      (validator telemetry : Bool) → Option pk.HwBench → List Started → List Started
  hardware_reports validator telemetry none s = s
  hardware_reports validator telemetry (some bench) s =
      when telemetry hardware_telemetry
        (when (not (pk.check_hardware bench) && validator) hardware_warning s)

  -- What runs in a node, the latest first.
  abbrev pub running_node : pk.Config → ℕ → Option pk.HwBench → List Started
  running_node config para_id hwbench =
      let telemetry = has_telemetry k pk (pk.telemetry_endpoints config) in
      let validator = pk.is_authority config in
      network_starter
      ∷ when validator (aura_collator para_id 6 1500) (
          relay_chain_tasks para_id 6 (profile_of k pk validator)
          ∷ hardware_reports validator telemetry hwbench (
              rpc_servers
              ∷ when (pk.offchain_worker_enabled config) offchain_workers
                  (when telemetry telemetry_worker [])))

  -- The interface to the relay chain gives an authority its key.
  abbrev pub KeysAuthorities : Type 0
  KeysAuthorities =
      (polkadot_config : pk.RelayConfig) (config : pk.Config) (telemetry : Bool)
      (options : pk.CollatorOptions) (hwbench : Option pk.HwBench) (relay : pk.Relay)
      (key : Option pk.CollatorKey)
      → pk.build_relay_chain_interface polkadot_config config telemetry options hwbench
        ≡ done (relay, key)
      → pk.is_authority config ≡ true
      → key ≢ none

  abbrev Now : {A : Type 0} → List Started → A → List Started → Type 0
  Now t a s = (s ≡ t) × (idle s ≡ true)

  started_when :
      (b : Bool) (t : Started) (s : List Started)
      → idle (t ∷ s) ≡ true
      → idle s ≡ true
      → Starts (if b then start t else pure tt) s (Now (when b t s))
  started_when true t s h quiet = starts_task t (refl, h)
  started_when false t s h quiet = starts_pure tt (refl, quiet)

  pub new_partial-Starts :
      (config : pk.Config)
      → Starts (new_partial k pk config) [] (λ params s.
        (s ≡ when params.telemetry telemetry_worker [])
        × (params.telemetry ≡ has_telemetry k pk (pk.telemetry_endpoints config))
        × (idle s ≡ true))
  unfolding new_partial build_import_queue
  new_partial-Starts config =
      let telemetry = has_telemetry k pk (pk.telemetry_endpoints config) in
      starts_bind _ _ (Now [])
        (starts_if telemetry _ _
          (λ _. starts_result (pk.new_telemetry_worker 16) refl (λ _ _. (refl, refl)))
          (λ _. starts_pure tt (refl, refl)))
        λ _ s₁ (e₁, q₁). starts_call _ _ q₁ λ parts _.
          starts_bind _ _ (Now (when telemetry telemetry_worker []))
            (rw e₁ (started_when telemetry telemetry_worker [] refl refl))
            λ _ s₂ (e₂, q₂). starts_call _ _ q₂ λ slot _. starts_pure _ (e₂, refl, q₂)

  report_hardware-Starts :
      (validator telemetry : Bool) (hwbench : Option pk.HwBench) (s : List Started)
      → idle s ≡ true
      → Starts
          (report_hardware k pk validator telemetry hwbench)
          s
          (Now (hardware_reports validator telemetry hwbench s))
  unfolding report_hardware
  report_hardware-Starts validator telemetry none s quiet = starts_pure tt (refl, quiet)
  report_hardware-Starts validator telemetry (some bench) s quiet =
      starts_bind _ _ (Now (when (not (pk.check_hardware bench) && validator) hardware_warning s))
        (starts_if (pk.check_hardware bench) _ _
          (λ fine. starts_pure tt (ground (arith, fine), quiet))
          (λ slow.
            starts_if validator _ _
              (λ yes'. starts_task hardware_warning (ground (arith, slow, yes'), quiet))
              (λ no'. starts_pure tt (ground (arith, slow, no'), quiet))))
        λ _ s₁ (e, q).
          let quiet' : idle (when (not (pk.check_hardware bench) && validator) hardware_warning s)
              ≡ true =
            ap idle (sym e) ∙ q in
          rw e (started_when telemetry hardware_telemetry _ quiet' quiet')

  module _ (keyed : KeysAuthorities) (parachain_config : pk.Config)
      (polkadot_config : pk.RelayConfig) (options : pk.CollatorOptions) (para_id : ℕ)
      (hwbench : Option pk.HwBench) where
    consensus :
        (validator : Bool) (key : Option pk.CollatorKey) (t s : List Started)
        → (validator ≡ true → key ≢ none)
        → t ≡ s
        → Starts
            (if validator then start_consensus k pk para_id key else pure tt)
            t
            (λ _ u. u ≡ when validator (aura_collator para_id 6 1500) s)
    unfolding start_consensus
    consensus true key t s there e =
        starts_expect key _ (there refl)
          λ _ _. starts_task _ (ap (λ u. aura_collator para_id 6 1500 ∷ u) e)
    consensus false key t s there e = starts_pure tt e

    pub start_parachain_node-Starts :
        Starts
          (start_parachain_node k pk parachain_config polkadot_config options para_id hwbench)
          []
          (λ _ s. s ≡ running_node (pk.prepare_node_config parachain_config) para_id hwbench)
    unfolding start_parachain_node start_node_impl
    start_parachain_node-Starts =
        let config = pk.prepare_node_config parachain_config in
        let telemetry = has_telemetry k pk (pk.telemetry_endpoints config) in
        let validator = pk.is_authority config in
        let s₁ : List Started = when telemetry telemetry_worker [] in
        let s₂ : List Started = when (pk.offchain_worker_enabled config) offchain_workers s₁ in
        let s₃ : List Started = hardware_reports validator telemetry hwbench (rpc_servers ∷ s₂) in
        starts_bind _ _ (λ params s. (s ≡ s₁) × (params.telemetry ≡ telemetry) × (idle s ≡ true))
          (weaken_starts _ (new_partial-Starts config) λ params s (e, f, q). (rw f at e, f, q))
          λ params t₁ (e₁, f, q₁). starts_call _ _ q₁ λ relay ei. starts_call _ _ q₁ λ _ _.
            starts_bind _ _ (Now s₂)
              (rw e₁ (
                started_when (pk.offchain_worker_enabled config) offchain_workers s₁
                  (ap idle (sym e₁) ∙ q₁) (ap idle (sym e₁) ∙ q₁)))
              λ _ t₂ (e₂, q₂). starts_call _ _ q₂ λ _ _.
                starts_bind _ _ (Now (rpc_servers ∷ s₂))
                  (starts_task rpc_servers (ap (λ t. rpc_servers ∷ t) e₂, q₂))
                  λ _ t₃ (e₃, q₃).
                    starts_bind _ _ (Now s₃)
                      (rw (e₃, f)
                        (report_hardware-Starts validator telemetry hwbench (rpc_servers ∷ s₂)
                          (ap idle (sym e₃) ∙ q₃)))
                      λ _ t₄ (e₄, q₄). starts_call _ _ q₄ λ overseer _. starts_call _ _ q₄ λ _ _.
                        starts_bind _ _
                          (Now (relay_chain_tasks para_id 6 (profile_of k pk validator) ∷ s₃))
                          (starts_task _ (
                            ap (λ t. relay_chain_tasks para_id 6 (profile_of k pk validator) ∷ t)
                                e₄,
                            q₄,
                          ))
                          λ _ t₅ (e₅, q₅).
                            starts_bind _ _
                              (λ _ s.
                                s
                                ≡ when validator (aura_collator para_id 6 1500)
                                    (relay_chain_tasks para_id 6 (profile_of k pk validator) ∷ s₃))
                              (consensus validator relay.1 t₅ _ (keyed _ _ _ _ _ relay.0 relay.1 ei)
                                e₅)
                              λ _ t₆ e₆.
                                starts_bind _ _ (λ _ s. s ≡ running_node config para_id hwbench)
                                  (starts_task network_starter (ap (λ t. network_starter ∷ t) e₆))
                                  λ _ t₇ e₇. starts_pure params.parts e₇

    -- A start that fails, at whatever step, leaves neither an author of blocks nor the network
    -- running, and the start does not panic, where an authority is given its collator key.
    pub start_parachain_node-fails :
        (r : Answer pk.Parts) (s' : List Started)
        → start_parachain_node k pk parachain_config polkadot_config options para_id hwbench []
          ≡ (r, s')
        → ((parts : pk.Parts) × (r ≡ ok parts)) ⊎ ((e : String) × (r ≡ err e) × (idle s' ≡ true))
    start_parachain_node-fails (ok parts) s' h = inl (parts, refl)
    start_parachain_node-fails (err e) s' h =
        inr (e, refl, start_parachain_node-Starts.fails e s' h)
    start_parachain_node-fails panic s' h = absurd (start_parachain_node-Starts.calm s' h)
