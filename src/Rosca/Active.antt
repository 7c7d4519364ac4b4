-- ===== src/Rosca/Active.antt =====
-- The calls on a started circle: `contribute_to_rosca`, `manually_end_rosca`.
pub mod Isolation
pub mod Backing
pub mod Solvent
pub mod Late
pub mod Overdue
pub mod Wealth
pub mod Reached
pub mod CatchUp
pub mod Contribute
pub mod Paying
pub mod Live
pub mod WindUp
use dotcircles.Prelude.{
  Bool, List, Option, checked_add, contains, false, if◌then◌else◌, insert, is_some, last?, leb,
  length, ltb, none, not, some, suc, u32_mod, u64_mod, zero, ℕ, ◌-◌, ◌==◌, ◌∷◌,
}
use dotcircles.Rosca.Effects.{
  Exec, deposit_event, ensure, gets, index, modify, ok_or, pure, signer_of, stuck_loop, transfer,
  ◌>>=◌, ◌>>◌,
}
use dotcircles.Rosca.Pending.{unwrap_or}
use dotcircles.Rosca.Rounds.{
  advance_rosca_round, check_and_complete_rosca, complete, process_defaulters, try_rotate_right,
}
use dotcircles.Rosca.Storage.{Runtime}
use dotcircles.Rosca.Types.{
  RoscaDetails, already_contributed, arithmetic_error, arithmetic_overflow, cant_contribute_to_self,
  contribution_made, final_pay_by_timestamp_must_be_past, final_pay_by_timestamp_not_found, id,
  new_round_started, no_eligble_claimant, no_next_pay_by_timestamp, not_a_participant,
  rosca_already_completed, rosca_not_active, rosca_participants_not_found,
}

-- What the loop of `contribute_to_rosca` keeps in local variables: the cutoff, the order and the
-- claimant of the round that it has come to.
pub record Round : Type 0 where
  pub next : ℕ
  pub order : List ℕ
  pub claimant : ℕ

-- Rounds enough for the `while` loops: each adds at least 1 to a cutoff that ends past `final`.
abbrev pub rounds_to : ℕ → ℕ → ℕ
rounds_to next final = suc (suc final - next)

-- A key is kept once.
abbrev pub insert_key : ℕ → List ℕ → List ℕ
insert_key a keys = if contains keys a then keys else a ∷ keys

-- The test of the `while let` loop.
abbrev pub due : Option ℕ → ℕ → Bool
due none final = false
due (some next) final = leb next final

module _ (rt : Runtime) (rosca_id : ℕ) where
  pub next_round : Exec rt.Ledger Round
  next_round = do
    next ← ok_or (← gets (λ s. s.next_pay_by_timestamp rosca_id)) no_next_pay_by_timestamp
    order ←
        ok_or (← gets (λ s. s.active_rosca_participants_order rosca_id))
          rosca_participants_not_found
    claimant ← ok_or (← gets (λ s. s.eligible_claimant rosca_id)) no_eligble_claimant
    pure (record { next = next; order = order; claimant = claimant })

  -- The body of the loop; `none` is the `return Ok(())` of a circle that is found complete.
  pub one_round : Exec rt.Ledger (Option Round)
  unfolding next_round
  one_round = do
    process_defaulters rt rosca_id
    advance_rosca_round rt rosca_id
    done ← check_and_complete_rosca rt rosca_id
    if done then pure none else do round ← next_round; pure (some round)

  pub resume :
      (Round → Exec rt.Ledger (Option Round)) → Option Round → Exec rt.Ledger (Option Round)
  resume loop none = pure none
  resume loop (some round) = loop round

  -- `while current_timestamp >= next_pay_by_timestamp`
  pub catch_up : ℕ → ℕ → Round → Exec rt.Ledger (Option Round)
  unfolding one_round resume
  catch_up zero now round = stuck_loop
  catch_up (suc fuel) now round =
      if leb round.next now then one_round >>= resume (catch_up fuel now) else pure (some round)

  -- The end of a round that all have paid for.
  pub close_round : RoscaDetails → ℕ → Round → Exec rt.Ledger Unit
  close_round rosca final round = do
    next ← ok_or (checked_add u64_mod round.next rosca.contribution_frequency) arithmetic_overflow
    if ltb final next then complete rt rosca_id else do
      modify λ s. record s {
        next_pay_by_timestamp = insert s.next_pay_by_timestamp rosca_id (some next);
      }
      claimant ← index (last? round.order)
      modify
          λ s. record s { eligible_claimant = insert s.eligible_claimant rosca_id (some claimant) }
      rotated ← ok_or (try_rotate_right round.order) arithmetic_error
      modify λ s. record s {
        active_rosca_participants_order =
            insert s.active_rosca_participants_order rosca_id (some rotated);
        current_contributors =
            insert s.current_contributors rosca_id
              (rt.clear_prefix (length rotated - 1) (s.current_contributors rosca_id));
        current_contribution_count = insert s.current_contribution_count rosca_id 0;
      }
      deposit_event (new_round_started rosca_id claimant next)

  -- The payment, once the loop has come to the current round.
  pub contribute_now : RoscaDetails → ℕ → ℕ → Option Round → Exec rt.Ledger Unit
  unfolding close_round
  contribute_now rosca signer final none = pure tt
  contribute_now rosca signer final (some round) = do
    transfer rt (id rosca.payment_asset) signer round.claimant rosca.contribution_amount
    modify λ s. record s {
      current_contributors =
          insert s.current_contributors rosca_id
            (insert_key signer (s.current_contributors rosca_id));
    }
    paid ← gets (λ s. s.current_contribution_count rosca_id)
    count ← ok_or (checked_add u32_mod paid 1) arithmetic_overflow
    modify λ s. record s {
      current_contribution_count = insert s.current_contribution_count rosca_id count;
    }
    deposit_event (contribution_made rosca_id signer round.claimant rosca.contribution_amount)
    if count == length round.order - 1 then close_round rosca final round else pure tt

  unfoldable pub contribute_to_rosca : rt.Origin → Exec rt.Ledger Unit
  unfolding catch_up contribute_now process_defaulters advance_rosca_round check_and_complete_rosca
      try_rotate_right complete
  contribute_to_rosca origin = do
    signer ← signer_of (rt.ensure_signed origin)
    ensure (is_some (← gets (λ s. s.rosca_participants rosca_id signer))) not_a_participant
    ensure (not (← gets (λ s. s.completed_roscas rosca_id))) rosca_already_completed
    rosca ← ok_or (← gets (λ s. s.active_roscas rosca_id)) rosca_not_active
    claimant ← ok_or (← gets (λ s. s.eligible_claimant rosca_id)) no_eligble_claimant
    ensure (not (claimant == signer)) cant_contribute_to_self
    ensure (not (contains (← gets (λ s. s.current_contributors rosca_id)) signer))
        already_contributed
    now ← gets (λ s. s.now)
    final ← ok_or (← gets (λ s. s.final_pay_by_timestamp rosca_id)) final_pay_by_timestamp_not_found
    next ← ok_or (← gets (λ s. s.next_pay_by_timestamp rosca_id)) no_next_pay_by_timestamp
    order ←
        ok_or (← gets (λ s. s.active_rosca_participants_order rosca_id))
          rosca_participants_not_found
    reached ←
        catch_up (rounds_to next final) now
          (record { next = next; order = order; claimant = claimant })
    contribute_now rosca signer final reached

  -- `while let Some(next_pay_by) = …`, which breaks when the cutoff is past the final one.
  pub wind_up : ℕ → ℕ → Exec rt.Ledger Unit
  wind_up zero final = stuck_loop
  wind_up (suc fuel) final = do
    next ← gets (λ s. s.next_pay_by_timestamp rosca_id)
    if due next final
        then (do
          process_defaulters rt rosca_id
          advance_rosca_round rt rosca_id
          wind_up fuel final)
        else pure tt

  unfoldable pub manually_end_rosca : rt.Origin → Exec rt.Ledger Unit
  unfolding wind_up process_defaulters advance_rosca_round try_rotate_right complete
  manually_end_rosca origin = do
    signer_of (rt.ensure_signed origin)
    rosca ← ok_or (← gets (λ s. s.active_roscas rosca_id)) rosca_not_active
    now ← gets (λ s. s.now)
    final ← ok_or (← gets (λ s. s.final_pay_by_timestamp rosca_id)) final_pay_by_timestamp_not_found
    ensure (ltb final now) final_pay_by_timestamp_must_be_past
    -- only to grant the loop its rounds
    start ← gets (λ s. unwrap_or (s.next_pay_by_timestamp rosca_id) 0)
    wind_up (rounds_to start final) final
    next ← ok_or (← gets (λ s. s.next_pay_by_timestamp rosca_id)) no_next_pay_by_timestamp
    last ← ok_or (checked_add u64_mod final rosca.contribution_frequency) arithmetic_overflow
    ensure (next == last) arithmetic_error
    complete rt rosca_id
