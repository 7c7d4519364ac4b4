-- ===== src/Rosca/Start.antt =====
-- `start_rosca`, with `shuffle_participants` and `generate_rounds`.
pub mod Isolation
pub mod Backing
pub mod Shuffle
pub mod Placing
pub mod Seated
pub mod Cutoffs
pub mod Announced
pub mod Schedule
pub mod Starting
pub mod Calling
use dotcircles.Prelude.{
  List, Option, [], checked_add, get_elem?, if◌then◌else◌, insert, is_none, last?, leb, length, ltb,
  none, remove_at, reverse, set, some, suc, u32_mod, u64_mod, zero, ℕ, ◌%◌, ◌++◌, ◌+◌, ◌-◌, ◌==◌,
  ◌∷◌,
}
use dotcircles.Rosca.Effects.{
  Exec, deposit_event, ensure, gets, index, modify, ok_or, pure, signer_of, stuck_loop, ◌>>=◌, ◌>>◌,
}
use dotcircles.Rosca.Rounds.{try_rotate_right}
use dotcircles.Rosca.Storage.{Runtime}
use dotcircles.Rosca.Types.{
  RoundInfo, arithmetic_error, arithmetic_overflow, not_a_participant,
  participant_threshold_not_met, rosca_already_active, rosca_not_found,
  rosca_participant_count_not_found, rosca_participants_not_found, rosca_started,
  start_by_timestamp_must_be_future, too_many_proposed_participants, too_many_rounds,
}

-- The indices below `n`, from `i` on.
abbrev pub indices : ℕ → ℕ → List ℕ
indices i zero = []
indices i (suc n) = i ∷ indices (i + 1) n

-- The first byte of a hash of 16.
abbrev pub first_byte : List ℕ → ℕ
first_byte [] = 0
first_byte (b ∷ r) = b

-- `xs.remove(i)`, without the element, and `xs[i] = a`: `none` is the panic of an index out of range.
abbrev pub without {ℓ} : {A : Type ℓ} → List A → ℕ → Option (List A)
without xs i = if ltb i (length xs) then some (remove_at xs i) else none

abbrev pub replaced {ℓ} : {A : Type ℓ} → List A → ℕ → A → Option (List A)
replaced xs i a = if ltb i (length xs) then some (set xs i a) else none

-- The places that are taken, without the free ones: `filter_map(|p| p)`.
pub compact : List (Option ℕ) → List ℕ
compact [] = []
compact (none ∷ r) = compact r
compact (some a ∷ r) = a ∷ compact r

-- Everyone but the recipient.
pub others : ℕ → List ℕ → List ℕ
others recipient [] = []
others recipient (a ∷ rest) = let r = others recipient rest in if a == recipient then r else a ∷ r

module _ (rt : Runtime) where
  -- The `while` loop: as long as indices are left, one of them is taken out. The hash is that of
  -- the outer seed in every round, since the inner `let mut rng_seed` shadows it and is dropped.
  pub draw : (fuel byte : ℕ) → List ℕ → Exec rt.Ledger (List ℕ)
  draw fuel byte [] = pure []
  draw zero byte (x ∷ xs) = stuck_loop
  draw (suc fuel) byte (x ∷ xs) = do
    let random_index : ℕ = byte % length (x ∷ xs)
    selected ← index (get_elem? (x ∷ xs) random_index)
    available ← index (without (x ∷ xs) random_index)
    drawn ← draw fuel byte available
    pure (selected ∷ drawn)

  -- `shuffled_participants[i] = participants[new_idx].clone()`, for each drawn index in turn.
  pub place_all : ℕ → List ℕ → List ℕ → List ℕ → Exec rt.Ledger (List ℕ)
  place_all i [] participants shuffled = pure shuffled
  place_all i (new_idx ∷ rest) participants shuffled = do
    a ← index (get_elem? participants new_idx)
    placed ← index (replaced shuffled i a)
    place_all (i + 1) rest participants placed

  pub shuffle_participants : List ℕ → Exec rt.Ledger (List ℕ)
  unfolding draw place_all
  shuffle_participants participants = do
    current_block ← gets (λ s. s.block_number)
    let seed = rt.blake2_128 (rt.block_hash current_block)
    drawn ←
        draw (length participants) (first_byte (rt.blake2_128 seed))
          (indices 0 (length participants))
    place_all 0 drawn participants participants

  -- The loop of `generate_rounds`: the accounts still to come, the index of the next, its cutoff,
  -- and the rounds so far.
  pub add_rounds : List ℕ → ℕ → List ℕ → ℕ → ℕ → List RoundInfo → Exec rt.Ledger (List RoundInfo)
  unfolding others
  add_rounds participants frequency [] i cutoff rounds = pure rounds
  add_rounds participants frequency (recipient ∷ rest) i cutoff rounds = do
    let expected = others recipient participants
    ensure (leb (length expected) rt.max_invited_participants) too_many_proposed_participants
    let round : RoundInfo = record {
      round_number = (i + 1) % u32_mod;
      payment_cutoff = cutoff;
      expected_contributors = expected;
      recipient = recipient;
    }
    ensure (ltb (length rounds) rt.max_participants) too_many_rounds
    next ← ok_or (checked_add u64_mod cutoff frequency) arithmetic_overflow
    add_rounds participants frequency rest (i + 1) next (rounds ++ round ∷ [])

  unfoldable pub generate_rounds : List ℕ → ℕ → ℕ → Exec rt.Ledger (List RoundInfo)
  unfolding add_rounds
  generate_rounds participants current_time frequency = do
    cutoff ← ok_or (checked_add u64_mod current_time frequency) arithmetic_overflow
    add_rounds participants frequency (reverse participants) 0 cutoff []

  -- `for _ in 1..count` adds the frequency to the cutoff of the last round.
  pub extend_cutoff : ℕ → ℕ → ℕ → Exec rt.Ledger ℕ
  extend_cutoff frequency zero cutoff = pure cutoff
  extend_cutoff frequency (suc n) cutoff = do
    next ← ok_or (checked_add u64_mod cutoff frequency) arithmetic_overflow
    extend_cutoff frequency n next

  unfoldable pub start_rosca : rt.Origin → ℕ → Exec rt.Ledger Unit
  unfolding shuffle_participants generate_rounds extend_cutoff compact try_rotate_right
  start_rosca origin rosca_id = do
    signer ← signer_of (rt.ensure_signed origin)
    ensure (is_none (← gets (λ s. s.active_roscas rosca_id))) rosca_already_active
    ok_or (← gets (λ s. s.rosca_participants rosca_id signer)) not_a_participant
    rosca ← ok_or (← gets (λ s. s.pending_rosca_details rosca_id)) rosca_not_found
    pending ←
        ok_or (← gets (λ s. s.pending_rosca_participants_order rosca_id))
          rosca_participants_not_found
    now ← gets (λ s. s.now)
    ensure (ltb now rosca.start_by_timestamp) start_by_timestamp_must_be_future
    count ←
        ok_or (← gets (λ s. s.rosca_participants_count rosca_id)) rosca_participant_count_not_found
    ensure (leb rosca.minimum_participant_threshold count) participant_threshold_not_met
    let filtered = compact (reverse pending)
    ensure (leb (length filtered) rt.max_participants) too_many_proposed_participants
    order ← if rosca.random_order then shuffle_participants filtered else pure filtered
    rounds ← generate_rounds order now rosca.contribution_frequency
    -- `active_rosca_order[active_rosca_order.len() - 1]` panics on an empty order
    first ← index (last? order)
    modify λ s. record s { eligible_claimant = insert s.eligible_claimant rosca_id (some first) }
    rotated ← ok_or (try_rotate_right order) arithmetic_error
    modify λ s. record s {
      active_rosca_participants_order =
          insert s.active_rosca_participants_order rosca_id (some rotated);
    }
    next ← ok_or (checked_add u64_mod now rosca.contribution_frequency) arithmetic_overflow
    final ← extend_cutoff rosca.contribution_frequency (count - 1) next
    modify λ s. record s {
      next_pay_by_timestamp = insert s.next_pay_by_timestamp rosca_id (some next);
      final_pay_by_timestamp = insert s.final_pay_by_timestamp rosca_id (some final);
      active_roscas = insert s.active_roscas rosca_id (some rosca);
      pending_rosca_details = insert s.pending_rosca_details rosca_id none;
    }
    deposit_event (rosca_started rosca_id signer rounds first next)
