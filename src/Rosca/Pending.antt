-- ===== src/Rosca/Pending.antt =====
-- The calls on a circle that has not started: `create_rosca`, `join_rosca`, `leave_rosca`.
pub mod Exact
pub mod Opening
pub mod Solvent
pub mod Seats
pub mod Join
pub mod Creation
pub mod Create
pub mod Invitees
pub mod Leave
pub mod RoundTrip
pub mod Isolation
pub mod Invariant
use dotcircles.Prelude.{
  Bool, List, Option, [], checked_add, checked_sub, contains, get_elem?, if◌then◌else◌, insert,
  insert₂, is_none, leb, length, ltb, none, not, replicate, set, some, suc, true, u32_mod, zero, ℕ,
  ◌%◌, ◌++◌, ◌+◌, ◌==◌, ◌∷◌,
}
use dotcircles.Rosca.Effects.{
  Exec, deposit_event, ensure, gets, index, modify, ok_or, pure, signer_of, transfer, ◌>>=◌, ◌>>◌,
}
use dotcircles.Rosca.Storage.{Runtime}
use dotcircles.Rosca.Types.{
  PaymentAssets, all_positions_filled, already_joined, arithmetic_error, arithmetic_overflow,
  arithmetic_underflow, cant_invite_self, contribution_amount_must_be_positive,
  frequency_must_be_positive, id, joined_rosca, left_rosca, not_a_participant, not_invited,
  position_already_filled, position_too_large, rosca_already_active, rosca_created, rosca_not_found,
  rosca_participant_count_not_found, rosca_participants_not_found, security_deposit_claimed,
  start_by_timestamp_must_be_future, threshold_too_high, too_many_proposed_participants,
}

-- `sort` on accounts.
insert_sorted : ℕ → List ℕ → List ℕ
insert_sorted a [] = a ∷ []
insert_sorted a (x ∷ xs) = if leb a x then a ∷ x ∷ xs else x ∷ insert_sorted a xs

pub sort : List ℕ → List ℕ
unfolding insert_sorted
sort [] = []
sort (x ∷ xs) = insert_sorted x (sort xs)

-- `dedup`: of equal neighbours the first is kept.
dedup_after : ℕ → List ℕ → List ℕ
dedup_after a [] = []
dedup_after a (x ∷ xs) = let rest = dedup_after x xs in if x == a then rest else x ∷ rest

pub dedup : List ℕ → List ℕ
unfolding dedup_after
dedup [] = []
dedup (x ∷ xs) = x ∷ dedup_after x xs

-- `get_or`, as `unwrap_or`.
abbrev pub unwrap_or : Option ℕ → ℕ → ℕ
unwrap_or none d = d
unwrap_or (some a) d = a

-- `BoundedVec::try_push`, its answer dropped.
abbrev pub try_push : ℕ → List ℕ → ℕ → List ℕ
try_push bound xs a = if ltb (length xs) bound then xs ++ a ∷ [] else xs

-- `iter().position(|participant| participant.is_none())`
abbrev pub first_free : List (Option ℕ) → Option ℕ
first_free [] = none
first_free (none ∷ r) = some 0
first_free (some a ∷ r) = elim (first_free r) [ none ↦ none | some i ↦ some (suc i) ]

module _ (rt : Runtime) where
  -- The loop over the invited: each is recorded, and pushed to the list that the event carries.
  pub invite_all : ℕ → List ℕ → List ℕ → Exec rt.Ledger (List ℕ)
  invite_all rosca_id [] eligible = pure eligible
  invite_all rosca_id (a ∷ rest) eligible = do
    modify λ s. record s {
      rosca_invited_preverified_participants =
          insert₂ s.rosca_invited_preverified_participants rosca_id a true;
    }
    invite_all rosca_id rest (try_push rt.max_participants eligible a)

  unfoldable pub create_rosca :
      rt.Origin
      → (random_order : Bool) (invited : List ℕ)
      → (minimum_participant_threshold contribution_amount : ℕ) (payment_asset : PaymentAssets)
      → (contribution_frequency start_by_timestamp : ℕ) (position : Option ℕ) (name : List ℕ)
      → Exec rt.Ledger Unit
  unfolding invite_all sort dedup
  create_rosca origin random_order invited threshold amount asset frequency start_by position name =
      do
        signer ← signer_of (rt.ensure_signed origin)
        ensure (ltb 0 amount) contribution_amount_must_be_positive
        ensure (ltb 0 frequency) frequency_must_be_positive
        ensure (ltb rt.max_invited_participants rt.max_participants) arithmetic_error
        ensure (not (contains invited signer)) cant_invite_self
        let invitees = dedup (sort invited)
        now ← gets (λ s. s.now)
        let place = unwrap_or position 0
        let number = length invitees + 1
        ensure (leb threshold number) threshold_too_high
        ensure (ltb place rt.max_participants) position_too_large
        ensure (ltb now start_by) start_by_timestamp_must_be_future
        rosca_id ← gets (λ s. s.next_rosca_id)
        -- `rosca_participants[position as usize] = Some(signer)` panics out of bounds
        let free : List (Option ℕ) = replicate number none
        index (get_elem? free place)
        let order = set free place (some signer)
        modify λ s. record s {
          rosca_invited_preverified_participants =
              insert₂ s.rosca_invited_preverified_participants rosca_id signer true;
        }
        eligible ← invite_all rosca_id invitees (try_push rt.max_participants [] signer)
        ensure (leb number rt.max_participants) too_many_proposed_participants
        modify λ s. record s {
          pending_rosca_participants_order =
              insert s.pending_rosca_participants_order rosca_id (some order);
          rosca_participants = insert₂ s.rosca_participants rosca_id signer (some place);
          rosca_participants_count = insert s.rosca_participants_count rosca_id (some 1);
          pending_rosca_details = insert s.pending_rosca_details rosca_id (
              some (record {
                random_order = random_order;
                number_of_participants = number;
                minimum_participant_threshold = threshold;
                contribution_amount = amount;
                payment_asset = asset;
                contribution_frequency = frequency;
                start_by_timestamp = start_by;
                name = name;
              }));
          -- `new_rosca_id + 1` wraps in a release build
          next_rosca_id = (rosca_id + 1) % u32_mod;
        }
        deposit_event (
            rosca_created rosca_id amount asset frequency random_order name number threshold
              start_by eligible signer)

  -- The position that a joining account takes, and the order with the account in it.
  pub take_position : Option ℕ → ℕ → List (Option ℕ) → Exec rt.Ledger (List (Option ℕ) × ℕ)
  take_position (some i) signer order = do
    current ← ok_or (get_elem? order i) position_too_large
    ensure (is_none current) position_already_filled
    pure (set order i (some signer), i)
  take_position none signer order = do
    i ← ok_or (first_free order) all_positions_filled
    pure (set order i (some signer), i)

  unfoldable pub join_rosca : rt.Origin → ℕ → Option ℕ → Exec rt.Ledger Unit
  unfolding take_position
  join_rosca origin rosca_id position = do
    signer ← signer_of (rt.ensure_signed origin)
    ensure (is_none (← gets (λ s. s.active_roscas rosca_id))) rosca_already_active
    ensure (is_none (← gets (λ s. s.rosca_participants rosca_id signer))) already_joined
    ensure (← gets (λ s. s.rosca_invited_preverified_participants rosca_id signer)) not_invited
    rosca ← ok_or (← gets (λ s. s.pending_rosca_details rosca_id)) rosca_not_found
    ensure (ltb (← gets (λ s. s.now)) rosca.start_by_timestamp) start_by_timestamp_must_be_future
    order ← ok_or (← gets (λ s. s.pending_rosca_participants_order rosca_id)) rosca_not_found
    placed ← take_position position signer order
    modify λ s. record s {
      pending_rosca_participants_order =
          insert s.pending_rosca_participants_order rosca_id (some placed.0);
      rosca_participants = insert₂ s.rosca_participants rosca_id signer (some placed.1);
    }
    count ←
        ok_or (← gets (λ s. s.rosca_participants_count rosca_id)) rosca_participant_count_not_found
    more ← ok_or (checked_add u32_mod count 1) arithmetic_overflow
    modify λ s. record s {
      rosca_participants_count = insert s.rosca_participants_count rosca_id (some more);
    }
    deposit_event (joined_rosca rosca_id signer)

  -- The security deposit, if there is one, goes back to the account that leaves.
  pub refund : ℕ → ℕ → PaymentAssets → ℕ → Exec rt.Ledger Unit
  refund rosca_id signer asset zero = pure tt
  refund rosca_id signer asset (suc d) = do
    transfer rt (id asset) (rt.sub_account rosca_id) signer (suc d)
    modify λ s. record s {
      rosca_security_deposits = insert₂ s.rosca_security_deposits rosca_id signer none;
    }
    deposit_event (security_deposit_claimed rosca_id signer (suc d))

  unfoldable pub leave_rosca : rt.Origin → ℕ → Exec rt.Ledger Unit
  unfolding refund
  leave_rosca origin rosca_id = do
    signer ← signer_of (rt.ensure_signed origin)
    ensure (is_none (← gets (λ s. s.active_roscas rosca_id))) rosca_already_active
    place ← ok_or (← gets (λ s. s.rosca_participants rosca_id signer)) not_a_participant
    rosca ← ok_or (← gets (λ s. s.pending_rosca_details rosca_id)) rosca_not_found
    order ←
        ok_or (← gets (λ s. s.pending_rosca_participants_order rosca_id))
          rosca_participants_not_found
    index (get_elem? order place)
    modify λ s. record s {
      rosca_participants = insert₂ s.rosca_participants rosca_id signer none;
      pending_rosca_participants_order =
          insert s.pending_rosca_participants_order rosca_id (some (set order place none));
    }
    count ←
        ok_or (← gets (λ s. s.rosca_participants_count rosca_id)) rosca_participant_count_not_found
    fewer ← ok_or (checked_sub count 1) arithmetic_underflow
    modify λ s. record s {
      rosca_participants_count = insert s.rosca_participants_count rosca_id (some fewer);
    }
    deposit ← gets (λ s. unwrap_or (s.rosca_security_deposits rosca_id signer) 0)
    refund rosca_id signer rosca.payment_asset deposit
    deposit_event (left_rosca rosca_id signer)
