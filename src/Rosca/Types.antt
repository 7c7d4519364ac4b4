-- ===== src/Rosca/Types.antt =====
-- The data of the pallet: types.rs, and the events and errors of lib.rs.
-- An account is a number: accounts are only compared and sorted. A `Moment` is a `u64`.
use dotcircles.Prelude.{ℕ, List, Bool}

pub data PaymentAssets : Type 0 where
  usdt usdc : PaymentAssets

-- `PaymentAssets::id`
unfoldable pub id : PaymentAssets → ℕ
id usdt = 1984
id usdc = 1337

pub record RoscaDetails : Type 0 where
  pub random_order : Bool
  pub number_of_participants : ℕ
  pub minimum_participant_threshold : ℕ
  pub contribution_amount : ℕ
  pub payment_asset : PaymentAssets
  pub contribution_frequency : ℕ
  pub start_by_timestamp : ℕ
  pub name : List ℕ

pub record RoundInfo : Type 0 where
  pub round_number : ℕ
  pub payment_cutoff : ℕ
  pub expected_contributors : List ℕ
  pub recipient : ℕ

pub data Error : Type 0 where
  conversion_error arithmetic_overflow arithmetic_underflow multiply_error : Error
  division_error arithmetic_error contribution_amount_must_be_positive : Error
  frequency_must_be_positive start_by_timestamp_must_be_future : Error
  too_many_proposed_participants position_too_large rosca_not_found : Error
  position_already_filled already_joined rosca_already_active : Error
  security_deposit_not_found security_deposit_is_zero all_positions_filled : Error
  rosca_participants_not_found not_a_participant participant_threshold_not_met : Error
  rosca_participant_count_not_found rosca_not_active cant_contribute_to_self : Error
  no_eligble_claimant already_contributed no_next_pay_by_timestamp : Error
  final_pay_by_timestamp_not_found final_pay_by_timestamp_must_be_past : Error
  rosca_not_completed cant_contribute_beyond_final_pay_by rosca_already_completed : Error
  not_invited cant_invite_self threshold_too_high rosca_still_active too_many_rounds : Error

pub data Event : Type 0 where
  rosca_created :
      (rosca_id contribution_amount : ℕ) (payment_asset : PaymentAssets)
      (contribution_frequency : ℕ) (random_order : Bool) (name : List ℕ)
      (number_of_participants minimum_participant_threshold start_by_timestamp : ℕ)
      (eligible_participants : List ℕ) (creator : ℕ)
      → Event
  participant_defaulted : (rosca_id unpaid_recipient defaulter : ℕ) → Event
  contribution_made : (rosca_id contributor recipient amount : ℕ) → Event
  deposit_deducted : (rosca_id contributor recipient amount : ℕ) (sufficient : Bool) → Event
  joined_rosca : (rosca_id contributor : ℕ) → Event
  left_rosca : (rosca_id contributor : ℕ) → Event
  rosca_started :
      (rosca_id started_by : ℕ) (rounds : List RoundInfo)
      (first_eligible_claimant first_payment_cutoff : ℕ)
      → Event
  rosca_complete : (rosca_id : ℕ) → Event
  security_deposit_contribution : (rosca_id depositor amount : ℕ) → Event
  security_deposit_claimed : (rosca_id depositor amount : ℕ) → Event
  rosca_manually_ended : (rosca_id : ℕ) → Event
  new_round_started : (rosca_id new_eligible_recipient payment_cutoff : ℕ) → Event
