-- ===== src/Rosca/Storage.antt =====
-- The storage items of lib.rs, and what the pallet reads of the runtime around it.
use dotcircles.Prelude.{ℕ, List, Bool, Option, Map, DoubleMap}
use dotcircles.Rosca.Types.{RoscaDetails, Event}

-- The answer of `ForeignCurrency::transfer`: the new ledger, or a `DispatchError` by its code.
pub data Transfer (L : Type 0) : Type 0 where
  moved : L → Transfer L
  refused : ℕ → Transfer L

-- The `Config` trait: what the runtime supplies, and no law of it.
pub record Runtime : Type 1 where
  pub Origin : Type 0
  pub ensure_signed : Origin → Option ℕ
  -- the state of `ForeignCurrency`
  pub Ledger : Type 0
  -- asset, source, destination, amount, at preservation `Expendable`
  pub transfer : ℕ → ℕ → ℕ → ℕ → Ledger → Transfer Ledger
  pub max_participants : ℕ
  pub max_invited_participants : ℕ
  -- `PalletId::get().into_sub_account_truncating(rosca_id)`
  pub sub_account : ℕ → ℕ
  -- the keys that stay after `clear_prefix` with this limit
  pub clear_prefix : ℕ → List ℕ → List ℕ
  pub block_hash : ℕ → List ℕ
  pub blake2_128 : List ℕ → List ℕ

-- A map to `()` is the test whether a key is present. The second keys of `CurrentContributors`
-- are a list, since `clear_prefix` enumerates them.
pub record State (L : Type 0) : Type 0 where
  pub next_rosca_id : ℕ
  pub active_roscas : Map (Option RoscaDetails)
  pub completed_roscas : Map Bool
  pub rosca_participants : DoubleMap (Option ℕ)
  pub rosca_invited_preverified_participants : DoubleMap Bool
  pub rosca_participants_count : Map (Option ℕ)
  pub rosca_security_deposits : DoubleMap (Option ℕ)
  pub pending_rosca_participants_order : Map (Option (List (Option ℕ)))
  pub active_rosca_participants_order : Map (Option (List ℕ))
  pub pending_rosca_details : Map (Option RoscaDetails)
  pub next_pay_by_timestamp : Map (Option ℕ)
  pub final_pay_by_timestamp : Map (Option ℕ)
  pub eligible_claimant : Map (Option ℕ)
  pub rosca_accounts : Map (Option ℕ)
  pub current_contributors : Map (List ℕ)
  pub current_contribution_count : Map ℕ
  pub default_count : DoubleMap ℕ
  -- `pallet_timestamp::get()` and `frame_system::block_number()`
  pub now : ℕ
  pub block_number : ℕ
  pub ledger : L
  -- the calls of `deposit_event`, the latest first
  pub events : List Event
