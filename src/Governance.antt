-- ===== src/Governance.antt =====
-- The origins of governance and its tracks: runtime/src/configs/governance/.
pub mod Origins
pub mod Tracks
use dotcircles.Prelude.{
  Bool, List, Option, [], false, if◌then◌else◌, none, some, true, ℕ, ◌*◌, ◌-◌, ◌==◌, ◌∷◌,
}
use dotcircles.Currency.{cents, deposit, grand, minutes, u128_mod}

pub data Origin : Type 0 where
  treasurer referendum_canceller referendum_killer small_tipper big_tipper small_spender : Origin
  medium_spender big_spender whitelisted_caller : Origin

-- An origin of the runtime: `Into<Result<Origin, O>> + From<Origin>`.
pub data Converted (O : Type 0) : Type 0 where
  custom : Origin → Converted O
  foreign : O → Converted O

-- `Result<Success, O>`
pub data Ensured (S O : Type 0) : Type 0 where
  granted : S → Ensured S O
  denied : O → Ensured S O

pub record Convert (O : Type 0) : Type 0 where
  pub into : O → Converted O
  pub from : Origin → O

-- The arms of `decl_ensure!`: what each origin may spend; the others fall to `r => Err(..)`.
abbrev pub limit : Origin → Option ℕ
limit small_tipper = some (250 * 3 * cents)
limit big_tipper = some grand
limit small_spender = some (10 * grand)
limit medium_spender = some (100 * grand)
limit big_spender = some (1000 * grand)
limit treasurer = some (10000 * grand)
limit referendum_canceller = none
limit referendum_killer = none
limit whitelisted_caller = none

module _ {O : Type 0} (c : Convert O) where
  abbrev pub answer : Option ℕ → Origin → Ensured ℕ O
  answer none r = denied (c.from r)
  answer (some s) r = granted s

  abbrev pub answers : Converted O → Ensured ℕ O
  answers (foreign o) = denied o
  answers (custom r) = answer (limit r) r

  -- `Spender::try_origin`
  unfoldable pub try_spender : O → Ensured ℕ O
  try_spender o = answers (c.into o)

-- The origins of `decl_unit_ensures!`, and the arm of each.
pub data UnitOrigin : Type 0 where
  as_treasurer as_referendum_canceller as_referendum_killer as_whitelisted_caller : UnitOrigin

abbrev pub accepts : UnitOrigin → Origin → Bool
accepts as_treasurer treasurer = true
accepts as_referendum_canceller referendum_canceller = true
accepts as_referendum_killer referendum_killer = true
accepts as_whitelisted_caller whitelisted_caller = true
accepts _ _ = false

module _ {O : Type 0} (c : Convert O) where
  abbrev pub unit_answer : Bool → Origin → Ensured Unit O
  unit_answer true r = granted tt
  unit_answer false r = denied (c.from r)

  abbrev pub unit_answers : UnitOrigin → Converted O → Ensured Unit O
  unit_answers u (foreign o) = denied o
  unit_answers u (custom r) = unit_answer (accepts u r) r

  -- `try_origin` of `Treasurer`, `ReferendumCanceller`, `ReferendumKiller`, `WhitelistedCaller`
  unfoldable pub try_unit : UnitOrigin → O → Ensured Unit O
  try_unit u o = unit_answers u (c.into o)

-- What the packages `frame_system` and `frame_support` give: the origin of root, with a value, and
-- the combination of two origins.
pub record Combine (O : Type 0) : Type 1 where
  pub ensure_root : {S : Type 0} → S → O → Ensured S O
  pub either_of : {S : Type 0} → (O → Ensured S O) → (O → Ensured S O) → O → Ensured S O

-- `Balance::MAX`
abbrev pub max_balance : ℕ
max_balance = u128_mod - 1

module _ {O : Type 0} (c : Convert O) (k : Combine O) where
  -- `TreasurySpender`
  unfoldable pub treasury_spender : O → Ensured ℕ O
  unfolding try_spender
  treasury_spender = k.either_of (k.ensure_root max_balance) (try_spender c)

  -- `DispatchWhitelistedOrigin` of the pallet of whitelists
  unfoldable pub dispatch_whitelisted : O → Ensured Unit O
  unfolding try_unit
  dispatch_whitelisted = k.either_of (k.ensure_root tt) (try_unit c as_whitelisted_caller)

-- What `frame_system::RawOrigin::try_from` and `origins::Origin::try_from` make of an origin.
pub data PalletsOrigin : Type 0 where
  root not_root other : PalletsOrigin
  governance : Origin → PalletsOrigin

-- `TracksInfo::track_for`
unfoldable pub track_for : PalletsOrigin → Option ℕ
track_for root = some 0
track_for not_root = none
track_for other = none
track_for (governance whitelisted_caller) = some 1
track_for (governance treasurer) = some 11
track_for (governance referendum_canceller) = some 20
track_for (governance referendum_killer) = some 21
track_for (governance small_tipper) = some 30
track_for (governance big_tipper) = some 31
track_for (governance small_spender) = some 32
track_for (governance medium_spender) = some 33
track_for (governance big_spender) = some 34

-- `pallet_referenda::TrackInfo` but for the name and the two curves, which that crate builds.
pub record TrackInfo : Type 0 where
  pub max_deciding : ℕ
  pub decision_deposit : ℕ
  pub prepare_period : ℕ
  pub decision_period : ℕ
  pub confirm_period : ℕ
  pub min_enactment_period : ℕ

abbrev pub track : (most deposit prepare decide confirm enact : ℕ) → TrackInfo
track most deposit prepare decide confirm enact = record {
  max_deciding = most;
  decision_deposit = deposit;
  prepare_period = prepare * minutes;
  decision_period = decide * minutes;
  confirm_period = confirm * minutes;
  min_enactment_period = enact * minutes;
}

-- `TRACKS_DATA`
unfoldable pub tracks : List (ℕ × TrackInfo)
tracks =
    (0, track 1 (100 * grand) 8 20 12 5)
    ∷ (1, track 100 (10 * grand) 6 20 4 3)
    ∷ (11, track 10 grand 8 20 8 5)
    ∷ (20, track 1000 (10 * grand) 8 14 8 3)
    ∷ (21, track 1000 (50 * grand) 8 20 8 3)
    ∷ (30, track 200 (3 * cents) 1 14 4 1)
    ∷ (31, track 100 (10 * 3 * cents) 4 14 12 3)
    ∷ (32, track 50 (100 * 3 * cents) 10 20 10 5)
    ∷ (33, track 50 (200 * 3 * cents) 10 20 12 5)
    ∷ (34, track 50 (400 * 3 * cents) 10 20 14 5)
    ∷ []

-- The track with an id, as `TracksInfo::info` finds it.
abbrev pub info : List (ℕ × TrackInfo) → ℕ → Option TrackInfo
info [] i = none
info ((j, t) ∷ r) i = if i == j then some t else info r i
