-- ===== src/Rosca/Life.antt =====
-- The life of one circle: the calls on it that return, and what goes on around them.
pub mod Frames
pub mod Refusals
pub mod Course
pub mod Safety
pub mod Schedule
use dotcircles.Prelude.{Option, ℕ, ◌≡◌, ◌⊎◌}
use dotcircles.Rosca.Active.{contribute_to_rosca, manually_end_rosca}
use dotcircles.Rosca.Active.Contribute.{Ended}
use dotcircles.Rosca.Deposits.{add_to_security_deposit, claim_security_deposit}
use dotcircles.Rosca.Effects.{ok}
use dotcircles.Rosca.Pending.{join_rosca, leave_rosca}
use dotcircles.Rosca.Pending.Invariant.{IsPending}
use dotcircles.Rosca.Start.{start_rosca}
use dotcircles.Rosca.Start.Starting.{IsUnplayed}
use dotcircles.Rosca.Storage.{Runtime, State}
use dotcircles.Rosca.Types.{PaymentAssets}

-- One step: a call on the circle that returns, or a time in which the clock and the block number
-- move and others change the ledger.
pub data Step (rt : Runtime) (rosca_id : ℕ) : State rt.Ledger → State rt.Ledger → Type 0 where
  joins :
      (origin : rt.Origin) (position : Option ℕ) {s s' : State rt.Ledger}
      → join_rosca rt origin rosca_id position s ≡ (ok tt, s')
      → Step rt rosca_id s s'
  leaves :
      (origin : rt.Origin) {s s' : State rt.Ledger}
      → leave_rosca rt origin rosca_id s ≡ (ok tt, s')
      → Step rt rosca_id s s'
  starts :
      (origin : rt.Origin) {s s' : State rt.Ledger}
      → start_rosca rt origin rosca_id s ≡ (ok tt, s')
      → Step rt rosca_id s s'
  contributes :
      (origin : rt.Origin) {s s' : State rt.Ledger}
      → contribute_to_rosca rt rosca_id origin s ≡ (ok tt, s')
      → Step rt rosca_id s s'
  ends :
      (origin : rt.Origin) {s s' : State rt.Ledger}
      → manually_end_rosca rt rosca_id origin s ≡ (ok tt, s')
      → Step rt rosca_id s s'
  adds :
      (origin : rt.Origin) (amount : ℕ) {s s' : State rt.Ledger}
      → add_to_security_deposit rt rosca_id origin amount s ≡ (ok tt, s')
      → Step rt rosca_id s s'
  claims :
      (origin : rt.Origin) (asset : PaymentAssets) {s s' : State rt.Ledger}
      → claim_security_deposit rt rosca_id origin asset s ≡ (ok tt, s')
      → Step rt rosca_id s s'
  passes :
      (time block : ℕ) (l : rt.Ledger) {s : State rt.Ledger}
      → Step rt rosca_id s (record s { now = time; block_number = block; ledger = l })

pub data Steps (rt : Runtime) (rosca_id : ℕ) : State rt.Ledger → State rt.Ledger → Type 0 where
  stays : {s : State rt.Ledger} → Steps rt rosca_id s s
  goes_on :
      {s s₁ s' : State rt.Ledger}
      → Steps rt rosca_id s s₁
      → Step rt rosca_id s₁ s'
      → Steps rt rosca_id s s'

-- A circle that has not started, is over, or runs in an open round.
abbrev pub InLife : (rt : Runtime) (rosca_id : ℕ) → State rt.Ledger → Type 0
InLife rt rosca_id s =
    (IsPending rt.max_participants rosca_id s × IsUnplayed rosca_id s) ⊎ Ended rt rosca_id s
