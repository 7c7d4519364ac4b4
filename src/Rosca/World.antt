-- ===== src/Rosca/World.antt =====
-- All circles together: calls on any of them, in any order, and the passing of time.
pub mod Elsewhere
pub mod Blank
pub mod Others
pub mod Soundness
pub mod Calm
pub mod Backing
use dotcircles.Prelude.{Option, [], false, none, u32_mod, ℕ, ◌+◌, ◌<◌, ◌≡◌, ◌≤◌}
use dotcircles.Rosca.Effects.{ok}
use dotcircles.Rosca.Life.{InLife, Step}
use dotcircles.Rosca.Pending.Create.{Request, create}
use dotcircles.Rosca.Storage.{Runtime, State}

-- A circle is created, or a step is taken on one of the circles. An id that would wrap round at
-- 2^32 is left out.
pub data Move (rt : Runtime) : State rt.Ledger → State rt.Ledger → Type 0 where
  creates :
      (origin : rt.Origin) (r : Request) (position : Option ℕ) {s s' : State rt.Ledger}
      → s.next_rosca_id + 1 < u32_mod
      → create rt origin r position s ≡ (ok tt, s')
      → Move rt s s'
  acts : (rosca_id : ℕ) {s s' : State rt.Ledger} → Step rt rosca_id s s' → Move rt s s'

pub data Moves (rt : Runtime) : State rt.Ledger → State rt.Ledger → Type 0 where
  rests : {s : State rt.Ledger} → Moves rt s s
  moves_on : {s s₁ s' : State rt.Ledger} → Moves rt s s₁ → Move rt s₁ s' → Moves rt s s'

-- Nothing is stored at an id.
pub record IsBlank {L : Type 0} (rosca_id : ℕ) (s : State L) : Type 0 where
  pub inactive : s.active_roscas rosca_id ≡ none
  pub nobody : (a : ℕ) → s.rosca_participants rosca_id a ≡ none
  pub unopened : s.pending_rosca_details rosca_id ≡ none
  pub running : s.completed_roscas rosca_id ≡ false
  pub contributors : s.current_contributors rosca_id ≡ []
  pub contributions : s.current_contribution_count rosca_id ≡ 0

-- Every circle that has been created is in its life, and nothing is stored at the ids to come.
abbrev pub IsSound : (rt : Runtime) → State rt.Ledger → Type 0
IsSound rt s =
    (rosca_id : ℕ)
    → (rosca_id < s.next_rosca_id → InLife rt rosca_id s)
      × (s.next_rosca_id ≤ rosca_id → IsBlank rosca_id s)
