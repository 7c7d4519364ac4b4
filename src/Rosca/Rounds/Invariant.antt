-- ===== src/Rosca/Rounds/Invariant.antt =====
-- The invariant of a started circle.
use dotcircles.Prelude.{
  Distinct, List, [], contains, false, is_some, length, none, some, true, ℕ, ◌*◌, ◌+◌, ◌<◌, ◌∷◌,
  ◌≡◌, ◌≤◌, ◌⊎◌,
}
use dotcircles.Rosca.Rounds.Participant.{Settled}
use dotcircles.Rosca.Storage.{Runtime, State}
use dotcircles.Rosca.Types.{RoscaDetails}

-- The claimant heads the order; the final cutoff is a whole number of rounds, fewer than the
-- participants, after the next one; who has contributed is counted.
pub record IsActive {L : Type 0} (rosca_id : ℕ) (s : State L) : Type 0 where
  pub details : RoscaDetails
  pub claimant : ℕ
  pub rest : List ℕ
  pub next : ℕ
  pub final : ℕ
  pub left : ℕ
  pub active : s.active_roscas rosca_id ≡ some details
  pub running : s.completed_roscas rosca_id ≡ false
  pub gone : s.pending_rosca_details rosca_id ≡ none
  pub eligible : s.eligible_claimant rosca_id ≡ some claimant
  pub ordered : s.active_rosca_participants_order rosca_id ≡ some (claimant ∷ rest)
  pub distinct : Distinct (claimant ∷ rest)
  pub next_at : s.next_pay_by_timestamp rosca_id ≡ some next
  pub final_at : s.final_pay_by_timestamp rosca_id ≡ some final
  pub positive : 0 < details.contribution_frequency
  pub pays : 0 < details.contribution_amount
  pub rounds : next + left * details.contribution_frequency ≡ final
  pub few : left ≤ length rest
  pub counted : s.current_contribution_count rosca_id ≡ length (s.current_contributors rosca_id)
  pub bounded : length (s.current_contributors rosca_id) ≤ length rest
  -- whoever has a position is in the order
  pub members :
      (a : ℕ)
      → is_some (s.rosca_participants rosca_id a) ≡ true
      → contains (claimant ∷ rest) a ≡ true

-- Not all have contributed yet: the round is still open.
abbrev pub IsOpen : {L : Type 0} {rosca_id : ℕ} {s : State L} → IsActive rosca_id s → Type 0
IsOpen {rosca_id = rosca_id} {s = s} v =
    (length (s.current_contributors rosca_id) ≡ 0)
    ⊎ (length (s.current_contributors rosca_id) < length v.rest)

-- A circle that is over.
pub record IsOver {L : Type 0} (rosca_id : ℕ) (s : State L) : Type 0 where
  pub closed : s.active_roscas rosca_id ≡ none
  pub completed : s.completed_roscas rosca_id ≡ true
  pub gone : s.pending_rosca_details rosca_id ≡ none

-- What the loops rely on of `clear_prefix`: with a limit that covers the keys it removes them all.
abbrev pub Clears : Runtime → Type 0
Clears rt = (limit : ℕ) (keys : List ℕ) → length keys ≤ limit → rt.clear_prefix limit keys ≡ []

unfoldable pub Settled-IsActive :
    {L : Type 0} {rosca_id claimant : ℕ} {rosca : RoscaDetails} {order : List ℕ} {s s' : State L}
    → Settled rosca_id rosca claimant order s s'
    → IsActive rosca_id s
    → IsActive rosca_id s'
Settled-IsActive w v = record {
  details = v.details;
  claimant = v.claimant;
  rest = v.rest;
  next = v.next;
  final = v.final;
  left = v.left;
  active = rw w.frame v.active;
  running = rw w.frame v.running;
  gone = rw w.frame v.gone;
  eligible = rw w.frame v.eligible;
  ordered = rw w.frame v.ordered;
  distinct = v.distinct;
  next_at = rw w.frame v.next_at;
  final_at = rw w.frame v.final_at;
  positive = v.positive;
  pays = v.pays;
  rounds = v.rounds;
  few = v.few;
  counted = rw w.frame v.counted;
  bounded = rw w.frame v.bounded;
  members = rw w.frame v.members;
}
