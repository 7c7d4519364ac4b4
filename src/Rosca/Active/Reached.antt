-- ===== src/Rosca/Active/Reached.antt =====
-- Where the loop of `contribute_to_rosca` can come to: after a round, and at its end.
-- The local variables of the loop are those of storage.
use dotcircles.Prelude.{
  Option, contains, false, length, none, some, ℕ, ◌+◌, ◌<◌, ◌∙◌, ◌∷◌, ◌≡◌, ◌≤◌,
}
use dotcircles.Rosca.Active.{Round}
use dotcircles.Rosca.Rounds.Agenda.{IsSuffix, IsSuffix-trans, agenda_of}
use dotcircles.Rosca.Rounds.Invariant.{IsActive, IsOpen, IsOver}
use dotcircles.Rosca.Storage.{State}

abbrev pub IsAt : {L : Type 0} {rosca_id : ℕ} {s : State L} → IsActive rosca_id s → Round → Type 0
IsAt v r = (r.next ≡ v.next) × (r.order ≡ v.claimant ∷ v.rest) × (r.claimant ≡ v.claimant)

-- The circle runs on from `s` to `s'`, in the round `r`: its terms, its final cutoff and its size
-- are the same, nobody is new among the contributors, and the round is open.
pub record Continues {L : Type 0} (rosca_id : ℕ) (s : State L) (v : IsActive rosca_id s) (r : Round)
    (s' : State L) : Type 0 where
  pub now_active : IsActive rosca_id s'
  pub at_round : IsAt now_active r
  pub is_open : IsOpen now_active
  pub details : now_active.details ≡ v.details
  pub final : now_active.final ≡ v.final
  pub size : length now_active.rest ≡ length v.rest
  -- the rounds that are left are the last ones of those that were
  pub turns : IsSuffix (agenda_of now_active) (agenda_of v)
  pub keys :
      (a : ℕ)
      → contains (s.current_contributors rosca_id) a ≡ false
      → contains (s'.current_contributors rosca_id) a ≡ false

unfoldable pub Continues-trans :
    {L : Type 0} {rosca_id : ℕ} {s : State L} {v : IsActive rosca_id s} {r : Round} {s₁ : State L}
    {r' : Round} {s' : State L} (c : Continues rosca_id s v r s₁)
    → Continues rosca_id s₁ c.now_active r' s'
    → Continues rosca_id s v r' s'
Continues-trans c d = record {
  now_active = d.now_active;
  at_round = d.at_round;
  is_open = d.is_open;
  details = d.details ∙ c.details;
  final = d.final ∙ c.final;
  size = d.size ∙ c.size;
  turns = IsSuffix-trans _ _ _ d.turns c.turns;
  keys = λ a h. d.keys a (c.keys a h);
}

-- After a round: the circle is over, or runs on in a later round.
abbrev pub Onward :
    {L : Type 0} (rosca_id : ℕ) (s : State L)
    → IsActive rosca_id s
    → Option Round
    → State L
    → Type 0
Onward rosca_id s v none s' = IsOver rosca_id s'
Onward rosca_id s v (some r) s' =
    (c : Continues rosca_id s v r s') × (v.next + 1 ≤ c.now_active.next)

-- Where the loop stops: at the end of the circle, or in the round that `now` falls in.
abbrev pub Reached :
    {L : Type 0} (rosca_id : ℕ) (s : State L)
    → IsActive rosca_id s
    → (now : ℕ) → Option Round
    → State L
    → Type 0
Reached rosca_id s v now none s' = IsOver rosca_id s'
Reached rosca_id s v now (some r) s' = (c : Continues rosca_id s v r s') × (now < c.now_active.next)
