-- ===== src/Rosca/World/Elsewhere.antt =====
-- A circle that a step leaves as it is keeps its invariants.
use dotcircles.Prelude.{ap, inl, inr, is_some, length, sym, ℕ, ◌∙◌}
use dotcircles.Rosca.World.{IsBlank}
use dotcircles.Rosca.Elsewhere.{SameAt}
use dotcircles.Rosca.Life.{InLife}
use dotcircles.Rosca.Pending.Invariant.{IsPending}
use dotcircles.Rosca.Rounds.Invariant.{IsActive, IsOpen, IsOver}
use dotcircles.Rosca.Start.Starting.{IsUnplayed}
use dotcircles.Rosca.Storage.{Runtime, State}

module _ {L : Type 0} (j : ℕ) (s s' : State L) (same : SameAt j s s') where
  SameAt-IsPending : (bound : ℕ) → IsPending bound j s → IsPending bound j s'
  SameAt-IsPending bound v = record {
    details = v.details;
    order = v.order;
    inactive = same.active ∙ v.inactive;
    found = same.details ∙ v.found;
    ordered = same.pending_order ∙ v.ordered;
    counted = same.count ∙ v.counted;
    sized = v.sized;
    fits = v.fits;
    positive = v.positive;
    pays = v.pays;
    threshold = v.threshold;
    seat = λ a i h. v.seat a i (sym (same.participants a) ∙ h);
    taken = λ a i h. same.participants a ∙ v.taken a i h;
    invited = λ a i h. same.invited a ∙ v.invited a i (sym (same.participants a) ∙ h);
  }

  SameAt-IsUnplayed : IsUnplayed j s → IsUnplayed j s'
  SameAt-IsUnplayed u = record {
    running = same.completed ∙ u.running;
    contributors = same.contributors ∙ u.contributors;
    contributions = same.contributions ∙ u.contributions;
  }

  SameAt-IsOver : IsOver j s → IsOver j s'
  SameAt-IsOver o = record {
    closed = same.active ∙ o.closed;
    completed = same.completed ∙ o.completed;
    gone = same.details ∙ o.gone;
  }

  SameAt-IsActive : IsActive j s → IsActive j s'
  SameAt-IsActive v = record {
    details = v.details;
    claimant = v.claimant;
    rest = v.rest;
    next = v.next;
    final = v.final;
    left = v.left;
    active = same.active ∙ v.active;
    running = same.completed ∙ v.running;
    gone = same.details ∙ v.gone;
    eligible = same.claimant ∙ v.eligible;
    ordered = same.active_order ∙ v.ordered;
    distinct = v.distinct;
    next_at = same.next_at ∙ v.next_at;
    final_at = same.final_at ∙ v.final_at;
    positive = v.positive;
    pays = v.pays;
    rounds = v.rounds;
    few = v.few;
    counted = same.contributions ∙ v.counted ∙ ap length (sym same.contributors);
    bounded = rw same.contributors v.bounded;
    members = λ a h. v.members a (ap is_some (sym (same.participants a)) ∙ h);
  }

  SameAt-IsOpen : (v : IsActive j s) → IsOpen v → IsOpen (SameAt-IsActive v)
  unfolding SameAt-IsActive
  SameAt-IsOpen v op = rw same.contributors op

  pub SameAt-IsBlank : IsBlank j s → IsBlank j s'
  SameAt-IsBlank b = record {
    inactive = same.active ∙ b.inactive;
    nobody = λ a. same.participants a ∙ b.nobody a;
    unopened = same.details ∙ b.unopened;
    running = same.completed ∙ b.running;
    contributors = same.contributors ∙ b.contributors;
    contributions = same.contributions ∙ b.contributions;
  }

module _ (rt : Runtime) (j : ℕ) (s s' : State rt.Ledger) (same : SameAt j s s') where
  pub SameAt-InLife : InLife rt j s → InLife rt j s'
  SameAt-InLife (inl (v, u)) =
      inl (SameAt-IsPending j s s' same rt.max_participants v, SameAt-IsUnplayed j s s' same u)
  SameAt-InLife (inr (inl o)) = inr (inl (SameAt-IsOver j s s' same o))
  SameAt-InLife (inr (inr (v, op))) =
      inr (inr (SameAt-IsActive j s s' same v, SameAt-IsOpen j s s' same v op))
