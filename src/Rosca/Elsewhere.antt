-- ===== src/Rosca/Elsewhere.antt =====
-- A circle that another one's calls leave as it is.
use dotcircles.Prelude.{refl, ℕ, ◌≡◌}
use dotcircles.Rosca.Effects.{deposit_event, log, transfer}
use dotcircles.Rosca.Effects.Keeps.{Keeps, keep_event, keep_transfer}
use dotcircles.Rosca.Storage.{Runtime, State}
use dotcircles.Rosca.Types.{Event}

-- Every storage item of the circle `j` is the same in `s'` as in `s`.
pub record SameAt {L : Type 0} (j : ℕ) (s s' : State L) : Type 0 where
  pub active : s'.active_roscas j ≡ s.active_roscas j
  pub completed : s'.completed_roscas j ≡ s.completed_roscas j
  pub participants : (a : ℕ) → s'.rosca_participants j a ≡ s.rosca_participants j a
  pub invited :
      (a : ℕ)
      → s'.rosca_invited_preverified_participants j a ≡ s.rosca_invited_preverified_participants j a
  pub count : s'.rosca_participants_count j ≡ s.rosca_participants_count j
  pub deposits : (a : ℕ) → s'.rosca_security_deposits j a ≡ s.rosca_security_deposits j a
  pub pending_order : s'.pending_rosca_participants_order j ≡ s.pending_rosca_participants_order j
  pub active_order : s'.active_rosca_participants_order j ≡ s.active_rosca_participants_order j
  pub details : s'.pending_rosca_details j ≡ s.pending_rosca_details j
  pub next_at : s'.next_pay_by_timestamp j ≡ s.next_pay_by_timestamp j
  pub final_at : s'.final_pay_by_timestamp j ≡ s.final_pay_by_timestamp j
  pub claimant : s'.eligible_claimant j ≡ s.eligible_claimant j
  pub contributors : s'.current_contributors j ≡ s.current_contributors j
  pub contributions : s'.current_contribution_count j ≡ s.current_contribution_count j
  pub defaults : (a : ℕ) → s'.default_count j a ≡ s.default_count j a
  pub account : s'.rosca_accounts j ≡ s.rosca_accounts j

pub SameAt-refl : {L : Type 0} (j : ℕ) (s : State L) → SameAt j s s
SameAt-refl j s = record {
  active = refl;
  completed = refl;
  participants = λ a. refl;
  invited = λ a. refl;
  count = refl;
  deposits = λ a. refl;
  pending_order = refl;
  active_order = refl;
  details = refl;
  next_at = refl;
  final_at = refl;
  claimant = refl;
  contributors = refl;
  contributions = refl;
  defaults = λ a. refl;
  account = refl;
}

module _ {L : Type 0} (j : ℕ) (s₀ : State L) where
  -- A write that touches nothing of the circle `j`.
  pub SameAt-ledger : (l : L) (s : State L) → SameAt j s₀ s → SameAt j s₀ (record s { ledger = l })
  SameAt-ledger l s v = record {
    active = v.active;
    completed = v.completed;
    participants = v.participants;
    invited = v.invited;
    count = v.count;
    deposits = v.deposits;
    pending_order = v.pending_order;
    active_order = v.active_order;
    details = v.details;
    next_at = v.next_at;
    final_at = v.final_at;
    claimant = v.claimant;
    contributors = v.contributors;
    contributions = v.contributions;
    defaults = v.defaults;
    account = v.account;
  }

  pub SameAt-log : (e : Event) (s : State L) → SameAt j s₀ s → SameAt j s₀ (log e s)
  SameAt-log e s v = record {
    active = v.active;
    completed = v.completed;
    participants = v.participants;
    invited = v.invited;
    count = v.count;
    deposits = v.deposits;
    pending_order = v.pending_order;
    active_order = v.active_order;
    details = v.details;
    next_at = v.next_at;
    final_at = v.final_at;
    claimant = v.claimant;
    contributors = v.contributors;
    contributions = v.contributions;
    defaults = v.defaults;
    account = v.account;
  }

-- So is the id that the next circle gets.
abbrev pub Untouched : {L : Type 0} → ℕ → State L → State L → Type 0
Untouched j s s' = SameAt j s s' × (s'.next_rosca_id ≡ s.next_rosca_id)

module _ (rt : Runtime) (j : ℕ) (s₀ : State rt.Ledger) where
  pub keep_log : (e : Event) → Keeps (Untouched j s₀) (deposit_event e)
  keep_log e = keep_event e (λ s v. (SameAt-log j s₀ e s v.0, v.1))

  pub keep_pay :
      (asset from to amount : ℕ) → Keeps (Untouched j s₀) (transfer rt asset from to amount)
  keep_pay asset from to amount =
      keep_transfer rt asset from to amount (λ l s v. (SameAt-ledger j s₀ l s v.0, v.1))
