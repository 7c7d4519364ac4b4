-- ===== src/Rosca/Rounds/Complete.antt =====
-- What a round leads to: the next round of a running circle, or its end.
use dotcircles.Prelude.{
  Bool, SameItems, SameItems-Distinct, SameItems-contains, [], ap, arith, count-rotate, false, init,
  inl, inr, insert, last?, length-init, ltb, none, refl, some, suc, sym, true, zero, ℕ, ◌*◌, ◌+◌,
  ◌-◌, ◌<◌, ◌∷◌, ◌≡◌, ◌≤◌, ◌⊎◌,
}
use dotcircles.Rosca.Rounds.{check_and_complete_rosca, complete}
use dotcircles.Rosca.Effects.Returns.{
  Returns, last_event, of_bind, of_if, of_modify, of_pure, of_read,
}
use dotcircles.Rosca.Rounds.Advance.{Advanced}
use dotcircles.Rosca.Rounds.Invariant.{IsActive, IsOver}
use dotcircles.Rosca.Storage.{Runtime, State}
use dotcircles.Rosca.Types.{rosca_complete}

-- The state in which the circle has been marked complete.
abbrev pub finished : {L : Type 0} → ℕ → State L → State L
finished rosca_id s = record s {
  completed_roscas = insert s.completed_roscas rosca_id true;
  active_roscas = insert s.active_roscas rosca_id none;
  events = rosca_complete rosca_id ∷ s.events;
}

module _ (rt : Runtime) (rosca_id : ℕ) {safe : Bool} (s : State rt.Ledger) where
  pub complete-Returns : Returns safe s (complete rt rosca_id) (λ _ s'. s' ≡ finished rosca_id s)
  unfolding complete
  complete-Returns = of_modify _ _ (last_event _ refl)

  pub check_and_complete_rosca-Returns :
      (next final : ℕ)
      → s.final_pay_by_timestamp rosca_id ≡ some final
      → s.next_pay_by_timestamp rosca_id ≡ some next
      → Returns safe s (check_and_complete_rosca rt rosca_id) (λ done s'.
        ((done ≡ true) × (final < next) × (s' ≡ finished rosca_id s))
        ⊎ ((done ≡ false) × (next ≤ final) × (s' ≡ s)))
  unfolding check_and_complete_rosca
  check_and_complete_rosca-Returns next final ef en = of_read _ _ _ λ r er. of_read _ _ _ λ f ef'.
      of_read _ _ _ λ n en'.
        of_if (ltb f n) _ _
          (λ late.
            of_bind _ _ _ complete-Returns λ _ s₁ e. of_pure true (inl (refl, ground arith, e)))
          (λ early. of_pure false (inr (refl, ground arith, refl)))

pub finished-IsOver :
    {L : Type 0} {rosca_id : ℕ} (s : State L)
    → s.pending_rosca_details rosca_id ≡ none
    → IsOver rosca_id (finished rosca_id s)
finished-IsOver s gone = record { closed = ground arith; completed = ground arith; gone = gone }

module _ {L : Type 0} (rosca_id : ℕ) (s : State L) (v : IsActive rosca_id s) where
  -- The first of at least one round that is left.
  abbrev pub Follows : (s' : State L) → IsActive rosca_id s' → Type 0
  Follows s' w =
      (w.details ≡ v.details)
      × (w.final ≡ v.final)
      × (w.next ≡ v.next + v.details.contribution_frequency)
      × (last? (v.claimant ∷ v.rest) ≡ some w.claimant)
      × (w.rest ≡ init (v.claimant ∷ v.rest))

  module _ (s' : State L) (a : Advanced rosca_id s v s') where
    pub same_items : SameItems (a.claimant ∷ init (v.claimant ∷ v.rest)) (v.claimant ∷ v.rest)
    same_items c = count-rotate v.claimant v.rest a.claimant c a.last

    pub next_left :
        0 < v.left
        → v.next
            + v.details.contribution_frequency
            + (v.left - 1) * v.details.contribution_frequency
          ≡ v.final
    next_left more = one_less v.left v.details.contribution_frequency v.next v.final more v.rounds
      where
        one_less : (k f n m : ℕ) → 0 < k → n + k * f ≡ m → n + f + (k - 1) * f ≡ m
        one_less zero f n m h e = elim h [ ]
        one_less (suc k) f n m h e = grind arith

    unfoldable pub Advanced-IsActive : 0 < v.left → IsActive rosca_id s'
    Advanced-IsActive more = record {
      details = v.details;
      claimant = a.claimant;
      rest = init (v.claimant ∷ v.rest);
      next = v.next + v.details.contribution_frequency;
      final = v.final;
      left = v.left - 1;
      active = rw a.state v.active;
      running = rw a.state v.running;
      gone = rw a.state v.gone;
      eligible = rw a.state (ground arith);
      ordered = rw a.state (ground arith);
      distinct =
          SameItems-Distinct (v.claimant ∷ v.rest) (a.claimant ∷ init (v.claimant ∷ v.rest))
            (λ c. sym (same_items c)) v.distinct;
      next_at = rw a.state (ground arith);
      final_at = rw a.state v.final_at;
      positive = v.positive;
      pays = v.pays;
      rounds = next_left more;
      few = ground (arith, v.few, length-init v.claimant v.rest);
      counted = rw a.state (ground arith);
      bounded = rw a.state (ground arith);
      members = λ c h.
          SameItems-contains (v.claimant ∷ v.rest) (a.claimant ∷ init (v.claimant ∷ v.rest))
            (λ c. sym (same_items c)) c
            (v.members c (rw (← ap (λ (t : State L). t.rosca_participants) a.state) h));
    }

    -- The round that begins has nobody's contribution.
    pub Advanced-keys : s'.current_contributors rosca_id ≡ []
    Advanced-keys = rw a.state (ground arith)

    -- After the last round the next cutoff is past the final one, by one frequency.
    pub Advanced-late :
        v.left ≡ 0
        → s'.next_pay_by_timestamp rosca_id ≡ some (v.final + v.details.contribution_frequency)
    Advanced-late none_left =
        rw a.state (let e : v.next ≡ v.final = grind (arith, v.rounds) in ground arith)
