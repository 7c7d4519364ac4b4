-- ===== src/Rosca/Active/Contribute.antt =====
-- `contribute_to_rosca` on a circle with the invariant.
use dotcircles.Prelude.{
  Bool, Nat-cases, ap, arith, contains, false, inl, inr, insert, length, ltb, some, sym, ℕ, ◌*◌,
  ◌+◌, ◌-◌, ◌<◌, ◌==◌, ◌∙◌, ◌∷◌, ◌≡◌, ◌≤◌, ◌⊎◌,
}
use dotcircles.Rosca.Active.{Round, close_round, contribute_now, insert_key}
use dotcircles.Rosca.Active.Reached.{IsAt}
use dotcircles.Rosca.Effects.Returns.{
  Returns, last_event, of_event, of_gets, of_if, of_index, of_modify, of_ok_or, of_pure,
  of_transfer, weaken,
}
use dotcircles.Rosca.Rounds.Advance.{Advanced, advanced_lem, last?-ne-none}
use dotcircles.Rosca.Rounds.Agenda.{IsSuffix, IsSuffix-refl, agenda-IsSuffix, agenda_of}
use dotcircles.Rosca.Rounds.Complete.{
  Advanced-IsActive, Advanced-keys, complete-Returns, finished-IsOver,
}
use dotcircles.Rosca.Rounds.Invariant.{Clears, IsActive, IsOpen, IsOver}
use dotcircles.Rosca.Storage.{Runtime, State}
use dotcircles.Rosca.Types.{contribution_made}

-- The state in which `signer` has paid the claimant `to` out of the ledger `l`.
abbrev pub contributed : {L : Type 0} → ℕ → ℕ → ℕ → ℕ → L → State L → State L
contributed rosca_id signer to amount l s = record s {
  ledger = l;
  current_contributors =
      insert s.current_contributors rosca_id (insert_key signer (s.current_contributors rosca_id));
  current_contribution_count =
      insert s.current_contribution_count rosca_id (s.current_contribution_count rosca_id + 1);
  events = contribution_made rosca_id signer to amount ∷ s.events;
}

module _ (rt : Runtime) (rosca_id : ℕ) where
  -- The circle after the payment of one who had not paid, in a round that was open.
  unfoldable pub contributed-IsActive :
      (s : State rt.Ledger) (v : IsActive rosca_id s) (op : IsOpen v) (signer to amount : ℕ)
      (l : rt.Ledger)
      → contains (s.current_contributors rosca_id) signer ≡ false
      → 0 < length v.rest
      → IsActive rosca_id (contributed rosca_id signer to amount l s)
  contributed-IsActive s v op signer to amount l new big = record {
    details = v.details;
    claimant = v.claimant;
    rest = v.rest;
    next = v.next;
    final = v.final;
    left = v.left;
    active = v.active;
    running = v.running;
    gone = v.gone;
    eligible = v.eligible;
    ordered = v.ordered;
    distinct = v.distinct;
    next_at = v.next_at;
    final_at = v.final_at;
    positive = v.positive;
    pays = v.pays;
    rounds = v.rounds;
    few = v.few;
    counted = ground (arith, v.counted, new);
    bounded = ground (arith, op, new, big);
    members = v.members;
  }

  -- A circle that is over, or runs in an open round.
  abbrev pub Ended : State rt.Ledger → Type 0
  Ended s' = IsOver rosca_id s' ⊎ ((w : IsActive rosca_id s') × IsOpen w)

  -- A circle that is over, or runs in an open round, with the last ones of the rounds that `v` had
  -- left.
  abbrev pub EndedFrom : {s : State rt.Ledger} → IsActive rosca_id s → State rt.Ledger → Type 0
  EndedFrom v s' =
      IsOver rosca_id s'
      ⊎ ((w : IsActive rosca_id s') × IsOpen w × IsSuffix (agenda_of w) (agenda_of v))

  pub EndedFrom-Ended :
      {s : State rt.Ledger} (v : IsActive rosca_id s) (s' : State rt.Ledger)
      → EndedFrom v s'
      → Ended s'
  EndedFrom-Ended v s' (inl over) = inl over
  EndedFrom-Ended v s' (inr (w, op, turns)) = inr (w, op)

module _ (rt : Runtime) (clears : Clears rt) (rosca_id : ℕ) where
  Advanced-Ended :
      (s s' : State rt.Ledger) (v : IsActive rosca_id s)
      → Advanced rosca_id s v s'
      → v.next + v.details.contribution_frequency ≤ v.final
      → EndedFrom rt rosca_id v s'
  unfolding Advanced-IsActive
  Advanced-Ended s s' v a early = elim (Nat-cases v.left) [
    | inl none_left ↦ absurd (
        not_late v.left v.next v.final v.details.contribution_frequency none_left v.rounds
          v.positive early)
    | inr more ↦ inr (
      Advanced-IsActive rosca_id s v s' a more,
      inl (ap length (Advanced-keys rosca_id s v s' a)),
      agenda-IsSuffix v.left v.next v.details.contribution_frequency v.claimant a.claimant v.rest
          more a.last,
    )
  ]
    where
      not_late : (k n m f : ℕ) → k ≡ 0 → n + k * f ≡ m → 0 < f → n + f ≤ m → ⊥
      not_late k n m f e r p h = grind arith

in_time : (n k f m : ℕ) → n ≡ k + f → ltb m n ≡ false → k + f ≤ m
in_time n k f m e h = ground arith

module _ (rt : Runtime) (clears : Clears rt) (rosca_id : ℕ) {safe : Bool} where
  close_round-Returns :
      (s : State rt.Ledger) (v : IsActive rosca_id s) (r : Round)
      → IsAt v r
      → Returns safe s
          (close_round rt rosca_id v.details v.final r)
          (λ _ s'. EndedFrom rt rosca_id v s')
  unfolding close_round
  close_round-Returns s v r at_r = of_ok_or _ _ _ λ next en.
      let en' : next ≡ v.next + v.details.contribution_frequency = ground (arith, at_r.0) in
      of_if (ltb v.final next) _ _
        (λ late.
          weaken _ (complete-Returns rt rosca_id s) λ _ s' e. inl (rw e (finished-IsOver s v.gone)))
        λ early. of_modify _ _ (
          of_index _ _ (λ b. last?-ne-none r.order v.claimant v.rest at_r.1)
            λ l el. of_modify _ _ (
              of_ok_or _ _ _ λ rotated erot. of_modify _ _ (
                last_event _ (
                  (Advanced-Ended rt clears rosca_id s _ v
                    (advanced_lem rt clears rosca_id s v v.details v.next next r.order l rotated
                      v.active v.next_at (rw at_r.0 at en) (v.ordered ∙ ap some (sym at_r.1)) el
                      erot)
                    (in_time next v.next v.details.contribution_frequency v.final en' early))))))

  pub contribute_now-Returns :
      (signer : ℕ) (s : State rt.Ledger) (v : IsActive rosca_id s) (r : Round)
      → IsAt v r
      → IsOpen v
      → contains (s.current_contributors rosca_id) signer ≡ false
      → 0 < length v.rest
      → Returns safe s
          (contribute_now rt rosca_id v.details signer v.final (some r))
          (λ _ s'. EndedFrom rt rosca_id v s')
  unfolding contribute_now contributed-IsActive
  contribute_now-Returns signer s v r at_r op new big = of_transfer rt _ _ _ _ _ λ l paid.
      of_modify _ _ (
        of_gets _ _ (
          of_ok_or _ _ _ λ count ec. of_modify _ _ (
            of_event _ _ (
              let ec' : count ≡ s.current_contribution_count rosca_id + 1 = ground (arith, ec) in
              rw ec' (
                let w =
                  contributed-IsActive rt rosca_id s v op signer r.claimant
                    v.details.contribution_amount l new big in
                of_if (s.current_contribution_count rosca_id + 1 == length r.order - 1) _ _
                  (λ full. close_round-Returns _ w r at_r)
                  (λ more.
                    of_pure tt
                      (inr (w, ground (arith, at_r.1, v.counted, op, new), IsSuffix-refl _))))))))
