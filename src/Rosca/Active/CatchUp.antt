-- ===== src/Rosca/Active/CatchUp.antt =====
-- The loop of `contribute_to_rosca`: it ends, and comes to the current round or to the end of the
-- circle.
use dotcircles.Prelude.{
  Bool, Nat-cases, Option, ap, arith, if◌then◌else◌, inl, inr, leb, length, length-init, none, refl,
  some, suc, zero, ℕ, ◌+◌, ◌-◌, ◌<◌, ◌∷◌, ◌≡◌, ◌≤◌,
}
use dotcircles.Rosca.Active.{Round, catch_up, next_round, one_round, resume}
use dotcircles.Rosca.Active.Reached.{Continues-trans, IsAt, Onward, Reached}
use dotcircles.Rosca.Effects.{pure, ◌>>=◌}
use dotcircles.Rosca.Effects.Returns.{Returns, of_bind, of_if, of_pure, of_read, weaken}
use dotcircles.Rosca.Rounds.{check_and_complete_rosca}
use dotcircles.Rosca.Rounds.Advance.{Advanced, advance_rosca_round-Returns}
use dotcircles.Rosca.Rounds.Agenda.{IsSuffix-refl, agenda-IsSuffix}
use dotcircles.Rosca.Rounds.Complete.{
  Advanced-IsActive, Advanced-keys, Advanced-late, check_and_complete_rosca-Returns,
  finished-IsOver,
}
use dotcircles.Rosca.Rounds.Invariant.{Clears, IsActive, IsOpen, Settled-IsActive}
use dotcircles.Rosca.Rounds.Participant.{Settled}
use dotcircles.Rosca.Rounds.Settle.{process_defaulters-Returns}
use dotcircles.Rosca.Storage.{Runtime, State}

module _ (rt : Runtime) (clears : Clears rt) (rosca_id : ℕ) {safe : Bool} where
  next_round-Returns :
      (s : State rt.Ledger) (v : IsActive rosca_id s)
      → Returns safe s (next_round rt rosca_id) (λ r s'. (s' ≡ s) × IsAt v r)
  unfolding next_round
  next_round-Returns s v = of_read _ _ _ λ n en. of_read _ _ _ λ o eo. of_read _ _ _ λ c ec.
      of_pure _
        (refl, (ground (arith, v.next_at), ground (arith, v.ordered), ground (arith, v.eligible)))

  -- The round after `s`, where one is left, and the end of the circle where none is.
  decided :
      (s s' : State rt.Ledger) (v : IsActive rosca_id s) (a : Advanced rosca_id s v s')
      → Returns safe s'
          (check_and_complete_rosca rt rosca_id >>= λ done.
            if done then pure none else (next_round rt rosca_id >>= λ r. pure (some r)))
          (Onward rosca_id s v)
  unfolding Advanced-IsActive
  decided s s' v a = elim (Nat-cases v.left) [
    | inl none_left ↦
        of_bind _ _ _
          (check_and_complete_rosca-Returns rt rosca_id s'
            (v.final + v.details.contribution_frequency) v.final (rw a.state v.final_at)
            (Advanced-late rosca_id s v s' a none_left))
          λ done s₂ e. elim e [
            | inl (is_done, late, over) ↦
                rw (is_done, over) (of_pure none (finished-IsOver s' (rw a.state v.gone)))
            | inr (_, early, _) ↦ absurd (omega (arith, v.positive))
          ]
    | inr more ↦
        let w = Advanced-IsActive rosca_id s v s' a more in
        of_bind _ _ _
          (check_and_complete_rosca-Returns rt rosca_id s' w.next w.final w.final_at w.next_at)
          λ done s₂ e. elim e [
            | inl (_, late, _) ↦ absurd (omega (arith, w.rounds))
            | inr (not_done, early, same) ↦
                rw (not_done, same)
                  (of_bind _ _ _ (next_round-Returns s' w) λ r s₃ (same', at_r). rw same' (
                    of_pure (some r) (
                      record {
                        now_active = w;
                        at_round = at_r;
                        is_open = inl (ap length (Advanced-keys rosca_id s v s' a));
                        details = refl;
                        final = refl;
                        size = length-init v.claimant v.rest;
                        turns =
                            agenda-IsSuffix v.left v.next v.details.contribution_frequency
                              v.claimant a.claimant v.rest more a.last;
                        keys = λ c h. rw (Advanced-keys rosca_id s v s' a) refl;
                      },
                      omega (arith, v.positive),
                    )))
          ]
  ]

  pub one_round-Returns :
      (s : State rt.Ledger) (v : IsActive rosca_id s)
      → Returns safe s (one_round rt rosca_id) (Onward rosca_id s v)
  unfolding one_round Settled-IsActive
  one_round-Returns s v =
      of_bind _ _ _
        (process_defaulters-Returns rt rosca_id v.details v.claimant (v.claimant ∷ v.rest) s
          v.active v.eligible v.ordered v.distinct)
        λ _ s₁ settled.
          of_bind _ _ _
            (advance_rosca_round-Returns rt clears rosca_id s₁ (Settled-IsActive settled v))
            λ _ s₂ a. weaken _ (decided s₁ s₂ (Settled-IsActive settled v) a) (onward s₁ settled)
    where
      onward :
          (s₁ : State rt.Ledger)
          (settled : Settled rosca_id v.details v.claimant (v.claimant ∷ v.rest) s s₁)
          (o : Option Round) (s' : State rt.Ledger)
          → Onward rosca_id s₁ (Settled-IsActive settled v) o s'
          → Onward rosca_id s v o s'
      onward s₁ settled none s' over = over
      onward s₁ settled (some r) s' (c, later) = (
        record {
          now_active = c.now_active;
          at_round = c.at_round;
          is_open = c.is_open;
          details = c.details;
          final = c.final;
          size = c.size;
          turns = c.turns;
          keys = λ b h. c.keys b (rw settled.frame h);
        },
        later,
      )

  resume-Returns :
      (fuel now : ℕ) (s₀ : State rt.Ledger) (v : IsActive rosca_id s₀) (o : Option Round)
      (s₁ : State rt.Ledger)
      → Onward rosca_id s₀ v o s₁
      → suc v.final - v.next < suc fuel
      → v.next ≤ v.final
      → ((r : Round) (s : State rt.Ledger) (w : IsActive rosca_id s)
          → IsAt w r
          → IsOpen w
          → suc w.final - w.next < fuel
          → Returns safe s (catch_up rt rosca_id fuel now r) (Reached rosca_id s w now))
      → Returns safe s₁
          (resume rt rosca_id (catch_up rt rosca_id fuel now) o)
          (Reached rosca_id s₀ v now)
  unfolding resume Continues-trans
  resume-Returns fuel now s₀ v none s₁ over enough early loop = of_pure none over
  resume-Returns fuel now s₀ v (some r) s₁ (c, later) enough early loop =
      weaken _ (loop r s₁ c.now_active c.at_round c.is_open (omega (arith, c.final)))
        (λ o s'. reached o s')
    where
      reached :
          (o : Option Round) (s' : State rt.Ledger)
          → Reached rosca_id s₁ c.now_active now o s'
          → Reached rosca_id s₀ v now o s'
      reached none s' over = over
      reached (some r) s' (d, current) = (Continues-trans c d, current)

  -- With the rounds that the model grants, the loop ends, does not panic and, where it returns,
  -- has come to the end of the circle or to the round that `now` falls in.
  pub catch_up-Returns :
      (fuel now : ℕ) (r : Round) (s : State rt.Ledger) (v : IsActive rosca_id s)
      → IsAt v r
      → IsOpen v
      → suc v.final - v.next < fuel
      → Returns safe s (catch_up rt rosca_id fuel now r) (Reached rosca_id s v now)
  unfolding catch_up
  catch_up-Returns zero now r s v at_r op enough = absurd (omega arith)
  catch_up-Returns (suc fuel) now r s v at_r op enough =
      of_if (leb r.next now) _ _
        (λ due. of_bind _ _ _ (one_round-Returns s v) λ o s₁ on.
          resume-Returns fuel now s v o s₁ on enough (omega (arith, v.rounds))
            λ r' s' v' at_r' op' lt. catch_up-Returns fuel now r' s' v' at_r' op' lt)
        (λ current. of_pure (some r) (
          record {
            now_active = v;
            at_round = at_r;
            is_open = op;
            details = refl;
            final = refl;
            size = refl;
            turns = IsSuffix-refl _;
            keys = λ a h. h;
          },
          ground (arith, at_r.0),
        ))
