-- ===== src/Rosca/Active/Live.antt =====
-- A contribution in time goes through.
use dotcircles.Prelude.{
  Bool, Bool-cases, arith, contains, false, init, inl, inr, insert, is_some, last?-some, leb,
  length, ltb, refl, some, true, u32_mod, u64_mod, ℕ, ◌+◌, ◌-◌, ◌<◌, ◌==◌, ◌∙◌, ◌∷◌, ◌≡◌, ◌⊎◌,
}
use dotcircles.Rosca.Active.{Round, catch_up, close_round, contribute_now, contribute_to_rosca}
use dotcircles.Rosca.Active.Contribute.{Ended, contributed}
use dotcircles.Rosca.Active.Paying.{contribute_to_rosca-Ended}
use dotcircles.Rosca.Effects.{ok, ◌>>=◌}
use dotcircles.Rosca.Rounds.{complete, try_rotate_right}
use dotcircles.Rosca.Rounds.Complete.{finished}
use dotcircles.Rosca.Rounds.Invariant.{Clears, IsActive, IsOpen}
use dotcircles.Rosca.Storage.{Runtime, State, moved}
use dotcircles.Rosca.Types.{id, new_round_started}

-- One who may pay now: a member who is not the claimant and has not paid, in time, and whose payment
-- the ledger `l` is the outcome of.
pub record MayPay (rt : Runtime) (rosca_id : ℕ) (origin : rt.Origin) (signer : ℕ) (l : rt.Ledger)
    (s : State rt.Ledger) (v : IsActive rosca_id s) : Type 0 where
  pub signed : rt.ensure_signed origin ≡ some signer
  pub member : is_some (s.rosca_participants rosca_id signer) ≡ true
  pub unlike : (v.claimant == signer) ≡ false
  pub new : contains (s.current_contributors rosca_id) signer ≡ false
  pub in_time : leb v.next s.now ≡ false
  pub paid :
      rt.transfer
        (id v.details.payment_asset)
        signer
        v.claimant
        v.details.contribution_amount
        s.ledger
      ≡ moved l

-- The ledger is `l`, and no deposit and no default count has been touched.
abbrev pub Spares : {L : Type 0} → L → State L → State L → Type 0
Spares l s s' =
    (s'.ledger ≡ l)
    × (s'.rosca_security_deposits ≡ s.rosca_security_deposits)
    × (s'.default_count ≡ s.default_count)

module _ (rt : Runtime) (rosca_id : ℕ) (origin : rt.Origin) (signer : ℕ) (l : rt.Ledger)
    (s : State rt.Ledger) (v : IsActive rosca_id s)
    (p : MayPay rt rosca_id origin signer l s v) where
  here : Round
  here = record { next = v.next; order = v.claimant ∷ v.rest; claimant = v.claimant }

  -- In time, the loop does not run.
  reaches :
      contribute_to_rosca rt rosca_id origin s
      ≡ contribute_now rt rosca_id v.details signer v.final (some here) s
  unfolding contribute_to_rosca catch_up ◌>>=◌ here
  reaches =
      rw
        (
          p.signed, p.member, v.running, v.active, v.eligible, p.unlike, p.new, v.final_at,
          v.next_at, v.ordered, p.in_time,
        )
        refl

  full : Bool
  full = s.current_contribution_count rosca_id + 1 == length v.rest

  paid_state : State rt.Ledger
  paid_state = contributed rosca_id signer v.claimant v.details.contribution_amount l s

  module _ (small : ltb (s.current_contribution_count rosca_id + 1) u32_mod ≡ true) where
    pays_first :
        full ≡ false
        → contribute_now rt rosca_id v.details signer v.final (some here) s ≡ (ok tt, paid_state)
    unfolding contribute_now ◌>>=◌ here full paid_state
    pays_first h = ground (arith, p.paid, small, h)

    pays_last :
        full ≡ true
        → contribute_now rt rosca_id v.details signer v.final (some here) s
          ≡ close_round rt rosca_id v.details v.final here paid_state
    unfolding contribute_now ◌>>=◌ here full paid_state
    pays_last h = ground (arith, p.paid, small, h)

  turned : (claimant : ℕ) → State rt.Ledger → State rt.Ledger
  turned claimant t =
      let order = claimant ∷ init (v.claimant ∷ v.rest) in
      let next = v.next + v.details.contribution_frequency in
      record t {
        next_pay_by_timestamp = insert t.next_pay_by_timestamp rosca_id (some next);
        eligible_claimant = insert t.eligible_claimant rosca_id (some claimant);
        active_rosca_participants_order =
            insert t.active_rosca_participants_order rosca_id (some order);
        current_contributors =
            insert t.current_contributors rosca_id
              (rt.clear_prefix (length order - 1) (t.current_contributors rosca_id));
        current_contribution_count = insert t.current_contribution_count rosca_id 0;
        events = new_round_started rosca_id claimant next ∷ t.events;
      }

  closes :
      (t : State rt.Ledger)
      → ltb (v.next + v.details.contribution_frequency) u64_mod ≡ true
      → (s' : State rt.Ledger) × (close_round rt rosca_id v.details v.final here t ≡ (ok tt, s'))
        × Spares t.ledger t s'
  unfolding close_round complete try_rotate_right ◌>>=◌ here turned
  closes t room =
      let (c, last) = last?-some v.claimant v.rest in
      elim (Bool-cases (ltb v.final (v.next + v.details.contribution_frequency))) [
        | inl late ↦ (finished rosca_id t, ground (arith, room, late), (refl, refl, refl))
        | inr early ↦ (turned c t, ground (arith, room, early, last), (refl, refl, refl))
      ]

  succeeds :
      ltb (s.current_contribution_count rosca_id + 1) u32_mod ≡ true
      → ltb (v.next + v.details.contribution_frequency) u64_mod ≡ true
      → (s' : State rt.Ledger) × (contribute_to_rosca rt rosca_id origin s ≡ (ok tt, s'))
        × Spares l s s'
        × (full ≡ false → s' ≡ paid_state)
  unfolding paid_state
  succeeds small room = elim (Bool-cases full) [
    | inr more ↦ (paid_state, reaches ∙ pays_first small more, (refl, refl, refl), λ h. refl)
    | inl last ↦
        let (s', e, kept) = closes paid_state room in
        (s', reaches ∙ pays_last small last ∙ e, kept, λ h. absurd cc)
  ]

module _ (rt : Runtime) (clears : Clears rt) (rosca_id : ℕ) (origin : rt.Origin) (signer : ℕ)
    (l : rt.Ledger) (s : State rt.Ledger) (v : IsActive rosca_id s) where
  -- Where `clear_prefix` removes all keys that its limit covers: on a running circle in an open
  -- round, the call of a member who is not the claimant, has not paid and comes before the cutoff
  -- returns, if the ledger accepts the transfer of the contribution to the claimant, and neither
  -- the count of contributions nor the next cutoff overflows. The ledger is then that of the
  -- transfer, no deposit and no default count of any circle has changed, and the circle is over or
  -- runs in an open round; unless this was the last contribution of the round, the state is the one
  -- before with the payer among the contributors, the count raised by one, and the event of the
  -- payment.
  pub contribute_to_rosca-succeeds :
      IsOpen v
      → MayPay rt rosca_id origin signer l s v
      → s.current_contribution_count rosca_id + 1 < u32_mod
      → v.next + v.details.contribution_frequency < u64_mod
      → (s' : State rt.Ledger) × (contribute_to_rosca rt rosca_id origin s ≡ (ok tt, s'))
        × Spares l s s'
        × Ended rt rosca_id s'
        × ((s.current_contribution_count rosca_id + 1 ≡ length v.rest)
            ⊎ (s' ≡ contributed rosca_id signer v.claimant v.details.contribution_amount l s))
  unfolding full paid_state
  contribute_to_rosca-succeeds op p small room =
      let (s', e, kept, same) =
        succeeds rt rosca_id origin signer l s v p (ground (arith, small)) (ground (arith, room)) in
      (
        s',
        e,
        kept,
        contribute_to_rosca-Ended rt clears rosca_id origin s s' v op e,
        elim (Bool-cases (s.current_contribution_count rosca_id + 1 == length v.rest)) [
          | inl last ↦ inl (ground (arith, last))
          | inr more ↦ inr (same more)
        ],
      )
