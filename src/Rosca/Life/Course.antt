-- ===== src/Rosca/Life/Course.antt =====
-- Every state in the life of a circle has one of its invariants.
use dotcircles.Prelude.{Option, inl, inr, none, suc, zero, ℕ, ◌-◌, ◌≡◌, ◌≢◌}
use dotcircles.Rosca.Life.{
  InLife, Step, Steps, adds, claims, contributes, ends, goes_on, joins, leaves, passes, starts,
  stays,
}
use dotcircles.Rosca.Active.{contribute_to_rosca, manually_end_rosca}
use dotcircles.Rosca.Active.Contribute.{Ended}
use dotcircles.Rosca.Active.Paying.{contribute_to_rosca-Ended}
use dotcircles.Rosca.Active.WindUp.{manually_end_rosca-IsOver}
use dotcircles.Rosca.Effects.{ok}
use dotcircles.Rosca.Life.Frames.{
  Touched, Touched-IsActive, Touched-IsOpen, Touched-IsOver, Touched-IsPending, Touched-IsUnplayed,
  add_to_security_deposit-Touched, claim_security_deposit-Touched, passes-Touched,
}
use dotcircles.Rosca.Life.Refusals.{
  contribute_to_rosca-inactive, manually_end_rosca-inactive, start_rosca-not_pending,
}
use dotcircles.Rosca.Pending.Invariant.{IsPending, join_rosca-IsPending, leave_rosca-IsPending}
use dotcircles.Rosca.Pending.Join.{Joined, join_rosca-Joined}
use dotcircles.Rosca.Pending.Leave.{Left, Refunded, leave_rosca-Left, unseated}
use dotcircles.Rosca.Rounds.Invariant.{Clears}
use dotcircles.Rosca.Start.{start_rosca}
use dotcircles.Rosca.Start.Calling.{start_rosca-IsBegun}
use dotcircles.Rosca.Start.Starting.{IsUnplayed}
use dotcircles.Rosca.Storage.{Runtime, State}
use dotcircles.Rosca.Types.{PaymentAssets}

Joined-IsUnplayed :
    {L : Type 0} {who : Option ℕ} {rosca_id : ℕ} {position : Option ℕ} {s s' : State L}
    → Joined who rosca_id position s s'
    → IsUnplayed rosca_id s
    → IsUnplayed rosca_id s'
Joined-IsUnplayed j u =
    rw j.left (record {
      running = u.running;
      contributors = u.contributors;
      contributions = u.contributions;
    })

module _ (rt : Runtime) (rosca_id : ℕ) where
  Refunded-IsUnplayed :
      (signer : ℕ) (asset : PaymentAssets) (d : ℕ) (s s' : State rt.Ledger)
      → Refunded rt rosca_id signer asset d s s'
      → IsUnplayed rosca_id s
      → IsUnplayed rosca_id s'
  Refunded-IsUnplayed signer asset zero s s' same u = rw same u
  Refunded-IsUnplayed signer asset (suc d) s s' (l, paid, same) u = rw same (record {
    running = u.running;
    contributors = u.contributors;
    contributions = u.contributions;
  })

  Left-IsUnplayed :
      {who : Option ℕ} {s s' : State rt.Ledger}
      → Left rt who rosca_id s s'
      → IsUnplayed rosca_id s
      → IsUnplayed rosca_id s'
  Left-IsUnplayed {s = s} f u =
      let v : IsUnplayed rosca_id (unseated rosca_id f.signer f.i f.order (f.count - 1) s) =
        record {
          running = u.running;
          contributors = u.contributors;
          contributions = u.contributions;
        } in
      let w = Refunded-IsUnplayed f.signer f.rosca.payment_asset _ _ f.paid f.refunded v in
      rw f.left (record {
        running = w.running;
        contributors = w.contributors;
        contributions = w.contributions;
      })

  Touched-InLife :
      {s s' : State rt.Ledger} → Touched s s' → InLife rt rosca_id s → InLife rt rosca_id s'
  Touched-InLife t (inl (v, u)) = inl (Touched-IsPending t v, Touched-IsUnplayed t u)
  Touched-InLife t (inr (inl o)) = inr (inl (Touched-IsOver t o))
  Touched-InLife t (inr (inr (v, op))) = inr (inr (Touched-IsActive t v, Touched-IsOpen t v op))

  -- Once started, a circle is not pending; unless it runs, it is not active.
  pub Ended-gone :
      (s : State rt.Ledger) → Ended rt rosca_id s → s.pending_rosca_details rosca_id ≡ none
  Ended-gone s (inl o) = o.gone
  Ended-gone s (inr (v, op)) = v.gone

  module _ (clears : Clears rt) where
    contributes-InLife :
        (origin : rt.Origin) (s s' : State rt.Ledger)
        → contribute_to_rosca rt rosca_id origin s ≡ (ok tt, s')
        → InLife rt rosca_id s
        → InLife rt rosca_id s'
    contributes-InLife origin s s' h (inl (v, u)) =
        absurd ((contribute_to_rosca-inactive rt rosca_id origin s v.inactive).at tt s' h)
    contributes-InLife origin s s' h (inr (inl o)) =
        absurd ((contribute_to_rosca-inactive rt rosca_id origin s o.closed).at tt s' h)
    contributes-InLife origin s s' h (inr (inr (v, op))) =
        inr (contribute_to_rosca-Ended rt clears rosca_id origin s s' v op h)

    ends-InLife :
        (origin : rt.Origin) (s s' : State rt.Ledger)
        → manually_end_rosca rt rosca_id origin s ≡ (ok tt, s')
        → InLife rt rosca_id s
        → InLife rt rosca_id s'
    ends-InLife origin s s' h (inl (v, u)) =
        absurd ((manually_end_rosca-inactive rt rosca_id origin s v.inactive).at tt s' h)
    ends-InLife origin s s' h (inr (inl o)) =
        absurd ((manually_end_rosca-inactive rt rosca_id origin s o.closed).at tt s' h)
    ends-InLife origin s s' h (inr (inr (v, op))) =
        inr (inl (manually_end_rosca-IsOver rt clears rosca_id origin s s' v h))

    -- A circle that is pending when a call of join, leave or start returns.
    pending_of :
        (s s' : State rt.Ledger)
        → s.pending_rosca_details rosca_id ≢ none
        → InLife rt rosca_id s
        → (IsPending rt.max_participants rosca_id s → IsUnplayed rosca_id s → InLife rt rosca_id s')
        → InLife rt rosca_id s'
    pending_of s s' found (inl (v, u)) f = f v u
    pending_of s s' found (inr e) f = absurd (found (Ended-gone s e))

    starts-InLife :
        (origin : rt.Origin) (s s' : State rt.Ledger)
        → start_rosca rt origin rosca_id s ≡ (ok tt, s')
        → InLife rt rosca_id s
        → InLife rt rosca_id s'
    starts-InLife origin s s' h (inl (v, u)) =
        inr (inr (start_rosca-IsBegun rt origin rt.max_participants rosca_id s s' v u h))
    starts-InLife origin s s' h (inr e) =
        absurd ((start_rosca-not_pending rt rosca_id origin s (Ended-gone s e)).at tt s' h)

    -- Every step keeps the circle in its life.
    pub Step-InLife :
        {s s' : State rt.Ledger}
        → Step rt rosca_id s s'
        → InLife rt rosca_id s
        → InLife rt rosca_id s'
    Step-InLife {s = s} {s' = s'} (joins origin position h) v =
        let j = join_rosca-Joined rt origin rosca_id position s s' h in
        pending_of s s' (λ e. cc (j.pending)) v
          λ p u. inl (
            join_rosca-IsPending rt origin rt.max_participants rosca_id s s' position h p,
            Joined-IsUnplayed j u,
          )
    Step-InLife {s = s} {s' = s'} (leaves origin h) v =
        let f = leave_rosca-Left rt origin rosca_id s s' h in
        pending_of s s' (λ e. cc (f.pending)) v
          λ p u. inl (
            leave_rosca-IsPending rt origin rt.max_participants rosca_id s s' h p,
            Left-IsUnplayed f u,
          )
    Step-InLife {s = s} {s' = s'} (starts origin h) v = starts-InLife origin s s' h v
    Step-InLife {s = s} {s' = s'} (contributes origin h) v = contributes-InLife origin s s' h v
    Step-InLife {s = s} {s' = s'} (ends origin h) v = ends-InLife origin s s' h v
    Step-InLife {s = s} {s' = s'} (adds origin amount h) v =
        Touched-InLife ((add_to_security_deposit-Touched rt rosca_id origin s amount).at tt s' h) v
    Step-InLife {s = s} {s' = s'} (claims origin asset h) v =
        Touched-InLife ((claim_security_deposit-Touched rt rosca_id origin s asset).at tt s' h) v
    Step-InLife {s = s} (passes time block l) v = Touched-InLife (passes-Touched time block l s) v

    pub Steps-InLife :
        {s s' : State rt.Ledger}
        → Steps rt rosca_id s s'
        → InLife rt rosca_id s
        → InLife rt rosca_id s'
    Steps-InLife stays v = v
    Steps-InLife (goes_on steps step) v = Step-InLife step (Steps-InLife steps v)
