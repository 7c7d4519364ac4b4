-- ===== src/Rosca/Life/Safety.antt =====
-- A circle from its creation on: its invariants, and calls that never panic.
use dotcircles.Prelude.{Option, inl, inr, refl, true, ℕ, ◌≡◌, ◌≢◌}
use dotcircles.Rosca.Life.{InLife, Steps}
use dotcircles.Rosca.Active.{contribute_to_rosca, manually_end_rosca}
use dotcircles.Rosca.Active.Paying.{contribute_to_rosca-Returns}
use dotcircles.Rosca.Active.WindUp.{manually_end_rosca-Returns}
use dotcircles.Rosca.Effects.{diverge, ok, panic}
use dotcircles.Rosca.Effects.Returns.{Returns, weaken}
use dotcircles.Rosca.Life.Course.{Steps-InLife}
use dotcircles.Rosca.Life.Refusals.{
  contribute_to_rosca-inactive, manually_end_rosca-inactive, start_rosca-not_pending,
}
use dotcircles.Rosca.Pending.Create.{Request, create, create_rosca-Returns}
use dotcircles.Rosca.Pending.Creation.{IsFresh, create_rosca-IsPending}
use dotcircles.Rosca.Rounds.Invariant.{Clears}
use dotcircles.Rosca.Start.{start_rosca}
use dotcircles.Rosca.Start.Calling.{start_rosca-Returns}
use dotcircles.Rosca.Start.Starting.{IsUnplayed}
use dotcircles.Rosca.Storage.{Runtime, State}

module _ (rt : Runtime) (rosca_id : ℕ) (clears : Clears rt) (caller : rt.Origin)
    (s : State rt.Ledger) where
  pub contributes-calm :
      InLife rt rosca_id s
      → Returns true s (contribute_to_rosca rt rosca_id caller) (λ _ _. Unit {0})
  contributes-calm (inl (v, u)) =
      weaken _ (contribute_to_rosca-inactive rt rosca_id caller s v.inactive) (λ _ _ _. tt)
  contributes-calm (inr (inl o)) =
      weaken _ (contribute_to_rosca-inactive rt rosca_id caller s o.closed) (λ _ _ _. tt)
  contributes-calm (inr (inr (v, op))) =
      weaken _ (contribute_to_rosca-Returns rt clears rosca_id caller s v op) (λ _ _ _. tt)

  pub ends-calm :
      InLife rt rosca_id s
      → Returns true s (manually_end_rosca rt rosca_id caller) (λ _ _. Unit {0})
  ends-calm (inl (v, u)) =
      weaken _ (manually_end_rosca-inactive rt rosca_id caller s v.inactive) (λ _ _ _. tt)
  ends-calm (inr (inl o)) =
      weaken _ (manually_end_rosca-inactive rt rosca_id caller s o.closed) (λ _ _ _. tt)
  ends-calm (inr (inr (v, op))) =
      weaken _ (manually_end_rosca-Returns rt clears rosca_id caller s v) (λ _ _ _. tt)

  pub starts-calm :
      InLife rt rosca_id s → Returns true s (start_rosca rt caller rosca_id) (λ _ _. Unit {0})
  starts-calm (inl (v, u)) =
      weaken _ (start_rosca-Returns rt rt.max_participants rosca_id s v u caller) (λ _ _ _. tt)
  starts-calm (inr (inl o)) =
      weaken _ (start_rosca-not_pending rt rosca_id caller s o.gone) (λ _ _ _. tt)
  starts-calm (inr (inr (v, op))) =
      weaken _ (start_rosca-not_pending rt rosca_id caller s v.gone) (λ _ _ _. tt)

module _ (rt : Runtime) (clears : Clears rt) (origin : rt.Origin) (r : Request)
    (position : Option ℕ) (s s₁ s' : State rt.Ledger) where
  opened-IsUnplayed :
      create rt origin r position s ≡ (ok tt, s₁)
      → IsUnplayed s.next_rosca_id s
      → IsUnplayed s.next_rosca_id s₁
  opened-IsUnplayed h u =
      let c = (create_rosca-Returns rt origin r position s).at tt s₁ h in
      rw c.left (record {
        running = u.running;
        contributors = u.contributors;
        contributions = u.contributions;
      })

  -- A circle that is created at a fresh id, of which nothing has been played, and that goes through
  -- any calls on it that return and any passing of time, is in each state that it comes to either
  -- one that has not started, with the invariant of those, or over, or running in an open round with
  -- the invariant of those, where `clear_prefix` removes all keys that its limit covers.
  pub create_rosca-InLife :
      IsFresh s.next_rosca_id s
      → IsUnplayed s.next_rosca_id s
      → create rt origin r position s ≡ (ok tt, s₁)
      → Steps rt s.next_rosca_id s₁ s'
      → InLife rt s.next_rosca_id s'
  create_rosca-InLife fresh u h steps =
      Steps-InLife rt s.next_rosca_id clears steps
        (inl (create_rosca-IsPending rt origin r position s s₁ h fresh, opened-IsUnplayed h u))

  -- In each state that a circle comes to, through calls on it that return and the passing of time,
  -- after it has been created at a fresh id of which nothing has been played, and where
  -- `clear_prefix` removes all keys that its limit covers, a call of contribute or of the manual
  -- end, by whomever, ends and does not panic, and a call of start does not panic.
  pub Steps-calm :
      (caller : rt.Origin) (t : State rt.Ledger)
      → IsFresh s.next_rosca_id s
      → IsUnplayed s.next_rosca_id s
      → create rt origin r position s ≡ (ok tt, s₁)
      → Steps rt s.next_rosca_id s₁ s'
      → (contribute_to_rosca rt s.next_rosca_id caller s' ≢ (panic, t))
        × (contribute_to_rosca rt s.next_rosca_id caller s' ≢ (diverge, t))
        × (manually_end_rosca rt s.next_rosca_id caller s' ≢ (panic, t))
        × (manually_end_rosca rt s.next_rosca_id caller s' ≢ (diverge, t))
        × (start_rosca rt caller s.next_rosca_id s' ≢ (panic, t))
  Steps-calm caller t fresh u h steps =
      let v = create_rosca-InLife fresh u h steps in
      let c = contributes-calm rt s.next_rosca_id clears caller s' v in
      let e = ends-calm rt s.next_rosca_id clears caller s' v in
      (
        c.calm t refl,
        c.ends t,
        e.calm t refl,
        e.ends t,
        (starts-calm rt s.next_rosca_id clears caller s' v).calm t refl,
      )
