-- ===== src/Rosca/World/Blank.antt =====
-- An id that has not been given out: no call on it returns, but for what touches no circle.
use dotcircles.Prelude.{Option, none, some, ℕ, ◌≡◌}
use dotcircles.Rosca.World.{IsBlank}
use dotcircles.Rosca.Life.{Step, adds, claims, contributes, ends, joins, leaves, passes, starts}
use dotcircles.Rosca.Life.Frames.{
  Touched, add_to_security_deposit-Touched, claim_security_deposit-Touched, passes-Touched,
}
use dotcircles.Rosca.Life.Refusals.{
  contribute_to_rosca-inactive, manually_end_rosca-inactive, start_rosca-not_pending,
}
use dotcircles.Rosca.Pending.Join.{join_rosca-Joined}
use dotcircles.Rosca.Pending.Leave.{leave_rosca-Left}
use dotcircles.Rosca.Storage.{Runtime, State}

found_none : {A : Type 0} {o : Option A} {a : A} → o ≡ some a → o ≡ none → ⊥
found_none e f = cc

module _ (rt : Runtime) (rosca_id : ℕ) where
  Touched-IsBlank :
      {s s' : State rt.Ledger} → Touched s s' → IsBlank rosca_id s → IsBlank rosca_id s'
  Touched-IsBlank t b = rw t.same (record {
    inactive = b.inactive;
    nobody = b.nobody;
    unopened = b.unopened;
    running = b.running;
    contributors = b.contributors;
    contributions = b.contributions;
  })

  pub Step-IsBlank :
      {s s' : State rt.Ledger} → Step rt rosca_id s s' → IsBlank rosca_id s → IsBlank rosca_id s'
  Step-IsBlank {s = s} {s' = s'} (joins origin position h) b =
      absurd (found_none (join_rosca-Joined rt origin rosca_id position s s' h).pending b.unopened)
  Step-IsBlank {s = s} {s' = s'} (leaves origin h) b =
      absurd (found_none (leave_rosca-Left rt origin rosca_id s s' h).pending b.unopened)
  Step-IsBlank {s = s} {s' = s'} (starts origin h) b =
      absurd ((start_rosca-not_pending rt rosca_id origin s b.unopened).at tt s' h)
  Step-IsBlank {s = s} {s' = s'} (contributes origin h) b =
      absurd ((contribute_to_rosca-inactive rt rosca_id origin s b.inactive).at tt s' h)
  Step-IsBlank {s = s} {s' = s'} (ends origin h) b =
      absurd ((manually_end_rosca-inactive rt rosca_id origin s b.inactive).at tt s' h)
  Step-IsBlank {s = s} {s' = s'} (adds origin amount h) b =
      Touched-IsBlank ((add_to_security_deposit-Touched rt rosca_id origin s amount).at tt s' h) b
  Step-IsBlank {s = s} {s' = s'} (claims origin asset h) b =
      Touched-IsBlank ((claim_security_deposit-Touched rt rosca_id origin s asset).at tt s' h) b
  Step-IsBlank {s = s} (passes time block l) b = Touched-IsBlank (passes-Touched time block l s) b
