-- ===== src/Rosca/World/Others.antt =====
-- A step on one circle, and the creation of one, leave every other as it is.
use dotcircles.Prelude.{Option, arith, insert₂, refl, subst, true, u32_mod, ℕ, ◌+◌, ◌<◌, ◌≡◌, ◌≢◌}
use dotcircles.Rosca.Active.Isolation.{contribute_to_rosca-Keeps, manually_end_rosca-Keeps}
use dotcircles.Rosca.Deposits.Isolation.{
  add_to_security_deposit-Keeps, claim_security_deposit-Keeps,
}
use dotcircles.Rosca.Effects.{Exec, Outcome, ok}
use dotcircles.Rosca.Effects.Keeps.{Keeps}
use dotcircles.Rosca.Elsewhere.{SameAt, SameAt-refl, Untouched}
use dotcircles.Rosca.Life.{Step, adds, claims, contributes, ends, joins, leaves, passes, starts}
use dotcircles.Rosca.Pending.Create.{Request, create, create_rosca-Returns}
use dotcircles.Rosca.Pending.Invitees.{invitees, mark_all_lem}
use dotcircles.Rosca.Pending.Isolation.{join_rosca-Keeps, leave_rosca-Keeps}
use dotcircles.Rosca.Start.Isolation.{start_rosca-Keeps}
use dotcircles.Rosca.Storage.{Runtime, State}
use native.Mathlib.Nat.{mod-eq_of_lt}

module _ (rt : Runtime) (rosca_id j : ℕ) (ne : j ≢ rosca_id) where
  start : (s : State rt.Ledger) → Untouched j s s
  start s = (SameAt-refl j s, refl)

  returned :
      {A : Type 0} (m : Exec rt.Ledger A) (a : A) (s s' : State rt.Ledger)
      → Keeps (Untouched j s) m
      → m s ≡ (ok a, s')
      → Untouched j s s'
  returned {A = A} m a s s' k h =
      subst (λ (o : Outcome A × State rt.Ledger). Untouched j s o.1) h (k.at s (start s))

  -- A step on one circle, whichever it is, leaves every storage item of any other circle as it was,
  -- and the id that the next circle gets.
  pub Step-Untouched : {s s' : State rt.Ledger} → Step rt rosca_id s s' → Untouched j s s'
  Step-Untouched {s = s} {s' = s'} (joins origin position h) =
      returned _ tt s s' (join_rosca-Keeps rt rosca_id j ne s origin position) h
  Step-Untouched {s = s} {s' = s'} (leaves origin h) =
      returned _ tt s s' (leave_rosca-Keeps rt rosca_id j ne s origin) h
  Step-Untouched {s = s} {s' = s'} (starts origin h) =
      returned _ tt s s' (start_rosca-Keeps rt j s rosca_id origin ne) h
  Step-Untouched {s = s} {s' = s'} (contributes origin h) =
      returned _ tt s s' (contribute_to_rosca-Keeps rt rosca_id j ne s origin) h
  Step-Untouched {s = s} {s' = s'} (ends origin h) =
      returned _ tt s s' (manually_end_rosca-Keeps rt rosca_id j ne s origin) h
  Step-Untouched {s = s} {s' = s'} (adds origin amount h) =
      returned _ tt s s' (add_to_security_deposit-Keeps rt rosca_id j ne s origin amount) h
  Step-Untouched {s = s} {s' = s'} (claims origin asset h) =
      returned _ tt s s' (claim_security_deposit-Keeps rt rosca_id j ne s origin asset) h
  Step-Untouched {s = s} (passes time block l) = ground (arith, start s)

-- A creation gives out the next id, and touches that circle alone.
module _ (rt : Runtime) (origin : rt.Origin) (r : Request) (position : Option ℕ)
    (s s' : State rt.Ledger) (h : create rt origin r position s ≡ (ok tt, s')) where
  pub create_rosca-SameAt : (j : ℕ) → j ≢ s.next_rosca_id → SameAt j s s'
  create_rosca-SameAt j ne =
      let c = (create_rosca-Returns rt origin r position s).at tt s' h in
      rw c.left (record {
        active = refl;
        completed = refl;
        participants = λ a. ground arith;
        invited = λ a. ground (
          arith,
          mark_all_lem s.next_rosca_id (invitees r.invited)
              (insert₂ s.rosca_invited_preverified_participants s.next_rosca_id c.signer true) j a,
        );
        count = ground arith;
        deposits = λ a. refl;
        pending_order = ground arith;
        active_order = refl;
        details = ground arith;
        next_at = refl;
        final_at = refl;
        claimant = refl;
        contributors = refl;
        contributions = refl;
        defaults = λ a. refl;
        account = refl;
      })

  pub next_rosca_id-create_rosca :
      s.next_rosca_id + 1 < u32_mod → s'.next_rosca_id ≡ s.next_rosca_id + 1
  next_rosca_id-create_rosca fits =
      let c = (create_rosca-Returns rt origin r position s).at tt s' h in
      rw c.left (mod-eq_of_lt fits)
