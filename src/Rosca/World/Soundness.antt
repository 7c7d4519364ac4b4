-- ===== src/Rosca/World/Soundness.antt =====
-- Every state that the pallet comes to is sound.
use dotcircles.Prelude.{
  Bool-cases, Option, arith, inl, inr, subst, suc, u32_mod, ℕ, ◌+◌, ◌<◌, ◌==◌, ◌≡◌, ◌≢◌,
}
use dotcircles.Rosca.World.{IsSound, Moves, acts, creates, moves_on, rests}
use dotcircles.Rosca.Effects.{ok}
use dotcircles.Rosca.Life.{InLife, Step, stays}
use dotcircles.Rosca.Life.Course.{Step-InLife}
use dotcircles.Rosca.Life.Safety.{create_rosca-InLife}
use dotcircles.Rosca.Pending.Create.{Request, create}
use dotcircles.Rosca.Pending.Creation.{IsFresh}
use dotcircles.Rosca.Rounds.Invariant.{Clears}
use dotcircles.Rosca.Start.Starting.{IsUnplayed}
use dotcircles.Rosca.Storage.{Runtime, State}
use dotcircles.Rosca.World.Blank.{Step-IsBlank}
use dotcircles.Rosca.World.Elsewhere.{SameAt-InLife, SameAt-IsBlank}
use dotcircles.Rosca.World.Others.{Step-Untouched, create_rosca-SameAt, next_rosca_id-create_rosca}

module _ (rt : Runtime) (clears : Clears rt) where
  -- The id of the next circle, after a step.
  next_rosca_id-Step :
      (rosca_id : ℕ) {s s' : State rt.Ledger}
      → Step rt rosca_id s s'
      → s'.next_rosca_id ≡ s.next_rosca_id
  next_rosca_id-Step rosca_id st = (Step-Untouched rt rosca_id (suc rosca_id) (omega arith) st).1

  acts-IsSound :
      (rosca_id : ℕ) {s s' : State rt.Ledger} → Step rt rosca_id s s' → IsSound rt s → IsSound rt s'
  acts-IsSound rosca_id {s = s} {s' = s'} st v j =
      let n = next_rosca_id-Step rosca_id st in
      elim (Bool-cases (j == rosca_id)) [
        | inl here ↦
            let e : rosca_id ≡ j = ground (arith, here) in
            let st' : Step rt j s s' = subst (λ i. Step rt i s s') e st in
            (
              λ lt. Step-InLife rt j clears st' ((v j).0 (omega (arith, n))),
              λ le. Step-IsBlank rt j st' ((v j).1 (omega (arith, n))),
            )
        | inr there ↦
            let ne : j ≢ rosca_id = λ e. ground (arith, e, there) in
            let same = (Step-Untouched rt rosca_id j ne st).0 in
            (
              λ lt. SameAt-InLife rt j s s' same ((v j).0 (omega (arith, n))),
              λ le. SameAt-IsBlank j s s' same ((v j).1 (omega (arith, n))),
            )
      ]

  creates-IsSound :
      (origin : rt.Origin) (r : Request) (position : Option ℕ) (s s' : State rt.Ledger)
      → s.next_rosca_id + 1 < u32_mod
      → create rt origin r position s ≡ (ok tt, s')
      → IsSound rt s
      → IsSound rt s'
  creates-IsSound origin r position s s' fits h v j =
      let n = next_rosca_id-create_rosca rt origin r position s s' h fits in
      elim (Bool-cases (j == s.next_rosca_id)) [
        | inl here ↦
            let e : s.next_rosca_id ≡ j = ground (arith, here) in
            let b = (v s.next_rosca_id).1 (omega arith) in
            let fresh : IsFresh s.next_rosca_id s = record {
              inactive = b.inactive;
              nobody = b.nobody;
            } in
            let unplayed : IsUnplayed s.next_rosca_id s = record {
              running = b.running;
              contributors = b.contributors;
              contributions = b.contributions;
            } in
            (
              λ lt.
                  subst (λ i. InLife rt i s') e
                    (create_rosca-InLife rt clears origin r position s s' s' fresh unplayed h
                      stays),
              λ le. absurd (omega (arith, n, e)),
            )
        | inr there ↦
            let ne : j ≢ s.next_rosca_id = λ e. ground (arith, e, there) in
            let same = create_rosca-SameAt rt origin r position s s' h j ne in
            (
              λ lt. SameAt-InLife rt j s s' same ((v j).0 (omega (arith, n, ne))),
              λ le. SameAt-IsBlank j s s' same ((v j).1 (omega (arith, n))),
            )
      ]

  -- Where `clear_prefix` removes all keys that its limit covers, and ids do not wrap round: from a
  -- sound state, creations and steps on any circles, in any order, lead to a sound state only.
  pub Moves-IsSound : {s s' : State rt.Ledger} → Moves rt s s' → IsSound rt s → IsSound rt s'
  Moves-IsSound rests v = v
  Moves-IsSound (moves_on {s₁ = s₁} {s' = s'} ms (creates origin r position fits h)) v =
      creates-IsSound origin r position s₁ s' fits h (Moves-IsSound ms v)
  Moves-IsSound (moves_on ms (acts rosca_id st)) v = acts-IsSound rosca_id st (Moves-IsSound ms v)
