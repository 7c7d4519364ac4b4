-- ===== src/Rosca/Pending/RoundTrip.antt =====
-- `leave_rosca` after `join_rosca`.
use dotcircles.Prelude.{
  List, Option, [], ap, arith, get_elem?, none, refl, set, some, suc, zero, ℕ, ◌+◌, ◌∷◌, ◌≡◌,
}
use dotcircles.Rosca.Pending.{join_rosca, leave_rosca}
use dotcircles.Rosca.Effects.{ok}
use dotcircles.Rosca.Pending.Join.{Joined, free_place_lem, join_rosca-Joined}
use dotcircles.Rosca.Pending.Leave.{Left, Refunded, leave_rosca-Left}
use dotcircles.Rosca.Storage.{Runtime, State}
use dotcircles.Rosca.Types.{PaymentAssets}

set-set :
    (order : List (Option ℕ)) (i : ℕ) (v : Option ℕ)
    → get_elem? order i ≡ some none
    → set (set order i v) i none ≡ order
set-set [] i v h = refl
set-set (x ∷ r) zero v h = ground arith
set-set (x ∷ r) (suc i) v h = ap (λ t. x ∷ t) (set-set r i v h)

-- A refund leaves the places of a circle as they are.
abbrev SamePlaces : {L : Type 0} → State L → State L → Type 0
SamePlaces s s' =
    (s'.pending_rosca_participants_order ≡ s.pending_rosca_participants_order)
    × (s'.rosca_participants_count ≡ s.rosca_participants_count)
    × (s'.rosca_participants ≡ s.rosca_participants)

Refunded-Same :
    (rt : Runtime) (rosca_id signer : ℕ) (asset : PaymentAssets) (d : ℕ) (s s' : State rt.Ledger)
    → Refunded rt rosca_id signer asset d s s'
    → SamePlaces s s'
Refunded-Same rt rosca_id signer asset zero s s' same = rw same (refl, refl, refl)
Refunded-Same rt rosca_id signer asset (suc d) s s' (l, paid, same) = rw same (refl, refl, refl)

module _ (rt : Runtime) (origin : rt.Origin) (rosca_id : ℕ) (position : Option ℕ)
    (s s₁ s₂ : State rt.Ledger) where
  -- The places, the count and the order of the circle are as they were before.
  abbrev pub Restored : Type 0
  Restored =
      (s₂.pending_rosca_participants_order rosca_id ≡ s.pending_rosca_participants_order rosca_id)
      × (s₂.rosca_participants_count rosca_id ≡ s.rosca_participants_count rosca_id)
      × ((a : ℕ) → s₂.rosca_participants rosca_id a ≡ s.rosca_participants rosca_id a)

  undone :
      Joined (rt.ensure_signed origin) rosca_id position s s₁
      → Left rt (rt.ensure_signed origin) rosca_id s₁ s₂
      → Restored
  undone j f =
      let who : f.signer ≡ j.signer = ground (arith, j.signed, f.signed) in
      let place : f.i ≡ j.i = ground (arith, f.place, j.left, who) in
      let order : f.order ≡ set j.order j.i (some j.signer) = ground (arith, f.ordered, j.left) in
      let count : f.count ≡ j.count + 1 = ground (arith, f.counted, j.left) in
      let back =
        set-set j.order j.i (some j.signer) (free_place_lem position j.order j.i j.choice) in
      let same = Refunded-Same rt rosca_id f.signer f.rosca.payment_asset _ _ f.paid f.refunded in
      rw (f.left, same.0, same.1, same.2, who, place, order, count, j.left)
        (ground (arith, back, j.ordered), ground (arith, j.counted), λ a. ground (arith, j.new))

  -- Where an account joins and then leaves, both calls returning, the order, the count and
  -- everyone's place are what they were before.
  pub leave_rosca-join_rosca :
      join_rosca rt origin rosca_id position s ≡ (ok tt, s₁)
      → leave_rosca rt origin rosca_id s₁ ≡ (ok tt, s₂)
      → Restored
  leave_rosca-join_rosca joins leaves =
      undone (join_rosca-Joined rt origin rosca_id position s s₁ joins)
        (leave_rosca-Left rt origin rosca_id s₁ s₂ leaves)
