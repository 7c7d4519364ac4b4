-- ===== src/Rosca/Pending/Exact.antt =====
-- Just when the calls of join and leave return, and what they leave.
use dotcircles.Prelude.{
  List, Option, arith, checked_sub, ltb, none, refl, set, some, suc, true, zero, ℕ, ◌-◌, ◌↔◌, ◌≡◌,
}
use dotcircles.Rosca.Pending.{join_rosca, leave_rosca, refund, take_position}
use dotcircles.Rosca.Effects.{ok, ◌>>=◌}
use dotcircles.Rosca.Pending.Join.{Joined, free_place, join_rosca-Joined}
use dotcircles.Rosca.Pending.Leave.{Left, Refunded, leave_rosca-Left}
use dotcircles.Rosca.Storage.{Runtime, State}
use dotcircles.Rosca.Types.{PaymentAssets}

module _ (rt : Runtime) where
  take_position_lem :
      (position : Option ℕ) (signer i : ℕ) (order : List (Option ℕ)) (s : State rt.Ledger)
      → free_place position order ≡ some i
      → take_position rt position signer order s ≡ (ok (set order i (some signer), i), s)
  unfolding take_position ◌>>=◌
  take_position_lem none signer i order s h = ground (arith, h)
  take_position_lem (some p) signer i order s h = ground (arith, h)

  join_returns :
      (origin : rt.Origin) (rosca_id : ℕ) (position : Option ℕ) (s s' : State rt.Ledger)
      → Joined (rt.ensure_signed origin) rosca_id position s s'
      → join_rosca rt origin rosca_id position s ≡ (ok tt, s')
  unfolding join_rosca ◌>>=◌
  join_returns origin rosca_id position s s' j =
      let placed = take_position_lem position j.signer j.i j.order s j.choice in
      let in_time : ltb s.now j.rosca.start_by_timestamp ≡ true = ground (arith, j.in_time) in
      rw (j.left) (
        ground (
          arith, j.signed, j.inactive, j.new, j.invited, j.pending, in_time, j.ordered, placed,
          j.counted, j.room,
        ))

  refund_lem :
      (rosca_id signer : ℕ) (asset : PaymentAssets) (d : ℕ) (s s' : State rt.Ledger)
      → Refunded rt rosca_id signer asset d s s'
      → refund rt rosca_id signer asset d s ≡ (ok tt, s')
  unfolding refund ◌>>=◌
  refund_lem rosca_id signer asset zero s s' same = rw same refl
  refund_lem rosca_id signer asset (suc d) s s' (l, done, same) = rw same (ground (arith, done))

  leave_returns :
      (origin : rt.Origin) (rosca_id : ℕ) (s s' : State rt.Ledger)
      → Left rt (rt.ensure_signed origin) rosca_id s s'
      → leave_rosca rt origin rosca_id s ≡ (ok tt, s')
  unfolding leave_rosca ◌>>=◌
  leave_returns origin rosca_id s s' f =
      let back = refund_lem rosca_id f.signer f.rosca.payment_asset _ _ f.paid f.refunded in
      let fewer : checked_sub f.count 1 ≡ some (f.count - 1) = ground (arith, f.some_left) in
      rw (f.left) (
        ground (
          arith, f.signed, f.inactive, f.place, f.pending, f.ordered, f.in_order, f.counted, fewer,
          back,
        ))

module _ (rt : Runtime) (origin : rt.Origin) (rosca_id : ℕ) (s s' : State rt.Ledger) where
  -- A join returns just when it is signed by an invited account without a place, before the start
  -- time of a circle that has not started, whose order and count are stored, the place asked for, or
  -- else a first one, is free, and the count does not wrap. The account is then given that place and
  -- counted, and the event told.
  pub join_rosca_lem :
      (position : Option ℕ)
      → (join_rosca rt origin rosca_id position s ≡ (ok tt, s'))
        ↔ Joined (rt.ensure_signed origin) rosca_id position s s'
  join_rosca_lem position = (
    join_rosca-Joined rt origin rosca_id position s s',
    join_returns rt origin rosca_id position s s',
  )

  -- A leave returns just when it is signed by an account with a place, inside the order, in a circle
  -- that has not started, whose count is stored and not zero, and the ledger accepts the transfer of
  -- the account's deposit, where there is one, in the asset of the circle. The place is then free, the
  -- count lower by one, the deposit gone, and the event told.
  pub leave_rosca_lem :
      (leave_rosca rt origin rosca_id s ≡ (ok tt, s'))
      ↔ Left rt (rt.ensure_signed origin) rosca_id s s'
  leave_rosca_lem =
      (leave_rosca-Left rt origin rosca_id s s', leave_returns rt origin rosca_id s s')
