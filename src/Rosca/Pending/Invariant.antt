-- ===== src/Rosca/Pending/Invariant.antt =====
-- The invariant of a circle that has not started.
use dotcircles.Prelude.{
  List, Option, arith, count, get_elem?, length, length-set, none, set, some, suc, true, zero, ℕ,
  ◌-◌, ◌<◌, ◌≡◌, ◌≤◌,
}
use dotcircles.Rosca.Pending.{join_rosca, leave_rosca}
use dotcircles.Rosca.Effects.{log, ok}
use dotcircles.Rosca.Pending.Join.{Joined, free_place_lem, join_rosca-Returns}
use dotcircles.Rosca.Pending.Leave.{Refunded, leave_rosca-Left, unseated}
use dotcircles.Rosca.Pending.Seats.{filled, filled-set-none, filled-set-some, get_elem?-set}
use dotcircles.Rosca.Storage.{Runtime, State}
use dotcircles.Rosca.Types.{Event, PaymentAssets, RoscaDetails}

-- The order, the positions and the count of `rosca_id` agree.
pub record IsPending {L : Type 0} (bound : ℕ) (rosca_id : ℕ) (s : State L) : Type 0 where
  pub details : RoscaDetails
  pub order : List (Option ℕ)
  pub inactive : s.active_roscas rosca_id ≡ none
  pub found : s.pending_rosca_details rosca_id ≡ some details
  pub ordered : s.pending_rosca_participants_order rosca_id ≡ some order
  pub counted : s.rosca_participants_count rosca_id ≡ some (filled order)
  pub sized : length order ≡ details.number_of_participants
  pub fits : details.number_of_participants ≤ bound
  pub positive : 0 < details.contribution_frequency
  pub pays : 0 < details.contribution_amount
  pub threshold : details.minimum_participant_threshold ≤ details.number_of_participants
  -- an account stands in the order exactly at the position recorded for it
  pub seat :
      (a i : ℕ) → s.rosca_participants rosca_id a ≡ some i → get_elem? order i ≡ some (some a)
  pub taken :
      (a i : ℕ) → get_elem? order i ≡ some (some a) → s.rosca_participants rosca_id a ≡ some i
  -- only the invited have a position
  pub invited :
      (a i : ℕ)
      → s.rosca_participants rosca_id a ≡ some i
      → s.rosca_invited_preverified_participants rosca_id a ≡ true

Joined-IsPending :
    {L : Type 0} {bound : ℕ} {who : Option ℕ} {rosca_id : ℕ} {position : Option ℕ} {s s' : State L}
    → Joined who rosca_id position s s'
    → IsPending bound rosca_id s
    → IsPending bound rosca_id s'
Joined-IsPending {rosca_id = rosca_id} {position = position} {s = s} {s' = s'} j v =
    let o : v.order ≡ j.order = ground arith in
    let free = free_place_lem position j.order j.i j.choice in
    record {
      details = v.details;
      order = set j.order j.i (some j.signer);
      inactive = ground arith;
      found = ground arith;
      ordered = ground arith;
      counted = ground (arith, filled-set-some j.order j.i j.signer free);
      sized = ground (arith, length-set j.order j.i (some j.signer));
      fits = v.fits;
      positive = v.positive;
      pays = v.pays;
      threshold = v.threshold;
      seat = λ a i h. ground (arith, get_elem?-set j.order j.i i (some j.signer) free, v.seat a i);
      taken =
          λ a i h. ground (arith, get_elem?-set j.order j.i i (some j.signer) free, v.taken a i);
      invited = λ a i h. ground (arith, v.invited a i);
    }

module _ (rt : Runtime) (bound rosca_id signer : ℕ) where
  -- Paying a deposit back touches nothing that the invariant reads.
  Refunded-IsPending :
      (asset : PaymentAssets) (d : ℕ) (s s' : State rt.Ledger)
      → Refunded rt rosca_id signer asset d s s'
      → IsPending bound rosca_id s
      → IsPending bound rosca_id s'
  Refunded-IsPending asset zero s s' e v = rw e v
  Refunded-IsPending asset (suc d) s s' (l, done, e) v = rw e (record {
    details = v.details;
    order = v.order;
    inactive = v.inactive;
    found = v.found;
    ordered = v.ordered;
    counted = v.counted;
    sized = v.sized;
    fits = v.fits;
    positive = v.positive;
    pays = v.pays;
    threshold = v.threshold;
    seat = v.seat;
    taken = v.taken;
    invited = v.invited;
  })

  unseated-IsPending :
      (order : List (Option ℕ)) (i count : ℕ) (s : State rt.Ledger)
      → s.rosca_participants rosca_id signer ≡ some i
      → s.pending_rosca_participants_order rosca_id ≡ some order
      → s.rosca_participants_count rosca_id ≡ some count
      → IsPending bound rosca_id s
      → IsPending bound rosca_id (unseated rosca_id signer i order (count - 1) s)
  unseated-IsPending order i count s place ordered counted v =
      let o : v.order ≡ order = ground arith in
      let here : get_elem? order i ≡ some (some signer) = rw o at (v.seat signer i place) in
      record {
        details = v.details;
        order = set order i none;
        inactive = v.inactive;
        found = v.found;
        ordered = ground arith;
        counted = ground (arith, filled-set-none order i signer here);
        sized = ground (arith, length-set order i none);
        fits = v.fits;
        positive = v.positive;
        pays = v.pays;
        threshold = v.threshold;
        seat = λ a j h.
            ground (arith, get_elem?-set order i j none here, v.seat a j, v.taken signer j);
        taken = λ a j h. ground (arith, get_elem?-set order i j none here, v.taken a j);
        invited = λ a j h. ground (arith, v.invited a j);
      }

logged-IsPending :
    {L : Type 0} {bound rosca_id : ℕ} (e : Event) {s : State L}
    → IsPending bound rosca_id s
    → IsPending bound rosca_id (log e s)
logged-IsPending e v = record {
  details = v.details;
  order = v.order;
  inactive = v.inactive;
  found = v.found;
  ordered = v.ordered;
  counted = v.counted;
  sized = v.sized;
  fits = v.fits;
  positive = v.positive;
  pays = v.pays;
  threshold = v.threshold;
  seat = v.seat;
  taken = v.taken;
  invited = v.invited;
}

module _ (rt : Runtime) (origin : rt.Origin) (bound rosca_id : ℕ) (s s' : State rt.Ledger) where
  -- A join that returns keeps the invariant of a circle that has not started: the positions, the
  -- order and the count agree.
  pub join_rosca-IsPending :
      (position : Option ℕ)
      → join_rosca rt origin rosca_id position s ≡ (ok tt, s')
      → IsPending bound rosca_id s
      → IsPending bound rosca_id s'
  join_rosca-IsPending position h =
      Joined-IsPending ((join_rosca-Returns rt origin rosca_id position s).at tt s' h)

  -- A call of leave that returns keeps the invariant of a circle that has not started.
  pub leave_rosca-IsPending :
      leave_rosca rt origin rosca_id s ≡ (ok tt, s')
      → IsPending bound rosca_id s
      → IsPending bound rosca_id s'
  leave_rosca-IsPending h v =
      let f = leave_rosca-Left rt origin rosca_id s s' h in
      rw f.left (
        logged-IsPending _ (
          Refunded-IsPending rt bound rosca_id f.signer _ _ _ f.paid f.refunded (
            unseated-IsPending rt bound rosca_id f.signer f.order f.i f.count s f.place f.ordered
              f.counted v)))
