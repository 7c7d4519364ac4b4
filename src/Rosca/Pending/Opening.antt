-- ===== src/Rosca/Pending/Opening.antt =====
-- Just when `create_rosca` returns, and what it leaves.
use dotcircles.Prelude.{Option, [], arith, insert₂, leb, length, ltb, true, ℕ, ◌+◌, ◌↔◌, ◌≡◌}
use dotcircles.Rosca.Pending.{create_rosca, try_push, unwrap_or}
use dotcircles.Rosca.Effects.{ok, ◌>>=◌}
use dotcircles.Rosca.Pending.Create.{Created, Request, create, create_rosca-Returns}
use dotcircles.Rosca.Pending.Invitees.{invite_all_lem, invitees}
use dotcircles.Rosca.Storage.{Runtime, State}

module _ (rt : Runtime) (origin : rt.Origin) (r : Request) (position : Option ℕ)
    (s s' : State rt.Ledger) where
  create_returns :
      Created rt (rt.ensure_signed origin) r position s s'
      → create rt origin r position s ≡ (ok tt, s')
  unfolding create_rosca ◌>>=◌
  create_returns c =
      let pays : ltb 0 r.amount ≡ true = ground (arith, c.pays) in
      let positive : ltb 0 r.frequency ≡ true = ground (arith, c.positive) in
      let bounds : ltb rt.max_invited_participants rt.max_participants ≡ true =
        ground (arith, c.bounds) in
      let threshold : leb r.threshold (length (invitees r.invited) + 1) ≡ true =
        ground (arith, c.threshold) in
      let place : ltb (unwrap_or position 0) rt.max_participants ≡ true =
        ground (arith, c.place_fits) in
      let in_time : ltb s.now r.start_by ≡ true = ground (arith, c.in_time) in
      let fits : leb (length (invitees r.invited) + 1) rt.max_participants ≡ true =
        ground (arith, c.fits) in
      let marked =
        invite_all_lem rt s.next_rosca_id (invitees r.invited)
          (try_push rt.max_participants [] c.signer)
          (record s {
            rosca_invited_preverified_participants =
                insert₂ s.rosca_invited_preverified_participants s.next_rosca_id c.signer true;
          }) in
      rw c.left (
        ground (
          arith, c.signed, pays, positive, bounds, c.others, threshold, place, in_time, c.free,
          fits, marked,
        ))

  -- A creation returns just when it is signed by an account that does not invite itself, the
  -- contribution and the frequency are positive, the bound on the invited is below that on the
  -- participants, the threshold is no more than the creator and the invited, each counted once,
  -- these are within the bound, the start time is to come, and the creator's position, the first by
  -- default, is below the bound and one of the circle's. The circle is then pending with the details
  -- of the request, the creator in the place asked for and all other places free, a count of one,
  -- the creator and the invited marked as such, and the event told; the next id is one more, round
  -- to zero at 2^32.
  pub create_rosca-returns :
      (create rt origin r position s ≡ (ok tt, s'))
      ↔ Created rt (rt.ensure_signed origin) r position s s'
  create_rosca-returns = ((create_rosca-Returns rt origin r position s).at tt s', create_returns)
