-- ===== src/Rosca/Pending/Creation.antt =====
-- `create_rosca`, branch by branch, and the invariant of the circle that it opens.
use dotcircles.Prelude.{
  List, Option, [], arith, contains, false, get_elem?, insert₂, length, length-replicate,
  length-set, ltb, none, refl, some, suc, true, zero, ℕ, ◌+◌, ◌<◌, ◌∙◌, ◌∷◌, ◌≡◌, ◌≤◌,
}
use dotcircles.Rosca.Pending.{create_rosca, try_push, unwrap_or}
use dotcircles.Rosca.Effects.{ok, panic, ◌>>=◌}
use dotcircles.Rosca.Pending.Create.{
  Request, create, create_rosca-Returns, created, details_of, first_order, free_places,
  get_elem?-replicate,
}
use dotcircles.Rosca.Pending.Invariant.{IsPending}
use dotcircles.Rosca.Pending.Invitees.{
  invite_all_lem, invitees, invitees_lem, mark_all_lem, push_all, push_all_lem,
}
use dotcircles.Rosca.Pending.Seats.{filled, filled-set-some, get_elem?-set}
use dotcircles.Rosca.Storage.{Runtime, State}

get_elem?-free_places : (n i : ℕ) → i < n → get_elem? (free_places n) i ≡ some none
get_elem?-free_places zero i h = elim h [ ]
get_elem?-free_places (suc n) zero h = refl
get_elem?-free_places (suc n) (suc i) h = get_elem?-free_places n i (omega arith)

get_elem?-free_places_beyond : (n i : ℕ) → n ≤ i → get_elem? (free_places n) i ≡ none
get_elem?-free_places_beyond zero i h = refl
get_elem?-free_places_beyond (suc n) zero h = elim h [ ]
get_elem?-free_places_beyond (suc n) (suc i) h = get_elem?-free_places_beyond n i (omega arith)

filled-free_places : (n : ℕ) → filled (free_places n) ≡ 0
filled-free_places zero = refl
filled-free_places (suc n) = filled-free_places n

-- The checks that stand above the write into the order.
pub record Accepts (rt : Runtime) (signer : ℕ) (r : Request) (position : Option ℕ)
    (s : State rt.Ledger) : Type 0 where
  pub pays : 0 < r.amount
  pub positive : 0 < r.frequency
  pub bounds : rt.max_invited_participants < rt.max_participants
  pub others : contains r.invited signer ≡ false
  pub threshold : r.threshold ≤ length (invitees r.invited) + 1
  pub place_fits : unwrap_or position 0 < rt.max_participants
  pub in_time : s.now < r.start_by
  -- the argument is a `BoundedVec`
  pub bounded : length r.invited ≤ rt.max_invited_participants

module _ (rt : Runtime) (origin : rt.Origin) (signer : ℕ) (r : Request) (position : Option ℕ)
    (s : State rt.Ledger) (signed : rt.ensure_signed origin ≡ some signer) where
  -- An accepted request whose position is one of the circle's opens it: the event names the
  -- creator and every invitee, and nothing is cut off by the bounds.
  pub create_rosca_lem :
      Accepts rt signer r position s
      → unwrap_or position 0 < length (invitees r.invited) + 1
      → create rt origin r position s ≡ (
        ok tt,
        created s.next_rosca_id
            (details_of r)
            signer
            (unwrap_or position 0)
            (invitees r.invited)
            (signer ∷ invitees r.invited)
            s,
      )
  unfolding create_rosca ◌>>=◌
  create_rosca_lem v inside =
      let few = (invitees_lem r.invited).2 in
      let pushed : push_all rt.max_participants (invitees r.invited)
            (try_push rt.max_participants [] signer)
          ≡ signer ∷ invitees r.invited =
        room v.bounds few v.bounded in
      ground (
        arith,
        get_elem?-free_places (length (invitees r.invited) + 1) (unwrap_or position 0) inside,
        invite_all_lem rt s.next_rosca_id (invitees r.invited)
            (try_push rt.max_participants [] signer)
            (record s {
              rosca_invited_preverified_participants =
                  insert₂ s.rosca_invited_preverified_participants s.next_rosca_id signer true;
            }),
      )
    where
      room :
          rt.max_invited_participants < rt.max_participants
          → length (invitees r.invited) ≤ length r.invited
          → length r.invited ≤ rt.max_invited_participants
          → push_all rt.max_participants
              (invitees r.invited)
              (try_push rt.max_participants [] signer)
            ≡ signer ∷ invitees r.invited
      room a b c =
          let e : ltb 0 rt.max_participants ≡ true = ground arith in
          rw e (push_all_lem rt.max_participants (invitees r.invited) (signer ∷ []) (omega arith))

  -- An accepted request whose position is below `MaxParticipants`, but not among the places of
  -- the circle, panics.
  pub create_rosca_panics :
      Accepts rt signer r position s
      → length (invitees r.invited) + 1 ≤ unwrap_or position 0
      → create rt origin r position s ≡ (panic, s)
  unfolding create_rosca ◌>>=◌
  create_rosca_panics v beyond = ground (
    arith,
    get_elem?-free_places_beyond (length (invitees r.invited) + 1) (unwrap_or position 0) beyond,
  )

-- A circle opens at an id that no storage item knows yet.
pub record IsFresh {L : Type 0} (rosca_id : ℕ) (s : State L) : Type 0 where
  pub inactive : s.active_roscas rosca_id ≡ none
  pub nobody : (a : ℕ) → s.rosca_participants rosca_id a ≡ none

module _ (rt : Runtime) (origin : rt.Origin) (r : Request) (position : Option ℕ)
    (s s' : State rt.Ledger) where
  -- When the call returns, the circle that it has opened at a fresh id has the invariant: the
  -- creator alone has a place, the count is one, and the creator is among the invited.
  pub create_rosca-IsPending :
      create rt origin r position s ≡ (ok tt, s')
      → IsFresh s.next_rosca_id s
      → IsPending rt.max_participants s.next_rosca_id s'
  create_rosca-IsPending h fresh =
      let c = (create_rosca-Returns rt origin r position s).at tt s' h in
      let n : ℕ = length (invitees r.invited) + 1 in
      let p : ℕ = unwrap_or position 0 in
      let order : List (Option ℕ) = first_order n p c.signer in
      rw c.left (record {
        details = details_of r;
        order = order;
        inactive = fresh.inactive;
        found = ground arith;
        ordered = ground arith;
        counted =
            ground (arith, filled-set-some (free_places n) p c.signer c.free, filled-free_places n);
        sized = length-set (free_places n) p (some c.signer) ∙ length-replicate n none;
        fits = c.fits;
        positive = c.positive;
        pays = c.pays;
        threshold = c.threshold;
        seat = λ a i h.
            ground
              (arith, fresh.nobody a, get_elem?-set (free_places n) p i (some c.signer) c.free);
        taken = λ a i h. ground (
          arith,
          get_elem?-set (free_places n) p i (some c.signer) c.free,
          get_elem?-replicate n i (some a),
        );
        invited = λ a i h. ground (
          arith,
          fresh.nobody a,
          mark_all_lem s.next_rosca_id (invitees r.invited)
              (insert₂ s.rosca_invited_preverified_participants s.next_rosca_id c.signer true)
              s.next_rosca_id a,
        );
      })
