-- ===== src/Rosca/Start/Starting.antt =====
-- `start_rosca`: from the invariant of a circle that has not started to that of a running one.
use dotcircles.Prelude.{
  List, Option, SameItems, [], ap, arith, count, count-Distinct, count-contains, count-rotate,
  false, init, insert, is_some, last?, last?-some, length, length-init, map, none, of_some, refl,
  reverse, some, sym, true, ℕ, ◌*◌, ◌+◌, ◌-◌, ◌<◌, ◌∙◌, ◌∷◌, ◌≡◌, ◌≢◌, ◌≤◌,
}
use dotcircles.Rosca.Start.{compact}
use dotcircles.Rosca.Pending.Invariant.{IsPending}
use dotcircles.Rosca.Pending.Seats.{filled}
use dotcircles.Rosca.Rounds.Agenda.{agenda_of}
use dotcircles.Rosca.Rounds.Invariant.{IsActive}
use dotcircles.Rosca.Start.Announced.{IsAnnounced, recipient_of}
use dotcircles.Rosca.Start.Schedule.{agenda_lem, timed, turn_of, turn_of-timed}
use dotcircles.Rosca.Start.Seated.{
  SameItems-reverse, count-compact, counted_seat, length-compact-reverse,
}
use dotcircles.Rosca.Storage.{State}
use dotcircles.Rosca.Types.{RoscaDetails, RoundInfo, rosca_started}

-- No round of the circle has been played.
pub record IsUnplayed {L : Type 0} (rosca_id : ℕ) (s : State L) : Type 0 where
  pub running : s.completed_roscas rosca_id ≡ false
  pub contributors : s.current_contributors rosca_id ≡ []
  pub contributions : s.current_contribution_count rosca_id ≡ 0

-- The state in which the circle has been started.
abbrev pub begun :
    {L : Type 0}
    → (rosca_id signer : ℕ) → RoscaDetails
    → List RoundInfo
    → (first : ℕ) (order : List ℕ) (next final : ℕ) → State L
    → State L
begun rosca_id signer rosca rounds first order next final s = record s {
  eligible_claimant = insert s.eligible_claimant rosca_id (some first);
  active_rosca_participants_order = insert s.active_rosca_participants_order rosca_id (some order);
  next_pay_by_timestamp = insert s.next_pay_by_timestamp rosca_id (some next);
  final_pay_by_timestamp = insert s.final_pay_by_timestamp rosca_id (some final);
  active_roscas = insert s.active_roscas rosca_id (some rosca);
  pending_rosca_details = insert s.pending_rosca_details rosca_id none;
  events = rosca_started rosca_id signer rounds first next ∷ s.events;
}

-- The last account of an order, brought to the front.
rotated_items : (order : List ℕ) (l : ℕ) → last? order ≡ some l → SameItems (l ∷ init order) order
rotated_items [] l h a = cc
rotated_items (x ∷ xs) l h a = count-rotate x xs l a h

length-init_lem :
    (order : List ℕ) (l : ℕ) → last? order ≡ some l → length (init order) ≡ length order - 1
length-init_lem [] l h = cc
length-init_lem (x ∷ xs) l h = omega (arith, length-init x xs)

pub last?-of_count : (order : List ℕ) (a : ℕ) → 0 < count order a → last? order ≢ none
last?-of_count [] a h e = absurd (omega arith)
last?-of_count (x ∷ xs) a h e = let (l, h') = last?-some x xs in cc

-- Once: what is counted at most once in one order is in any order of the same accounts.
module _ {L : Type 0} (bound rosca_id : ℕ) (s : State L) (v : IsPending bound rosca_id s)
    (order : List ℕ) (items : SameItems order (compact (reverse v.order))) where
  order_items : SameItems order (compact v.order)
  order_items a = items a ∙ SameItems-reverse v.order a

  pub order-count : (a : ℕ) → is_some (s.rosca_participants rosca_id a) ≡ true → 0 < count order a
  order-count a h =
      let (i, at) = some_of (s.rosca_participants rosca_id a) h in
      omega (arith, order_items a, counted_seat v.order i a (v.seat a i at))
    where
      some_of : (o : Option ℕ) → is_some o ≡ true → (i : ℕ) × (o ≡ some i)
      some_of none h = absurd cc
      some_of (some i) h = (i, refl)

  order_once : (a : ℕ) → count order a ≤ 1
  order_once a = omega (
    arith,
    order_items a,
    count-compact v.order a (λ i j p q. of_some (sym (v.taken a i p) ∙ v.taken a j q)),
  )

  module _ (length_lem : length order ≡ length (compact (reverse v.order)))
      (u : IsUnplayed rosca_id s) (first signer next final : ℕ) (rounds : List RoundInfo)
      (last : last? order ≡ some first)
      (sum : next + (filled v.order - 1) * v.details.contribution_frequency ≡ final) where
    pub begun-IsActive :
        IsActive rosca_id
          (begun rosca_id signer v.details rounds first (first ∷ init order) next final s)
    begun-IsActive =
        let few : filled v.order - 1 ≡ length (init order) =
          omega
            (arith, length_lem, length-compact-reverse v.order, length-init_lem order first last) in
        record {
          details = v.details;
          claimant = first;
          rest = init order;
          next = next;
          final = final;
          left = filled v.order - 1;
          active = ground arith;
          running = u.running;
          gone = ground arith;
          eligible = ground arith;
          ordered = ground arith;
          distinct =
              count-Distinct (first ∷ init order)
                (λ a. omega (arith, order_once a, rotated_items order first last a));
          next_at = ground arith;
          final_at = ground arith;
          positive = v.positive;
          pays = v.pays;
          rounds = sum;
          few = omega arith;
          counted = ground (arith, u.contributors, u.contributions);
          bounded = ground (arith, u.contributors);
          members = λ a h.
              count-contains (first ∷ init order) a
                (omega (arith, order-count a h, rotated_items order first last a));
        }

    -- The rounds of the circle are those of the event, if that has the order's recipients and
    -- cutoffs.
    pub agenda_of-begun :
        (t : ℕ)
        → next ≡ t + v.details.contribution_frequency
        → map recipient_of rounds ≡ reverse order
        → IsAnnounced order t v.details.contribution_frequency rounds
        → agenda_of begun-IsActive ≡ map turn_of rounds
    unfolding begun-IsActive
    agenda_of-begun t at names announced =
        agenda_lem order first (filled v.order - 1) next v.details.contribution_frequency last (
          omega
            (arith, length_lem, length-compact-reverse v.order, length-init_lem order first last))
        ∙ ap (λ k. timed k v.details.contribution_frequency (reverse order)) at
        ∙ ap (timed (t + v.details.contribution_frequency) v.details.contribution_frequency)
            (sym names)
        ∙ sym (turn_of-timed order t v.details.contribution_frequency rounds announced)
