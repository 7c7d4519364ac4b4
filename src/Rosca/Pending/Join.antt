-- ===== src/Rosca/Pending/Join.antt =====
-- What a call of `join_rosca` has found and done when it returns.
use dotcircles.Prelude.{
  List, Option, [], arith, get_elem?, insert, insert₂, none, set, some, suc, true, u32_mod, zero, ℕ,
  ◌+◌, ◌<◌, ◌∷◌, ◌≡◌,
}
use dotcircles.Rosca.Pending.{first_free, join_rosca, take_position}
use dotcircles.Rosca.Effects.{ok, ◌>>=◌}
use dotcircles.Rosca.Effects.Returns.{
  Returns, last_event, of_bind, of_check, of_modify, of_ok_or, of_read, of_signer,
}
use dotcircles.Rosca.Storage.{Runtime, State}
use dotcircles.Rosca.Types.{RoscaDetails, joined_rosca}

-- The state in which `signer` has taken the place `i` of `order`, the count then being `count`.
abbrev pub seated : {L : Type 0} → ℕ → ℕ → ℕ → List (Option ℕ) → ℕ → State L → State L
seated rosca_id signer i order count s = record s {
  pending_rosca_participants_order =
      insert s.pending_rosca_participants_order rosca_id (some (set order i (some signer)));
  rosca_participants = insert₂ s.rosca_participants rosca_id signer (some i);
  rosca_participants_count = insert s.rosca_participants_count rosca_id (some count);
  events = joined_rosca rosca_id signer ∷ s.events;
}

abbrev if_free : Option (Option ℕ) → ℕ → Option ℕ
if_free none i = none
if_free (some none) i = some i
if_free (some (some a)) i = none

-- The free place that a call gets: the one that it asks for, or the first.
abbrev pub free_place : Option ℕ → List (Option ℕ) → Option ℕ
free_place (some i) order = if_free (get_elem? order i) i
free_place none order = first_free order

first_free_lem :
    (order : List (Option ℕ)) (i : ℕ) → first_free order ≡ some i → get_elem? order i ≡ some none
first_free_lem [] i h = cc
first_free_lem (none ∷ r) i h = ground arith
first_free_lem (some a ∷ r) zero h = ground arith
first_free_lem (some a ∷ r) (suc i) h = ground (arith, first_free_lem r i)

pub free_place_lem :
    (position : Option ℕ) (order : List (Option ℕ)) (i : ℕ)
    → free_place position order ≡ some i
    → get_elem? order i ≡ some none
free_place_lem none order i h = first_free_lem order i h
free_place_lem (some p) order i h = ground arith

-- What a call that returned has found, and the state `s'` that it left.
pub record Joined {L : Type 0} (who : Option ℕ) (rosca_id : ℕ) (position : Option ℕ)
    (s s' : State L) : Type 0 where
  pub signer : ℕ
  pub order : List (Option ℕ)
  pub i : ℕ
  pub count : ℕ
  pub rosca : RoscaDetails
  pub signed : who ≡ some signer
  pub inactive : s.active_roscas rosca_id ≡ none
  pub new : s.rosca_participants rosca_id signer ≡ none
  pub invited : s.rosca_invited_preverified_participants rosca_id signer ≡ true
  pub pending : s.pending_rosca_details rosca_id ≡ some rosca
  pub in_time : s.now < rosca.start_by_timestamp
  pub ordered : s.pending_rosca_participants_order rosca_id ≡ some order
  pub choice : free_place position order ≡ some i
  pub counted : s.rosca_participants_count rosca_id ≡ some count
  pub room : count + 1 < u32_mod
  pub left : s' ≡ seated rosca_id signer i order (count + 1) s

module _ (rt : Runtime) where
  take_position-Returns :
      (position : Option ℕ) (signer : ℕ) (order : List (Option ℕ)) (s : State rt.Ledger)
      → Returns true s (take_position rt position signer order) (λ placed s'.
        (s' ≡ s)
        × (placed.0 ≡ set order placed.1 (some signer))
        × (free_place position order ≡ some placed.1))
  unfolding take_position ◌>>=◌
  take_position-Returns none signer order s = record {
    at = λ a s' h. ground arith;
    ends = λ s' h. ground arith;
    calm = λ s' b h. ground arith;
  }
  take_position-Returns (some i) signer order s = record {
    at = λ a s' h. ground arith;
    ends = λ s' h. ground arith;
    calm = λ s' b h. ground arith;
  }

  pub join_rosca-Returns :
      (origin : rt.Origin) (rosca_id : ℕ) (position : Option ℕ) (s : State rt.Ledger)
      → Returns true s
          (join_rosca rt origin rosca_id position)
          (λ _ s'. Joined (rt.ensure_signed origin) rosca_id position s s')
  unfolding join_rosca
  join_rosca-Returns origin rosca_id position s = of_signer _ _ λ signer e.
      of_check _ _ _ _ λ inactive. of_check _ _ _ _ λ new. of_check _ _ _ _ λ invited.
        of_read _ _ _ λ rosca pending. of_check _ _ _ _ λ in_time. of_read _ _ _ λ order ordered.
          of_bind _ _ _ (take_position-Returns position signer order s)
            λ placed s₁ (same, put, choice). rw same (
              of_modify _ _ (
                of_read _ _ _ λ count counted. of_ok_or _ _ _ λ more room. of_modify _ _ (
                  last_event _ (record {
                    signer = signer;
                    order = order;
                    i = placed.1;
                    count = count;
                    rosca = rosca;
                    signed = e;
                    inactive = ground arith;
                    new = ground arith;
                    invited = ground arith;
                    pending = pending;
                    in_time = ground arith;
                    ordered = ordered;
                    choice = choice;
                    counted = counted;
                    room = ground arith;
                    left = ground arith;
                  }))))

module _ (rt : Runtime) (origin : rt.Origin) (rosca_id : ℕ) (position : Option ℕ)
    (s s' : State rt.Ledger) where
  -- A join that returns was signed by an invited account without a place, before the start time of
  -- a circle that has not started; it has given the account the place asked for, or the first free
  -- one, where that was free, and has counted the account without wrapping.
  pub join_rosca-Joined :
      join_rosca rt origin rosca_id position s ≡ (ok tt, s')
      → Joined (rt.ensure_signed origin) rosca_id position s s'
  join_rosca-Joined h = (join_rosca-Returns rt origin rosca_id position s).at tt s' h
