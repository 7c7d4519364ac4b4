-- ===== src/Rosca/Rounds/Advance.antt =====
-- `advance_rosca_round` and `check_and_complete_rosca` on a circle with the invariant.
use dotcircles.Prelude.{
  Bool, List, [], ap, arith, checked_add, init, insert, last?, last?-some, length, length-init,
  none, of_some, some, sym, true, u64_mod, ℕ, ◌+◌, ◌-◌, ◌<◌, ◌∙◌, ◌∷◌, ◌≡◌, ◌≢◌,
}
use dotcircles.Rosca.Rounds.{advance_rosca_round, try_rotate_right}
use dotcircles.Rosca.Effects.{ok}
use dotcircles.Rosca.Effects.Returns.{Returns, last_event, of_index, of_modify, of_ok_or, of_read}
use dotcircles.Rosca.Rounds.Invariant.{Clears, IsActive}
use dotcircles.Rosca.Storage.{Runtime, State}
use dotcircles.Rosca.Types.{RoscaDetails, new_round_started}

-- The round that begins: its cutoff, its claimant, and the keys that the clearing has left.
abbrev pub advanced : {L : Type 0} → ℕ → ℕ → ℕ → List ℕ → List ℕ → State L → State L
advanced rosca_id next claimant order keys s = record s {
  next_pay_by_timestamp = insert s.next_pay_by_timestamp rosca_id (some next);
  eligible_claimant = insert s.eligible_claimant rosca_id (some claimant);
  active_rosca_participants_order = insert s.active_rosca_participants_order rosca_id (some order);
  current_contributors = insert s.current_contributors rosca_id keys;
  current_contribution_count = insert s.current_contribution_count rosca_id 0;
  events = new_round_started rosca_id claimant next ∷ s.events;
}

-- The circle with its invariant, moved on by one round: the last account of the order leads.
pub record Advanced {L : Type 0} (rosca_id : ℕ) (s : State L) (v : IsActive rosca_id s)
    (s' : State L) : Type 0 where
  pub claimant : ℕ
  pub last : last? (v.claimant ∷ v.rest) ≡ some claimant
  pub fits : v.next + v.details.contribution_frequency < u64_mod
  pub state :
      s'
      ≡ advanced rosca_id
          (v.next + v.details.contribution_frequency)
          claimant
          (claimant ∷ init (v.claimant ∷ v.rest))
          []
          s

pub try_rotate_right_lem :
    (order : List ℕ) (l : ℕ) → last? order ≡ some l → try_rotate_right order ≡ some (l ∷ init order)
unfolding try_rotate_right
try_rotate_right_lem order l h = ground arith

-- With the invariant the keys are no more than the limit.
keys_cleared :
    (rt : Runtime) (clears : Clears rt) (rosca_id : ℕ) (s : State rt.Ledger)
    (v : IsActive rosca_id s) (order : List ℕ) (x : ℕ)
    → order ≡ x ∷ init (v.claimant ∷ v.rest)
    → rt.clear_prefix (length order - 1) (s.current_contributors rosca_id) ≡ []
keys_cleared rt clears rosca_id s v order x e =
    clears (length order - 1) (s.current_contributors rosca_id)
      (ground (arith, v.bounded, length-init v.claimant v.rest, ap length e))

-- An order that begins with the claimant has a last account.
pub last?-ne-none : (order : List ℕ) (x : ℕ) (xs : List ℕ) → order ≡ x ∷ xs → last? order ≢ none
last?-ne-none order x xs e n = let (l, h) = last?-some x xs in cc (ap last? e)

module _ (rt : Runtime) (clears : Clears rt) (rosca_id : ℕ) (s : State rt.Ledger)
    (v : IsActive rosca_id s) where
  pub advanced_lem :
      (r : RoscaDetails) (cutoff next : ℕ) (order : List ℕ) (l : ℕ) (rotated : List ℕ)
      → s.active_roscas rosca_id ≡ some r
      → s.next_pay_by_timestamp rosca_id ≡ some cutoff
      → checked_add u64_mod cutoff r.contribution_frequency ≡ some next
      → s.active_rosca_participants_order rosca_id ≡ some order
      → last? order ≡ some l
      → try_rotate_right order ≡ some rotated
      → Advanced rosca_id s v (
          advanced rosca_id next l rotated
            (rt.clear_prefix (length rotated - 1) (s.current_contributors rosca_id))
            s)
  advanced_lem r cutoff next order l rotated er ec en eo el erot =
      let r' : r ≡ v.details = ground (arith, v.active) in
      let c' : cutoff ≡ v.next = ground (arith, v.next_at) in
      let o' : order ≡ v.claimant ∷ v.rest = ground (arith, v.ordered) in
      let l' : last? (v.claimant ∷ v.rest) ≡ some l = ap last? (sym o') ∙ el in
      let rot : rotated ≡ l ∷ init (v.claimant ∷ v.rest) =
        of_some
          (sym erot ∙ ap try_rotate_right o' ∙ try_rotate_right_lem (v.claimant ∷ v.rest) l l') in
      let en' : checked_add u64_mod v.next v.details.contribution_frequency ≡ some next =
        rw (r', c') at en in
      let n' : next ≡ v.next + v.details.contribution_frequency = ground (arith, en') in
      record {
        claimant = l;
        last = l';
        fits = ground (arith, en');
        state = rw (keys_cleared rt clears rosca_id s v rotated l rot, rot, n');
      }

  pub advance_rosca_round-Returns :
      {safe : Bool}
      → Returns safe s (advance_rosca_round rt rosca_id) (λ _ s'. Advanced rosca_id s v s')
  unfolding advance_rosca_round
  advance_rosca_round-Returns = of_read _ _ _ λ r er. of_read _ _ _ λ cutoff ec.
      of_ok_or _ _ _ λ next en. of_modify _ _ (
        of_read _ _ _ λ order eo.
          of_index _ _ (λ b. last?-ne-none order v.claimant v.rest (same order eo))
            λ l el. of_modify _ _ (
              of_ok_or _ _ _ λ rotated erot.
                of_modify _ _
                  (last_event _ (advanced_lem r cutoff next order l rotated er ec en eo el erot))))
    where
      same :
          (order : List ℕ)
          → s.active_rosca_participants_order rosca_id ≡ some order
          → order ≡ v.claimant ∷ v.rest
      same order e = of_some (sym e ∙ v.ordered)

module _ (rt : Runtime) (clears : Clears rt) (rosca_id : ℕ) (s s' : State rt.Ledger) where
  -- On a running circle, where `clear_prefix` removes all keys that its limit covers, a call that
  -- returns has moved the cutoff on by the frequency without wrapping, has made the last account of
  -- the order the claimant and the first, and has removed all contributors of the round.
  pub advance_rosca_round-Advanced :
      (v : IsActive rosca_id s)
      → advance_rosca_round rt rosca_id s ≡ (ok tt, s')
      → Advanced rosca_id s v s'
  advance_rosca_round-Advanced v h =
      (advance_rosca_round-Returns rt clears rosca_id s v {safe = true}).at tt s' h
