-- ===== src/Rosca/Pending/Create.antt =====
-- What a call of `create_rosca` has checked and done when it returns.
use dotcircles.Prelude.{
  Bool, List, Option, [], ap, arith, contains, false, get_elem?, insert, insert₂, length, none,
  refl, replicate, set, some, suc, true, u32_mod, zero, ℕ, ◌%◌, ◌+◌, ◌<◌, ◌∙◌, ◌∷◌, ◌≡◌, ◌≤◌,
}
use dotcircles.Rosca.Pending.{create_rosca, invite_all, try_push, unwrap_or}
use dotcircles.Rosca.Effects.{Exec}
use dotcircles.Rosca.Effects.Returns.{
  Returns, last_event, of_bind, of_ensure, of_gets, of_index, of_modify, of_signer,
}
use dotcircles.Rosca.Pending.Invitees.{invite_all_lem, invitees, mark_all, push_all}
use dotcircles.Rosca.Storage.{Runtime, State}
use dotcircles.Rosca.Types.{PaymentAssets, RoscaDetails, rosca_created}

abbrev pub free_places : ℕ → List (Option ℕ)
free_places n = replicate n none

-- The order of a new circle: every place is free but the creator's.
abbrev pub first_order : ℕ → ℕ → ℕ → List (Option ℕ)
first_order number place signer = set (free_places number) place (some signer)

-- The circle `rosca_id` with its details, created by `signer` at `place`.
abbrev pub created :
    {L : Type 0} → ℕ → RoscaDetails → ℕ → ℕ → (invited eligible : List ℕ) → State L → State L
created rosca_id details signer place invited eligible s = record s {
  rosca_invited_preverified_participants =
      mark_all rosca_id invited
        (insert₂ s.rosca_invited_preverified_participants rosca_id signer true);
  pending_rosca_participants_order =
      insert s.pending_rosca_participants_order rosca_id
        (some (first_order details.number_of_participants place signer));
  rosca_participants = insert₂ s.rosca_participants rosca_id signer (some place);
  rosca_participants_count = insert s.rosca_participants_count rosca_id (some 1);
  pending_rosca_details = insert s.pending_rosca_details rosca_id (some details);
  next_rosca_id = (rosca_id + 1) % u32_mod;
  events =
      rosca_created rosca_id details.contribution_amount details.payment_asset
        details.contribution_frequency details.random_order details.name
        details.number_of_participants details.minimum_participant_threshold
        details.start_by_timestamp eligible signer
      ∷ s.events;
}

-- The arguments of the call, but for the position.
pub record Request : Type 0 where
  pub random_order : Bool
  pub invited : List ℕ
  pub threshold : ℕ
  pub amount : ℕ
  pub asset : PaymentAssets
  pub frequency : ℕ
  pub start_by : ℕ
  pub name : List ℕ

abbrev pub details_of : Request → RoscaDetails
details_of r = record {
  random_order = r.random_order;
  number_of_participants = length (invitees r.invited) + 1;
  minimum_participant_threshold = r.threshold;
  contribution_amount = r.amount;
  payment_asset = r.asset;
  contribution_frequency = r.frequency;
  start_by_timestamp = r.start_by;
  name = r.name;
}

pub record Created (rt : Runtime) (who : Option ℕ) (r : Request) (position : Option ℕ)
    (s s' : State rt.Ledger) : Type 0 where
  pub signer : ℕ
  pub signed : who ≡ some signer
  pub pays : 0 < r.amount
  pub positive : 0 < r.frequency
  pub bounds : rt.max_invited_participants < rt.max_participants
  pub others : contains r.invited signer ≡ false
  pub threshold : r.threshold ≤ length (invitees r.invited) + 1
  pub place_fits : unwrap_or position 0 < rt.max_participants
  pub in_time : s.now < r.start_by
  pub free :
      get_elem? (free_places (length (invitees r.invited) + 1)) (unwrap_or position 0) ≡ some none
  pub fits : length (invitees r.invited) + 1 ≤ rt.max_participants
  pub left :
      s'
      ≡ created s.next_rosca_id
          (details_of r)
          signer
          (unwrap_or position 0)
          (invitees r.invited)
          (push_all rt.max_participants
            (invitees r.invited)
            (try_push rt.max_participants [] signer))
          s

pub get_elem?-replicate : (n i : ℕ) (a : Option ℕ) → get_elem? (free_places n) i ≡ some a → a ≡ none
get_elem?-replicate zero i a h = cc
get_elem?-replicate (suc n) zero a h = ground arith
get_elem?-replicate (suc n) (suc i) a h = get_elem?-replicate n i a h

module _ (rt : Runtime) where
  abbrev pub create : rt.Origin → Request → Option ℕ → Exec rt.Ledger Unit
  create origin r position =
      create_rosca rt origin r.random_order r.invited r.threshold r.amount r.asset r.frequency
        r.start_by position r.name

  invite_all-Returns :
      (rosca_id : ℕ) (xs eligible : List ℕ) (s : State rt.Ledger)
      → Returns false s (invite_all rt rosca_id xs eligible) (λ a s'.
        (a ≡ push_all rt.max_participants xs eligible)
        × (s' ≡ record s {
          rosca_invited_preverified_participants =
              mark_all rosca_id xs s.rosca_invited_preverified_participants;
        }))
  invite_all-Returns rosca_id xs eligible s = record {
    at = λ a s' h. let e = invite_all_lem rt rosca_id xs eligible s in ground arith;
    ends = λ s' h. let e = invite_all_lem rt rosca_id xs eligible s in ground arith;
    calm = λ s' b h. let e = invite_all_lem rt rosca_id xs eligible s in ground arith;
  }

  pub create_rosca-Returns :
      (origin : rt.Origin) (r : Request) (position : Option ℕ) (s : State rt.Ledger)
      → Returns false s
          (create origin r position)
          (λ _ s'. Created rt (rt.ensure_signed origin) r position s s')
  unfolding create_rosca
  create_rosca-Returns origin r position s = of_signer _ _ λ signer e. of_ensure _ _ _ λ pays.
      of_ensure _ _ _ λ positive. of_ensure _ _ _ λ bounds. of_ensure _ _ _ λ others. of_gets _ _ (
        of_ensure _ _ _ λ threshold. of_ensure _ _ _ λ place_fits. of_ensure _ _ _ λ in_time.
          of_gets _ _ (
            of_index _ _ (λ b. cc)
              λ a free. of_modify _ _ (
                of_bind _ _ _ (invite_all-Returns _ _ _ _) λ eligible s₁ (pushed, marked).
                  rw (pushed, marked)
                    (of_ensure _ _ _ λ fits. of_modify _ _ (
                      last_event _ (record {
                        signer = signer;
                        signed = e;
                        pays = ground arith;
                        positive = ground arith;
                        bounds = ground arith;
                        others = ground arith;
                        threshold = ground arith;
                        place_fits = ground arith;
                        in_time = ground arith;
                        free =
                            free
                            ∙ ap some (
                                get_elem?-replicate (length (invitees r.invited) + 1)
                                  (unwrap_or position 0) a free);
                        fits = ground arith;
                        left = refl;
                      }))))))
