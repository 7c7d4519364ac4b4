-- ===== src/Rosca/World/Calm.antt =====
-- In every sound state the calls on every circle end and do not panic.
use dotcircles.Prelude.{
  Bool-cases, List, Option, arith, get_elem?, inl, inr, ltb, none, of_some, refl, some, sym, true,
  ℕ, ◌∙◌, ◌≡◌, ◌≢◌,
}
use dotcircles.Rosca.World.{IsBlank, IsSound}
use dotcircles.Rosca.Active.{contribute_to_rosca, manually_end_rosca}
use dotcircles.Rosca.Deposits.{add_to_security_deposit, claim_security_deposit}
use dotcircles.Rosca.Effects.{Exec, diverge, panic}
use dotcircles.Rosca.Effects.Returns.{Returns, of_check, of_read, of_signer}
use dotcircles.Rosca.Life.{InLife}
use dotcircles.Rosca.Life.Course.{Ended-gone}
use dotcircles.Rosca.Life.Frames.{add_to_security_deposit-Touched, claim_security_deposit-Touched}
use dotcircles.Rosca.Life.Refusals.{
  contribute_to_rosca-inactive, manually_end_rosca-inactive, start_rosca-not_pending,
}
use dotcircles.Rosca.Life.Safety.{contributes-calm, ends-calm, starts-calm}
use dotcircles.Rosca.Pending.{join_rosca, leave_rosca}
use dotcircles.Rosca.Pending.Join.{join_rosca-Returns}
use dotcircles.Rosca.Pending.Leave.{leave_rosca-Returns}
use dotcircles.Rosca.Rounds.Invariant.{Clears}
use dotcircles.Rosca.Start.{start_rosca}
use dotcircles.Rosca.Storage.{Runtime, State}
use dotcircles.Rosca.Types.{PaymentAssets}

-- A call that neither panics nor runs on, whatever state it would leave.
abbrev pub IsCalm : {L A : Type 0} → Exec L A → (s t : State L) → Type 0
IsCalm m s t = (m s ≢ (panic, t)) × (m s ≢ (diverge, t))

IsCalm-of :
    {L A : Type 0} (m : Exec L A) (s t : State L) (Q : A → State L → Type 0)
    → Returns true s m Q
    → IsCalm m s t
IsCalm-of m s t Q k = (k.calm t refl, k.ends t)

module _ (rt : Runtime) (clears : Clears rt) (j : ℕ) (caller : rt.Origin)
    (s t : State rt.Ledger) where
  leave_rosca-gone :
      s.pending_rosca_details j ≡ none → Returns true s (leave_rosca rt caller j) (λ _ _. ⊥)
  unfolding leave_rosca
  leave_rosca-gone gone = of_signer _ _ λ signer e.
      of_check _ _ _ _ λ inactive. of_read _ _ _ λ place ep. of_read _ _ _ λ rosca er. absurd cc

  leaves-IsCalm : InLife rt j s → IsCalm (leave_rosca rt caller j) s t
  leaves-IsCalm (inl (v, u)) = IsCalm-of _ s t _ (
      leave_rosca-Returns rt {safe = true} caller j s
        λ b signer i order place ordered. seated_in signer i order place (v.ordered) ordered)
    where
      seated_in :
          (signer i : ℕ) (order : List (Option ℕ))
          → s.rosca_participants j signer ≡ some i
          → s.pending_rosca_participants_order j ≡ some v.order
          → s.pending_rosca_participants_order j ≡ some order
          → get_elem? order i ≢ none
      seated_in signer i order place e f n =
          let same : v.order ≡ order = of_some (sym e ∙ f) in cc (v.seat signer i place, same, n)
  leaves-IsCalm (inr e) = IsCalm-of _ s t _ (leave_rosca-gone (Ended-gone rt j s e))

  abbrev pub AllCalm : (position : Option ℕ) (asset : PaymentAssets) (amount : ℕ) → Type 0
  AllCalm position asset amount =
      IsCalm (join_rosca rt caller j position) s t
      × IsCalm (leave_rosca rt caller j) s t
      × IsCalm (start_rosca rt caller j) s t
      × IsCalm (contribute_to_rosca rt j caller) s t
      × IsCalm (manually_end_rosca rt j caller) s t
      × IsCalm (claim_security_deposit rt j caller asset) s t
      × IsCalm (add_to_security_deposit rt j caller amount) s t

  module _ (position : Option ℕ) (asset : PaymentAssets) (amount : ℕ) where
    InLife-calm : InLife rt j s → AllCalm position asset amount
    InLife-calm v = (
      IsCalm-of _ s t _ (join_rosca-Returns rt caller j position s),
      leaves-IsCalm v,
      IsCalm-of _ s t _ (starts-calm rt j clears caller s v),
      IsCalm-of _ s t _ (contributes-calm rt j clears caller s v),
      IsCalm-of _ s t _ (ends-calm rt j clears caller s v),
      IsCalm-of _ s t _ (claim_security_deposit-Touched rt j caller s asset),
      IsCalm-of _ s t _ (add_to_security_deposit-Touched rt j caller s amount),
    )

    IsBlank-calm : IsBlank j s → AllCalm position asset amount
    IsBlank-calm b = (
      IsCalm-of _ s t _ (join_rosca-Returns rt caller j position s),
      IsCalm-of _ s t _ (leave_rosca-gone b.unopened),
      IsCalm-of _ s t _ (start_rosca-not_pending rt j caller s b.unopened),
      IsCalm-of _ s t _ (contribute_to_rosca-inactive rt j caller s b.inactive),
      IsCalm-of _ s t _ (manually_end_rosca-inactive rt j caller s b.inactive),
      IsCalm-of _ s t _ (claim_security_deposit-Touched rt j caller s asset),
      IsCalm-of _ s t _ (add_to_security_deposit-Touched rt j caller s amount),
    )

    -- In a sound state, and for every circle id, caller and argument, no call but `create_rosca`
    -- panics, and none runs on for ever, where `clear_prefix` removes all keys that its limit covers.
    pub IsSound-calm : IsSound rt s → AllCalm position asset amount
    IsSound-calm v = elim (Bool-cases (ltb j s.next_rosca_id)) [
      | inl lt ↦ InLife-calm ((v j).0 (ground (arith, lt)))
      | inr ge ↦ IsBlank-calm ((v j).1 (ground (arith, ge)))
    ]
