-- ===== src/Rosca/Effects/Kept.antt =====
-- What a call keeps, from one state on.
use dotcircles.Prelude.{Bool, ap, false, if◌then◌else◌, refl, subst, true, ℕ, ◌≡◌}
use dotcircles.Rosca.Effects.{Exec, Outcome, continue, gets, settle, transfer, ◌>>=◌, ◌>>◌}
use dotcircles.Rosca.Effects.Keeps.{Keeps, continued}
use dotcircles.Rosca.Storage.{Runtime, State, Transfer, moved, refused}

module _ {L A B : Type 0} (P : State L → Type 0) where
  pub kept_on :
      (m : Exec L A) (f : A → Exec L B) (s : State L)
      → P (m s).1
      → ((a : A) → Keeps P (f a))
      → P ((m >>= f) s).1
  unfolding ◌>>=◌
  kept_on m f s p k = continued (m s).0 f (m s).1 k p

paid_then :
    {L B : Type 0} (P : State L → Type 0) (t : Transfer L) (s : State L) (m : Exec L B)
    → ((l : L) → t ≡ moved l → P (m (record s { ledger = l })).1)
    → P s
    → P (continue (settle t s).0 (λ _. m) (settle t s).1).1
paid_then P (moved l) s m k p = k l refl
paid_then P (refused c) s m k p = p

module _ (rt : Runtime) {B : Type 0} (P : State rt.Ledger → Type 0) where
  pub kept_paying :
      (asset from to amount : ℕ) (m : Exec rt.Ledger B) (s : State rt.Ledger)
      → ((l : rt.Ledger)
          → rt.transfer asset from to amount s.ledger ≡ moved l
          → P (m (record s { ledger = l })).1)
      → P s
      → P ((transfer rt asset from to amount >> m) s).1
  unfolding ◌>>=◌
  kept_paying asset from to amount m s k p =
      paid_then P (rt.transfer asset from to amount s.ledger) s m k p

module _ {L A : Type 0} (P : State L → Type 0) where
  pub kept_if :
      (b : Bool) (m n : Exec L A) (s : State L)
      → (b ≡ true → P (m s).1)
      → (b ≡ false → P (n s).1)
      → P ((if b then m else n) s).1
  kept_if true m n s km kn = km refl
  kept_if false m n s km kn = kn refl

module _ {L A B : Type 0} {P : State L → Type 0} where
  -- What is read is read in the state that the rest goes on from.
  pub kept_get :
      (g : State L → A) (f : A → Exec L B)
      → ((s : State L) → P s → P (f (g s) s).1)
      → Keeps P (gets g >>= f)
  unfolding ◌>>=◌
  kept_get g f k = record { at = k }

-- The state that a call has left.
pub kept_to :
    {L A : Type 0} (P : State L → Type 0) (m : Exec L A) (s s' : State L) (r : Outcome A)
    → Keeps P m
    → m s ≡ (r, s')
    → P s
    → P s'
kept_to P m s s' r k h p = subst P (ap (λ o. o.1) h) (k.at s p)

pub kept_both :
    {L A : Type 0} (P Q : State L → Type 0) (m : Exec L A) (s s' : State L) (r : Outcome A)
    → Keeps P m
    → Keeps Q m
    → m s ≡ (r, s')
    → P s × Q s
    → P s' × Q s'
kept_both P Q m s s' r k l h (p, q) = (kept_to P m s s' r k h p, kept_to Q m s s' r l h q)
