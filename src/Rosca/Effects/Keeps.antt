-- ===== src/Rosca/Effects/Keeps.antt =====
-- What a call keeps, whether it returns or not: one rule for each kind of step.
use dotcircles.Prelude.{Bool, Option, false, if◌then◌else◌, none, refl, some, true, ℕ, ◌≡◌}
use dotcircles.Rosca.Effects.{
  Exec, Outcome, continue, deposit_event, diverge, ensure, err, gets, index, log, modify, ok, ok_or,
  panic, pure, settle, signer_of, stuck_loop, transfer, ◌>>=◌, ◌>>◌,
}
use dotcircles.Rosca.Storage.{Runtime, State, Transfer, moved, refused}
use dotcircles.Rosca.Types.{Error, Event}

-- From a state with `P`, `m` leaves a state with `P`.
pub record Keeps {L A : Type 0} (P : State L → Type 0) (m : Exec L A) : Type 0 where
  pub at : (s : State L) → P s → P (m s).1

module _ {L A : Type 0} {P : State L → Type 0} where
  pub keep_pure : (a : A) → Keeps P (pure a)
  unfolding ◌>>=◌
  keep_pure a = record { at = λ s p. p }

  pub keep_stuck : Keeps P (stuck_loop {A = A})
  unfolding ◌>>=◌
  keep_stuck = record { at = λ s p. p }

  pub keep_ok_or : (o : Option A) (e : Error) → Keeps P (ok_or o e)
  unfolding ◌>>=◌
  keep_ok_or none e = record { at = λ s p. p }
  keep_ok_or (some a) e = record { at = λ s p. p }

  pub keep_index : (o : Option A) → Keeps P (index o)
  unfolding ◌>>=◌
  keep_index none = record { at = λ s p. p }
  keep_index (some a) = record { at = λ s p. p }

  pub keep_gets : (f : State L → A) → Keeps P (gets f)
  unfolding ◌>>=◌
  keep_gets f = record { at = λ s p. p }

  pub keep_if : (b : Bool) (m n : Exec L A) → Keeps P m → Keeps P n → Keeps P (if b then m else n)
  keep_if true m n km kn = km
  keep_if false m n km kn = kn

module _ {L : Type 0} {P : State L → Type 0} where
  pub keep_ensure : (b : Bool) (e : Error) → Keeps P (ensure b e)
  unfolding ◌>>=◌
  keep_ensure true e = record { at = λ s p. p }
  keep_ensure false e = record { at = λ s p. p }

  pub keep_signer : (o : Option ℕ) → Keeps P (signer_of o)
  unfolding ◌>>=◌
  keep_signer none = record { at = λ s p. p }
  keep_signer (some a) = record { at = λ s p. p }

  pub keep_modify : (f : State L → State L) → ((s : State L) → P s → P (f s)) → Keeps P (modify f)
  unfolding ◌>>=◌
  keep_modify f k = record { at = k }

  pub keep_event : (e : Event) → ((s : State L) → P s → P (log e s)) → Keeps P (deposit_event e)
  unfolding ◌>>=◌
  keep_event e k = record { at = k }

settled_keep :
    {L : Type 0} (P : State L → Type 0) (t : Transfer L) (s : State L)
    → ((l : L) → P s → P (record s { ledger = l }))
    → P s
    → P (settle t s).1
settled_keep P (moved l) s k p = k l p
settled_keep P (refused c) s k p = p

module _ (rt : Runtime) {P : State rt.Ledger → Type 0} where
  pub keep_transfer :
      (asset from to amount : ℕ)
      → ((l : rt.Ledger) (s : State rt.Ledger) → P s → P (record s { ledger = l }))
      → Keeps P (transfer rt asset from to amount)
  unfolding ◌>>=◌
  keep_transfer asset from to amount k = record {
    at = λ s p. settled_keep P (rt.transfer asset from to amount s.ledger) s (λ l. k l s) p;
  }

module _ {L A B : Type 0} {P : State L → Type 0} where
  pub continued :
      (r : Outcome A) (f : A → Exec L B) (s : State L)
      → ((a : A) → Keeps P (f a))
      → P s
      → P (continue r f s).1
  continued (ok a) f s k p = (k a).at s p
  continued (err e) f s k p = p
  continued panic f s k p = p
  continued diverge f s k p = p

  pub keep_bind :
      (m : Exec L A) (f : A → Exec L B) → Keeps P m → ((a : A) → Keeps P (f a)) → Keeps P (m >>= f)
  unfolding ◌>>=◌
  keep_bind m f km kf = record { at = λ s p. continued (m s).0 f (m s).1 kf (km.at s p) }

  -- A read, and a read of an option that fails on `none`.
  pub keep_get :
      (g : State L → A) (f : A → Exec L B) → ((a : A) → Keeps P (f a)) → Keeps P (gets g >>= f)
  keep_get g f k = keep_bind _ _ (keep_gets g) k

  pub keep_some :
      (o : Option A) (e : Error) (f : A → Exec L B)
      → ((a : A) → Keeps P (f a))
      → Keeps P (ok_or o e >>= f)
  keep_some o e f k = keep_bind _ _ (keep_ok_or o e) k

module _ {L A B : Type 0} {P : State L → Type 0} where
  pub keep_read :
      (g : State L → Option A) (e : Error) (f : A → Exec L B)
      → ((a : A) → Keeps P (f a))
      → Keeps P (gets g >>= λ x. ok_or x e >>= f)
  keep_read g e f k = keep_get _ _ (λ x. keep_some x e f k)

  pub keep_check :
      (g : State L → A) (t : A → Bool) (e : Error) (m : Exec L B)
      → Keeps P m
      → Keeps P (gets g >>= λ x. ensure (t x) e >> m)
  keep_check g t e m k = keep_get _ _ (λ x. keep_bind _ _ (keep_ensure (t x) e) (λ _. k))

module _ {L B : Type 0} {P : State L → Type 0} where
  pub keep_write :
      (f : State L → State L) (m : Exec L B)
      → ((s : State L) → P s → P (f s))
      → Keeps P m
      → Keeps P (modify f >> m)
  keep_write f m h k = keep_bind _ _ (keep_modify f h) (λ _. k)

-- The same, with what is known of the value that is read.
module _ {L B : Type 0} {P : State L → Type 0} where
  pub keep_signed :
      (o : Option ℕ) (f : ℕ → Exec L B)
      → ((a : ℕ) → o ≡ some a → Keeps P (f a))
      → Keeps P (signer_of o >>= f)
  unfolding ◌>>=◌
  keep_signed none f k = record { at = λ s p. p }
  keep_signed (some a) f k = record { at = (k a refl).at }

module _ {L A B : Type 0} {P : State L → Type 0} where
  found_keep :
      (o : Option A) (e : Error) (f : A → Exec L B) (s : State L)
      → ((a : A) → o ≡ some a → Keeps P (f a))
      → P s
      → P ((ok_or o e >>= f) s).1
  unfolding ◌>>=◌
  found_keep none e f s k p = p
  found_keep (some a) e f s k p = (k a refl).at s p

  pub keep_learn :
      (g : State L → Option A) (e : Error) (f : A → Exec L B) (R : A → Type 0)
      → ((s : State L) (a : A) → P s → g s ≡ some a → R a)
      → ((a : A) → R a → Keeps P (f a))
      → Keeps P (gets g >>= λ x. ok_or x e >>= f)
  unfolding ◌>>=◌
  keep_learn g e f R learn k = record {
    at = λ s p. found_keep (g s) e f s (λ a h. k a (learn s a p h)) p;
  }

paid_keep :
    {L : Type 0} (P : State L → Type 0) (t : Transfer L) (s : State L)
    → ((l : L) → t ≡ moved l → P s → P (record s { ledger = l }))
    → P s
    → P (settle t s).1
paid_keep P (moved l) s k p = k l refl p
paid_keep P (refused c) s k p = p

module _ (rt : Runtime) {P : State rt.Ledger → Type 0} where
  pub keep_paid :
      (asset from to amount : ℕ)
      → ((l : rt.Ledger) (s : State rt.Ledger)
          → rt.transfer asset from to amount s.ledger ≡ moved l
          → P s
          → P (record s { ledger = l }))
      → Keeps P (transfer rt asset from to amount)
  unfolding ◌>>=◌
  keep_paid asset from to amount k = record {
    at = λ s p. paid_keep P (rt.transfer asset from to amount s.ledger) s (λ l. k l s) p;
  }
