-- ===== src/Rosca/Effects.antt =====
-- A call of the pallet: it reads and writes storage, and returns, fails or panics. What was
-- written before a failure is still written in the state that comes back with it.
pub mod Returns
pub mod Keeps
pub mod Kept
pub mod Succeeds
use dotcircles.Prelude.{Bool, Option, false, none, some, true, ℕ, ◌∷◌}
use dotcircles.Rosca.Storage.{Runtime, State, Transfer, moved, refused}
use dotcircles.Rosca.Types.{Error, Event}

-- `bad_origin` is the failure of `ensure_signed`, `token` that of a transfer.
pub data DispatchError : Type 0 where
  module_error : Error → DispatchError
  bad_origin : DispatchError
  token : ℕ → DispatchError

-- `diverge`: a `while` loop has run out of the rounds that the model grants it.
pub data Outcome (A : Type 0) : Type 0 where
  ok : A → Outcome A
  err : DispatchError → Outcome A
  panic : Outcome A
  diverge : Outcome A

abbrev pub Exec : Type 0 → Type 0 → Type 0
Exec L A = State L → Outcome A × State L

module _ {L A : Type 0} where
  pub pure : A → Exec L A
  pure a s = (ok a, s)

  pub raise : Error → Exec L A
  raise e s = (err (module_error e), s)

  pub stuck_loop : Exec L A
  stuck_loop s = (diverge, s)

  pub gets : (State L → A) → Exec L A
  gets f s = (ok (f s), s)

  -- `o.ok_or(e)?`
  pub ok_or : Option A → Error → Exec L A
  ok_or none e s = (err (module_error e), s)
  ok_or (some a) e s = (ok a, s)

  -- `xs[i]`
  pub index : Option A → Exec L A
  index none s = (panic, s)
  index (some a) s = (ok a, s)

module _ {L : Type 0} where
  -- `ensure!(b, e)`
  pub ensure : Bool → Error → Exec L Unit
  ensure true e s = (ok tt, s)
  ensure false e s = (err (module_error e), s)

  pub modify : (State L → State L) → Exec L Unit
  modify f s = (ok tt, f s)

  abbrev pub log : Event → State L → State L
  log e s = record s { events = e ∷ s.events }

  pub deposit_event : Event → Exec L Unit
  deposit_event e s = (ok tt, log e s)

  pub signer_of : Option ℕ → Exec L ℕ
  signer_of none s = (err bad_origin, s)
  signer_of (some a) s = (ok a, s)

abbrev pub settle : {L : Type 0} → Transfer L → Exec L Unit
settle (moved l) s = (ok tt, record s { ledger = l })
settle (refused c) s = (err (token c), s)

-- `T::ForeignCurrency::transfer(asset, from, to, amount, Expendable)?`
pub transfer : (rt : Runtime) → ℕ → ℕ → ℕ → ℕ → Exec rt.Ledger Unit
transfer rt asset from to amount s = settle (rt.transfer asset from to amount s.ledger) s

abbrev pub continue : {L A B : Type 0} → Outcome A → (A → Exec L B) → Exec L B
continue (ok a) f s = f a s
continue (err e) f s = (err e, s)
continue panic f s = (panic, s)
continue diverge f s = (diverge, s)

infixl 5 ◌>>=◌ ◌>>◌
-- Opening this opens the steps above too.
unfoldable pub ◌>>=◌ : {L A B : Type 0} → Exec L A → (A → Exec L B) → Exec L B
unfolding pure raise stuck_loop gets ok_or index ensure modify deposit_event signer_of transfer
◌>>=◌ m f s = let (r, s') = m s in continue r f s'

abbrev pub ◌>>◌ : {L A B : Type 0} → Exec L A → Exec L B → Exec L B
m >> k = m >>= λ _. k
