-- ===== src/Rosca/Effects/Succeeds.antt =====
-- A call that returns: one rule for each kind of step.
use dotcircles.Prelude.{Bool, Option, false, if◌then◌else◌, refl, some, true, ℕ, ◌≡◌}
use dotcircles.Rosca.Effects.{
  Exec, deposit_event, ensure, gets, index, log, modify, ok, ok_or, pure, signer_of, transfer,
  ◌>>=◌, ◌>>◌,
}
use dotcircles.Rosca.Storage.{Runtime, State, moved}
use dotcircles.Rosca.Types.{Error, Event}

-- From `s`, `m` returns.
pub record Succeeds {L A : Type 0} (m : Exec L A) (s : State L) : Type 0 where
  pub value : A
  pub after : State L
  pub returns : m s ≡ (ok value, after)

module _ {L A B : Type 0} {s : State L} where
  pub ok_bind :
      (m : Exec L A) (f : A → Exec L B) (a : A) (s₁ : State L)
      → m s ≡ (ok a, s₁)
      → Succeeds (f a) s₁
      → Succeeds (m >>= f) s
  unfolding ◌>>=◌
  ok_bind m f a s₁ e k = record { value = k.value; after = k.after; returns = rw e k.returns }

  pub ok_some :
      (o : Option A) (e : Error) (f : A → Exec L B) (a : A)
      → o ≡ some a
      → Succeeds (f a) s
      → Succeeds (ok_or o e >>= f) s
  unfolding ◌>>=◌
  ok_some o e f a h k = record { value = k.value; after = k.after; returns = rw h k.returns }

  pub ok_index :
      (o : Option A) (f : A → Exec L B) (a : A)
      → o ≡ some a
      → Succeeds (f a) s
      → Succeeds (index o >>= f) s
  unfolding ◌>>=◌
  ok_index o f a h k = record { value = k.value; after = k.after; returns = rw h k.returns }

  pub ok_get :
      (g : State L → A) (f : A → Exec L B) → Succeeds (f (g s)) s → Succeeds (gets g >>= f) s
  unfolding ◌>>=◌
  ok_get g f k = record { value = k.value; after = k.after; returns = k.returns }

  pub ok_read :
      (g : State L → Option A) (e : Error) (f : A → Exec L B) (a : A)
      → g s ≡ some a
      → Succeeds (f a) s
      → Succeeds (gets g >>= λ x. ok_or x e >>= f) s
  unfolding ◌>>=◌
  ok_read g e f a h k = record { value = k.value; after = k.after; returns = rw h k.returns }

module _ {L B : Type 0} {s : State L} where
  pub ok_ensure :
      (b : Bool) (e : Error) (m : Exec L B) → b ≡ true → Succeeds m s → Succeeds (ensure b e >> m) s
  unfolding ◌>>=◌
  ok_ensure b e m h k = record { value = k.value; after = k.after; returns = rw h k.returns }

  pub ok_signer :
      (o : Option ℕ) (f : ℕ → Exec L B) (a : ℕ)
      → o ≡ some a
      → Succeeds (f a) s
      → Succeeds (signer_of o >>= f) s
  unfolding ◌>>=◌
  ok_signer o f a h k = record { value = k.value; after = k.after; returns = rw h k.returns }

  pub ok_modify :
      (g : State L → State L) (m : Exec L B) → Succeeds m (g s) → Succeeds (modify g >> m) s
  unfolding ◌>>=◌
  ok_modify g m k = record { value = k.value; after = k.after; returns = k.returns }

  pub ok_if :
      (b : Bool) (m n : Exec L B)
      → (b ≡ true → Succeeds m s)
      → (b ≡ false → Succeeds n s)
      → Succeeds (if b then m else n) s
  ok_if true m n km kn = km refl
  ok_if false m n km kn = kn refl

  pub ok_pure : (b : B) → Succeeds (pure b) s
  unfolding ◌>>=◌
  ok_pure b = record { value = b; after = s; returns = refl }

module _ (rt : Runtime) {B : Type 0} {s : State rt.Ledger} where
  pub ok_transfer :
      (asset from to amount : ℕ) (m : Exec rt.Ledger B) (l : rt.Ledger)
      → rt.transfer asset from to amount s.ledger ≡ moved l
      → Succeeds m (record s { ledger = l })
      → Succeeds (transfer rt asset from to amount >> m) s
  unfolding ◌>>=◌
  ok_transfer asset from to amount m l h k = record {
    value = k.value;
    after = k.after;
    returns = rw h k.returns;
  }

pub ok_event : {L : Type 0} (e : Event) (s : State L) → Succeeds (deposit_event e) s
unfolding ◌>>=◌
ok_event e s = record { value = tt; after = log e s; returns = refl }

pub ok_log :
    {L B : Type 0} {s : State L} (e : Event) (m : Exec L B)
    → Succeeds m (log e s)
    → Succeeds (deposit_event e >> m) s
unfolding ◌>>=◌
ok_log e m k = record { value = k.value; after = k.after; returns = k.returns }
