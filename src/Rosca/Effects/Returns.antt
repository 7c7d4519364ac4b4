-- ===== src/Rosca/Effects/Returns.antt =====
-- What holds of a call however it ends: one rule for each kind of step.
use dotcircles.Prelude.{
  Bool, Option, arith, false, if◌then◌else◌, none, refl, some, sym, true, ℕ, ◌∙◌, ◌≡◌, ◌≢◌,
}
use dotcircles.Rosca.Effects.{
  Exec, Outcome, continue, deposit_event, diverge, ensure, err, gets, index, log, modify, ok, ok_or,
  panic, pure, settle, signer_of, transfer, ◌>>=◌, ◌>>◌,
}
use dotcircles.Rosca.Storage.{Runtime, State, Transfer, moved, refused}
use dotcircles.Rosca.Types.{Error, Event}

-- If `m` returns `a` from `s`, then `Q` holds of `a` and of the state that it leaves; its loops
-- end; and, where `safe` is set, it does not panic.
pub record Returns {L A : Type 0} (safe : Bool) (s : State L) (m : Exec L A)
    (Q : A → State L → Type 0) : Type 0 where
  pub at : (a : A) (s' : State L) → m s ≡ (ok a, s') → Q a s'
  pub ends : (s' : State L) → m s ≢ (diverge, s')
  pub calm : (s' : State L) → safe ≡ true → m s ≢ (panic, s')

module _ {L A : Type 0} {safe : Bool} {s : State L} {Q : A → State L → Type 0} where
  pub of_pure : (a : A) → Q a s → Returns safe s (pure a) Q
  unfolding ◌>>=◌
  of_pure a q = record { at = λ b s' h. ground (arith, q); ends = λ s' h. cc; calm = λ s' b h. cc }

  pub of_if :
      (b : Bool) (m n : Exec L A)
      → (b ≡ true → Returns safe s m Q)
      → (b ≡ false → Returns safe s n Q)
      → Returns safe s (if b then m else n) Q
  of_if true m n km kn = km refl
  of_if false m n km kn = kn refl

  -- The same call, seen through another.
  pub of_same :
      (m n : Exec L A) (s₁ : State L) → m s ≡ n s₁ → Returns safe s₁ n Q → Returns safe s m Q
  of_same m n s₁ e k = record {
    at = λ b s' h. k.at b s' (sym e ∙ h);
    ends = λ s' h. k.ends s' (sym e ∙ h);
    calm = λ s' b h. k.calm s' b (sym e ∙ h);
  }

  pub weaken :
      {R : A → State L → Type 0} (m : Exec L A)
      → Returns safe s m R
      → ((a : A) (s' : State L) → R a s' → Q a s')
      → Returns safe s m Q
  weaken m k f = record { at = λ a s' h. f a s' (k.at a s' h); ends = k.ends; calm = k.calm }

-- A step that has answered leaves the rest of the block to run.
module _ {L A B : Type 0} {safe : Bool} {Q : B → State L → Type 0} where
  after :
      {R : A → State L → Type 0} (r : Outcome A) (s₁ : State L) (f : A → Exec L B)
      → Returns safe s₁ (λ s. (r, s)) R
      → ((a : A) (s₁ : State L) → R a s₁ → Returns safe s₁ (f a) Q)
      → Returns safe s₁ (continue r f) Q
  after (ok a) s₁ f m k =
      let q = k a s₁ (m.at a s₁ refl) in record { at = q.at; ends = q.ends; calm = q.calm }
  after (err e) s₁ f m k = record { at = λ b s' h. cc; ends = λ s' h. cc; calm = λ s' b h. cc }
  after panic s₁ f m k = record {
    at = λ b s' h. cc;
    ends = λ s' h. cc;
    calm = λ s' b h. absurd (m.calm s₁ b refl);
  }
  after diverge s₁ f m k = record {
    at = λ b s' h. cc;
    ends = λ s' h. absurd (m.ends s₁ refl);
    calm = λ s' b h. cc;
  }

module _ {L A B : Type 0} {safe : Bool} {s : State L} {Q : B → State L → Type 0} where
  pub of_bind :
      (m : Exec L A) (f : A → Exec L B) (R : A → State L → Type 0)
      → Returns safe s m R
      → ((a : A) (s₁ : State L) → R a s₁ → Returns safe s₁ (f a) Q)
      → Returns safe s (m >>= f) Q
  unfolding ◌>>=◌
  of_bind m f R p k =
      let q =
        after {R = R} (m s).0 (m s).1 f
          (record {
            at = λ a s' h. ground (arith, p.at a s');
            ends = λ s' h. p.ends s' h;
            calm = λ s' b h. p.calm s' b h;
          })
          k in
      record { at = q.at; ends = q.ends; calm = q.calm }

  pub of_ok_or :
      (o : Option A) (e : Error) (f : A → Exec L B)
      → ((a : A) → o ≡ some a → Returns safe s (f a) Q)
      → Returns safe s (ok_or o e >>= f) Q
  unfolding ◌>>=◌
  of_ok_or none e f k = record { at = λ b s' h. cc; ends = λ s' h. cc; calm = λ s' b h. cc }
  of_ok_or (some a) e f k = let q = k a refl in record { at = q.at; ends = q.ends; calm = q.calm }

  -- An index that may be out of range is not safe.
  pub of_index :
      (o : Option A) (f : A → Exec L B)
      → (safe ≡ true → o ≢ none)
      → ((a : A) → o ≡ some a → Returns safe s (f a) Q)
      → Returns safe s (index o >>= f) Q
  unfolding ◌>>=◌
  of_index none f inside k = record {
    at = λ b s' h. cc;
    ends = λ s' h. cc;
    calm = λ s' b h. absurd (inside b refl);
  }
  of_index (some a) f inside k =
      let q = k a refl in record { at = q.at; ends = q.ends; calm = q.calm }

  pub of_gets :
      (g : State L → A) (f : A → Exec L B)
      → Returns safe s (f (g s)) Q
      → Returns safe s (gets g >>= f) Q
  unfolding ◌>>=◌
  of_gets g f k = record { at = k.at; ends = k.ends; calm = k.calm }

module _ {L B : Type 0} {safe : Bool} {s : State L} {Q : B → State L → Type 0} where
  pub of_signer :
      (o : Option ℕ) (f : ℕ → Exec L B)
      → ((a : ℕ) → o ≡ some a → Returns safe s (f a) Q)
      → Returns safe s (signer_of o >>= f) Q
  unfolding ◌>>=◌
  of_signer none f k = record { at = λ b s' h. cc; ends = λ s' h. cc; calm = λ s' b h. cc }
  of_signer (some a) f k = let q = k a refl in record { at = q.at; ends = q.ends; calm = q.calm }

  pub of_ensure :
      (t : Bool) (e : Error) (m : Exec L B)
      → (t ≡ true → Returns safe s m Q)
      → Returns safe s (ensure t e >> m) Q
  unfolding ◌>>=◌
  of_ensure true e m k = let q = k refl in record { at = q.at; ends = q.ends; calm = q.calm }
  of_ensure false e m k = record { at = λ b s' h. cc; ends = λ s' h. cc; calm = λ s' b h. cc }

  pub of_modify :
      (g : State L → State L) (m : Exec L B)
      → Returns safe (g s) m Q
      → Returns safe s (modify g >> m) Q
  unfolding ◌>>=◌
  of_modify g m k = record { at = k.at; ends = k.ends; calm = k.calm }

  pub of_event :
      (e : Event) (m : Exec L B)
      → Returns safe (log e s) m Q
      → Returns safe s (deposit_event e >> m) Q
  unfolding ◌>>=◌
  of_event e m k = record { at = k.at; ends = k.ends; calm = k.calm }

module _ {L : Type 0} {safe : Bool} {s : State L} {Q : Unit {0} → State L → Type 0} where
  pub last_event : (e : Event) → Q tt (log e s) → Returns safe s (deposit_event e) Q
  unfolding ◌>>=◌
  last_event e q = record {
    at = λ b s' h. ground (arith, q);
    ends = λ s' h. cc;
    calm = λ s' b h. cc;
  }

  pub last_modify : (g : State L → State L) → Q tt (g s) → Returns safe s (modify g) Q
  unfolding ◌>>=◌
  last_modify g q = record {
    at = λ b s' h. ground (arith, q);
    ends = λ s' h. cc;
    calm = λ s' b h. cc;
  }

module _ (rt : Runtime) {B : Type 0} {safe : Bool} {Q : B → State rt.Ledger → Type 0} where
  settled :
      (s : State rt.Ledger) (t : Transfer rt.Ledger) (m : Exec rt.Ledger B)
      → ((l : rt.Ledger) → t ≡ moved l → Returns safe (record s { ledger = l }) m Q)
      → Returns safe s (λ s. continue (settle t s).0 (λ _. m) (settle t s).1) Q
  settled s (moved l) m k = let q = k l refl in record { at = q.at; ends = q.ends; calm = q.calm }
  settled s (refused c) m k = record { at = λ b s' h. cc; ends = λ s' h. cc; calm = λ s' b h. cc }

module _ (rt : Runtime) {B : Type 0} {safe : Bool} {s : State rt.Ledger}
    {Q : B → State rt.Ledger → Type 0} where
  pub of_transfer :
      (asset from to amount : ℕ) (m : Exec rt.Ledger B)
      → ((l : rt.Ledger)
          → rt.transfer asset from to amount s.ledger ≡ moved l
          → Returns safe (record s { ledger = l }) m Q)
      → Returns safe s (transfer rt asset from to amount >> m) Q
  unfolding ◌>>=◌
  of_transfer asset from to amount m k =
      let q = settled rt s (rt.transfer asset from to amount s.ledger) m k in
      record { at = q.at; ends = q.ends; calm = q.calm }

-- A read followed by a test or by `ok_or`, as most lines of the pallet are.
module _ {L A B : Type 0} {safe : Bool} {s : State L} {Q : B → State L → Type 0} where
  pub of_check :
      (g : State L → A) (t : A → Bool) (e : Error) (m : Exec L B)
      → (t (g s) ≡ true → Returns safe s m Q)
      → Returns safe s (gets g >>= λ x. ensure (t x) e >> m) Q
  of_check g t e m k = of_gets _ _ (of_ensure _ _ _ k)

  pub of_read :
      (g : State L → Option A) (e : Error) (f : A → Exec L B)
      → ((a : A) → g s ≡ some a → Returns safe s (f a) Q)
      → Returns safe s (gets g >>= λ x. ok_or x e >>= f) Q
  of_read g e f k = of_gets _ _ (of_ok_or _ _ _ k)
