-- ===== src/Node/Starts.antt =====
-- What a call of the node has started when it returns, and that it is not at work when it fails.
use dotcircles.Prelude.{
  Bool, List, Option, [], arith, false, if◌then◌else◌, none, refl, some, true, ◌∷◌, ◌≡◌, ◌≢◌,
}
use dotcircles.Node.Packages.{
  Answer, Result, Started, Starting, aura_collator, call, continue, done, err, expect, failed,
  network_starter, ok, ok_or, panic, pure, start, ◌>>=◌,
}
use Prim.Native.String.{String}

-- The service is not at work yet: it neither authors blocks nor takes part in the network.
abbrev pub idle : List Started → Bool
idle [] = true
idle (aura_collator id slot time ∷ s) = false
idle (network_starter ∷ s) = false
idle (t ∷ s) = idle s

-- A call that does not panic: where it returns, `Q` holds, and where it fails nothing is at work.
pub record Starts {A : Type 0} (m : Starting A) (s : List Started) (Q : A → List Started → Type 0)
    : Type 0 where
  pub at : (a : A) (s' : List Started) → m s ≡ (ok a, s') → Q a s'
  pub fails : (e : String) (s' : List Started) → m s ≡ (err e, s') → idle s' ≡ true
  pub calm : (s' : List Started) → m s ≢ (panic, s')

module _ {A : Type 0} {s : List Started} {Q : A → List Started → Type 0} where
  pub starts_pure : (a : A) → Q a s → Starts (pure a) s Q
  unfolding ◌>>=◌
  starts_pure a q = record {
    at = λ b s' h. ground (arith, q);
    fails = λ e s' h. cc;
    calm = λ s' h. cc;
  }

  pub starts_if :
      (b : Bool) (m n : Starting A)
      → (b ≡ true → Starts m s Q)
      → (b ≡ false → Starts n s Q)
      → Starts (if b then m else n) s Q
  starts_if true m n km kn = km refl
  starts_if false m n km kn = kn refl

pub starts_task :
    {s : List Started} {Q : Unit {0} → List Started → Type 0} (t : Started)
    → Q tt (t ∷ s)
    → Starts (start t) s Q
unfolding ◌>>=◌
starts_task t q = record {
  at = λ b s' h. ground (arith, q);
  fails = λ e s' h. cc;
  calm = λ s' h. cc;
}

module _ {A B : Type 0} {Q : B → List Started → Type 0} where
  after :
      {R : A → List Started → Type 0} (r : Answer A) (s₁ : List Started) (f : A → Starting B)
      → Starts (λ s. (r, s)) s₁ R
      → ((a : A) (s₁ : List Started) → R a s₁ → Starts (f a) s₁ Q)
      → Starts (continue r f) s₁ Q
  after (ok a) s₁ f m k =
      let q = k a s₁ (m.at a s₁ refl) in record { at = q.at; fails = q.fails; calm = q.calm }
  after (err e) s₁ f m k = record {
    at = λ b s' h. cc;
    fails = λ e' s' h. (let quiet = m.fails e s₁ refl in ground (arith, h, quiet));
    calm = λ s' h. cc;
  }
  after panic s₁ f m k = record {
    at = λ b s' h. cc;
    fails = λ e s' h. cc;
    calm = λ s' h. absurd (m.calm s₁ refl);
  }

  pub starts_bind :
      {s : List Started} (m : Starting A) (f : A → Starting B) (R : A → List Started → Type 0)
      → Starts m s R
      → ((a : A) (s₁ : List Started) → R a s₁ → Starts (f a) s₁ Q)
      → Starts (m >>= f) s Q
  unfolding ◌>>=◌
  starts_bind {s = s} m f R p k =
      let q =
        after {R = R} (m s).0 (m s).1 f
          (record {
            at = λ a s' h. ground (arith, p.at a s');
            fails = λ e s' h. ground (arith, p.fails e s');
            calm = λ s' h. p.calm s' h;
          })
          k in
      record { at = q.at; fails = q.fails; calm = q.calm }

  pub starts_call :
      {s : List Started} (r : Result A) (f : A → Starting B)
      → idle s ≡ true
      → ((a : A) → r ≡ done a → Starts (f a) s Q)
      → Starts (call r >>= f) s Q
  unfolding ◌>>=◌
  starts_call (done a) f quiet k =
      let q = k a refl in record { at = q.at; fails = q.fails; calm = q.calm }
  starts_call (failed e) f quiet k = record {
    at = λ b s' h. cc;
    fails = λ e s' h. ground (arith, h, quiet);
    calm = λ s' h. cc;
  }

  pub starts_expect :
      {s : List Started} (o : Option A) (f : A → Starting B)
      → o ≢ none
      → ((a : A) → o ≡ some a → Starts (f a) s Q)
      → Starts (expect o >>= f) s Q
  unfolding ◌>>=◌
  starts_expect none f there k = absurd (there refl)
  starts_expect (some a) f there k =
      let q = k a refl in record { at = q.at; fails = q.fails; calm = q.calm }

pub starts_result :
    {A : Type 0} {s : List Started} {Q : A → List Started → Type 0} (r : Result A)
    → idle s ≡ true
    → ((a : A) → r ≡ done a → Q a s)
    → Starts (call r) s Q
unfolding ◌>>=◌
starts_result (done a) quiet k =
    let q = k a refl in
    record { at = λ b s' h. ground (arith, q); fails = λ e s' h. cc; calm = λ s' h. cc }
starts_result (failed e) quiet k = record {
  at = λ b s' h. cc;
  fails = λ e s' h. ground (arith, h, quiet);
  calm = λ s' h. cc;
}

pub weaken_starts :
    {A : Type 0} {s : List Started} {Q R : A → List Started → Type 0} (m : Starting A)
    → Starts m s R
    → ((a : A) (s' : List Started) → R a s' → Q a s')
    → Starts m s Q
weaken_starts m k f = record { at = λ a s' h. f a s' (k.at a s' h); fails = k.fails; calm = k.calm }

pub starts_ok_or :
    {A B : Type 0} {s : List Started} {Q : B → List Started → Type 0} (o : Option A) (e : String)
    (f : A → Starting B)
    → idle s ≡ true
    → ((a : A) → o ≡ some a → Starts (f a) s Q)
    → Starts (ok_or o e >>= f) s Q
unfolding ◌>>=◌
starts_ok_or none e f quiet k = record {
  at = λ b s' h. cc;
  fails = λ e s' h. ground (arith, h, quiet);
  calm = λ s' h. cc;
}
starts_ok_or (some a) e f quiet k =
    let q = k a refl in record { at = q.at; fails = q.fails; calm = q.calm }
