-- ===== src/Rosca/Backing/Flow.antt =====
-- A payment out of a circle's account, into it, and past it.
use dotcircles.Prelude.{
  Bool-cases, DoubleMap, Map, Option, [], ap, arith, false, inl, inr, insert, insert₂, refl, some,
  true, ℕ, ◌++◌, ◌+◌, ◌==◌, ◌∷◌, ◌≡◌, ◌≢◌, ◌≤◌,
}
use dotcircles.Rosca.Backing.{
  Backed, Covered, Covered-lower, Covered-raise, Covered-weaken, Entry, Journal, banked, drawn,
}
use dotcircles.Rosca.Pending.{unwrap_or}
use dotcircles.Rosca.Storage.{Runtime, State, moved}

module _ (m : DoubleMap (Option ℕ)) (i j a : ℕ) (v : Option ℕ) where
  row_here : (i == j) ≡ true → insert₂ m i a v j ≡ insert (m j) a v
  row_here h = let e : i ≡ j = ground (arith, h) in rw (h, e) refl

  row_there : (i == j) ≡ false → insert₂ m i a v j ≡ m j
  row_there h = rw h refl

-- The account of `j` has no key, and is no other circle's.
pub record Guarded (rt : Runtime) (j : ℕ) : Type 0 where
  pub keyless : (origin : rt.Origin) → rt.ensure_signed origin ≢ some (rt.sub_account j)
  pub unshared : (i : ℕ) → rt.sub_account i ≡ rt.sub_account j → i ≡ j

-- While `Ready` holds of the ledger, the account pays any payee out of what it has been paid in the
-- asset and has not spent, and `Ready` holds after its payments, in whichever asset. Where an asset
-- has a least balance, the journal is one that sets it aside, and a payee is an account that can
-- take any amount.
pub record Solvent (rt : Runtime) (journal : Journal rt) (account asset : ℕ) (Payee : ℕ → Type 0)
    (Ready : rt.Ledger → Type 0) : Type 0 where
  pub pays :
      (to amount : ℕ) (l : rt.Ledger)
      → Payee to
      → Ready l
      → drawn asset account (journal.entries l) + amount ≤ banked asset account (journal.entries l)
      → (l' : rt.Ledger) × (rt.transfer asset account to amount l ≡ moved l')
  pub stays :
      (unit to amount : ℕ) (l l' : rt.Ledger)
      → rt.transfer unit account to amount l ≡ moved l'
      → Ready l
      → Ready l'

-- The deposits are covered, and the ledger is ready.
abbrev pub Able :
    (rt : Runtime) → Journal rt → (j p : ℕ) → (rt.Ledger → Type 0) → State rt.Ledger → Type 0
Able rt journal j p Ready s = Backed rt journal j p s × Ready s.ledger

-- The journal as if the account `e.from` had made the payment `e` before all others.
abbrev pub set_aside : {rt : Runtime} → Journal rt → Entry → Journal rt
set_aside journal e = record {
  entries = λ l. journal.entries l ++ (e ∷ []);
  writes = λ asset from to amount l l' h.
      ap (λ es. es ++ (e ∷ [])) (journal.writes asset from to amount l l' h);
}

module _ (rt : Runtime) (journal : Journal rt) (j p : ℕ) where
  -- The deposits `f` at the circle are covered when the ledger is `l`.
  abbrev pub CoveredAt : Map (Option ℕ) → rt.Ledger → Type 0
  CoveredAt f l =
      Covered f (drawn p (rt.sub_account j) (journal.entries l))
        (banked p (rt.sub_account j) (journal.entries l))

  module _ (asset from to amount : ℕ) (l l' : rt.Ledger)
      (h : rt.transfer asset from to amount l ≡ moved l') where
    drawn_more :
        drawn p (rt.sub_account j) (journal.entries l')
        ≤ drawn p (rt.sub_account j) (journal.entries l) + amount
    drawn_more = rw (journal.writes asset from to amount l l' h) (ground arith)

    drawn_same :
        from ≢ rt.sub_account j
        → drawn p (rt.sub_account j) (journal.entries l')
          ≡ drawn p (rt.sub_account j) (journal.entries l)
    drawn_same ne = rw (journal.writes asset from to amount l l' h) (ground (arith, ne))

    banked_more :
        banked p (rt.sub_account j) (journal.entries l)
        ≤ banked p (rt.sub_account j) (journal.entries l')
    banked_more = rw (journal.writes asset from to amount l l' h) (ground arith)

    banked_into :
        asset ≡ p
        → to ≡ rt.sub_account j
        → banked p (rt.sub_account j) (journal.entries l) + amount
          ≤ banked p (rt.sub_account j) (journal.entries l')
    banked_into e f = rw (journal.writes asset from to amount l l' h) (ground (arith, e, f))

    -- A payment by somebody else.
    pub CoveredAt-past :
        (f : Map (Option ℕ)) → from ≢ rt.sub_account j → CoveredAt f l → CoveredAt f l'
    CoveredAt-past f ne c =
        Covered-weaken f _ _ _ _ c (omega (arith, drawn_same ne)) (omega (arith, banked_more))

  module _ (guarded : Guarded rt j) (i a asset amount : ℕ) (v : Option ℕ) (m : DoubleMap (Option ℕ))
      (l l' : rt.Ledger) (c : CoveredAt (m j) l) where
    -- A payment out of the account of the circle `i`, for which a deposit falls.
    pub CoveredAt-out :
        (to : ℕ)
        → rt.transfer asset (rt.sub_account i) to amount l ≡ moved l'
        → unwrap_or v 0 + amount ≤ unwrap_or (m i a) 0
        → CoveredAt (insert₂ m i a v j) l'
    CoveredAt-out to h less = elim (Bool-cases (i == j)) [
      | inl here ↦
          let e : i ≡ j = ground (arith, here) in
          rw (row_here m i j a v here) (
            Covered-weaken (insert (m j) a v) _ _ _ _
              (Covered-lower (m j) a v amount _ _ c (rw (← e) less))
              (omega (arith, drawn_more asset (rt.sub_account i) to amount l l' h))
              (omega (arith, banked_more asset (rt.sub_account i) to amount l l' h)))
      | inr there ↦
          let ne : rt.sub_account i ≢ rt.sub_account j =
            λ e. (let e' = guarded.unshared i e in ground (arith, there, e')) in
          rw (row_there m i j a v there)
            (CoveredAt-past asset (rt.sub_account i) to amount l l' h (m j) ne c)
    ]

    -- A payment into the account of the circle `i`, for which a deposit grows.
    pub CoveredAt-in :
        (from : ℕ)
        → from ≢ rt.sub_account j
        → (i ≡ j → asset ≡ p)
        → rt.transfer asset from (rt.sub_account i) amount l ≡ moved l'
        → unwrap_or v 0 ≤ unwrap_or (m i a) 0 + amount
        → CoveredAt (insert₂ m i a v j) l'
    CoveredAt-in from ne priced h more = elim (Bool-cases (i == j)) [
      | inl here ↦
          let e : i ≡ j = ground (arith, here) in
          rw (row_here m i j a v here) (
            Covered-weaken (insert (m j) a v) _ _ _ _
              (Covered-raise (m j) a v amount _ _ c (rw (← e) more))
              (omega (arith, drawn_same asset from (rt.sub_account i) amount l l' h ne))
              (banked_into asset from (rt.sub_account i) amount l l' h (priced e)
                (ap rt.sub_account e)))
      | inr there ↦
          rw (row_there m i j a v there)
            (CoveredAt-past asset from (rt.sub_account i) amount l l' h (m j) ne c)
    ]
