-- ===== src/Rosca/Backing.antt =====
-- What stands behind the security deposits: the payments into and out of a circle's account.
pub mod Flow
use dotcircles.Prelude.{
  Bool-cases, Distinct, List, Map, Option, [], ap, arith, contains, false, if◌then◌else◌, inl, inr,
  insert, refl, some, true, ℕ, ◌&&◌, ◌+◌, ◌<◌, ◌==◌, ◌∙◌, ◌∷◌, ◌≡◌, ◌≤◌,
}
use dotcircles.Rosca.Effects.{transfer}
use dotcircles.Rosca.Pending.{unwrap_or}
use dotcircles.Rosca.Storage.{Runtime, State, moved}
use dotcircles.Rosca.Types.{RoscaDetails, id}

-- A transfer that has been made.
pub record Entry : Type 0 where
  pub asset : ℕ
  pub from : ℕ
  pub to : ℕ
  pub amount : ℕ

-- A ledger that can be read as the list of its transfers, the latest first.
pub record Journal (rt : Runtime) : Type 0 where
  pub entries : rt.Ledger → List Entry
  pub writes :
      (asset from to amount : ℕ) (l l' : rt.Ledger)
      → rt.transfer asset from to amount l ≡ moved l'
      → entries l' ≡ record { asset = asset; from = from; to = to; amount = amount } ∷ entries l

-- What an account has been paid, and what it has paid, in an asset.
abbrev pub banked : ℕ → ℕ → List Entry → ℕ
banked asset account [] = 0
banked asset account (e ∷ es) =
    if e.asset == asset && e.to == account
    then e.amount + banked asset account es
    else banked asset account es

abbrev pub drawn : ℕ → ℕ → List Entry → ℕ
drawn asset account [] = 0
drawn asset account (e ∷ es) =
    if e.asset == asset && e.from == account
    then e.amount + drawn asset account es
    else drawn asset account es

-- The deposits of some accounts together.
abbrev pub total : Map (Option ℕ) → List ℕ → ℕ
total deposits [] = 0
total deposits (a ∷ xs) = unwrap_or (deposits a) 0 + total deposits xs

-- The deposits of any accounts are covered by what has come in and not gone out.
abbrev pub Covered : Map (Option ℕ) → ℕ → ℕ → Type 0
Covered deposits out into =
    (accounts : List ℕ) → Distinct accounts → total deposits accounts + out ≤ into

total-insert :
    (f : Map (Option ℕ)) (a : ℕ) (v : Option ℕ) (xs : List ℕ)
    → contains xs a ≡ false
    → total (insert f a v) xs ≡ total f xs
total-insert f a v [] new = refl
total-insert f a v (b ∷ xs) new = ground (arith, total-insert f a v xs)

total-insert_in :
    (f : Map (Option ℕ)) (a : ℕ) (v : Option ℕ) (xs : List ℕ)
    → Distinct xs
    → contains xs a ≡ true
    → total (insert f a v) xs + unwrap_or (f a) 0 ≡ total f xs + unwrap_or v 0
total-insert_in f a v [] d there = cc
total-insert_in f a v (b ∷ xs) d there = elim (Bool-cases (a == b)) [
  | inl here ↦
      let e : a ≡ b = ground (arith, here) in
      let new : contains xs a ≡ false = ap (contains xs) e ∙ d.0 in
      ground (arith, total-insert f a v xs new, e)
  | inr further ↦ ground (arith, total-insert_in f a v xs d.1)
]

module _ (f : Map (Option ℕ)) (a : ℕ) (v : Option ℕ) (amount out into : ℕ)
    (c : Covered f out into) where
  -- A deposit that has fallen by no less than what was paid.
  pub Covered-lower :
      unwrap_or v 0 + amount ≤ unwrap_or (f a) 0 → Covered (insert f a v) (out + amount) into
  Covered-lower less xs d = elim (Bool-cases (contains xs a)) [
    | inl there ↦ omega (arith, total-insert_in f a v xs d there, c xs d, less)
    | inr new ↦ omega (arith, total-insert f a v xs new, c (a ∷ xs) (new, d), less)
  ]

  -- A deposit that has grown by no more than what has come in.
  pub Covered-raise :
      unwrap_or v 0 ≤ unwrap_or (f a) 0 + amount → Covered (insert f a v) out (into + amount)
  Covered-raise more xs d = elim (Bool-cases (contains xs a)) [
    | inl there ↦ omega (arith, total-insert_in f a v xs d there, c xs d, more)
    | inr new ↦ omega (arith, total-insert f a v xs new, c xs d)
  ]

pub Covered-weaken :
    (f : Map (Option ℕ)) (out into out' into' : ℕ)
    → Covered f out into
    → out' ≤ out
    → into ≤ into'
    → Covered f out' into'
Covered-weaken f out into out' into' c less more xs d = omega (arith, c xs d, less, more)

module _ (rt : Runtime) (journal : Journal rt) (j p : ℕ) where
  -- The circle `j` has been created, pays in the asset `p`, and its deposits are covered by its
  -- account.
  abbrev pub Backed : State rt.Ledger → Type 0
  Backed s =
      (j < s.next_rosca_id)
      × ((r : RoscaDetails) → s.active_roscas j ≡ some r → id r.payment_asset ≡ p)
      × ((r : RoscaDetails) → s.pending_rosca_details j ≡ some r → id r.payment_asset ≡ p)
      × Covered (s.rosca_security_deposits j)
          (drawn p (rt.sub_account j) (journal.entries s.ledger))
          (banked p (rt.sub_account j) (journal.entries s.ledger))
