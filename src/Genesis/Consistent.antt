-- ===== src/Genesis/Consistent.antt =====
-- What a genesis has to have for the pallets to work together.
use dotcircles.Prelude.{
  Bool-cases, List, Option, [], ap, arith, contains, if◌then◌else◌, inl, inr, map, none, of_some,
  refl, some, subst, true, ℕ, ◌+◌, ◌==◌, ◌^◌, ◌∷◌, ◌≡◌, ◌≤◌, ◌⊎◌,
}
use dotcircles.Genesis.{
  AssetInfo, ChainSpec, Genesis, Keys, Metadata, account_of, collators, development_config, endowed,
  endowment, local_testnet_config, session_of, testnet_genesis,
}
use dotcircles.Rosca.Types.{PaymentAssets, id, usdc, usdt}

-- What the first entry of a list of pairs says of `a`.
abbrev pub entry_of : ℕ → List (ℕ × ℕ) → Option ℕ
entry_of a [] = none
entry_of a ((b, n) ∷ rest) = if b == a then some n else entry_of a rest

abbrev pub find_asset : ℕ → List AssetInfo → Option AssetInfo
find_asset n [] = none
find_asset n (i ∷ rest) = if i.asset == n then some i else find_asset n rest

-- What there is of an asset, in all accounts.
abbrev pub supply : ℕ → List (ℕ × ℕ × ℕ) → ℕ
supply n [] = 0
supply n ((asset, account, amount) ∷ rest) =
    if asset == n then amount + supply n rest else supply n rest

-- The account and the validator of session keys, and the assets of two kinds of entries.
abbrev pub first_of : {A B : Type 0} → A × A × B → A
first_of (a, b, c) = a

abbrev pub second_of : {A B : Type 0} → A × A × B → A
second_of (a, b, c) = b

abbrev pub metadata_asset : Metadata → ℕ
metadata_asset m = m.asset

abbrev pub info_asset : AssetInfo → ℕ
info_asset i = i.asset

-- Whoever secures the chain can: the session keys are for the invulnerables, and each of them has at
-- least the bond of a candidate. Every asset in which a circle is paid has been created, by the
-- account of sudo, is sufficient, has metadata, and is in circulation at no less than its least
-- balance.
pub record IsConsistent {k : Keys} (g : Genesis k) : Type 0 where
  pub seated : map first_of g.keys ≡ g.invulnerables
  pub own : map second_of g.keys ≡ g.invulnerables
  pub bonded :
      (a : ℕ)
      → contains g.invulnerables a ≡ true
      → (b : ℕ) × (entry_of a g.balances ≡ some b) × (g.candidacy_bond ≤ b)
  pub created :
      (p : PaymentAssets)
      → (i : AssetInfo) × (find_asset (id p) g.assets ≡ some i)
        × (some i.owner ≡ g.sudo_key)
        × (i.is_sufficient ≡ true)
        × (i.min_balance ≤ supply (id p) g.accounts)
  pub named : map metadata_asset g.metadata ≡ map info_asset g.assets

module _ (k : Keys) where
  all_endowed :
      (a : ℕ) (accounts : List ℕ)
      → contains accounts a ≡ true
      → entry_of a (map endowment accounts) ≡ some (2 ^ 60)
  all_endowed a [] h = absurd cc
  all_endowed a (b ∷ rest) h = elim (Bool-cases (b == a)) [
    | inl e ↦ rw e refl
    | inr e ↦ rw e (all_endowed a rest (ground (arith, h, e)))
  ]

  keys_first :
      (xs : List (ℕ × k.AuraId))
      → (map first_of (map (session_of k) xs) ≡ map account_of xs)
        × (map second_of (map (session_of k) xs) ≡ map account_of xs)
  keys_first [] = (refl, refl)
  keys_first ((acc, aura) ∷ xs) =
      (ap (λ t. acc ∷ t) (keys_first xs).0, ap (λ t. acc ∷ t) (keys_first xs).1)

  -- A genesis whose invulnerables are among the endowed accounts is consistent, whatever they are:
  -- the session keys are for the invulnerables, each of whom has at least the bond of a candidate,
  -- and every asset in which a circle is paid has been created by the account of sudo, is
  -- sufficient, has metadata, and is in circulation at no less than its least balance.
  pub testnet_genesis-IsConsistent :
      (invulnerables : List (ℕ × k.AuraId)) (endowed_accounts : List ℕ) (root para : ℕ)
      → ((a : ℕ)
          → contains (map account_of invulnerables) a ≡ true
          → contains endowed_accounts a ≡ true)
      → IsConsistent (testnet_genesis k invulnerables endowed_accounts root para)
  unfolding testnet_genesis id
  testnet_genesis-IsConsistent invulnerables endowed_accounts root para within = record {
    seated = (keys_first invulnerables).0;
    own = (keys_first invulnerables).1;
    bonded = λ a h. (2 ^ 60, all_endowed a endowed_accounts (within a h), omega arith);
    created = λ p. payment p;
    named = refl;
  }
    where
      payment :
          (p : PaymentAssets)
          → (i : AssetInfo) × (find_asset
                (id p)
                (testnet_genesis k invulnerables endowed_accounts root para).assets
              ≡ some i)
            × (some i.owner ≡ some root)
            × (i.is_sufficient ≡ true)
            × (i.min_balance
                ≤ supply
                    (id p)
                    (testnet_genesis k invulnerables endowed_accounts root para).accounts)
      payment usdt = (_, refl, refl, refl, omega arith)
      payment usdc = (_, refl, refl, refl, omega arith)

  both : IsConsistent (testnet_genesis k (collators k) (endowed k) (k.account_of_seed "Alice") 1000)
  both =
      testnet_genesis-IsConsistent (collators k) (endowed k) (k.account_of_seed "Alice") 1000
        (λ a h. ground arith)

  -- The genesis of both configurations is consistent: the invulnerables are endowed.
  pub configs-IsConsistent :
      (wasm_binary : Option (List ℕ)) (spec : ChainSpec k)
      → (development_config k wasm_binary ≡ some spec)
        ⊎ (local_testnet_config k wasm_binary ≡ some spec)
      → IsConsistent spec.genesis
  unfolding development_config local_testnet_config
  configs-IsConsistent none spec (inl h) = absurd cc
  configs-IsConsistent none spec (inr h) = absurd cc
  configs-IsConsistent (some code) spec (inl h) =
      subst (λ (c : ChainSpec k). IsConsistent c.genesis) (of_some h) both
  configs-IsConsistent (some code) spec (inr h) =
      subst (λ (c : ChainSpec k). IsConsistent c.genesis) (of_some h) both
