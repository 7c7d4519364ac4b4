-- ===== src/Governance/Origins.antt =====
-- `Spender`, the origin that may spend from the treasury.
use dotcircles.Prelude.{
  Bool, Option, ap, arith, false, inl, inr, none, refl, some, true, ℕ, ◌*◌, ◌≡◌, ◌≤◌, ◌⊎◌,
}
use dotcircles.Governance.{
  Combine, Convert, Converted, Ensured, Origin, answer, answers, big_spender, big_tipper, custom,
  denied, foreign, granted, limit, medium_spender, referendum_canceller, referendum_killer,
  small_spender, small_tipper, treasurer, try_spender, whitelisted_caller,
}
use dotcircles.Currency.{grand}

abbrev AtMost : Option ℕ → ℕ → Type 0
AtMost none most = Unit
AtMost (some s) most = s ≤ most

limit-AtMost : (r : Origin) → AtMost (limit r) (10000 * grand)
limit-AtMost treasurer = omega arith
limit-AtMost referendum_canceller = tt
limit-AtMost referendum_killer = tt
limit-AtMost small_tipper = omega arith
limit-AtMost big_tipper = omega arith
limit-AtMost small_spender = omega arith
limit-AtMost medium_spender = omega arith
limit-AtMost big_spender = omega arith
limit-AtMost whitelisted_caller = tt

module _ {O : Type 0} (c : Convert O)
    (back : (o : O) (r : Origin) → c.into o ≡ custom r → c.from r ≡ o)
    (same : (o p : O) → c.into o ≡ foreign p → p ≡ o) where
  answers_lem :
      (o : O) (x : Converted O)
      → c.into o ≡ x
      → (answers c x ≡ denied o) ⊎ ((s : ℕ) × (answers c x ≡ granted s) × (s ≤ 10000 * grand))
  answers_lem o (foreign p) e = inl (ap denied (same o p e))
  answers_lem o (custom r) e = by_limit (limit r) (limit-AtMost r)
    where
      by_limit :
          (l : Option ℕ)
          → AtMost l (10000 * grand)
          → (answer c l r ≡ denied o) ⊎ ((s : ℕ) × (answer c l r ≡ granted s) × (s ≤ 10000 * grand))
      by_limit none m = inl (ap denied (back o r e))
      by_limit (some s) m = inr (s, refl, m)

  -- Where the conversion of origins is a round trip, `Spender` either gives the origin back as it
  -- was, or grants at most the 10,000 grand of the treasurer.
  pub try_spender_lem :
      (o : O)
      → (try_spender c o ≡ denied o)
        ⊎ ((s : ℕ) × (try_spender c o ≡ granted s) × (s ≤ 10000 * grand))
  unfolding try_spender
  try_spender_lem o = answers_lem o (c.into o) refl

-- The documentation of the two packages: root is granted the value, any other origin is given back;
-- of two origins, the second is asked with what the first gives back.
pub record IsStandard {O : Type 0} (k : Combine O) (is_root : O → Bool) : Type 1 where
  pub root_passes : {S : Type 0} (x : S) (o : O) → is_root o ≡ true → k.ensure_root x o ≡ granted x
  pub root_only : {S : Type 0} (x : S) (o : O) → is_root o ≡ false → k.ensure_root x o ≡ denied o
  pub first :
      {S : Type 0} (l r : O → Ensured S O) (o : O) (x : S)
      → l o ≡ granted x
      → k.either_of l r o ≡ granted x
  pub second :
      {S : Type 0} (l r : O → Ensured S O) (o p : O) → l o ≡ denied p → k.either_of l r o ≡ r p
