-- ===== src/Fuzzer/Checks.antt =====
-- What the fuzzer's last checks say of the accounts.
use dotcircles.Prelude.{
  Bool, List, [], ap, arith, checked_add, false, get_elem?, leb, ltb, not, of_some, refl, some,
  subst, suc, sym, true, zero, ℕ, ◌&&◌, ◌+◌, ◌<◌, ◌==◌, ◌↔◌, ◌∷◌, ◌≡◌, ◌≤◌,
}
use dotcircles.Fuzzer.{Account, Mock, assert, check_balances, count_accounts, max_of, sum_of}
use dotcircles.Fuzzer.Blocks.{of_both}
use dotcircles.Currency.{u128_mod}

-- What an account passes: whoever is depended on is provided for, the frozen balance is the largest
-- lock, and the holds are covered by what is reserved.
pub record IsCovered (acc : Account) : Type 0 where
  pub provided : 0 < acc.consumers → 0 < acc.providers
  pub frozen : max_of acc.locks ≡ acc.frozen
  pub held : (n : ℕ) × (sum_of acc.holds ≡ some n) × (n ≤ acc.reserved)

-- What the accounts have, free and reserved.
abbrev pub balances : List Account → ℕ
balances [] = 0
balances (acc ∷ rest) = acc.free + acc.reserved + balances rest

of_assert : (b : Bool) (u : Unit) → assert b ≡ some u → b ≡ true
of_assert true u h = refl
of_assert false u h = absurd cc

count_accounts_lem :
    (accounts : List Account) (free reserved f r : ℕ)
    → count_accounts accounts free reserved ≡ some (f, r)
    → (f + r ≡ free + reserved + balances accounts)
      × ((i : ℕ) (acc : Account) → get_elem? accounts i ≡ some acc → IsCovered acc)
unfolding count_accounts
count_accounts_lem [] free reserved f r h =
    let e = of_some h in
    let e₀ : f ≡ free = sym (ap (λ p. p.0) e) in
    let e₁ : r ≡ reserved = sym (ap (λ p. p.1) e) in (omega arith, λ i acc k. absurd cc)
count_accounts_lem (acc ∷ rest) free reserved f r h =
    let (u₁, provided, h₁) =
      of_both (assert (not (ltb 0 acc.consumers && (acc.providers == 0)))) _ _ h in
    let (a, ea, h₂) = of_both (checked_add u128_mod free acc.free) _ _ h₁ in
    let (b, eb, h₃) = of_both (checked_add u128_mod reserved acc.reserved) _ _ h₂ in
    let (u₂, locked, h₄) = of_both (assert (max_of acc.locks == acc.frozen)) _ _ h₃ in
    let (n, en, h₅) = of_both (sum_of acc.holds) _ _ h₄ in
    let (u₃, held, h₆) = of_both (assert (leb n acc.reserved)) _ _ h₅ in
    let (sum, each) = count_accounts_lem rest a b f r h₆ in
    let a' : a ≡ free + acc.free = ground (arith, ea) in
    let b' : b ≡ reserved + acc.reserved = ground (arith, eb) in
    let p = of_assert _ u₁ provided in
    let q = of_assert _ u₂ locked in
    let t = of_assert _ u₃ held in
    (
      omega arith,
      each_of
          (record {
            provided = λ k. ground (arith, p, k);
            frozen = ground (arith, q);
            held = (n, en, ground (arith, t));
          })
          each,
    )
  where
    each_of :
        IsCovered acc
        → ((i : ℕ) (x : Account) → get_elem? rest i ≡ some x → IsCovered x)
        → (i : ℕ) (x : Account) → get_elem? (acc ∷ rest) i ≡ some x
        → IsCovered x
    each_of v f zero x k = subst IsCovered (of_some k) v
    each_of v f (suc i) x k = f i x k

-- Accounts that are covered pass, while what they have is a number of 128 bits.
count_accounts_passes :
    (accounts : List Account) (free reserved : ℕ)
    → free + reserved + balances accounts < u128_mod
    → ((i : ℕ) (acc : Account) → get_elem? accounts i ≡ some acc → IsCovered acc)
    → (f : ℕ) × (r : ℕ) × (count_accounts accounts free reserved ≡ some (f, r))
      × (f + r ≡ free + reserved + balances accounts)
unfolding count_accounts
count_accounts_passes [] free reserved fits each = (free, reserved, refl, omega arith)
count_accounts_passes (acc ∷ rest) free reserved fits each =
    let v = each 0 acc refl in
    let (n, sum, held) = v.held in
    let (f, r, e, total) =
      count_accounts_passes rest (free + acc.free) (reserved + acc.reserved) (omega arith)
        (λ i x k. each (suc i) x k) in
    let provided : not (ltb 0 acc.consumers && (acc.providers == 0)) ≡ true =
      ground (arith, v.provided) in
    let a : checked_add u128_mod free acc.free ≡ some (free + acc.free) = ground (arith, fits) in
    let b : checked_add u128_mod reserved acc.reserved ≡ some (reserved + acc.reserved) =
      ground (arith, fits) in
    let locked : (max_of acc.locks == acc.frozen) ≡ true = ground (arith, v.frozen) in
    let within : leb n acc.reserved ≡ true = ground (arith, held) in
    (f, r, rw (provided, a, b, locked, sum, within) e, omega arith)

-- The checks of the balances pass just when the total issuance is at most what all accounts have,
-- free and reserved, and in every account the consumers have a provider, the frozen balance is the
-- largest lock, and the holds are at most what is reserved, as long as what all accounts have is a
-- number of 128 bits.
pub check_balances_lem :
    (m : Mock) (x : m.X)
    → balances (m.accounts x) < u128_mod
    → (check_balances m x ≡ some tt) ↔ (
        (m.total_issuance x ≤ balances (m.accounts x))
        × ((i : ℕ) (acc : Account) → get_elem? (m.accounts x) i ≡ some acc → IsCovered acc))
unfolding check_balances
check_balances_lem m x fits = (
  λ h.
      let ((f, r), counted, h₁) = of_both (count_accounts (m.accounts x) 0 0) _ _ h in
      let (n, en, h₂) = of_both (checked_add u128_mod f r) _ _ h₁ in
      let small = of_assert _ tt h₂ in
      let (sum, each) = count_accounts_lem (m.accounts x) 0 0 f r counted in
      let n' : n ≡ f + r = ground (arith, en) in (ground (arith, small, sum, n'), each),
  λ (issued, each).
      let (f, r, counted, total) =
        count_accounts_passes (m.accounts x) 0 0 (omega (arith, fits)) each in
      let whole : checked_add u128_mod f r ≡ some (f + r) = ground (arith, fits, total) in
      let small : leb (m.total_issuance x) (f + r) ≡ true = ground (arith, issued, total) in
      rw (counted, whole, small) refl,
)
