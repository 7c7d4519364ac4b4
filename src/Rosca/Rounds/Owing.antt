-- ===== src/Rosca/Rounds/Owing.antt =====
-- Who owes a contribution, and what follows for deposits and default counts, one participant at a
-- time.
use dotcircles.Prelude.{
  Bool, Bool-cases, List, [], ap, arith, contains, false, if◌then◌else◌, inl, inr, ltb, not,
  saturating_add, u32_mod, ℕ, ◌&&◌, ◌-◌, ◌==◌, ◌∙◌, ◌∷◌, ◌≡◌,
}
use dotcircles.Rosca.Pending.{unwrap_or}
use dotcircles.Rosca.Storage.{State}

-- A participant of `order` who has neither contributed nor is the claimant.
abbrev pub owes : ℕ → List ℕ → List ℕ → ℕ → Bool
owes claimant order paid a =
    if contains order a then (if a == claimant then false else not (contains paid a)) else false

-- The deposit of an account, with none for zero.
abbrev pub held : {L : Type 0} → ℕ → State L → ℕ → ℕ
held rosca_id s a = unwrap_or (s.rosca_security_deposits rosca_id a) 0

module _ (p a claimant : ℕ) (rest paid : List ℕ) (new : contains rest p ≡ false) where
  pub deposit_after :
      (amount d₀ d₁ d₂ : ℕ)
      → d₁ ≡ (if owes claimant (p ∷ []) paid a then d₀ - amount else d₀)
      → d₂ ≡ (if owes claimant rest paid a then d₁ - amount else d₁)
      → d₂ ≡ (if owes claimant (p ∷ rest) paid a then d₀ - amount else d₀)
  deposit_after amount d₀ d₁ d₂ e f = elim (Bool-cases (a == p)) [
    | inl here ↦
        let q : a ≡ p = ground arith in
        let n : contains rest a ≡ false = ap (contains rest) q ∙ new in ground arith
    | inr there ↦ ground arith
  ]

  pub default_after :
      (amount d₀ d₁ n₀ n₁ n₂ : ℕ)
      → d₁ ≡ (if owes claimant (p ∷ []) paid a then d₀ - amount else d₀)
      → n₁ ≡ (
          if owes claimant (p ∷ []) paid a && ltb d₀ amount
          then saturating_add u32_mod n₀ 1
          else n₀)
      → n₂
        ≡ (if owes claimant rest paid a && ltb d₁ amount then saturating_add u32_mod n₁ 1 else n₁)
      → n₂ ≡ (
          if owes claimant (p ∷ rest) paid a && ltb d₀ amount
          then saturating_add u32_mod n₀ 1
          else n₀)
  default_after amount d₀ d₁ n₀ n₁ n₂ e f g = elim (Bool-cases (a == p)) [
    | inl here ↦
        let q : a ≡ p = ground arith in
        let n : contains rest a ≡ false = ap (contains rest) q ∙ new in ground arith
    | inr there ↦ ground arith
  ]
