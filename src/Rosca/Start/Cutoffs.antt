-- ===== src/Rosca/Start/Cutoffs.antt =====
-- The loop of `start_rosca` over the cutoffs.
use dotcircles.Prelude.{Bool, arith, refl, suc, zero, ℕ, ◌*◌, ◌+◌, ◌≡◌}
use dotcircles.Rosca.Start.{extend_cutoff}
use dotcircles.Rosca.Effects.Returns.{Returns, of_ok_or, of_pure, weaken}
use dotcircles.Rosca.Storage.{Runtime, State}

module _ (rt : Runtime) {safe : Bool} where
  -- The final cutoff is `n` frequencies past the first.
  pub extend_cutoff-Returns :
      (frequency n cutoff : ℕ) (s : State rt.Ledger)
      → Returns safe s
          (extend_cutoff rt frequency n cutoff)
          (λ final s'. (s' ≡ s) × (cutoff + n * frequency ≡ final))
  unfolding extend_cutoff
  extend_cutoff-Returns frequency zero cutoff s = of_pure cutoff (refl, omega arith)
  extend_cutoff-Returns frequency (suc n) cutoff s = of_ok_or _ _ _ λ next e.
      weaken _ (extend_cutoff-Returns frequency n next s) λ final s' (same, sum).
        (same, one_more cutoff frequency n next final (ground (arith, e)) sum)
    where
      one_more : (c f n m z : ℕ) → m ≡ c + f → m + n * f ≡ z → c + suc n * f ≡ z
      one_more c f n m z e h = grind arith
