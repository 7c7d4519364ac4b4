-- ===== src/Currency/Deposit.antt =====
-- The deposit for storage, in `u128`.
use dotcircles.Prelude.{arith, u32_mod, ℕ, ◌*◌, ◌+◌, ◌<◌, ◌≡◌}
use dotcircles.Currency.{cents, deposit, u128_mod}
use native.Mathlib.Nat.{mod-eq_of_lt}

-- For counts that are `u32` the deposit does not wrap: it is 15 cents an item and 6 cents a byte.
pub deposit-u32 :
    (items bytes : ℕ)
    → items < u32_mod
    → bytes < u32_mod
    → deposit items bytes ≡ items * 15 * cents + bytes * 6 * cents
unfolding deposit
deposit-u32 items bytes i b =
    rw (mod-eq_of_lt (fits_items items i), mod-eq_of_lt (fits_bytes bytes b))
      (mod-eq_of_lt (fits_sum items bytes i b))
  where
    fits_items : (n : ℕ) → n < u32_mod → n * 15 * cents < u128_mod
    fits_items n h = omega arith

    fits_bytes : (n : ℕ) → n < u32_mod → n * 6 * cents < u128_mod
    fits_bytes n h = omega arith

    fits_sum : (n m : ℕ) → n < u32_mod → m < u32_mod → n * 15 * cents + m * 6 * cents < u128_mod
    fits_sum n m h k = omega arith
