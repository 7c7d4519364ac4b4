-- ===== src/Currency.antt =====
-- The units of the currency and the deposit for storage: runtime/src/constants.rs.
pub mod Deposit
use dotcircles.Prelude.{ℕ, ◌%◌, ◌*◌, ◌+◌, ◌/◌}

abbrev pub u128_mod : ℕ
u128_mod = 340282366920938463463374607431768211456

abbrev pub microcents : ℕ
microcents = 1000000

abbrev pub millicents : ℕ
millicents = 1000000000

abbrev pub cents : ℕ
cents = 1000 * millicents

abbrev pub dollars : ℕ
dollars = 100 * cents

abbrev pub grand : ℕ
grand = 1000 * dollars

abbrev pub existential_deposit : ℕ
existential_deposit = millicents

-- `items as Balance * 15 * CENTS + (bytes as Balance) * 6 * CENTS`, in `u128`.
unfoldable pub deposit : ℕ → ℕ → ℕ
deposit items bytes = (items * 15 * cents % u128_mod + bytes * 6 * cents % u128_mod) % u128_mod

-- Blocks.
abbrev pub minutes : ℕ
minutes = 60000 / 6000

abbrev pub hours : ℕ
hours = minutes * 60

abbrev pub days : ℕ
days = hours * 24
