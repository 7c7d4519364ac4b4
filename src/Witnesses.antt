-- ===== src/Witnesses.antt =====
-- The theorems on the currency and on governance, at concrete origins.
mod Messages
mod Chain
mod Node
use dotcircles.Prelude.{Option, arith, none, some, ◌*◌, ◌+◌, ◌≡◌}
use dotcircles.Currency.{cents, deposit}
use dotcircles.Currency.Deposit.{deposit-u32}
use dotcircles.Governance.{Combine, Convert, Ensured, Origin, custom, denied, foreign, granted}

deposit-u32_example : deposit 2 100 ≡ 2 * 15 * cents + 100 * 6 * cents
deposit-u32_example = deposit-u32 2 100 (omega arith) (omega arith)

-- The origins of a runtime: root, and those of governance.
with_root : Convert (Option Origin)
with_root = record {
  into = λ o. elim o [ none ↦ foreign none | some r ↦ custom r ];
  from = λ r. some r;
}

abbrev root_of : {S : Type 0} → S → Option Origin → Ensured S (Option Origin)
root_of x none = granted x
root_of x (some r) = denied (some r)

abbrev standard : Combine (Option Origin)
standard = record { ensure_root = root_of; either_of = λ l r o. retry (l o) r }
  where
    retry :
        {S : Type 0}
        → Ensured S (Option Origin)
        → (Option Origin → Ensured S (Option Origin))
        → Ensured S (Option Origin)
    retry (granted x) r = granted x
    retry (denied p) r = r p
