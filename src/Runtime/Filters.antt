-- ===== src/Runtime/Filters.antt =====
-- What a proxy may forward.
use dotcircles.Prelude.{refl, true, ◌≡◌}
use dotcircles.Runtime.{
  ProxyType, RuntimeCall, another_call, any, balances_call, cancel_proxy, collator,
  collator_selection_call, filter, multisig_call, non_transfer, proxies,
}

-- The types of proxies, from the narrower to the wider.
pub data IsWithin : ProxyType → ProxyType → Type 0 where
  cancel_within : IsWithin cancel_proxy non_transfer
  collator_within : IsWithin collator non_transfer
  transfer_within : IsWithin non_transfer any

-- A wider type of proxy forwards all that a narrower one does: `CancelProxy` and `Collator` are
-- within `NonTransfer`, and that is within `Any`.
pub filter_monotone :
    (t u : ProxyType) (c : RuntimeCall) → IsWithin t u → filter t c ≡ true → filter u c ≡ true
unfolding filter
filter_monotone _ _ c transfer_within h = refl
filter_monotone _ _ (proxies m) cancel_within h = refl
filter_monotone _ _ (balances_call m) cancel_within h = absurd cc
filter_monotone _ _ (multisig_call m) cancel_within h = refl
filter_monotone _ _ (collator_selection_call m) cancel_within h = refl
filter_monotone _ _ (another_call m) cancel_within h = refl
filter_monotone _ _ (proxies m) collator_within h = refl
filter_monotone _ _ (balances_call m) collator_within h = absurd cc
filter_monotone _ _ (multisig_call m) collator_within h = refl
filter_monotone _ _ (collator_selection_call m) collator_within h = refl
filter_monotone _ _ (another_call m) collator_within h = refl
