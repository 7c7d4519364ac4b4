-- ===== src/Runtime.antt =====
-- The composition of the runtime and the filters of its calls: runtime/src/lib.rs and
-- runtime/src/configs/mod.rs.
pub mod Pallets
pub mod Filters
use dotcircles.Prelude.{Bool, false, true, ℕ}

-- The pallets of `construct_runtime!`, with their indices.
pub data Pallet : Type 0 where
  system parachain_system timestamp parachain_info proxy utility multisig scheduler : Pallet
  preimage balances transaction_payment assets treasury sudo conviction_voting : Pallet
  referenda origins whitelist authorship collator_selection session aura aura_ext : Pallet
  xcmp_queue polkadot_xcm cumulus_xcm message_queue rosca : Pallet

unfoldable pub index : Pallet → ℕ
index system = 0
index parachain_system = 1
index timestamp = 2
index parachain_info = 3
index proxy = 4
index utility = 5
index multisig = 6
index scheduler = 7
index preimage = 8
index balances = 10
index transaction_payment = 11
index assets = 12
index treasury = 13
index sudo = 15
index conviction_voting = 16
index referenda = 17
index origins = 18
index whitelist = 19
index authorship = 20
index collator_selection = 21
index session = 22
index aura = 23
index aura_ext = 24
index xcmp_queue = 30
index polkadot_xcm = 31
index cumulus_xcm = 32
index message_queue = 33
index rosca = 40

-- `TreasuryInteriorLocation` is the pallet of this index.
abbrev pub treasury_instance : ℕ
treasury_instance = 13

-- The calls of the pallet of proxies that the source names, and those of the runtime.
pub data ProxyCall : Type 0 where
  create_pure kill_pure remove_proxies reject_announcement : ProxyCall
  another_proxy_call : ℕ → ProxyCall

pub data RuntimeCall : Type 0 where
  proxies : ProxyCall → RuntimeCall
  balances_call multisig_call collator_selection_call : ℕ → RuntimeCall
  another_call : ℕ → RuntimeCall

-- `NormalFilter`
unfoldable pub normal_filter : RuntimeCall → Bool
normal_filter (proxies create_pure) = false
normal_filter (proxies kill_pure) = false
normal_filter (proxies remove_proxies) = false
normal_filter _ = true

pub data ProxyType : Type 0 where
  any non_transfer cancel_proxy collator : ProxyType

-- `ProxyType::filter`
unfoldable pub filter : ProxyType → RuntimeCall → Bool
filter any c = true
filter non_transfer (balances_call m) = false
filter non_transfer _ = true
filter cancel_proxy (proxies reject_announcement) = true
filter cancel_proxy (multisig_call m) = true
filter cancel_proxy _ = false
filter collator (collator_selection_call m) = true
filter collator (multisig_call m) = true
filter collator _ = false
