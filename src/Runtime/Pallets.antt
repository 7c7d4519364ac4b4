-- ===== src/Runtime/Pallets.antt =====
-- A pallet is found by its index.
use dotcircles.Prelude.{
  Option, ap, if◌then◌else◌, none, of_some, refl, some, sym, ℕ, ◌==◌, ◌↔◌, ◌∙◌, ◌≡◌,
}
use dotcircles.Runtime.{
  Pallet, assets, aura, aura_ext, authorship, balances, collator_selection, conviction_voting,
  cumulus_xcm, index, message_queue, multisig, origins, parachain_info, parachain_system,
  polkadot_xcm, preimage, proxy, referenda, rosca, scheduler, session, sudo, system, timestamp,
  transaction_payment, treasury, treasury_instance, utility, whitelist, xcmp_queue,
}

abbrev at_index : ℕ → Option Pallet
at_index i =
    if i == 0
    then some system
    else if i == 1
    then some parachain_system
    else if i == 2
    then some timestamp
    else if i == 3
    then some parachain_info
    else if i == 4
    then some proxy
    else if i == 5
    then some utility
    else if i == 6
    then some multisig
    else if i == 7
    then some scheduler
    else if i == 8
    then some preimage
    else if i == 10
    then some balances
    else if i == 11
    then some transaction_payment
    else if i == 12
    then some assets
    else if i == 13
    then some treasury
    else if i == 15
    then some sudo
    else if i == 16
    then some conviction_voting
    else if i == 17
    then some referenda
    else if i == 18
    then some origins
    else if i == 19
    then some whitelist
    else if i == 20
    then some authorship
    else if i == 21
    then some collator_selection
    else if i == 22
    then some session
    else if i == 23
    then some aura
    else if i == 24
    then some aura_ext
    else if i == 30
    then some xcmp_queue
    else if i == 31
    then some polkadot_xcm
    else if i == 32
    then some cumulus_xcm
    else if i == 33
    then some message_queue
    else if i == 40
    then some rosca
    else none

at_index-index : (p : Pallet) → at_index (index p) ≡ some p
unfolding index
at_index-index system = refl
at_index-index parachain_system = refl
at_index-index timestamp = refl
at_index-index parachain_info = refl
at_index-index proxy = refl
at_index-index utility = refl
at_index-index multisig = refl
at_index-index scheduler = refl
at_index-index preimage = refl
at_index-index balances = refl
at_index-index transaction_payment = refl
at_index-index assets = refl
at_index-index treasury = refl
at_index-index sudo = refl
at_index-index conviction_voting = refl
at_index-index referenda = refl
at_index-index origins = refl
at_index-index whitelist = refl
at_index-index authorship = refl
at_index-index collator_selection = refl
at_index-index session = refl
at_index-index aura = refl
at_index-index aura_ext = refl
at_index-index xcmp_queue = refl
at_index-index polkadot_xcm = refl
at_index-index cumulus_xcm = refl
at_index-index message_queue = refl
at_index-index rosca = refl

-- No two pallets have the same index.
pub index_injective : (p q : Pallet) → index p ≡ index q → p ≡ q
index_injective p q h = of_some (sym (at_index-index p) ∙ ap at_index h ∙ at_index-index q)

-- The treasury's location names the treasury, and no other pallet.
pub treasury_instance_lem : (p : Pallet) → (index p ≡ treasury_instance) ↔ (p ≡ treasury)
unfolding index
treasury_instance_lem p = (λ h. index_injective p treasury h, λ e. rw e refl)
