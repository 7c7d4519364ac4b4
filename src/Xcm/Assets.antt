-- ===== src/Xcm/Assets.antt =====
-- The locations of the assets of payment: `SupportedAssets` and `AssetHubAssets`.
use dotcircles.Prelude.{
  Bool-cases, List, Option-cases, [], and-true, ap, arith, get_elem?, inl, inr, is_some, of_some,
  refl, some, suc, true, zero, ℕ, ◌==◌, ◌↔◌, ◌∙◌, ◌∷◌, ◌≡◌, ◌⊎◌,
}
use dotcircles.Xcm.{
  Asset, Location, convert, convert_back, is_reserve, may_transfer, parachain, supported, unpacks,
  usdc_location, usdc_path, usdt_location, usdt_path,
}
use dotcircles.Rosca.Types.{PaymentAssets, id, usdc, usdt}
use dotcircles.Xcm.Paths.{unpacks_lem}

abbrev pub asset_hub_location : Location
asset_hub_location = record { parents = 1; interior = parachain 1000 ∷ [] }

-- The location of an asset of payment.
abbrev location_of : PaymentAssets → Location
location_of usdt = usdt_location
location_of usdc = usdc_location

convert-location_of : (a : PaymentAssets) → convert (location_of a) ≡ some (id a)
unfolding convert id
convert-location_of usdt = refl
convert-location_of usdc = refl

-- Only the two locations are converted.
convert-some :
    (l : Location) (n : ℕ)
    → convert l ≡ some n
    → ((n ≡ 1337) × (l ≡ usdc_location)) ⊎ ((n ≡ 1984) × (l ≡ usdt_location))
unfolding convert
convert-some l n h = elim (Bool-cases (unpacks l 1 usdc_path)) [
  | inl e ↦ inl (ground (arith, h, e), unpacks_lem l 1 usdc_path e)
  | inr no_usdc ↦ elim (Bool-cases (unpacks l 1 usdt_path)) [
    | inl e ↦ inr (ground (arith, h, e, no_usdc), unpacks_lem l 1 usdt_path e)
    | inr no_usdt ↦ absurd cc
  ]
]

convert_back-some :
    (n : ℕ) (l : Location)
    → convert_back n ≡ some l
    → ((n ≡ 1337) × (l ≡ usdc_location)) ⊎ ((n ≡ 1984) × (l ≡ usdt_location))
unfolding convert_back
convert_back-some n l h = elim (Bool-cases (n == 1337)) [
  | inl e ↦ inl (ground arith, cc)
  | inr no_usdc ↦ elim (Bool-cases (n == 1984)) [
    | inl e ↦ inr (ground arith, cc)
    | inr no_usdt ↦ absurd cc
  ]
]

-- A location is converted to an id just when the id is converted back to that location, so that
-- the two conversions are inverse to each other wherever one of them answers.
pub convert-convert_back : (l : Location) (n : ℕ) → (convert l ≡ some n) ↔ (convert_back n ≡ some l)
unfolding convert convert_back
convert-convert_back l n = (
  λ h. elim (convert-some l n h) [ inl (e, e') ↦ rw (e, e') refl | inr (e, e') ↦ rw (e, e') refl ],
  λ h. elim (convert_back-some n l h) [
    | inl (e, e') ↦ rw (e, e') refl
    | inr (e, e') ↦ rw (e, e') refl
  ],
)

-- A location of a supported asset is converted, and no other is.
supported_lem : (l : Location) → supported l ≡ is_some (convert l)
unfolding supported convert
supported_lem l = ground (arith)

payment_of :
    (l : Location) (n : ℕ) → convert l ≡ some n → (a : PaymentAssets) × (convert l ≡ some (id a))
unfolding id
payment_of l n h = elim (convert-some l n h) [
  | inl (e, e') ↦ (usdc, h ∙ ap some e)
  | inr (e, e') ↦ (usdt, h ∙ ap some e)
]

-- The supported locations are those that are converted to the id of an asset in which a circle is
-- paid.
pub supported-id :
    (l : Location) → (supported l ≡ true) ↔ ((a : PaymentAssets) × (convert l ≡ some (id a)))
supported-id l = (
  λ h. elim (Option-cases (convert l)) [
    | inl e ↦ absurd cc (supported_lem l)
    | inr (n, e) ↦ payment_of l n e
  ],
  λ (a, h). supported_lem l ∙ ap is_some h,
)

-- Every asset of payment has a supported location, to which its id is converted back.
pub convert_back-id :
    (a : PaymentAssets) → (l : Location) × (convert_back (id a) ≡ some l) × (supported l ≡ true)
convert_back-id a = (
  location_of a,
  (convert-convert_back (location_of a) (id a)).0 (convert-location_of a),
  (supported-id (location_of a)).1 (a, convert-location_of a),
)

-- An asset is taken as a reserve just when it comes from the parachain 1000 next to this one, and is
-- an asset of payment.
pub is_reserve_lem :
    (asset : Asset) (source : Location)
    → (is_reserve asset source ≡ true) ↔ (
        (source ≡ asset_hub_location)
        × ((a : PaymentAssets) × (convert asset.asset_id ≡ some (id a))))
unfolding is_reserve
is_reserve_lem asset source = (
  λ h. elim (Bool-cases (unpacks source 1 (parachain 1000 ∷ []))) [
    | inl hub ↦
        (unpacks_lem source 1 _ hub, (supported-id asset.asset_id).0 (ground (arith, h, hub)))
    | inr far ↦ absurd cc
  ],
  λ (e, found). rw e ((supported-id asset.asset_id).1 found),
)

-- A transfer of reserves is allowed, wherever it goes, just when the parachain 1000 is taken as the
-- reserve of every asset in it.
pub may_transfer_lem :
    (to : Location) (assets : List Asset)
    → (may_transfer (to, assets) ≡ true) ↔ (
        (i : ℕ) (asset : Asset)
        → get_elem? assets i ≡ some asset
        → is_reserve asset asset_hub_location ≡ true)
unfolding may_transfer is_reserve
may_transfer_lem to [] = (λ h i asset e. absurd cc, λ h. refl)
may_transfer_lem to (x ∷ assets) = (
  λ h i asset e.
      let (p, q) = and-true (supported x.asset_id) (may_transfer (to, assets)) h in
      each p ((may_transfer_lem to assets).0 q) i asset e,
  λ h. cc (h 0 x refl, (may_transfer_lem to assets).1 (λ i asset e. h (suc i) asset e)),
)
  where
    each :
        supported x.asset_id ≡ true
        → ((i : ℕ) (asset : Asset)
            → get_elem? assets i ≡ some asset
            → is_reserve asset asset_hub_location ≡ true)
        → (i : ℕ) (asset : Asset) → get_elem? (x ∷ assets) i ≡ some asset
        → is_reserve asset asset_hub_location ≡ true
    each p q zero asset e = rw (← of_some e) p
    each p q (suc i) asset e = q i asset e
