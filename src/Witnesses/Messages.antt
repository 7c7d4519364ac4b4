-- ===== src/Witnesses/Messages.antt =====
-- The theorems on messages and assets of other chains and on calls, at concrete ones.
use dotcircles.Prelude.{
  List, [], get_elem?, if◌then◌else◌, length, some, true, ℕ, ◌==◌, ◌↔◌, ◌∷◌, ◌≡◌,
}
use dotcircles.Rosca.Types.{PaymentAssets, id}
use dotcircles.Xcm.{
  Asset, Instruction, Matching, Processed, accepted, and_then, bad_format, convert, convert_back,
  is_reserve, may_transfer, rejected, supported, usdc_location, usdt_location,
}
use dotcircles.Xcm.Assets.{asset_hub_location, convert-convert_back, may_transfer_lem, supported-id}

convert-convert_back_example :
    (convert usdc_location ≡ some 1337) ↔ (convert_back 1337 ≡ some usdc_location)
convert-convert_back_example = convert-convert_back usdc_location 1337

supported-id_example :
    (supported usdt_location ≡ true) ↔ ((a : PaymentAssets) × (convert usdt_location ≡ some (id a)))
supported-id_example = supported-id usdt_location

some_usdc : Asset
some_usdc = record { asset_id = usdc_location; fun = 5 }

may_transfer_lem_example : (may_transfer (usdt_location, some_usdc ∷ []) ≡ true) ↔ (
    (i : ℕ) (asset : Asset)
    → get_elem? (some_usdc ∷ []) i ≡ some asset
    → is_reserve asset asset_hub_location ≡ true)
may_transfer_lem_example = may_transfer_lem usdt_location (some_usdc ∷ [])

-- A matcher that keeps the instructions that are left.
on_lists : Matching
on_lists = record {
  Cursor = List Instruction;
  matcher = λ xs. xs;
  assert_remaining_insts = λ xs n. if length xs == n then accepted xs else rejected bad_format;
  match_next_inst = next_of;
}
  where
    next_of : List Instruction → (Instruction → Processed Unit) → Processed (List Instruction)
    next_of [] f = rejected bad_format
    next_of (i ∷ r) f = and_then (f i) (λ _. accepted r)
