-- ===== src/Xcm.antt =====
-- The assets and the messages from other chains: runtime/src/configs/xcm_config.rs.
pub mod Paths
pub mod Assets
pub mod Barrier
use dotcircles.Prelude.{
  Bool, List, Option, [], false, if◌then◌else◌, none, not, some, true, ℕ, ◌&&◌, ◌==◌, ◌||◌, ◌∷◌,
}

-- The parts of a location that the source names; `another` stands for the others.
pub data BodyId : Type 0 where
  executive : BodyId
  another_body : ℕ → BodyId

pub data Junction : Type 0 where
  parachain pallet_instance general_index : ℕ → Junction
  plurality : BodyId → (part : ℕ) → Junction
  another : ℕ → Junction

-- `location.unpack()` gives the two fields.
pub record Location : Type 0 where
  pub parents : ℕ
  pub interior : List Junction

abbrev pub usdc_path : List Junction
usdc_path = parachain 1000 ∷ pallet_instance 50 ∷ general_index 1337 ∷ []

abbrev pub usdt_path : List Junction
usdt_path = parachain 1000 ∷ pallet_instance 50 ∷ general_index 1984 ∷ []

abbrev pub usdt_location : Location
usdt_location = record {
  parents = 1;
  interior = parachain 1000 ∷ pallet_instance 50 ∷ general_index 1984 ∷ [];
}

abbrev pub usdc_location : Location
usdc_location = record {
  parents = 1;
  interior = parachain 1000 ∷ pallet_instance 50 ∷ general_index 1337 ∷ [];
}

abbrev pub body_eq : BodyId → BodyId → Bool
body_eq executive executive = true
body_eq executive (another_body y) = false
body_eq (another_body x) executive = false
body_eq (another_body x) (another_body y) = x == y

-- `==` on junctions, and a match of a path with a constant one.
abbrev pub junction_eq : Junction → Junction → Bool
junction_eq (parachain x) (parachain y) = x == y
junction_eq (pallet_instance x) (pallet_instance y) = x == y
junction_eq (general_index x) (general_index y) = x == y
junction_eq (plurality b x) (plurality c y) = body_eq b c && (x == y)
junction_eq (another x) (another y) = x == y
junction_eq _ _ = false

abbrev pub path_eq : List Junction → List Junction → Bool
path_eq [] [] = true
path_eq [] (y ∷ ys) = false
path_eq (x ∷ xs) [] = false
path_eq (x ∷ xs) (y ∷ ys) = junction_eq x y && path_eq xs ys

-- `(n, PATH)` matches the location.
abbrev pub unpacks : Location → ℕ → List Junction → Bool
unpacks l n path = (l.parents == n) && path_eq l.interior path

-- `SupportedAssets`
unfoldable pub supported : Location → Bool
supported l = unpacks l 1 usdc_path || unpacks l 1 usdt_path

unfoldable pub convert : Location → Option ℕ
convert l =
    if unpacks l 1 usdc_path then some 1337 else if unpacks l 1 usdt_path then some 1984 else none

unfoldable pub convert_back : ℕ → Option Location
convert_back asset_id =
    if asset_id == 1337
    then some usdc_location
    else if asset_id == 1984
    then some usdt_location
    else none

-- An asset that is named by a location, with its amount.
pub record Asset : Type 0 where
  pub asset_id : Location
  pub fun : ℕ

-- `AssetHubAssets`, as the filter of reserves: an asset and the location that it comes from.
unfoldable pub is_reserve : Asset → Location → Bool
unfolding supported
is_reserve asset source =
    if not (unpacks source 1 (parachain 1000 ∷ [])) then false else supported asset.asset_id

-- `AssetHubAssets`, as the filter of reserve transfers.
unfoldable pub may_transfer : Location × List Asset → Bool
unfolding supported
may_transfer (origin, []) = true
may_transfer (origin, asset ∷ assets) = supported asset.asset_id && may_transfer (origin, assets)

-- `matches!(path, [])`, `matches!(path, [Plurality { id: BodyId::Executive, .. }])` and
-- `matches!(path, [Parachain(_)])`
abbrev pub is_executive : List Junction → Bool
is_executive (plurality executive part ∷ []) = true
is_executive _ = false

abbrev pub is_sibling : List Junction → Bool
is_sibling (parachain n ∷ []) = true
is_sibling _ = false

unfoldable pub parent_or_executive : Location → Bool
parent_or_executive l = unpacks l 1 [] || ((l.parents == 1) && is_executive l.interior)

unfoldable pub asset_hub : Location → Bool
asset_hub l = unpacks l 1 (parachain 1000 ∷ [])

unfoldable pub parent_or_siblings : Location → Bool
parent_or_siblings l = unpacks l 1 [] || ((l.parents == 1) && is_sibling l.interior)

-- The origins that `Barrier` gives to `AllowUnpaidExecutionFrom`.
unfoldable pub may_execute_unpaid : Location → Bool
unfolding asset_hub parent_or_executive
may_execute_unpaid l = asset_hub l || parent_or_executive l

-- The instructions that the barrier of this chain tells apart.
pub data Instruction : Type 0 where
  hrmp_new_channel_open_request hrmp_channel_accepted hrmp_channel_closing : ℕ → Instruction
  another_instruction : ℕ → Instruction

pub data ProcessMessageError : Type 0 where
  unsupported bad_format : ProcessMessageError
  another_error : ℕ → ProcessMessageError

-- `Result<T, ProcessMessageError>`
pub data Processed (T : Type 0) : Type 0 where
  accepted : T → Processed T
  rejected : ProcessMessageError → Processed T

-- The matcher of instructions, of the package `xcm_builder`.
pub record Matching : Type 1 where
  pub Cursor : Type 0
  pub matcher : List Instruction → Cursor
  pub assert_remaining_insts : Cursor → ℕ → Processed Cursor
  pub match_next_inst : Cursor → (Instruction → Processed Unit) → Processed Cursor

abbrev pub and_then : {A B : Type 0} → Processed A → (A → Processed B) → Processed B
and_then (accepted a) f = f a
and_then (rejected e) f = rejected e

-- The closure that the barrier gives to `match_next_inst`.
abbrev pub is_notification : Instruction → Processed Unit
is_notification (hrmp_new_channel_open_request x) = accepted tt
is_notification (hrmp_channel_accepted x) = accepted tt
is_notification (hrmp_channel_closing x) = accepted tt
is_notification (another_instruction x) = rejected bad_format

-- `AllowHrmpNotificationsFromRelayChain::should_execute`
unfoldable pub should_execute : Matching → Location → List Instruction → Processed Unit
should_execute m origin instructions = elim (unpacks origin 1 []) [
  | true ↦
      and_then (m.assert_remaining_insts (m.matcher instructions) 1)
        λ c. and_then (m.match_next_inst c is_notification) λ _. accepted tt
  | false ↦ rejected unsupported
]
