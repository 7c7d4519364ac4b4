-- ===== src/Xcm/Paths.antt =====
-- The tests on locations decide equality.
use dotcircles.Prelude.{List, [], and-true, ap, arith, refl, true, ℕ, ◌==◌, ◌∷◌, ◌≡◌}
use dotcircles.Xcm.{
  BodyId, Junction, Location, another, another_body, body_eq, executive, general_index, junction_eq,
  pallet_instance, parachain, path_eq, plurality, unpacks,
}

body_eq_lem : (b c : BodyId) → body_eq b c ≡ true → b ≡ c
body_eq_lem executive executive h = refl
body_eq_lem executive (another_body y) h = absurd cc
body_eq_lem (another_body x) executive h = absurd cc
body_eq_lem (another_body x) (another_body y) h = ap another_body (ground arith)

junction_eq_lem : (x y : Junction) → junction_eq x y ≡ true → x ≡ y
junction_eq_lem (parachain x) (parachain y) h = ap parachain (ground arith)
junction_eq_lem (pallet_instance x) (pallet_instance y) h = ap pallet_instance (ground arith)
junction_eq_lem (general_index x) (general_index y) h = ap general_index (ground arith)
junction_eq_lem (plurality b x) (plurality c y) h =
    let (p, q) = and-true (body_eq b c) (x == y) h in
    let e : x ≡ y = ground arith in cc (body_eq_lem b c p, e)
junction_eq_lem (another x) (another y) h = ap another (ground arith)
junction_eq_lem _ _ h = absurd cc

pub path_eq_lem : (xs ys : List Junction) → path_eq xs ys ≡ true → xs ≡ ys
path_eq_lem [] [] h = refl
path_eq_lem [] (y ∷ ys) h = absurd cc
path_eq_lem (x ∷ xs) [] h = absurd cc
path_eq_lem (x ∷ xs) (y ∷ ys) h =
    let (p, q) = and-true (junction_eq x y) (path_eq xs ys) h in
    cc (junction_eq_lem x y p, path_eq_lem xs ys q)

pub unpacks_lem :
    (l : Location) (n : ℕ) (path : List Junction)
    → unpacks l n path ≡ true
    → l ≡ record { parents = n; interior = path }
unpacks_lem l n path h =
    let (p, q) = and-true (l.parents == n) (path_eq l.interior path) h in
    let e : l.parents ≡ n = ground arith in cc (e, path_eq_lem l.interior path q)
