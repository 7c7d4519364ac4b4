-- ===== src/Prelude/Maps.antt =====
-- Storage maps as functions of their keys: one key (`StorageMap`) and two (`StorageDoubleMap`).
use Prim.Native.Nat.{ℕ}
use dotcircles.Prelude.Tests.{◌==◌, if◌then◌else◌}

abbrev pub Map {ℓ} : Type ℓ → Type ℓ
Map V = ℕ → V

abbrev pub DoubleMap {ℓ} : Type ℓ → Type ℓ
DoubleMap V = ℕ → ℕ → V

abbrev pub insert {ℓ} : {V : Type ℓ} → Map V → ℕ → V → Map V
insert m k v j = if k == j then v else m j

abbrev pub insert₂ {ℓ} : {V : Type ℓ} → DoubleMap V → ℕ → ℕ → V → DoubleMap V
insert₂ m k a v j = if k == j then insert (m k) a v else m j
