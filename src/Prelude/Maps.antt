-- ===== src/Prelude/Maps.antt =====
-- A `HashMap` whose keys are numbers, as an association list with at most one entry for a key.
use Prim.Native.Nat.{ℕ}
use mathlib.Core.Path.{◌≡◌}
use mathlib.Core.List.{List, [], ◌∷◌}
use mathlib.Core.Option.{Option, none, some}
use native.Mathlib.Omega.{arith}
use shotover_proxy.Prelude.Tests.{◌==◌, if◌then◌else◌}

abbrev pub IdMap {ℓ} : Type ℓ → Type ℓ
IdMap V = List (ℕ × V)

module _ {ℓ} {V : Type ℓ} where
  unfoldable pub map_get : ℕ → IdMap V → Option V
  map_get k [] = none
  map_get k ((j, v) ∷ m) = if j == k then some v else map_get k m

  unfoldable pub map_remove : ℕ → IdMap V → IdMap V
  map_remove k [] = []
  map_remove k ((j, v) ∷ m) = let rest = map_remove k m in if j == k then rest else (j, v) ∷ rest

  unfoldable pub map_insert : ℕ → V → IdMap V → IdMap V
  unfolding map_remove
  map_insert k v m = (k, v) ∷ map_remove k m

  pub map_get-remove :
      (k j : ℕ) (m : IdMap V) → map_get j (map_remove k m) ≡ (if k == j then none else map_get j m)
  unfolding map_get map_remove
  map_get-remove k j [] = ground arith
  map_get-remove k j ((i, v) ∷ m) = ground (arith, map_get-remove k j m)

  pub map_get-insert :
      (k j : ℕ) (v : V) (m : IdMap V)
      → map_get j (map_insert k v m) ≡ (if k == j then some v else map_get j m)
  unfolding map_get map_insert
  map_get-insert k j v m = ground (arith, map_get-remove k j m)
