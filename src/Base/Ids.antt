-- ===== src/Base/Ids.antt =====
-- A `std::map` of objects by their ids, as the list of the ids.
use Prim.Native.Nat.{ℕ}
use mathlib.Core.Path.{◌≡◌, refl}
use mathlib.Core.Bool.{Bool, true, false}
use mathlib.Core.List.{List, [], ◌∷◌}
use native.Mathlib.Omega.{arith}
use jerry.Base.Tests.{◌==◌, if◌then◌else◌}

-- `emplace`, `erase` and `find`.
unfoldable pub emplace : ℕ → List ℕ → List ℕ
emplace k [] = k ∷ []
emplace k (j ∷ m) = if j == k then j ∷ m else j ∷ emplace k m

unfoldable pub erase : ℕ → List ℕ → List ℕ
erase k [] = []
erase k (j ∷ m) = let rest = erase k m in if j == k then rest else j ∷ rest

unfoldable pub has : ℕ → List ℕ → Bool
has k [] = false
has k (j ∷ m) = if j == k then true else has k m

pub has-emplace : (k j : ℕ) (m : List ℕ) → has k (emplace j m) ≡ (if j == k then true else has k m)
unfolding has emplace
has-emplace k j [] = refl
has-emplace k j (i ∷ m) = ground (arith, has-emplace k j m)

pub has-erase : (k j : ℕ) (m : List ℕ) → has k (erase j m) ≡ (if j == k then false else has k m)
unfolding has erase
has-erase k j [] = ground arith
has-erase k j (i ∷ m) = ground (arith, has-erase k j m)
