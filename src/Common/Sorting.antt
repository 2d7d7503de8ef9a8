-- ===== src/Common/Sorting.antt =====
-- Sorting by the order of the floats, and `statistics.median`.
use Prim.Native.Nat.{◌-◌, ◌/◌, ◌%◌}
use mathlib.Core.List.{List, [], ◌∷◌}
use mathlib.Core.Option.{Option, none, some}
use adeept_awr.Common.Tests.{◌==◌, if◌then◌else◌}
use adeept_awr.Common.Lists.{length, get_elem?}
use adeept_awr.Common.Floats.{Float, of_ℕ}

module _ {ℓ} {W : Type ℓ} ⦃f : Float W⦄ where
  unfoldable pub insert : W → List W → List W
  insert x [] = x ∷ []
  insert x (y ∷ ys) = let rest = insert x ys in if f.lt y x then y ∷ rest else x ∷ y ∷ ys

  -- `list.sort` and `sorted`
  unfoldable pub sort : List W → List W
  unfolding insert
  sort [] = []
  sort (x ∷ xs) = insert x (sort xs)

  abbrev mean_of : Option W → Option W → Option W
  mean_of (some a) (some b) = some (f.div (f.add a b) (of_ℕ 2))
  mean_of _ _ = none

  -- `none` where there are no data, where Python raises
  unfoldable pub median : List W → Option W
  unfolding sort
  median xs =
      let ys = sort xs in
      let i = length ys / 2 in
      if length ys % 2 == 1 then get_elem? ys i else mean_of (get_elem? ys (i - 1)) (get_elem? ys i)
