-- ===== src/Prelude/Sort.antt =====
-- A stable sort by a comparison function: `slices.SortStableFunc`, as insertion sort.
use mathlib.Core.List.{List, [], ◌∷◌}
use distroless.Prelude.Int.{ℤ, is_neg}
use distroless.Prelude.Tests.{if◌then◌else◌}
use mathlib.Core.Bool.{Bool}

module _ {ℓ} {A : Type ℓ} where
  unfoldable pub insert_by : (A → A → ℤ) → A → List A → List A
  insert_by cmp x [] = x ∷ []
  insert_by cmp x (y ∷ ys) =
      let rest = insert_by cmp x ys in if is_neg (cmp y x) then y ∷ rest else x ∷ y ∷ ys

  unfoldable pub sort_by : (A → A → ℤ) → List A → List A
  unfolding insert_by
  sort_by cmp [] = []
  sort_by cmp (x ∷ xs) = insert_by cmp x (sort_by cmp xs)

  -- `sort.Slice` by a strict order
  unfoldable pub insert_less : (A → A → Bool) → A → List A → List A
  insert_less less x [] = x ∷ []
  insert_less less x (y ∷ ys) =
      let rest = insert_less less x ys in if less y x then y ∷ rest else x ∷ y ∷ ys

  unfoldable pub sort_slice : (A → A → Bool) → List A → List A
  unfolding insert_less
  sort_slice less [] = []
  sort_slice less (x ∷ xs) = insert_less less x (sort_slice less xs)
