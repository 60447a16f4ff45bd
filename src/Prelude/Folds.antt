-- ===== src/Prelude/Folds.antt =====
-- Sums and tests over a list, and that sorting keeps them.
use Prim.Native.Nat.{ℕ, ◌+◌, ◌≤◌}
use mathlib.Core.Path.{◌≡◌, refl, ap, ◌∙◌}
use mathlib.Core.List.{List, [], ◌∷◌, ◌++◌}
use mathlib.Core.Bool.{Bool, true, ◌||◌, ◌&&◌}
use native.Mathlib.Omega.{arith}
use mathlib.Core.Logic.{inl, inr}
use distroless.Prelude.Tests.{if◌then◌else◌, leb, Bool-cases}
use distroless.Prelude.Lists.{any, All}
use distroless.Prelude.Int.{ℤ, is_neg}
use distroless.Prelude.Sort.{insert_by, sort_by, insert_less, sort_slice}

-- the sum of a number for each entry
abbrev pub total {ℓ} : {A : Type ℓ} → (A → ℕ) → List A → ℕ
total f [] = 0
total f (x ∷ xs) = f x + total f xs

abbrev pub all {ℓ} : {A : Type ℓ} → (A → Bool) → List A → Bool
all p [] = true
all p (x ∷ xs) = p x && all p xs

module _ {ℓ} {A : Type ℓ} (f : A → ℕ) where
  pub total-append : (xs ys : List A) → total f (xs ++ ys) ≡ total f xs + total f ys
  total-append [] ys = omega arith
  total-append (x ∷ xs) ys = omega (arith, total-append xs ys)

  total-insert_by :
      (cmp : A → A → ℤ) (x : A) (ys : List A) → total f (insert_by cmp x ys) ≡ f x + total f ys
  unfolding insert_by
  total-insert_by cmp x [] = refl
  total-insert_by cmp x (y ∷ ys) = ground (arith, total-insert_by cmp x ys)

  pub total-sort_by : (cmp : A → A → ℤ) (xs : List A) → total f (sort_by cmp xs) ≡ total f xs
  unfolding sort_by
  total-sort_by cmp [] = refl
  total-sort_by cmp (x ∷ xs) =
      omega (arith, total-insert_by cmp x (sort_by cmp xs), total-sort_by cmp xs)

module _ {ℓ} {A : Type ℓ} (p : A → Bool) where
  pub any-append : (xs ys : List A) → any p (xs ++ ys) ≡ (any p xs || any p ys)
  any-append [] ys = refl
  any-append (x ∷ xs) ys = ground (arith, any-append xs ys)

  any-insert_by :
      (cmp : A → A → ℤ) (x : A) (ys : List A) → any p (insert_by cmp x ys) ≡ (p x || any p ys)
  unfolding insert_by
  any-insert_by cmp x [] = refl
  any-insert_by cmp x (y ∷ ys) = ground (arith, any-insert_by cmp x ys)

  pub any-sort_by : (cmp : A → A → ℤ) (xs : List A) → any p (sort_by cmp xs) ≡ any p xs
  unfolding sort_by
  any-sort_by cmp [] = refl
  any-sort_by cmp (x ∷ xs) =
      any-insert_by cmp x (sort_by cmp xs) ∙ ap (λ (b : Bool). p x || b) (any-sort_by cmp xs)

module _ {ℓ} {A : Type ℓ} (p : A → Bool) (less : A → A → Bool) where
  all-insert_less : (x : A) (ys : List A) → all p (insert_less less x ys) ≡ (p x && all p ys)
  unfolding insert_less
  all-insert_less x [] = refl
  all-insert_less x (y ∷ ys) = ground (arith, all-insert_less x ys)

  pub all-sort_slice : (xs : List A) → all p (sort_slice less xs) ≡ all p xs
  unfolding sort_slice
  all-sort_slice [] = refl
  all-sort_slice (x ∷ xs) =
      all-insert_less x (sort_slice less xs) ∙ ap (λ (b : Bool). p x && b) (all-sort_slice xs)

  any-insert_less : (x : A) (ys : List A) → any p (insert_less less x ys) ≡ (p x || any p ys)
  unfolding insert_less
  any-insert_less x [] = refl
  any-insert_less x (y ∷ ys) = ground (arith, any-insert_less x ys)

  pub any-sort_slice : (xs : List A) → any p (sort_slice less xs) ≡ any p xs
  unfolding sort_slice
  any-sort_slice [] = refl
  any-sort_slice (x ∷ xs) =
      any-insert_less x (sort_slice less xs) ∙ ap (λ (b : Bool). p x || b) (any-sort_slice xs)

-- the measure does not fall along the list
abbrev from_first {ℓ} : {A : Type ℓ} → (A → ℕ) → ℕ → List A → Bool
from_first m n [] = true
from_first m n (x ∷ xs) = leb n (m x)

abbrev pub ascending {ℓ} : {A : Type ℓ} → (A → ℕ) → List A → Bool
ascending m [] = true
ascending m (x ∷ xs) = from_first m (m x) xs && ascending m xs

-- a comparison that never puts an entry after one of a larger measure
abbrev pub Follows {ℓ} : {A : Type ℓ} → (A → ℕ) → (A → A → ℤ) → Type ℓ
Follows {A = A} m cmp = (a b : A) → if is_neg (cmp a b) then m a ≤ m b else m b ≤ m a

module _ {ℓ} {A : Type ℓ} (m : A → ℕ) (cmp : A → A → ℤ) (follows : Follows m cmp) where
  from_first-insert_by :
      (n : ℕ) (x : A) (ys : List A)
      → from_first m n ys ≡ true
      → leb n (m x) ≡ true
      → from_first m n (insert_by cmp x ys) ≡ true
  unfolding insert_by
  from_first-insert_by n x [] h k = ground arith
  from_first-insert_by n x (y ∷ ys) h k = ground arith

  ascending-insert_by :
      (x : A) (ys : List A) → ascending m ys ≡ true → ascending m (insert_by cmp x ys) ≡ true
  unfolding insert_by
  ascending-insert_by x [] h = refl
  ascending-insert_by x (y ∷ ys) h =
      ground (arith, follows y x, ascending-insert_by x ys, from_first-insert_by (m y) x ys)

  -- sorting by such a comparison puts the measure in order
  pub ascending-sort_by : (xs : List A) → ascending m (sort_by cmp xs) ≡ true
  unfolding sort_by
  ascending-sort_by [] = refl
  ascending-sort_by (x ∷ xs) = ascending-insert_by x (sort_by cmp xs) (ascending-sort_by xs)

module _ {ℓ κ} {A : Type ℓ} (P : A → Type κ) (cmp : A → A → ℤ) where
  All-insert_by : (x : A) (ys : List A) → P x → All P ys → All P (insert_by cmp x ys)
  unfolding insert_by
  All-insert_by x [] p h = (p, tt)
  All-insert_by x (y ∷ ys) p h = elim (Bool-cases (is_neg (cmp y x))) [
    | inl before ↦ rw before (h.0, All-insert_by x ys p h.1)
    | inr here ↦ rw here (p, h)
  ]

  pub All-sort_by : (xs : List A) → All P xs → All P (sort_by cmp xs)
  unfolding sort_by
  All-sort_by [] h = tt
  All-sort_by (x ∷ xs) h = All-insert_by x (sort_by cmp xs) h.0 (All-sort_by xs h.1)
