-- ===== src/Strings/Count.antt =====
-- How often a text occurs in a list of texts.
use distroless.Prelude.{ℕ, suc, ◌+◌, ◌≡◌, List, [], ◌∷◌, ◌++◌, arith, if◌then◌else◌}
use distroless.Strings.{Bytes, str_eq}

unfoldable pub count : Bytes → List Bytes → ℕ
count n [] = 0
count n (x ∷ xs) = if str_eq x n then suc (count n xs) else count n xs

pub count-append : (n : Bytes) (xs ys : List Bytes) → count n (xs ++ ys) ≡ count n xs + count n ys
unfolding count
count-append n [] ys = omega arith
count-append n (x ∷ xs) ys = ground (arith, count-append n xs ys)
