-- ===== src/Version/Symmetry.antt =====
-- Swapping the two versions negates the comparison.
use distroless.Prelude.{
  ℕ, zero, suc, ◌+◌, ◌≡◌, refl, false, Option, none, some, [], ◌∷◌, ◌⊎◌, inl, inr, arith, ℤ, pos,
  neg, ◌-ℤ◌, is_zero, eq_ℤ_comm, neg-sub, is_zero-neg, if◌then◌else◌, ◌&&◌, length, ap,
}
use mathlib.Core.Option
use native.Mathlib.Nat.{add_comm}
use distroless.Strings.{Bytes}
use distroless.Version.{
  compare_runs, compare_digits, decide_digits, number_round, after_runs, proceed, unfinished, round,
  compare_loop, compare_fragment, or_zero, rank_at, digit_at, skip_zeros,
}

-- an outcome for the two texts swapped
flip : ℤ ⊎ (Bytes × Bytes) → ℤ ⊎ (Bytes × Bytes)
flip (inl c) = inl (neg c)
flip (inr (a, b)) = inr (b, a)

compare_runs-flip : (a b : Bytes) → compare_runs b a ≡ flip (compare_runs a b)
unfolding compare_runs flip
compare_runs-flip [] [] = refl
compare_runs-flip [] (y ∷ b) = ground (
  arith,
  compare_runs-flip [] b,
  eq_ℤ_comm (pos 0) (rank_at (y ∷ b)),
  neg-sub (pos 0) (rank_at (y ∷ b)),
)
compare_runs-flip (x ∷ a) [] = ground (
  arith,
  compare_runs-flip a [],
  eq_ℤ_comm (pos 0) (rank_at (x ∷ a)),
  neg-sub (rank_at (x ∷ a)) (pos 0),
)
compare_runs-flip (x ∷ a) (y ∷ b) = ground (
  arith,
  compare_runs-flip a b,
  eq_ℤ_comm (rank_at (x ∷ a)) (rank_at (y ∷ b)),
  neg-sub (rank_at (x ∷ a)) (rank_at (y ∷ b)),
)

swap_rest : ℤ × Bytes × Bytes → ℤ × Bytes × Bytes
swap_rest (d, a, b) = (neg d, b, a)

first_diff-swap :
    (d : ℤ) (x y : ℕ)
    → (if is_zero (neg d) then pos y -ℤ pos x else neg d)
      ≡ neg (if is_zero d then pos x -ℤ pos y else d)
first_diff-swap d x y = ground (arith, is_zero-neg d, neg-sub (pos x) (pos y))

compare_digits-swap :
    (d : ℤ) (a b : Bytes) → compare_digits (neg d) b a ≡ swap_rest (compare_digits d a b)
unfolding compare_digits swap_rest
compare_digits-swap d [] [] = refl
compare_digits-swap d [] (y ∷ b) = refl
compare_digits-swap d (x ∷ a) [] = refl
compare_digits-swap d (x ∷ a) (y ∷ b) = ground (
  arith,
  first_diff-swap d x y,
  compare_digits-swap (if is_zero d then pos x -ℤ pos y else d) a b,
)

-- the loop stops where one of the two has no digit left
compare_digits_stop :
    (d : ℤ) (a b : Bytes)
    → (digit_at (compare_digits d a b).1 && digit_at (compare_digits d a b).2) ≡ false
unfolding compare_digits
compare_digits_stop d [] b = unfold digit_at in refl
compare_digits_stop d (x ∷ a) [] = unfold digit_at in ground arith
compare_digits_stop d (x ∷ a) (y ∷ b) =
    ground (arith, compare_digits_stop (if is_zero d then pos x -ℤ pos y else d) a b)

decide_digits-swap :
    (r : ℤ × Bytes × Bytes)
    → (digit_at r.1 && digit_at r.2) ≡ false
    → decide_digits (swap_rest r) ≡ flip (decide_digits r)
unfolding decide_digits swap_rest flip neg
decide_digits-swap (d, a, b) h = ground (arith, is_zero-neg d)

neg_zero : neg (pos 0) ≡ pos 0
unfolding neg
neg_zero = refl

number_round-flip : (a b : Bytes) → number_round (b, a) ≡ flip (number_round (a, b))
unfolding number_round neg
number_round-flip a b =
    let r = compare_digits (pos 0) (skip_zeros a) (skip_zeros b) in
    cc (
      compare_digits-swap (pos 0) (skip_zeros a) (skip_zeros b),
      decide_digits-swap r (compare_digits_stop (pos 0) (skip_zeros a) (skip_zeros b)),
    )

after_runs-flip : (r : ℤ ⊎ (Bytes × Bytes)) → after_runs (flip r) ≡ flip (after_runs r)
unfolding after_runs flip
after_runs-flip (inl c) = refl
after_runs-flip (inr (a, b)) = unfold flip in number_round-flip a b

round-flip : (a b : Bytes) → round b a ≡ flip (round a b)
unfolding round
round-flip a b = cc (compare_runs-flip a b, after_runs-flip (compare_runs a b))

proceed-flip :
    (loop : Bytes → Bytes → Option ℤ)
    → ((a b : Bytes) → loop b a ≡ Option.map neg (loop a b))
    → (r : ℤ ⊎ (Bytes × Bytes)) → proceed loop (flip r) ≡ Option.map neg (proceed loop r)
unfolding proceed flip
proceed-flip loop ih (inl c) = refl
proceed-flip loop ih (inr (a, b)) = ih a b

unfinished_comm : (a b : Bytes) → unfinished b a ≡ unfinished a b
unfolding unfinished
unfinished_comm [] [] = refl
unfinished_comm [] (y ∷ b) = refl
unfinished_comm (x ∷ a) [] = refl
unfinished_comm (x ∷ a) (y ∷ b) = refl

-- The loop on swapped texts, with the same fuel.
compare_loop-swap :
    (fuel : ℕ) (a b : Bytes) → compare_loop fuel b a ≡ Option.map neg (compare_loop fuel a b)
unfolding compare_loop
compare_loop-swap zero a b = refl
compare_loop-swap (suc fuel) a b = ground (
  arith,
  unfinished_comm a b,
  round-flip a b,
  proceed-flip (compare_loop fuel) (compare_loop-swap fuel) (round a b),
  neg_zero,
)

or_zero-neg : (o : Option ℤ) → or_zero (Option.map neg o) ≡ neg (or_zero o)
unfolding or_zero neg
or_zero-neg none = refl
or_zero-neg (some c) = refl

compare_fragment_loop :
    (a b : Bytes) → compare_fragment a b ≡ or_zero (compare_loop (suc (length a + length b)) a b)
unfolding compare_fragment
compare_fragment_loop a b = refl

-- Swapping two fragments negates their comparison.
pub compare_fragment-swap : (a b : Bytes) → compare_fragment b a ≡ neg (compare_fragment a b)
compare_fragment-swap a b = cc (
  compare_fragment_loop a b,
  compare_fragment_loop b a,
  ap (λ (n : ℕ). compare_loop (suc n) b a) (add_comm (length b) (length a)),
  compare_loop-swap (suc (length a + length b)) a b,
  or_zero-neg (compare_loop (suc (length a + length b)) a b),
)
