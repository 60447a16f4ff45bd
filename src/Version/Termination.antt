-- ===== src/Version/Termination.antt =====
-- The outer loop of `compareFragment` ends: every round that does not return makes progress.
use distroless.Prelude.{
  ℕ, zero, suc, ◌+◌, ◌-◌, ◌≤◌, ◌<◌, ◌≡◌, refl, sym, ◌∙◌, ap, true, false, Option, some, [], ◌∷◌,
  ◌⊎◌, inl, inr, arith, ℤ, pos, ◌-ℤ◌, is_zero, if◌then◌else◌, Bool-cases, length, ◌==◌, ◌&&◌,
}
use distroless.Strings.{Bytes}
use distroless.Version.{
  compare_runs, compare_digits, decide_digits, number_round, after_runs, proceed, unfinished, round,
  compare_loop, compare_fragment, or_zero, text_at, digit_at, skip_zeros,
}

-- what is left to read
abbrev left : Bytes × Bytes → ℕ
left (a, b) = length a + length b

-- Where the text loop stops, neither text goes on with a byte that is no digit.
record AtNumber (a b a' b' : Bytes) : Type 0 where
  shorter : length a' + length b' ≤ length a + length b
  first : text_at a' ≡ false
  second : text_at b' ≡ false

text_at_nil : text_at [] ≡ false
unfolding text_at
text_at_nil = refl

compare_runs-AtNumber : (a b a' b' : Bytes) → compare_runs a b ≡ inr (a', b') → AtNumber a b a' b'
unfolding compare_runs
compare_runs-AtNumber [] [] a' b' h = unfold text_at in ground arith
compare_runs-AtNumber [] (y ∷ b) a' b' h =
    ground (arith, compare_runs-AtNumber [] b a' b', text_at_nil)
compare_runs-AtNumber (x ∷ a) [] a' b' h =
    ground (arith, compare_runs-AtNumber a [] a' b', text_at_nil)
compare_runs-AtNumber (x ∷ a) (y ∷ b) a' b' h = ground (arith, compare_runs-AtNumber a b a' b')

-- a rest of a text that is shorter or untouched
abbrev Rest : Bytes → Bytes → Type 0
Rest a a' = (length a' < length a) ⊎ (a' ≡ a)

Rest-cons : (c : ℕ) (a a' : Bytes) → Rest a a' → length a' < suc (length a)
Rest-cons c a a' (inl lt) = omega arith
Rest-cons c a a' (inr e) = rw e (omega arith)

skip_zeros-Rest : (a : Bytes) → Rest a (skip_zeros a)
unfolding skip_zeros
skip_zeros-Rest [] = inr refl
skip_zeros-Rest (c ∷ a) = elim (Bool-cases (c == b'0')) [
  | inl e ↦ rw e (inl (Rest-cons c a (skip_zeros a) (skip_zeros-Rest a)))
  | inr e ↦ rw e (inr refl)
]

compare_digits-Rest :
    (d : ℤ) (a b : Bytes) → Rest a (compare_digits d a b).1 × Rest b (compare_digits d a b).2
unfolding compare_digits
compare_digits-Rest d [] b = (inr refl, inr refl)
compare_digits-Rest d (x ∷ a) [] = (inr refl, inr refl)
compare_digits-Rest d (x ∷ a) (y ∷ b) =
    let d' = if is_zero d then pos x -ℤ pos y else d in
    let ih = compare_digits-Rest d' a b in
    elim (Bool-cases (digit_at (x ∷ a) && digit_at (y ∷ b))) [
      | inl e ↦ rw e (
        inl (Rest-cons x a (compare_digits d' a b).1 ih.0),
        inl (Rest-cons y b (compare_digits d' a b).2 ih.1),
      )
      | inr e ↦ rw e (inr refl, inr refl)
    ]

-- where a round goes on, it is at no digit in either text
decide_digits_stop :
    (r : ℤ × Bytes × Bytes) (a' b' : Bytes)
    → decide_digits r ≡ inr (a', b')
    → (r.1 ≡ a') × (r.2 ≡ b') × (digit_at a' ≡ false) × (digit_at b' ≡ false)
unfolding decide_digits
decide_digits_stop (d, a, b) a' b' h = ground arith

-- strictly shorter, unless there was nothing to read
abbrev Progress : ℕ → ℕ → Type 0
Progress n n' = n' ≤ n - 1

Rest-trans : (a s a' : Bytes) → Rest a s → Rest s a' → Rest a a'
Rest-trans a s a' (inl p) (inl q) = inl (omega arith)
Rest-trans a s a' (inl p) (inr q) = inl (rw q p)
Rest-trans a s a' (inr p) (inl q) = inl (rw p at q)
Rest-trans a s a' (inr p) (inr q) = inr (q ∙ p)

-- a text at a number is left shorter where the round goes on, or was at its end
Progress-text :
    (a a' : Bytes)
    → text_at a ≡ false
    → Rest a a'
    → digit_at a' ≡ false
    → Progress (length a) (length a')
unfolding text_at digit_at
Progress-text [] a' t (inl p) stop = omega arith
Progress-text [] a' t (inr e) stop = rw e (omega arith)
Progress-text (x ∷ a) a' t (inl p) stop = omega arith
Progress-text (x ∷ a) a' t (inr e) stop = cc (t, ap digit_at e, stop)

number_round-Progress :
    (a b a' b' : Bytes)
    → text_at a ≡ false
    → text_at b ≡ false
    → number_round (a, b) ≡ inr (a', b')
    → Progress (length a) (length a') × Progress (length b) (length b')
unfolding number_round
number_round-Progress a b a' b' ta tb h =
    let r = compare_digits (pos 0) (skip_zeros a) (skip_zeros b) in
    let (ea, eb, na, nb) = decide_digits_stop r a' b' h in
    let (ra, rb) = compare_digits-Rest (pos 0) (skip_zeros a) (skip_zeros b) in
    (
      Progress-text a a' ta (Rest-trans a (skip_zeros a) a' (skip_zeros-Rest a) (rw ea at ra)) na,
      Progress-text b b' tb (Rest-trans b (skip_zeros b) b' (skip_zeros-Rest b) (rw eb at rb)) nb,
    )

after_runs-Progress :
    (a b : Bytes) (r : ℤ ⊎ (Bytes × Bytes)) (a' b' : Bytes)
    → compare_runs a b ≡ r
    → after_runs r ≡ inr (a', b')
    → Progress (length a + length b) (length a' + length b')
unfolding after_runs
after_runs-Progress a b (inl c) a' b' e h = cc
after_runs-Progress a b (inr (a1, b1)) a' b' e h =
    let at = compare_runs-AtNumber a b a1 b1 e in
    let (pa, pb) = number_round-Progress a1 b1 a' b' at.first at.second h in
    omega (arith, at.shorter)

-- Every round that goes on leaves less to read, if anything was left.
pub round-Progress :
    (a b a' b' : Bytes)
    → round a b ≡ inr (a', b')
    → Progress (length a + length b) (length a' + length b')
unfolding round
round-Progress a b a' b' h = after_runs-Progress a b (compare_runs a b) a' b' refl h

proceed_total :
    (loop : Bytes → Bytes → Option ℤ) (n : ℕ)
    → ((a b : Bytes) → length a + length b < n → (c : ℤ) × (loop a b ≡ some c))
    → (r : ℤ ⊎ (Bytes × Bytes)) → ((a b : Bytes) → r ≡ inr (a, b) → length a + length b < n)
    → (c : ℤ) × (proceed loop r ≡ some c)
unfolding proceed
proceed_total loop n ih (inl c) small = (c, refl)
proceed_total loop n ih (inr (a, b)) small = ih a b (small a b refl)

unfinished_pos : (a b : Bytes) → unfinished a b ≡ true → 0 < length a + length b
unfolding unfinished
unfinished_pos [] [] h = cc
unfinished_pos [] (y ∷ b) h = omega arith
unfinished_pos (x ∷ a) b h = omega arith

-- With fuel above the length of the two texts the loop returns.
pub compare_loop_total :
    (fuel : ℕ) (a b : Bytes)
    → length a + length b < fuel
    → (c : ℤ) × (compare_loop fuel a b ≡ some c)
unfolding compare_loop
compare_loop_total zero a b h = absurd (omega arith)
compare_loop_total (suc fuel) a b h = elim (Bool-cases (unfinished a b)) [
  | inl e ↦
      let p =
        proceed_total (compare_loop fuel) fuel (compare_loop_total fuel) (round a b)
          (λ a' b' r. omega (arith, unfinished_pos a b e, round-Progress a b a' b' r)) in
      (p.0, rw (e, compare_loop) p.1)
  | inr e ↦ (pos 0, rw (e, compare_loop))
]

proceed_mono :
    (small large : Bytes → Bytes → Option ℤ) (r : ℤ ⊎ (Bytes × Bytes)) (c : ℤ)
    → ((a b : Bytes) (d : ℤ) → small a b ≡ some d → large a b ≡ some d)
    → proceed small r ≡ some c
    → proceed large r ≡ some c
unfolding proceed
proceed_mono small large (inl d) c grow h = h
proceed_mono small large (inr (a, b)) c grow h = grow a b c h

compare_loop_mono :
    (fuel more : ℕ) (a b : Bytes) (c : ℤ)
    → fuel ≤ more
    → compare_loop fuel a b ≡ some c
    → compare_loop more a b ≡ some c
unfolding compare_loop
compare_loop_mono zero more a b c le h = cc
compare_loop_mono (suc fuel) zero a b c le h = absurd (omega arith)
compare_loop_mono (suc fuel) (suc more) a b c le h = ground (
  arith,
  proceed_mono (compare_loop fuel) (compare_loop more) (round a b) c
      (λ a' b' d. compare_loop_mono fuel more a' b' d (omega arith)),
)

-- with enough fuel the loop's result is `compare_fragment`
compare_loop-fragment :
    (fuel : ℕ) (a b : Bytes)
    → length a + length b < fuel
    → compare_loop fuel a b ≡ some (compare_fragment a b)
unfolding compare_fragment
compare_loop-fragment fuel a b h =
    let n = suc (length a + length b) in
    let (c, e) = compare_loop_total n a b (omega arith) in
    compare_loop_mono n fuel a b c h e ∙ ap (λ (o : Option ℤ). some (or_zero o)) (sym e)

-- what one round leaves to `compare_fragment`
abbrev pub resume : ℤ ⊎ (Bytes × Bytes) → ℤ
resume (inl c) = c
resume (inr (a, b)) = compare_fragment a b

proceed-resume :
    (fuel : ℕ) (r : ℤ ⊎ (Bytes × Bytes))
    → ((a b : Bytes) → r ≡ inr (a, b) → length a + length b < fuel)
    → proceed (compare_loop fuel) r ≡ some (resume r)
unfolding proceed
proceed-resume fuel (inl c) small = refl
proceed-resume fuel (inr (a, b)) small = compare_loop-fragment fuel a b (small a b refl)

-- `compareFragment` satisfies the equation of its unbounded loop: it is 0 where both texts are
-- read, and else the result of one round, or of the comparison of what that round leaves. So
-- the fuel is always enough, and plays no part in the result.
pub compare_fragment_unfold :
    (a b : Bytes) → compare_fragment a b ≡ (if unfinished a b then resume (round a b) else pos 0)
compare_fragment_unfold a b =
    let n = length a + length b in
    let e = compare_loop-fragment (suc n) a b (omega arith) in
    elim (Bool-cases (unfinished a b)) [
      | inl u ↦
          let p =
            proceed-resume n (round a b)
              (λ a' b' r. omega (arith, unfinished_pos a b u, round-Progress a b a' b' r)) in
          unfold compare_loop in rw u (ground (arith, e, p))
      | inr u ↦ unfold compare_loop in rw u (ground (arith, e))
    ]
