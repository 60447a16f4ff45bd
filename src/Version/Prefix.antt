-- ===== src/Version/Prefix.antt =====
-- A common prefix does not change the comparison of what follows it, if what follows is at its
-- end or goes on with a byte that is no digit.
use distroless.Prelude.{
  ℕ, zero, suc, ◌<◌, ◌≡◌, refl, sym, ◌∙◌, ap, true, false, [], ◌∷◌, ◌++◌, ◌⊎◌, inl, inr, arith, ℤ,
  pos, ◌-ℤ◌, eq_ℤ, eq_ℤ_refl, Bool-cases, length, ◌==◌, is_neg, length-append, append-nil,
}
use distroless.Strings.{Bytes, is_digit}
use distroless.Version.{
  compare_runs, compare_digits, decide_digits, number_round, after_runs, unfinished, round,
  compare_fragment, rank, rank_at, text_at, digit_at, skip_zeros,
}
use distroless.Version.Termination.{compare_fragment_unfold, resume, round-Progress}

compare_digits_stuck : (d : ℤ) (a b : Bytes) → digit_at a ≡ false → compare_digits d a b ≡ (d, a, b)
unfolding compare_digits
compare_digits_stuck d [] b h = refl
compare_digits_stuck d (x ∷ a) [] h = refl
compare_digits_stuck d (x ∷ a) (y ∷ b) h = rw h

no_difference : (c : ℕ) → pos c -ℤ pos c ≡ pos 0
unfolding ◌-ℤ◌
no_difference c = ground arith

compare_digits_same :
    (c : ℕ) (a b : Bytes)
    → is_digit c ≡ true
    → compare_digits (pos 0) (c ∷ a) (c ∷ b) ≡ compare_digits (pos 0) a b
unfolding compare_digits digit_at
compare_digits_same c a b h = rw (h, no_difference c)

skip_zeros_stuck : (a : Bytes) → digit_at a ≡ false → skip_zeros a ≡ a
unfolding skip_zeros digit_at
skip_zeros_stuck [] h = refl
skip_zeros_stuck (c ∷ a) h = elim (Bool-cases (c == b'0')) [
  | inl e ↦ unfold is_digit in ground arith
  | inr e ↦ rw e
]

skip_zeros_zero : (c : ℕ) (a : Bytes) → (c == b'0') ≡ true → skip_zeros (c ∷ a) ≡ skip_zeros a
unfolding skip_zeros
skip_zeros_zero c a e = rw e

skip_zeros_stop : (c : ℕ) (a : Bytes) → (c == b'0') ≡ false → skip_zeros (c ∷ a) ≡ c ∷ a
unfolding skip_zeros
skip_zeros_stop c a e = rw e

pub compare_runs_same :
    (c : ℕ) (a b : Bytes) → is_digit c ≡ false → compare_runs (c ∷ a) (c ∷ b) ≡ compare_runs a b
unfolding compare_runs text_at rank_at
compare_runs_same c a b d = rw (d, eq_ℤ_refl (rank c))

-- one round always gives what the whole comparison gives
pub resume-round : (a b : Bytes) → compare_fragment a b ≡ resume (round a b)
unfolding unfinished
resume-round [] [] =
    unfold round compare_runs after_runs number_round skip_zeros compare_digits decide_digits
      digit_at in
    refl
resume-round [] (y ∷ b) = compare_fragment_unfold [] (y ∷ b)
resume-round (x ∷ a) b = compare_fragment_unfold (x ∷ a) b

module _ (a b : Bytes) (na : digit_at a ≡ false) (nb : digit_at b ≡ false) where
  -- the loop over digits runs through the same digits and stops with no difference
  record CommonDigits (p : Bytes) : Type 0 where
    rest : Bytes
    stops : compare_digits (pos 0) (p ++ a) (p ++ b) ≡ (pos 0, rest ++ a, rest ++ b)
    first : digit_at (rest ++ a) ≡ false
    second : digit_at (rest ++ b) ≡ false

  compare_digits-CommonDigits : (p : Bytes) → CommonDigits p
  compare_digits-CommonDigits [] = record {
    rest = [];
    stops = compare_digits_stuck (pos 0) a b na;
    first = na;
    second = nb;
  }
  compare_digits-CommonDigits (c ∷ p) = elim (Bool-cases (is_digit c)) [
    | inl d ↦
        let ih = compare_digits-CommonDigits p in
        record {
          rest = ih.rest;
          stops = compare_digits_same c (p ++ a) (p ++ b) d ∙ ih.stops;
          first = ih.first;
          second = ih.second;
        }
    | inr d ↦ record {
      rest = c ∷ p;
      stops = compare_digits_stuck (pos 0) (c ∷ (p ++ a)) (c ∷ (p ++ b)) (unfold digit_at in d);
      first = unfold digit_at in d;
      second = unfold digit_at in d;
    }
  ]

  -- leading zeros are skipped in both alike
  record CommonZeros (p : Bytes) : Type 0 where
    rest : Bytes
    first : skip_zeros (p ++ a) ≡ rest ++ a
    second : skip_zeros (p ++ b) ≡ rest ++ b

  skip_zeros-CommonZeros : (p : Bytes) → CommonZeros p
  skip_zeros-CommonZeros [] = record {
    rest = [];
    first = skip_zeros_stuck a na;
    second = skip_zeros_stuck b nb;
  }
  skip_zeros-CommonZeros (c ∷ p) = elim (Bool-cases (c == b'0')) [
    | inl e ↦
        let ih = skip_zeros-CommonZeros p in
        record {
          rest = ih.rest;
          first = skip_zeros_zero c (p ++ a) e ∙ ih.first;
          second = skip_zeros_zero c (p ++ b) e ∙ ih.second;
        }
    | inr e ↦ record {
      rest = c ∷ p;
      first = skip_zeros_stop c (p ++ a) e;
      second = skip_zeros_stop c (p ++ b) e;
    }
  ]

  -- a round's loops over digits go on behind what is common
  number_round_common :
      (p : Bytes) → (rest : Bytes) × (number_round (p ++ a, p ++ b) ≡ inr (rest ++ a, rest ++ b))
  unfolding number_round decide_digits
  number_round_common p =
      let z = skip_zeros-CommonZeros p in
      let d = compare_digits-CommonDigits z.rest in
      (d.rest, rw (z.first, z.second, d.stops, d.first, d.second))

  -- the loop over text runs through what is common, up to a digit or to its end
  compare_runs_common :
      (p : Bytes)
      → (compare_runs (p ++ a) (p ++ b) ≡ compare_runs a b)
        ⊎ ((rest : Bytes) × (compare_runs (p ++ a) (p ++ b) ≡ inr (rest ++ a, rest ++ b)))
  compare_runs_common [] = inl refl
  compare_runs_common (c ∷ p) = elim (Bool-cases (is_digit c)) [
    | inl d ↦ inr (c ∷ p, unfold compare_runs text_at in rw d)
    | inr d ↦
        let same = compare_runs_same c (p ++ a) (p ++ b) d in
        elim (compare_runs_common p) [
          | inl e ↦ inl (same ∙ e)
          | inr (rest, e) ↦ inr (rest, same ∙ e)
        ]
  ]

  -- what a round gives behind a common prefix
  round_common :
      (p : Bytes)
      → (round (p ++ a) (p ++ b) ≡ round a b)
        ⊎ ((rest : Bytes) × (round (p ++ a) (p ++ b) ≡ inr (rest ++ a, rest ++ b)))
  unfolding round after_runs
  round_common p = elim (compare_runs_common p) [
    | inl e ↦ inl (ap after_runs e)
    | inr (rest, e) ↦
        let (rest', e') = number_round_common rest in inr (rest', ap after_runs e ∙ e')
  ]

  rest_shorter :
      (p rest : Bytes)
      → 0 < length p
      → round (p ++ a) (p ++ b) ≡ inr (rest ++ a, rest ++ b)
      → length rest < length p
  rest_shorter p rest h e = omega (
    arith,
    round-Progress (p ++ a) (p ++ b) (rest ++ a) (rest ++ b) e,
    length-append p a,
    length-append p b,
    length-append rest a,
    length-append rest b,
  )

  prefix_below :
      (n : ℕ) (p : Bytes) → length p < n → compare_fragment (p ++ a) (p ++ b) ≡ compare_fragment a b
  prefix_below zero p h = absurd (omega arith)
  prefix_below (suc n) [] h = refl
  prefix_below (suc n) (c ∷ p) h = elim (round_common (c ∷ p)) [
    | inl e ↦ resume-round ((c ∷ p) ++ a) ((c ∷ p) ++ b) ∙ ap resume e ∙ sym (resume-round a b)
    | inr (rest, e) ↦
        resume-round ((c ∷ p) ++ a) ((c ∷ p) ++ b)
        ∙ ap resume e
        ∙ prefix_below n rest (omega (arith, rest_shorter (c ∷ p) rest (omega arith) e))
  ]

-- A common prefix, whatever it is, does not change how the rests compare, if neither rest begins
-- with a digit.
pub compare_fragment-prefix :
    (p a b : Bytes)
    → digit_at a ≡ false
    → digit_at b ≡ false
    → compare_fragment (p ++ a) (p ++ b) ≡ compare_fragment a b
compare_fragment-prefix p a b na nb = prefix_below a b na nb (suc (length p)) p (omega arith)

-- two texts that differ at once, at bytes that are no digits
first_bytes :
    (x y : ℕ) (a b : Bytes)
    → is_digit x ≡ false
    → eq_ℤ (rank x) (rank y) ≡ false
    → compare_fragment (x ∷ a) (y ∷ b) ≡ rank x -ℤ rank y
first_bytes x y a b d h =
    resume-round (x ∷ a) (y ∷ b)
    ∙ (unfold round after_runs compare_runs text_at rank_at in rw (d, h))

first_byte_end :
    (x : ℕ) (a : Bytes)
    → is_digit x ≡ false
    → eq_ℤ (rank x) (pos 0) ≡ false
    → compare_fragment (x ∷ a) [] ≡ rank x -ℤ pos 0
first_byte_end x a d h =
    resume-round (x ∷ a) [] ∙ (unfold round after_runs compare_runs text_at rank_at in rw (d, h))

-- The first difference of two fragments, where neither has a digit there, decides: by the ranks of
-- the two bytes, whatever comes before and after them.
pub first_difference_decides :
    (p : Bytes) (x y : ℕ) (a b : Bytes)
    → is_digit x ≡ false
    → is_digit y ≡ false
    → eq_ℤ (rank x) (rank y) ≡ false
    → compare_fragment (p ++ x ∷ a) (p ++ y ∷ b) ≡ rank x -ℤ rank y
first_difference_decides p x y a b dx dy h =
    compare_fragment-prefix p (x ∷ a) (y ∷ b) (unfold digit_at in dx) (unfold digit_at in dy)
    ∙ first_bytes x y a b dx h

prefix_end :
    (p : Bytes) (x : ℕ) (a : Bytes)
    → is_digit x ≡ false
    → eq_ℤ (rank x) (pos 0) ≡ false
    → compare_fragment (p ++ x ∷ a) p ≡ rank x -ℤ pos 0
prefix_end p x a d h = rw append-nil at (
    compare_fragment-prefix p (x ∷ a) [] (unfold digit_at in d) (unfold digit_at in refl)
    ∙ first_byte_end x a d h)

is_neg_sign : (x : ℕ) → 0 < x → is_neg (rank x -ℤ pos 0) ≡ (x == b'~')
unfolding rank ◌-ℤ◌
is_neg_sign x h = ground arith

rank_nonzero : (x : ℕ) → 0 < x → eq_ℤ (rank x) (pos 0) ≡ false
unfolding rank eq_ℤ ◌-ℤ◌
rank_nonzero x h = ground arith

-- A text goes before one that it continues with a byte that is no digit exactly where that byte is
-- no tilde: `1.0~rc1` is before `1.0`, and `1.0a` and `1.0.1` are after it.
pub only_tilde_before_end :
    (p : Bytes) (x : ℕ) (a : Bytes)
    → is_digit x ≡ false
    → 0 < x
    → is_neg (compare_fragment (p ++ x ∷ a) p) ≡ (x == b'~')
only_tilde_before_end p x a d h =
    ap is_neg (prefix_end p x a d (rank_nonzero x h)) ∙ is_neg_sign x h
