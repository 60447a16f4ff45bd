-- ===== src/Version/Gaps.antt =====
-- Where the comparison is no order: a digit outranks letters, and the end of the text does not.
use distroless.Prelude.{
  ℕ, ◌≡◌, refl, ◌∙◌, ap, true, false, [], ◌∷◌, ◌++◌, pos, negsuc, ◌-ℤ◌, is_neg, ◌-◌, inl, inr, eq_ℤ,
  arith,
}
use distroless.Strings.{Bytes, is_digit}
use distroless.Version.{
  compare_fragment, rank, text_at, digit_at, is_letter, round, after_runs, number_round, skip_zeros,
  compare_digits, decide_digits, compare_runs, rank_at,
}
use distroless.Version.Termination.{resume}
use distroless.Version.Prefix.{compare_fragment-prefix, resume-round, compare_runs_same}

letter_no_digit : (c : ℕ) → is_letter c ≡ true → is_digit c ≡ false
unfolding is_letter is_digit
letter_no_digit c h = ground arith

behind_text :
    (t : ℕ) (a b : Bytes)
    → is_digit t ≡ false
    → compare_fragment (t ∷ a) (t ∷ b) ≡ resume (after_runs (compare_runs a b))
unfolding round
behind_text t a b h =
    resume-round (t ∷ a) (t ∷ b) ∙ ap (λ r. resume (after_runs r)) (compare_runs_same t a b h)

zero_at_end : after_runs (compare_runs (b'0' ∷ []) []) ≡ inr ([], [])
unfolding after_runs compare_runs text_at number_round skip_zeros compare_digits decide_digits
    digit_at
zero_at_end = refl

nothing_left : compare_fragment [] [] ≡ pos 0
unfolding compare_fragment
nothing_left = refl

zero_tail : (t : ℕ) → is_digit t ≡ false → compare_fragment (t ∷ b'0' ∷ []) (t ∷ []) ≡ pos 0
zero_tail t h = behind_text t (b'0' ∷ []) [] h ∙ ap resume zero_at_end ∙ nothing_left

zero_against_letter :
    (c : ℕ) (a : Bytes)
    → is_letter c ≡ true
    → after_runs (compare_runs (b'0' ∷ []) (c ∷ a)) ≡ inl (pos (304 - c))
unfolding after_runs compare_runs text_at rank_at rank is_letter eq_ℤ ◌-ℤ◌ is_digit
zero_against_letter c a h = ground arith

zero_outranks_letter :
    (t c : ℕ) (a : Bytes)
    → is_digit t ≡ false
    → is_letter c ≡ true
    → compare_fragment (t ∷ b'0' ∷ []) (t ∷ c ∷ a) ≡ pos (304 - c)
zero_outranks_letter t c a h l =
    behind_text t (b'0' ∷ []) (c ∷ a) h ∙ ap resume (zero_against_letter c a l)

end_against_letter :
    (c : ℕ) (a : Bytes)
    → is_letter c ≡ true
    → after_runs (compare_runs [] (c ∷ a)) ≡ inl (negsuc (c - 1))
unfolding after_runs compare_runs text_at rank_at rank is_letter eq_ℤ ◌-ℤ◌ is_digit
end_against_letter c a h = ground arith

-- The comparison is not transitive. For every text `p` that ends with a byte that is no digit, and
-- every letter `c`, the fragment `p0` is equal to `p`, `p` is before `pc`, and `p0` is after `pc`.
pub equal_fragments_disagree :
    (q : Bytes) (t c : ℕ) (a : Bytes)
    → is_digit t ≡ false
    → is_letter c ≡ true
    → (compare_fragment (q ++ t ∷ b'0' ∷ []) (q ++ t ∷ []) ≡ pos 0)
      × (is_neg (compare_fragment (q ++ t ∷ []) (q ++ t ∷ c ∷ a)) ≡ true)
      × (compare_fragment (q ++ t ∷ b'0' ∷ []) (q ++ t ∷ c ∷ a) ≡ pos (304 - c))
equal_fragments_disagree q t c a h l =
    let cut = λ (x y : Bytes).
      compare_fragment-prefix q (t ∷ x) (t ∷ y) (unfold digit_at in h) (unfold digit_at in h) in
    (
      cut (b'0' ∷ []) [] ∙ zero_tail t h,
      ap is_neg (cut [] (c ∷ a))
          ∙ ap is_neg (behind_text t [] (c ∷ a) h ∙ ap resume (end_against_letter c a l)),
      cut (b'0' ∷ []) (c ∷ a) ∙ zero_outranks_letter t c a h l,
    )
