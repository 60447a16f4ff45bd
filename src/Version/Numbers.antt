-- ===== src/Version/Numbers.antt =====
-- Two runs of digits are compared as the numbers that they spell.
use distroless.Prelude.{
  ℕ, ◌+◌, ◌-◌, ◌*◌, ◌≤◌, ◌<◌, ◌≡◌, refl, sym, ◌∙◌, ap, true, false, [], ◌∷◌, inl, inr, arith, ℤ,
  pos, negsuc, ◌-ℤ◌, is_zero, is_neg, if◌then◌else◌, Bool-cases, length, ◌==◌, All,
}
use native.Mathlib.Decide.{dec_lt}
use distroless.Strings.{Bytes, is_digit}
use distroless.Version.{
  compare_runs, compare_digits, decide_digits, number_round, after_runs, round, compare_fragment,
  text_at, digit_at, skip_zeros,
}
use distroless.Version.Termination.{resume}
use distroless.Version.Prefix.{resume-round}

abbrev pub Digits : Bytes → Type 0
Digits = All (λ c. is_digit c ≡ true)

-- the number that digits spell behind the value `n`
abbrev pub value : ℕ → Bytes → ℕ
value n [] = n
value n (c ∷ s) = value (n * 10 + (c - b'0')) s

digit_bounds : (c : ℕ) → is_digit c ≡ true → (b'0' ≤ c) × (c ≤ b'9')
unfolding is_digit
digit_bounds c h = ground arith

value-skip_zeros : (s : Bytes) → value 0 (skip_zeros s) ≡ value 0 s
unfolding skip_zeros
value-skip_zeros [] = refl
value-skip_zeros (c ∷ s) = ground (arith, value-skip_zeros s)

Digits-skip_zeros : (s : Bytes) → Digits s → Digits (skip_zeros s)
unfolding skip_zeros
Digits-skip_zeros [] h = tt
Digits-skip_zeros (c ∷ s) h = elim (Bool-cases (c == b'0')) [
  | inl e ↦ rw e (Digits-skip_zeros s h.1)
  | inr e ↦ rw e h
]

-- no leading zero
abbrev Normal : Bytes → Type 0
Normal [] = Unit
Normal (c ∷ s) = (c == b'0') ≡ false

Normal-skip_zeros : (s : Bytes) → Normal (skip_zeros s)
unfolding skip_zeros
Normal-skip_zeros [] = tt
Normal-skip_zeros (c ∷ s) = elim (Bool-cases (c == b'0')) [
  | inl e ↦ rw e (Normal-skip_zeros s)
  | inr e ↦ rw e e
]

-- behind a smaller value, digits that are not more spell a smaller number
value-lt :
    (s t : Bytes) (m n : ℕ)
    → Digits s
    → Digits t
    → length s ≤ length t
    → m < n
    → value m s < value n t
value-lt [] [] m n hs ht le lt = lt
value-lt [] (d ∷ t) m n hs ht le lt =
    value-lt [] t m (n * 10 + (d - b'0')) hs ht.1 (omega arith) (omega arith)
value-lt (c ∷ s) [] m n hs ht le lt = absurd (omega arith)
value-lt (c ∷ s) (d ∷ t) m n hs ht le lt = elim (dec_lt (length s) (length t)) [
  | yes more ↦ value-lt (c ∷ s) t m (n * 10 + (d - b'0')) hs ht.1 (omega arith) (omega arith)
  | no same ↦
      value-lt s t (m * 10 + (c - b'0')) (n * 10 + (d - b'0')) hs.1 ht.1 (omega arith)
        (omega (arith, digit_bounds c hs.0, digit_bounds d ht.0))
]

pos_of_normal : (d : ℕ) → is_digit d ≡ true → (d == b'0') ≡ false → 0 < 0 * 10 + (d - b'0')
unfolding is_digit
pos_of_normal d h e = ground arith

-- digits with no leading zero that are more spell a larger number
value-lt_of_length :
    (s t : Bytes) → Digits s → Digits t → Normal t → length s < length t → value 0 s < value 0 t
value-lt_of_length s [] hs ht normal lt = absurd (omega arith)
value-lt_of_length s (d ∷ t) hs ht normal lt =
    value-lt s t 0 (0 * 10 + (d - b'0')) hs ht.1 (omega arith) (pos_of_normal d ht.0 normal)

-- the sign of `d` tells how `m` and `n` compare
pub record Decides (d : ℤ) (m n : ℕ) : Type 0 where
  pub equal : is_zero d ≡ true → m ≡ n
  pub less : is_neg d ≡ true → m < n
  pub greater : is_zero d ≡ false → is_neg d ≡ false → n < m

Decides-step :
    (d : ℤ) (m n x y : ℕ)
    → is_digit x ≡ true
    → is_digit y ≡ true
    → Decides d m n
    → Decides (if is_zero d then pos x -ℤ pos y else d) (m * 10 + (x - b'0')) (n * 10 + (y - b'0'))
unfolding is_digit ◌-ℤ◌
Decides-step (negsuc k) m n x y hx hy r = ground (arith, r.less)
Decides-step (pos k) m n x y hx hy r = ground (arith, r.equal, r.greater)

-- the loop over two runs of one length reads both and keeps the first difference
compare_digits_equal :
    (s t : Bytes) (d : ℤ) (m n : ℕ)
    → Digits s
    → Digits t
    → length s ≡ length t
    → Decides d m n
    → (e : ℤ) × (compare_digits d s t ≡ (e, [], [])) × Decides e (value m s) (value n t)
unfolding compare_digits digit_at
compare_digits_equal [] [] d m n hs ht same r = (d, refl, r)
compare_digits_equal [] (y ∷ t) d m n hs ht same r = absurd (omega arith)
compare_digits_equal (x ∷ s) [] d m n hs ht same r = absurd (omega arith)
compare_digits_equal (x ∷ s) (y ∷ t) d m n hs ht same r =
    let ih =
      compare_digits_equal s t (if is_zero d then pos x -ℤ pos y else d) (m * 10 + (x - b'0'))
        (n * 10 + (y - b'0')) hs.1 ht.1 (omega arith) (Decides-step d m n x y hs.0 ht.0 r) in
    (ih.0, rw (hs.0, ht.0) ih.1, ih.2)

digit_left_second :
    (s t : Bytes) (d : ℤ)
    → Digits s
    → Digits t
    → length s < length t
    → decide_digits (compare_digits d s t) ≡ inl (negsuc 0)
unfolding compare_digits digit_at decide_digits
digit_left_second s [] d hs ht lt = absurd (omega arith)
digit_left_second [] (y ∷ t) d hs ht lt = rw ht.0
digit_left_second (x ∷ s) (y ∷ t) d hs ht lt =
    rw (hs.0, ht.0)
      (digit_left_second s t (if is_zero d then pos x -ℤ pos y else d) hs.1 ht.1 (omega arith))

digit_left_first :
    (s t : Bytes) (d : ℤ)
    → Digits s
    → Digits t
    → length t < length s
    → decide_digits (compare_digits d s t) ≡ inl (pos 1)
unfolding compare_digits digit_at decide_digits
digit_left_first [] t d hs ht lt = absurd (omega arith)
digit_left_first (x ∷ s) [] d hs ht lt = rw hs.0
digit_left_first (x ∷ s) (y ∷ t) d hs ht lt =
    rw (hs.0, ht.0)
      (digit_left_first s t (if is_zero d then pos x -ℤ pos y else d) hs.1 ht.1 (omega arith))

nothing_left : compare_fragment [] [] ≡ pos 0
unfolding compare_fragment
nothing_left = refl

is_zero-pos : (n : ℕ) → is_zero (pos n) ≡ true → n ≡ 0
is_zero-pos n h = ground arith

resume-decide_digits : (e : ℤ) → resume (decide_digits (e, [], [])) ≡ e
unfolding decide_digits digit_at
resume-decide_digits (negsuc n) = refl
resume-decide_digits (pos n) = elim (Bool-cases (is_zero (pos n))) [
  | inl z ↦ rw z (nothing_left ∙ ap pos (sym (is_zero-pos n z)))
  | inr z ↦ rw z
]

same_length :
    (s t : Bytes)
    → Digits s
    → Digits t
    → length s ≡ length t
    → Decides (resume (decide_digits (compare_digits (pos 0) s t))) (value 0 s) (value 0 t)
same_length s t hs ht same =
    let (e, stops, d) =
      compare_digits_equal s t (pos 0) 0 0 hs ht same
        (record { equal = λ _. refl; less = λ h. cc; greater = λ h. cc }) in
    rw (stops, resume-decide_digits e) d

Normal-Decides :
    (s t : Bytes)
    → Digits s
    → Digits t
    → Normal s
    → Normal t
    → Decides (resume (decide_digits (compare_digits (pos 0) s t))) (value 0 s) (value 0 t)
Normal-Decides s t hs ht ns nt = elim (dec_lt (length s) (length t)) [
  | yes lt ↦ rw (digit_left_second s t (pos 0) hs ht lt) (
      let v = value-lt_of_length s t hs ht nt lt in
      record { equal = λ h. cc; less = λ _. v; greater = λ h k. cc })
  | no ge ↦ elim (dec_lt (length t) (length s)) [
    | yes gt ↦ rw (digit_left_first s t (pos 0) hs ht gt) (
        let v = value-lt_of_length t s ht hs ns gt in
        record { equal = λ h. ground arith; less = λ h. cc; greater = λ h k. v })
    | no le ↦ same_length s t hs ht (omega arith)
  ]
]

Digits-compare_runs : (a b : Bytes) → Digits a → Digits b → compare_runs a b ≡ inr (a, b)
unfolding compare_runs text_at
Digits-compare_runs [] [] ha hb = refl
Digits-compare_runs [] (y ∷ b) ha hb = rw hb.0
Digits-compare_runs (x ∷ a) [] ha hb = rw ha.0
Digits-compare_runs (x ∷ a) (y ∷ b) ha hb = rw (ha.0, hb.0)

round-Digits :
    (a b : Bytes)
    → Digits a
    → Digits b
    → round a b ≡ decide_digits (compare_digits (pos 0) (skip_zeros a) (skip_zeros b))
unfolding round after_runs number_round
round-Digits a b ha hb = ap after_runs (Digits-compare_runs a b ha hb)

-- Two texts of digits, of any lengths and with any leading zeros, compare as the numbers that they
-- spell: the result is zero, negative or positive as the first number is equal, less or greater.
pub compare_fragment-Decides :
    (a b : Bytes) → Digits a → Digits b → Decides (compare_fragment a b) (value 0 a) (value 0 b)
compare_fragment-Decides a b ha hb =
    rw (resume-round a b, round-Digits a b ha hb, ← value-skip_zeros a, ← value-skip_zeros b)
      (Normal-Decides (skip_zeros a) (skip_zeros b) (Digits-skip_zeros a ha)
        (Digits-skip_zeros b hb) (Normal-skip_zeros a) (Normal-skip_zeros b))
