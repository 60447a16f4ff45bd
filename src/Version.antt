-- ===== src/Version.antt =====
-- web/internal/directory/version.go: the order of version strings.
pub mod Tests
pub mod Symmetry
pub mod Termination
pub mod Numbers
pub mod Gaps
pub mod Prefix
pub mod Epochs
use distroless.Prelude.{
  ℕ, zero, suc, ◌+◌, ◌-◌, Bool, true, false, ◌&&◌, ◌||◌, not, Option, none, some, List, [], ◌∷◌,
  ◌⊎◌, inl, inr, leb, ◌==◌, if◌then◌else◌, ℤ, pos, negsuc, ◌-ℤ◌, eq_ℤ, is_zero, length, sub_int,
}
use distroless.Strings.{Bytes, is_digit, cut_first, cut_last, atoi, unsigned, negated, read_digits}

unfoldable pub is_letter : ℕ → Bool
is_letter c = (leb b'a' c && leb c b'z') || (leb b'A' c && leb c b'Z')

unfoldable pub rank : ℕ → ℤ
unfolding is_letter
rank c = if c == b'~' then negsuc 0 else if is_letter c then pos c else pos (c + 256)

-- `ac` and `bc` of the loop: the rank of the next byte, 0 at the end of the text
unfoldable pub rank_at : Bytes → ℤ
unfolding rank
rank_at [] = pos 0
rank_at (c ∷ s) = rank c

-- `i < len(a) && isDigit(a[i])` and `i < len(a) && !isDigit(a[i])`, on what is left of `a`
unfoldable pub digit_at : Bytes → Bool
unfolding is_digit
digit_at [] = false
digit_at (c ∷ s) = is_digit c

unfoldable pub text_at : Bytes → Bool
unfolding is_digit
text_at [] = false
text_at (c ∷ s) = not (is_digit c)

-- The first inner loop: the difference that it returns, or what is left of the two texts. An index
-- into a text is the rest of the text from there; past the end the rest is empty.
unfoldable pub compare_runs : Bytes → Bytes → ℤ ⊎ (Bytes × Bytes)
compare_runs [] [] = inr ([], [])
compare_runs [] (y ∷ b) =
    let rest = compare_runs [] b in
    if text_at (y ∷ b)
    then (if eq_ℤ (pos 0) (rank_at (y ∷ b)) then rest else inl (pos 0 -ℤ rank_at (y ∷ b)))
    else inr ([], y ∷ b)
compare_runs (x ∷ a) [] =
    let rest = compare_runs a [] in
    if text_at (x ∷ a)
    then (if eq_ℤ (rank_at (x ∷ a)) (pos 0) then rest else inl (rank_at (x ∷ a) -ℤ pos 0))
    else inr (x ∷ a, [])
compare_runs (x ∷ a) (y ∷ b) =
    let rest = compare_runs a b in
    if text_at (x ∷ a) || text_at (y ∷ b)
    then (if eq_ℤ (rank_at (x ∷ a)) (rank_at (y ∷ b))
        then rest
        else inl (rank_at (x ∷ a) -ℤ rank_at (y ∷ b)))
    else inr (x ∷ a, y ∷ b)

-- the two loops over leading zeros
unfoldable pub skip_zeros : Bytes → Bytes
skip_zeros [] = []
skip_zeros (c ∷ s) = let rest = skip_zeros s in if c == b'0' then rest else c ∷ s

-- The loop over two runs of digits: `firstDiff`, and what is left of the two texts.
unfoldable pub compare_digits : ℤ → Bytes → Bytes → ℤ × Bytes × Bytes
compare_digits first_diff [] b = (first_diff, [], b)
compare_digits first_diff (x ∷ a) [] = (first_diff, x ∷ a, [])
compare_digits first_diff (x ∷ a) (y ∷ b) =
    let rest = compare_digits (if is_zero first_diff then pos x -ℤ pos y else first_diff) a b in
    if digit_at (x ∷ a) && digit_at (y ∷ b) then rest else (first_diff, x ∷ a, y ∷ b)

-- the end of a round, from `firstDiff` and what is left
unfoldable pub decide_digits : ℤ × Bytes × Bytes → ℤ ⊎ (Bytes × Bytes)
decide_digits (first_diff, a, b) =
    if digit_at a
    then inl (pos 1)
    else if digit_at b
    then inl (negsuc 0)
    else if is_zero first_diff
    then inr (a, b)
    else inl first_diff

unfoldable pub number_round : Bytes × Bytes → ℤ ⊎ (Bytes × Bytes)
number_round (a, b) = decide_digits (compare_digits (pos 0) (skip_zeros a) (skip_zeros b))

unfoldable pub after_runs : ℤ ⊎ (Bytes × Bytes) → ℤ ⊎ (Bytes × Bytes)
after_runs (inl c) = inl c
after_runs (inr rest) = number_round rest

-- One round of the outer loop: a result, or what is left of the two texts.
unfoldable pub round : Bytes → Bytes → ℤ ⊎ (Bytes × Bytes)
round a b = after_runs (compare_runs a b)

-- what the outer loop does with a round's outcome
unfoldable pub proceed : (Bytes → Bytes → Option ℤ) → ℤ ⊎ (Bytes × Bytes) → Option ℤ
proceed loop (inl c) = some c
proceed loop (inr (a, b)) = loop a b

-- `i < len(a) || j < len(b)`, on what is left of the two texts
unfoldable pub unfinished : Bytes → Bytes → Bool
unfinished [] [] = false
unfinished [] (y ∷ b) = true
unfinished (x ∷ a) b = true

-- The outer loop on fuel; `none` means that the fuel ran out.
unfoldable pub compare_loop : ℕ → Bytes → Bytes → Option ℤ
compare_loop zero a b = none
compare_loop (suc fuel) a b = elim (unfinished a b) [
  | false ↦ some (pos 0)
  | true ↦ proceed (compare_loop fuel) (round a b)
]

unfoldable pub or_zero : Option ℤ → ℤ
or_zero none = pos 0
or_zero (some c) = c

unfoldable pub compare_fragment : Bytes → Bytes → ℤ
unfolding or_zero compare_loop proceed unfinished round after_runs compare_runs number_round
    skip_zeros compare_digits decide_digits rank_at digit_at text_at
compare_fragment a b = or_zero (compare_loop (suc (length a + length b)) a b)

-- `strings.LastIndexByte(v, '-')` and the slices at it
unfoldable pub split_revision : ℤ → Bytes → ℤ × Bytes × Bytes
split_revision epoch v = elim (cut_last b'-' v) [
  | none ↦ (epoch, v, [])
  | some (upstream, revision) ↦ (epoch, upstream, revision)
]

unfoldable pub read_epoch : Bytes → Bytes → Option ℤ → ℤ × Bytes
read_epoch v rest none = (pos 0, v)
read_epoch v rest (some e) = (e, rest)

-- The epoch and what follows it: the text before the first `:` if `Atoi` reads it.
unfoldable pub split_epoch : Bytes → ℤ × Bytes
split_epoch v = elim (cut_first b':' v) [
  | none ↦ (pos 0, v)
  | some (head, rest) ↦ read_epoch v rest (atoi head)
]

unfoldable pub split_version : Bytes → ℤ × Bytes × Bytes
split_version v = split_revision (split_epoch v).0 (split_epoch v).1

-- the comparison of two versions that are split
unfoldable pub compare_split : ℤ × Bytes × Bytes → ℤ × Bytes × Bytes → ℤ
compare_split (a_epoch, a_upstream, a_revision) (b_epoch, b_upstream, b_revision) =
    if eq_ℤ a_epoch b_epoch
    then (let c = compare_fragment a_upstream b_upstream in
        if is_zero c then compare_fragment a_revision b_revision else c)
    else sub_int a_epoch b_epoch

unfoldable pub compare_version : Bytes → Bytes → ℤ
unfolding split_version split_epoch read_epoch split_revision cut_first cut_last atoi unsigned
    negated read_digits compare_split compare_fragment
compare_version a b = compare_split (split_version a) (split_version b)
