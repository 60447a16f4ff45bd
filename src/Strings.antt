-- ===== src/Strings.antt =====
-- The functions of Go's standard `strings`, `bytes`, `strconv` and `cmp` packages that the
-- modelled code calls. A Go string is the list of its bytes.
pub mod Laws
pub mod Count
pub mod Split
pub mod Space
pub mod Order
use Prim.Native.Char.{code}
use distroless.Prelude.{
  ℕ, ◌+◌, ◌-◌, ◌*◌, ◌^◌, String, Bool, true, false, ◌&&◌, Option, none, some, List, [], ◌∷◌, leb,
  ltb, ◌==◌, if◌then◌else◌, ℤ, pos, negsuc, neg, is_zero,
}

abbrev pub Bytes : Type 0
Bytes = List ℕ

-- the bytes of an ASCII literal
abbrev pub codes : String → Bytes
codes String.[] = []
codes (String.◌∷◌ c s) = code c ∷ codes s

unfoldable pub str_eq : Bytes → Bytes → Bool
str_eq [] [] = true
str_eq [] (y ∷ t) = false
str_eq (x ∷ s) [] = false
str_eq (x ∷ s) (y ∷ t) = x == y && str_eq s t

-- `strings.CutPrefix`: what follows the prefix, or nothing where the text does not start with it
unfoldable pub cut_prefix : Bytes → Bytes → Option Bytes
cut_prefix s [] = some s
cut_prefix [] (p ∷ ps) = none
cut_prefix (c ∷ s) (p ∷ ps) = let rest = cut_prefix s ps in if c == p then rest else none

unfoldable pub has_prefix : Bytes → Bytes → Bool
unfolding cut_prefix
has_prefix s p = elim (cut_prefix s p) [ none ↦ false | some _ ↦ true ]

unfoldable pub trim_prefix : Bytes → Bytes → Bytes
unfolding cut_prefix
trim_prefix s p = elim (cut_prefix s p) [ none ↦ s | some rest ↦ rest ]

-- What stands before and after the first byte `c`: `IndexByte` and the two slices at it.
unfoldable pub cut_first : ℕ → Bytes → Option (Bytes × Bytes)
cut_first c [] = none
cut_first c (x ∷ s) =
    let rest = cut_first c s in
    if x == c then some ([], s) else elim rest [ none ↦ none | some (l, r) ↦ some (x ∷ l, r) ]

-- What stands before and after the last byte `c`: `LastIndexByte` and the two slices at it.
unfoldable pub cut_last : ℕ → Bytes → Option (Bytes × Bytes)
cut_last c [] = none
cut_last c (x ∷ s) = elim (cut_last c s) [
  | some (l, r) ↦ some (x ∷ l, r)
  | none ↦ if x == c then some ([], s) else none
]

unfoldable pub is_digit : ℕ → Bool
is_digit c = leb b'0' c && leb c b'9'

-- The digits of a decimal number read from the left; nothing on another byte.
unfoldable pub read_digits : ℕ → Bytes → Option ℕ
read_digits n [] = some n
read_digits n (c ∷ s) =
    let rest = read_digits (n * 10 + (c - b'0')) s in if is_digit c then rest else none

abbrev pub max_int : ℕ
max_int = 2 ^ 63 - 1

-- the digits behind a sign, at least one of them, as a value of at most `max_int`
unfoldable pub unsigned : Bytes → Option ℤ
unsigned [] = none
unsigned (c ∷ s) = elim (read_digits 0 (c ∷ s)) [
  | none ↦ none
  | some n ↦ if ltb max_int n then none else some (pos n)
]

-- the digits behind a minus; -2⁶³ is in range
unfoldable pub negated : Bytes → Option ℤ
negated [] = none
negated (c ∷ s) = elim (read_digits 0 (c ∷ s)) [
  | none ↦ none
  | some n ↦ if ltb (max_int + 1) n then none else some (neg (pos n))
]

-- `strconv.Atoi` on a 64-bit `int`: an optional sign, then digits, in range.
unfoldable pub atoi : Bytes → Option ℤ
atoi [] = none
atoi (c ∷ s) = if c == b'-' then negated s else if c == b'+' then unsigned s else unsigned (c ∷ s)

-- `cmp.Compare` and `strings.Compare` on texts: -1, 0 or +1, by the first differing byte.
unfoldable pub compare_text : Bytes → Bytes → ℤ
compare_text [] [] = pos 0
compare_text [] (y ∷ t) = negsuc 0
compare_text (x ∷ s) [] = pos 1
compare_text (x ∷ s) (y ∷ t) =
    let rest = compare_text s t in if ltb x y then negsuc 0 else if ltb y x then pos 1 else rest

unfoldable pub compare_nat : ℕ → ℕ → ℤ
compare_nat a b = if ltb a b then negsuc 0 else if ltb b a then pos 1 else pos 0

-- `cmp.Or` on ints: the first that is not zero.
unfoldable pub cmp_or : List ℤ → ℤ
cmp_or [] = pos 0
cmp_or (c ∷ cs) = let rest = cmp_or cs in if is_zero c then rest else c
