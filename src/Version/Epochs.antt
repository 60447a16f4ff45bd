-- ===== src/Version/Epochs.antt =====
-- The epoch of a version is a 64-bit `int`, and swapping two versions negates their comparison.
use distroless.Prelude.{
  ◌≤◌, ◌≡◌, refl, Option-cases, inl, inr, false, Option, none, some, [], ◌∷◌, arith, ℤ, pos, negsuc,
  neg, ◌-ℤ◌, is_neg, eq_ℤ_comm, is_zero-neg, sub_int, pos_part,
}
use distroless.Strings.{Bytes, atoi, unsigned, negated, cut_first, max_int}
use distroless.Version.{
  compare_version, compare_split, split_version, split_epoch, read_epoch, split_revision,
  compare_fragment,
}
use distroless.Version.Symmetry.{compare_fragment-swap}

unsigned-le : (s : Bytes) (e : ℤ) → unsigned s ≡ some e → pos_part e ≤ max_int
unfolding unsigned
unsigned-le [] e h = cc
unsigned-le (c ∷ s) e h = ground arith

negated-le : (s : Bytes) (e : ℤ) → negated s ≡ some e → pos_part e ≤ max_int
unfolding negated neg
negated-le [] e h = cc
negated-le (c ∷ s) e h = ground arith

atoi-le : (s : Bytes) (e : ℤ) → atoi s ≡ some e → pos_part e ≤ max_int
unfolding atoi
atoi-le [] e h = cc
atoi-le (c ∷ s) e h = ground (arith, unsigned-le s e, unsigned-le (c ∷ s) e, negated-le s e)

read_epoch-le :
    (v s r : Bytes) (o : Option ℤ) → atoi s ≡ o → pos_part (read_epoch v r o).0 ≤ max_int
unfolding read_epoch
read_epoch-le v s r none h = omega arith
read_epoch-le v s r (some e) h = atoi-le s e h

split_epoch-le : (v : Bytes) → pos_part (split_epoch v).0 ≤ max_int
unfolding split_epoch
split_epoch-le v = elim (Option-cases (cut_first b':' v)) [
  | inl e ↦ rw (e, split_epoch) (omega arith)
  | inr (p, e) ↦ rw (e, split_epoch) (read_epoch-le v p.0 p.1 (atoi p.0) refl)
]

epoch-split_version : (v : Bytes) → (split_version v).0 ≡ (split_epoch v).0
unfolding split_version split_revision
epoch-split_version v = ground arith

sub_int-swap :
    (a b : ℤ)
    → pos_part a ≤ max_int
    → pos_part b ≤ max_int
    → is_neg a ≡ false
    → is_neg b ≡ false
    → sub_int b a ≡ neg (sub_int a b)
unfolding sub_int neg ◌-ℤ◌
sub_int-swap (pos a) (pos b) h k p q = ground arith
sub_int-swap (negsuc a) b h k p q = cc
sub_int-swap (pos a) (negsuc b) h k p q = cc

compare_split-swap :
    (a b : ℤ × Bytes × Bytes)
    → pos_part a.0 ≤ max_int
    → pos_part b.0 ≤ max_int
    → is_neg a.0 ≡ false
    → is_neg b.0 ≡ false
    → compare_split b a ≡ neg (compare_split a b)
unfolding compare_split
compare_split-swap (a, u, r) (b, v, s) h k p q = ground (
  arith,
  sub_int-swap a b h k p q,
  eq_ℤ_comm a b,
  compare_fragment-swap u v,
  compare_fragment-swap r s,
  is_zero-neg (compare_fragment u v),
)

-- Swapping two versions negates their comparison, if no epoch of theirs is negative.
pub compare_version-swap :
    (a b : Bytes)
    → is_neg (split_version a).0 ≡ false
    → is_neg (split_version b).0 ≡ false
    → compare_version b a ≡ neg (compare_version a b)
unfolding compare_version
compare_version-swap a b p q =
    compare_split-swap (split_version a) (split_version b)
      (rw epoch-split_version (split_epoch-le a)) (rw epoch-split_version (split_epoch-le b)) p q
