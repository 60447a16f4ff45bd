-- ===== src/Version/Tests.antt =====
-- Runs of the comparison at fixed versions, and the theorems at inputs that meet their hypotheses.
use distroless.Prelude.{
  pos, negsuc, eq_ℤ, neg, sub_int, ◌≡◌, refl, if◌then◌else◌, [], ◌∷◌, ◌++◌, true, is_neg,
}
use distroless.Strings.{codes, is_digit}
use distroless.Version.{compare_version, compare_fragment, unfinished, round, is_letter}
use distroless.Version.Termination.{compare_fragment_unfold, resume}
use distroless.Version.Numbers.{Decides, value, compare_fragment-Decides}
use distroless.Version.Gaps.{equal_fragments_disagree}

newer_minor : compare_version (codes "1.10") (codes "1.9") ≡ pos 1
unfolding compare_version eq_ℤ neg sub_int
newer_minor = refl

pre_release : compare_version (codes "1.0~rc1") (codes "1.0") ≡ negsuc 0
unfolding compare_version eq_ℤ neg sub_int
pre_release = refl

epochs : compare_version (codes "1:0.9-1") (codes "2.0-1") ≡ pos 1
unfolding compare_version eq_ℤ neg sub_int
epochs = refl

-- dpkg puts the pre-release `rc1` after `5`.
digit_after_letter : compare_version (codes "1.0~5") (codes "1.0~rc1") ≡ pos 195
unfolding compare_version eq_ℤ neg sub_int
digit_after_letter = refl

overflow :
    compare_version (codes "9223372036854775807:1") (codes "-1:1") ≡ negsuc 9223372036854775807
unfolding compare_version eq_ℤ neg sub_int
overflow = refl

unfold_example : compare_fragment (codes "9") (codes "10") ≡ (
    if unfinished (codes "9") (codes "10") then resume (round (codes "9") (codes "10")) else pos 0)
unfold_example = compare_fragment_unfold (codes "9") (codes "10")

numbers_example :
    Decides
      (compare_fragment (codes "009") (codes "10"))
      (value 0 (codes "009"))
      (value 0 (codes "10"))
unfolding is_digit
numbers_example =
    compare_fragment-Decides (codes "009") (codes "10") (refl, (refl, (refl, tt)))
      (refl, (refl, tt))

disagree_example :
    (compare_fragment (codes "1." ++ b'a' ∷ b'0' ∷ []) (codes "1." ++ b'a' ∷ []) ≡ pos 0)
    × (is_neg (compare_fragment (codes "1." ++ b'a' ∷ []) (codes "1." ++ b'a' ∷ codes "b")) ≡ true)
    × (compare_fragment (codes "1." ++ b'a' ∷ b'0' ∷ []) (codes "1." ++ b'a' ∷ codes "b") ≡ pos 206)
unfolding is_digit is_letter
disagree_example = equal_fragments_disagree (codes "1.") b'a' b'b' [] refl refl
