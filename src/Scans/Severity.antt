-- ===== src/Scans/Severity.antt =====
-- `Severity` of web/internal/directory/scan.go: the number of a level, `Unknown` being zero. No
-- negative one is ever made. `strings.EqualFold` is read on ASCII labels.
pub mod Labels
use distroless.Prelude.{
  ℕ, suc, Option, none, some, List, [], ◌∷◌, if◌then◌else◌, ◌==◌, length, get_elem?,
}
use distroless.Strings.{Bytes, codes, str_eq}
use distroless.Strings.Space.{to_lower}

abbrev pub unknown : ℕ
unknown = 0

abbrev pub critical : ℕ
critical = 1

abbrev pub high : ℕ
high = 2

abbrev pub medium : ℕ
medium = 3

abbrev pub low : ℕ
low = 4

abbrev pub negligible : ℕ
negligible = 5

abbrev pub severity_names : List Bytes
severity_names =
    codes "Unknown"
    ∷ codes "Critical"
    ∷ codes "High"
    ∷ codes "Medium"
    ∷ codes "Low"
    ∷ codes "Negligible"
    ∷ []

-- worst first
abbrev pub scale : List ℕ
scale = critical ∷ high ∷ medium ∷ low ∷ negligible ∷ unknown ∷ []

-- the loop over the names from number `i`
unfoldable pub severity_from : Bytes → ℕ → List Bytes → ℕ
severity_from label i [] = unknown
severity_from label i (name ∷ names) =
    let rest = severity_from label (suc i) names in
    if str_eq (to_lower label) (to_lower name) then i else rest

unfoldable pub parse_severity : Bytes → ℕ
parse_severity label = severity_from label 0 severity_names

abbrev pub or_unknown : Option Bytes → Bytes
or_unknown none = codes "Unknown"
or_unknown (some name) = name

unfoldable pub severity_string : ℕ → Bytes
severity_string s = or_unknown (get_elem? severity_names s)

-- the loop over the scale from position `rank`
unfoldable pub rank_from : ℕ → ℕ → List ℕ → ℕ
rank_from s i [] = 5
rank_from s i (known ∷ levels) =
    let rest = rank_from s (suc i) levels in if known == s then i else rest

unfoldable pub rank : ℕ → ℕ
rank s = rank_from s 0 scale
