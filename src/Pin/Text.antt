-- ===== src/Pin/Text.antt =====
-- The texts of the command line and of the metadata in
-- bazel/modules/rules_rpm/rpm/tools/pin/main.go (`splitCSV`, `stripLabelPrefix`,
-- `parseRepomdSigPolicy`, `skipRequire`).
use distroless.Prelude.{
  Bool, false, ◌||◌, Option, none, some, List, [], ◌∷◌, ◌++◌, ◌≡◌, refl, if◌then◌else◌, All,
}
use distroless.Strings.{Bytes, codes, str_eq, has_prefix, trim_prefix, cut_first}
use distroless.Strings.Split.{split, join, Lacks, split-join}
use distroless.Strings.Space.{trim_space}

-- the loop over the parts
unfoldable pub nonempty_parts : List Bytes → List Bytes
nonempty_parts [] = []
nonempty_parts (part ∷ parts) =
    let rest = nonempty_parts parts in
    if str_eq (trim_space part) [] then rest else trim_space part ∷ rest

unfoldable pub split_csv : Bytes → List Bytes
split_csv s = nonempty_parts (split b',' s)

-- a package's directory and a file's name
unfoldable pub label_path : Bytes → Option (Bytes × Bytes) → Bytes
label_path s none = s
label_path s (some (pkg, name)) = if str_eq pkg [] then name else pkg ++ b'/' ∷ name

unfoldable pub strip_label_prefix : Bytes → Bytes
strip_label_prefix label =
    let s = trim_prefix (trim_prefix label (codes "@@")) (codes "//") in
    label_path s (cut_first b':' s)

pub data RepomdSigPolicy : Type 0 where
  required optional : RepomdSigPolicy

unfoldable pub parse_repomd_sig_policy : Bytes → Option RepomdSigPolicy
parse_repomd_sig_policy s =
    if str_eq s (codes "required")
    then some required
    else if str_eq s (codes "optional")
    then some optional
    else none

unfoldable pub skip_require : Bytes → Bool
skip_require name =
    has_prefix name (codes "rpmlib(")
    || (has_prefix name (codes "config(")
        || (has_prefix name (codes "solvable:")
            || (has_prefix name (codes "/") || has_prefix name (codes "("))))

-- an entry of a list: a text that is not empty, has no comma and no space at its ends
pub record IsEntry (part : Bytes) : Type 0 where
  pub trimmed : trim_space part ≡ part
  pub nonempty : str_eq part [] ≡ false
  pub no_comma : Lacks b',' part

nonempty_parts-IsEntry : (parts : List Bytes) → All IsEntry parts → nonempty_parts parts ≡ parts
unfolding nonempty_parts
nonempty_parts-IsEntry [] h = refl
nonempty_parts-IsEntry (part ∷ parts) h =
    rw (h.0.trimmed, h.0.nonempty, nonempty_parts-IsEntry parts h.1)

All-no_comma : (parts : List Bytes) → All IsEntry parts → All (Lacks b',') parts
All-no_comma [] h = tt
All-no_comma (part ∷ parts) h = (h.0.no_comma, All-no_comma parts h.1)

-- splitCSV reads back entries that are joined by commas, if there is one: entries that are not
-- empty, have no comma, and neither begin nor end with a space.
pub split_csv-join :
    (part : Bytes) (parts : List Bytes)
    → All IsEntry (part ∷ parts)
    → split_csv (join b',' (part ∷ parts)) ≡ part ∷ parts
unfolding split_csv
split_csv-join part parts h =
    rw (split-join b',' part parts (All-no_comma (part ∷ parts) h))
      (nonempty_parts-IsEntry (part ∷ parts) h)
