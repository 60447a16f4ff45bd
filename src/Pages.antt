-- ===== src/Pages.antt =====
-- The names of web/internal/directory/page.go: references, the URLs of a page and the name of a
-- download, on ASCII texts. `url.PathEscape` and `url.QueryEscape` are arguments.
pub mod Serve
use distroless.Prelude.{
  ℕ, Bool, true, false, ◌&&◌, ◌||◌, not, Option, none, some, List, [], ◌∷◌, ◌++◌, if◌then◌else◌,
  leb, ◌==◌, length, any, all, map, take,
}
use distroless.Strings.{Bytes, codes, is_digit, str_eq, cut_prefix, cut_first}

unfoldable pub is_digest : Bytes → Bool
is_digest ref = any (λ (c : ℕ). c == b':') ref

abbrev pub is_word : ℕ → Bool
is_word c = leb b'a' c && leb c b'z' || (leb b'A' c && leb c b'Z' || (is_digit c || c == b'_'))

-- ^[a-zA-Z0-9_][a-zA-Z0-9._-]{0,127}$
unfoldable pub matches_tag : Bytes → Bool
matches_tag [] = false
matches_tag (c ∷ s) =
    is_word c && (all (λ (d : ℕ). is_word d || (d == b'.' || d == b'-')) s && leb (length s) 127)

-- 64 lower-case hexadecimal digits behind the prefix
unfoldable pub is_hex : Option Bytes → Bool
is_hex none = false
is_hex (some s) = all (λ (c : ℕ). is_digit c || leb b'a' c && leb c b'f') s && length s == 64

unfoldable pub valid_ref : Bytes → Bool
valid_ref ref = if is_digest ref then is_hex (cut_prefix ref (codes "sha256:")) else matches_tag ref

-- the text behind a colon, if there is one
abbrev behind : Bytes → Option (Bytes × Bytes) → Bytes
behind digest none = digest
behind digest (some (algorithm, hex)) = hex

unfoldable pub short_digest : Bytes → Bytes
short_digest digest = take 12 (behind digest (cut_first b':' digest))

unfoldable pub pull_name : Bytes → Bytes → Bytes → Bytes
pull_name mirror family ref =
    if is_digest ref
    then mirror ++ codes "/" ++ family ++ codes "@" ++ ref
    else mirror ++ codes "/" ++ family ++ codes ":" ++ ref

unfoldable pub file_byte : ℕ → ℕ
file_byte c = if is_word c || (c == b'.' || c == b'-') then c else b'-'

unfoldable pub name_for_file : Bytes → Bytes
name_for_file = map file_byte

unfoldable pub download_name : Bytes → Bytes → Bytes → Bytes → Bytes
download_name family ref digest extension =
    if is_digest ref
    then name_for_file family ++ codes "-" ++ short_digest digest ++ extension
    else name_for_file family
      ++ codes "-"
      ++ name_for_file ref
      ++ codes "-"
      ++ short_digest digest
      ++ extension

unfoldable pub arch_query : (Bytes → Bytes) → Bytes → Bytes
arch_query query_escape arch = if str_eq arch [] then [] else codes "?arch=" ++ query_escape arch

module _ (path_escape : Bytes → Bytes) where
  unfoldable pub family_url : Bytes → Bytes → Bytes
  family_url family resource =
      codes "/directory/image/" ++ path_escape family ++ codes "/" ++ resource

  unfoldable pub resource_url : Bytes → Bytes → Bytes → Bytes
  resource_url family ref resource =
      codes "/directory/image/"
      ++ path_escape family
      ++ codes "/"
      ++ path_escape ref
      ++ codes "/"
      ++ resource
