-- ===== src/ToolVersions.antt =====
-- bazel/toolversions/toolversions.go, on ASCII texts. The packages buildtools/build and x/text are the
-- record `Build`, to the statements of a file that are read or set; the file is what `os.ReadFile` gives.
pub mod Assigned
mod Tests
use distroless.Prelude.{
  ℕ, ◌-◌, Bool, true, false, ◌&&◌, Option, none, some, List, [], ◌∷◌, ◌++◌, if◌then◌else◌, ltb, leb,
  ◌==◌, length, any, map, ℤ, pos, is_neg, is_zero, eq_ℤ, sub_int, sort_slice, Result, ok, err,
  ◌>>=◌,
}
use distroless.Strings.{Bytes, codes, str_eq, atoi, compare_text}
use distroless.Strings.Split.{split}
use distroless.Strings.Order.{text_lt}

pub record Config : Type 0 where
  pub tool : Bytes
  pub url_template : Bytes

pub record Artifact : Type 0 where
  pub platform : Bytes
  pub filename : Bytes
  pub sha256 : Bytes

pub record ToolRelease : Type 0 where
  pub version : Bytes
  pub artifacts : List Artifact

-- the entries of a dictionary: a key with a file name and a sum
abbrev pub VersionDict : Type 0
VersionDict = List (Bytes × (Bytes × Bytes))

pub data Rhs : Type 0 where
  string_expr : Bytes → Rhs
  dict_expr : VersionDict → Rhs
  other_expr : Bytes → Rhs

-- an assignment is a name, an operator and a right side
pub data Stmt : Type 0 where
  assign_expr : Bytes → Bytes → Rhs → Stmt
  other_stmt : Bytes → Stmt

pub data ToolError : Type 0 where
  no_tool no_template no_releases unknown_default bad_read bad_parse : ToolError

pub data Existing : Type 0 where
  unreadable missing : Existing
  content : Bytes → Existing

-- `title` is `cases.Title`
pub record Build : Type 0 where
  pub parse : Bytes → Option (List Stmt)
  pub title : Bytes → Bytes

unfoldable pub upper : ℕ → ℕ
upper c = if leb b'a' c && leb c b'z' then c - 32 else c

unfoldable pub identifier_name : Bytes → Bytes
identifier_name = map (λ (c : ℕ). if c == b'-' then b'_' else c)

unfoldable pub versions_var : Bytes → Bytes
versions_var tool = map upper (identifier_name tool) ++ codes "_VERSIONS"

-- a part of both versions, before the parts that follow
unfoldable pub compare_part : Option ℤ → Option ℤ → Bytes → Bytes → ℤ → ℤ
compare_part (some x) (some y) a b rest = if eq_ℤ x y then rest else sub_int x y
compare_part (some x) none a b rest = if is_zero (compare_text a b) then rest else compare_text a b
compare_part none y a b rest = if is_zero (compare_text a b) then rest else compare_text a b

unfoldable pub compare_parts : ℤ → List Bytes → List Bytes → ℤ
compare_parts lengths [] bp = lengths
compare_parts lengths (a ∷ ap) [] = lengths
compare_parts lengths (a ∷ ap) (b ∷ bp) =
    compare_part (atoi a) (atoi b) a b (compare_parts lengths ap bp)

unfoldable pub compare_versions : Bytes → Bytes → ℤ
compare_versions a b =
    let ap = split b'.' a in
    let bp = split b'.' b in compare_parts (sub_int (pos (length ap)) (pos (length bp))) ap bp

-- `strings.ReplaceAll(goTmpl, "%s", "{}")`
unfoldable pub url_template_for_starlark : Bytes → Bytes
url_template_for_starlark [] = []
url_template_for_starlark (c ∷ []) = c ∷ []
url_template_for_starlark (c ∷ d ∷ s) =
    let replaced = b'{' ∷ b'}' ∷ url_template_for_starlark s in
    let kept = c ∷ url_template_for_starlark (d ∷ s) in
    if c == b'%' && d == b's' then replaced else kept

abbrev pub quotes : Bytes
quotes = 0x22 ∷ 0x22 ∷ 0x22 ∷ []

unfoldable pub bootstrap : (Bytes → Bytes) → Config → Bytes
bootstrap title cfg =
    let url = url_template_for_starlark cfg.url_template in
    quotes
    ++ title cfg.tool
    ++ codes " version definitions with filenames and checksums.\n\n"
    ++ codes "Binaries are published to GitHub Releases at:\n\n    "
    ++ url
    ++ codes "\n\nFormat: "
    ++ 0x22 ∷ codes "VERSION-PLATFORM"
    ++ 0x22 ∷ codes ": (filename, sha256)\n"
    ++ codes "Platforms: darwin_amd64, darwin_arm64, linux_amd64, linux_arm64\n\n"
    ++ codes "Regenerate with: bazel run //bazel/cmd/knife -- prebuilts update --tool "
    ++ cfg.tool
    ++ codes "\n"
    ++ quotes
    ++ codes "\n\nDEFAULT_VERSION = "
    ++ 0x22 ∷ 0x22 ∷ codes "\n\n"
    ++ versions_var cfg.tool
    ++ codes " = {}\n\ndef get_"
    ++ identifier_name cfg.tool
    ++ codes "_url(version, filename):\n    "
    ++ quotes
    ++ codes "Returns the download URL for a "
    ++ cfg.tool
    ++ codes " release."
    ++ quotes
    ++ codes "\n    return "
    ++ 0x22 ∷ url
    ++ 0x22 ∷ codes ".format(version, filename)\n"

unfoldable pub artifact_entries : Bytes → List Artifact → VersionDict
artifact_entries version [] = []
artifact_entries version (a ∷ artifacts) =
    (version ++ codes "-" ++ a.platform, (a.filename, a.sha256))
    ∷ artifact_entries version artifacts

abbrev pub by_platform : Artifact → Artifact → Bool
by_platform a b = text_lt a.platform b.platform

unfoldable pub releases_entries : List ToolRelease → VersionDict
releases_entries [] = []
releases_entries (r ∷ releases) =
    artifact_entries r.version (sort_slice by_platform r.artifacts) ++ releases_entries releases

abbrev pub by_version : ToolRelease → ToolRelease → Bool
by_version a b = is_neg (compare_versions a.version b.version)

unfoldable pub releases_to_dict : List ToolRelease → VersionDict
releases_to_dict releases = releases_entries (sort_slice by_version releases)

-- the right side of the first assignment to a name, whatever its operator
unfoldable pub find_assign : Bytes → List Stmt → Option Rhs
find_assign name [] = none
find_assign name (other_stmt s ∷ stmts) = find_assign name stmts
find_assign name (assign_expr n op rhs ∷ stmts) =
    let rest = find_assign name stmts in if str_eq n name then some rhs else rest

-- its right side replaced, or an assignment at the end
unfoldable pub set_assign : Bytes → Rhs → List Stmt → List Stmt
set_assign name rhs [] = assign_expr name (codes "=") rhs ∷ []
set_assign name rhs (other_stmt s ∷ stmts) = other_stmt s ∷ set_assign name rhs stmts
set_assign name rhs (assign_expr n op old ∷ stmts) =
    let rest = set_assign name rhs stmts in
    if str_eq n name then assign_expr n op rhs ∷ stmts else assign_expr n op old ∷ rest

abbrev pub or_bad_parse : Option (List Stmt) → Result ToolError (List Stmt)
or_bad_parse none = err bad_parse
or_bad_parse (some f) = ok f

unfoldable pub read_file : Build → Config → Existing → Result ToolError (List Stmt)
read_file build cfg unreadable = err bad_read
read_file build cfg missing = or_bad_parse (build.parse (bootstrap build.title cfg))
read_file build cfg (content []) = or_bad_parse (build.parse (bootstrap build.title cfg))
read_file build cfg (content (c ∷ s)) = or_bad_parse (build.parse (c ∷ s))

unfoldable pub checked_config : Config → List ToolRelease → Bytes → Result ToolError Bytes
checked_config cfg releases default_version =
    if str_eq cfg.tool []
    then err no_tool
    else if str_eq cfg.url_template []
    then err no_template
    else if length releases == 0
    then err no_releases
    else if any (λ (r : ToolRelease). str_eq r.version default_version) releases
    then ok default_version
    else err unknown_default

abbrev pub default_name : Bytes
default_name = codes "DEFAULT_VERSION"

-- `Write`: the file that is formatted and written
unfoldable pub write_versions :
    Build → Config → List ToolRelease → Bytes → Existing → Result ToolError (List Stmt)
write_versions build cfg releases default_version existing = do
  version ← checked_config cfg releases default_version
  f ← read_file build cfg existing
  ok (
      set_assign (versions_var cfg.tool) (dict_expr (releases_to_dict releases))
        (set_assign default_name (string_expr version) f))
