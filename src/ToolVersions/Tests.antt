-- ===== src/ToolVersions/Tests.antt =====
-- The versions file of a tool with one release, and versions that compare in a circle.
use distroless.Prelude.{
  ℕ, ℤ, is_neg, Bool, true, Option, some, List, [], ◌∷◌, ◌++◌, ◌≡◌, refl, any, ok,
}
use distroless.Strings.{Bytes, codes, str_eq}
use distroless.ToolVersions.{
  Config, Artifact, ToolRelease, VersionDict, Rhs, string_expr, dict_expr, other_expr, Stmt,
  assign_expr, other_stmt, Existing, content, Build, versions_var, releases_to_dict, find_assign,
  read_file, default_name, compare_versions, write_versions,
}
use distroless.ToolVersions.Assigned.{both_set, rebound, write_versions-rebound}

abbrev grype : Config
grype = record { tool = codes "grype"; url_template = codes "%s/%s" }

abbrev linux_binary : Artifact
linux_binary = record {
  platform = codes "linux_amd64";
  filename = codes "grype-linux-amd64";
  sha256 = codes "aa";
}

abbrev only_release : List ToolRelease
only_release = (record { version = codes "1.2"; artifacts = linux_binary ∷ [] }) ∷ []

abbrev old_file : List Stmt
old_file =
    assign_expr (codes "DEFAULT_VERSION") (codes "=") (string_expr (codes "1.1"))
    ∷ other_stmt (codes "def f(): pass")
    ∷ []

abbrev one_file : Build
one_file = record { parse = λ text. some old_file; title = λ s. s }

abbrev new_file : List Stmt
new_file = both_set (codes "grype") (releases_to_dict only_release) (codes "1.2") old_file

old_file_read : read_file one_file grype (content (codes "x")) ≡ ok old_file
unfolding read_file
old_file_read = refl

new_file_written :
    write_versions one_file grype only_release (codes "1.2") (content (codes "x")) ≡ ok new_file
unfolding write_versions distroless.ToolVersions.checked_config read_file str_eq
new_file_written = refl

default_rebound :
    (any (λ (r : ToolRelease). str_eq r.version (codes "1.2")) only_release ≡ true)
    × (find_assign default_name new_file ≡ some (string_expr (codes "1.2")))
    × (find_assign (codes "GRYPE_VERSIONS") new_file
        ≡ rebound
            (codes "grype")
            (releases_to_dict only_release)
            (codes "1.2")
            (codes "GRYPE_VERSIONS")
            old_file)
default_rebound =
    write_versions-rebound one_file grype only_release (codes "1.2") (content (codes "x")) new_file
      old_file (codes "GRYPE_VERSIONS") old_file_read new_file_written

circle :
    (is_neg (compare_versions (codes "10") (codes "1a")) ≡ true)
    × (is_neg (compare_versions (codes "1a") (codes "9")) ≡ true)
    × (is_neg (compare_versions (codes "9") (codes "10")) ≡ true)
unfolding compare_versions distroless.ToolVersions.compare_parts distroless.Strings.Split.split
    distroless.ToolVersions.compare_part distroless.Strings.atoi distroless.Strings.unsigned
    distroless.Strings.read_digits distroless.Strings.is_digit distroless.Strings.compare_text
    distroless.Prelude.eq_ℤ distroless.Prelude.sub_int
circle = (refl, refl, refl)
