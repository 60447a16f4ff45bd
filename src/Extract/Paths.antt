-- ===== src/Extract/Paths.antt =====
-- rpm-extract/main.go: which paths are dropped (`shouldStrip`) and where the others go
-- (`mergedUsr`, `mergedUsrLink`).
pub mod Laws
use distroless.Prelude.{
  ℕ, Bool, true, false, ◌||◌, not, Option, none, some, List, [], ◌∷◌, ◌++◌, if◌then◌else◌, any,
}
use distroless.Strings.{Bytes, codes, str_eq, has_prefix, trim_prefix, cut_prefix}

abbrev pub stripped_prefixes : List Bytes
stripped_prefixes =
    codes "usr/lib/.build-id"
    ∷ codes "usr/share/doc"
    ∷ codes "usr/share/man"
    ∷ codes "usr/share/info"
    ∷ codes "usr/lib64/security"
    ∷ codes "usr/lib/security"
    ∷ []

abbrev pub slash : Bytes
slash = codes "/"

-- the path is the directory `prefix` or something below it
unfoldable pub is_under : Bytes → Bytes → Bool
is_under clean prefix = str_eq clean prefix || has_prefix clean (prefix ++ slash)

unfoldable pub should_strip : Bytes → Bool
should_strip filename = any (is_under (trim_prefix filename (codes "./"))) stripped_prefixes

abbrev pub legacy_roots : List Bytes
legacy_roots = codes "lib64" ∷ codes "lib" ∷ codes "bin" ∷ codes "sbin" ∷ []

-- the loop over the legacy roots; `none` is Go's `drop`
unfoldable pub merge_into_usr : List Bytes → Bytes → Bytes → Option Bytes
merge_into_usr [] filename clean = some filename
merge_into_usr (prefix ∷ prefixes) filename clean =
    let next = merge_into_usr prefixes filename clean in
    if str_eq clean prefix then none else elim (cut_prefix clean (prefix ++ slash)) [
      | some rest ↦ some (codes "./usr/" ++ (prefix ++ (slash ++ rest)))
      | none ↦ next
    ]

unfoldable pub merged_usr : Bytes → Option Bytes
merged_usr filename = merge_into_usr legacy_roots filename (trim_prefix filename (codes "./"))

unfoldable pub merge_link : List Bytes → Bytes → Bytes
merge_link [] target = target
merge_link (prefix ∷ prefixes) target =
    let next = merge_link prefixes target in
    if is_under target prefix then codes "/usr" ++ target else next

abbrev pub legacy_root_paths : List Bytes
legacy_root_paths = codes "/lib64" ∷ codes "/lib" ∷ codes "/bin" ∷ codes "/sbin" ∷ []

unfoldable pub merged_usr_link : Bytes → Bytes
merged_usr_link target =
    if not (has_prefix target slash) then target else merge_link legacy_root_paths target
