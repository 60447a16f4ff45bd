-- ===== src/ToolVersions/Assigned.antt =====
-- What the file has that `Write` writes.
use distroless.Prelude.{
  ℕ, Bool, true, false, ◌&&◌, Option, some, List, [], ◌∷◌, map, ◌++◌, ◌≡◌, ◌≢◌, refl, sym, ap, ◌∙◌,
  arith, if◌then◌else◌, ◌==◌, any, length, Bool-cases, inl, inr, Result, ok, err, ok-injective,
  >>=-eq-ok, ◌>>=◌,
}
use distroless.Strings.{Bytes, codes, str_eq}
use distroless.Strings.Laws.{str_eq_refl, str_eq_sound}
use distroless.ToolVersions.{
  Config, ToolRelease, Rhs, string_expr, dict_expr, Stmt, assign_expr, other_stmt, ToolError,
  no_tool, no_template, no_releases, unknown_default, VersionDict, Existing, Build, identifier_name,
  upper, versions_var, releases_to_dict, find_assign, set_assign, read_file, checked_config,
  default_name, write_versions,
}

bool_apart : true ≢ false
bool_apart h = cc

err_ok : {A : Type 0} {e : ToolError} {a : A} → ◌≢◌ {A = Result ToolError A} (err e) (ok a)
err_ok h = cc

-- two names that differ are not both a third one
not_both : (name m n : Bytes) → str_eq n name ≡ false → (str_eq n m && str_eq name m) ≡ false
not_both name m n other = elim (Bool-cases (str_eq name m)) [
  | inl same ↦ let e : name ≡ m = str_eq_sound name m same in rw (sym e, other) refl
  | inr apart ↦ rw apart (ground arith)
]

one_of :
    {A : Type 0} (here there : Bool) (x y z : A)
    → (here && there) ≡ false
    → (if here then x else if there then y else z) ≡ (if there then y else if here then x else z)
one_of true true x y z h = absurd (bool_apart h)
one_of true false x y z h = refl
one_of false there x y z h = refl

find_assign-set_assign :
    (name m : Bytes) (rhs : Rhs) (f : List Stmt)
    → find_assign m (set_assign name rhs f) ≡ (if str_eq name m then some rhs else find_assign m f)
unfolding find_assign set_assign
find_assign-set_assign name m rhs [] = refl
find_assign-set_assign name m rhs (other_stmt s ∷ f) = find_assign-set_assign name m rhs f
find_assign-set_assign name m rhs (assign_expr n op old ∷ f) = elim (Bool-cases (str_eq n name)) [
  | inl same ↦
      let e : n ≡ name = str_eq_sound n name same in rw (e, str_eq_refl name) (ground arith)
  | inr other ↦
      rw (other, find_assign-set_assign name m rhs f)
        (one_of (str_eq n m) (str_eq name m) (some old) (some rhs) (find_assign m f)
          (not_both name m n other))
]

abbrev last_or : ℕ → Bytes → ℕ
last_or d [] = d
last_or d (c ∷ s) = last_or c s

last_or-append : (d : ℕ) (s : Bytes) → last_or d (s ++ codes "_VERSIONS") ≡ b'S'
last_or-append d [] = refl
last_or-append d (c ∷ s) = last_or-append c s

bytes_apart : ◌≢◌ {A = ℕ} b'S' b'N'
bytes_apart h = omega (arith, h)

-- the two names differ in their last byte
versions_var-default_name : (tool : Bytes) → str_eq (versions_var tool) default_name ≡ false
unfolding versions_var
versions_var-default_name tool = elim (Bool-cases (str_eq (versions_var tool) default_name)) [
  | inl same ↦
      let e : versions_var tool ≡ default_name =
        str_eq_sound (versions_var tool) default_name same in
      absurd
        (bytes_apart (sym (last_or-append 0 (map upper (identifier_name tool))) ∙ ap (last_or 0) e))
  | inr other ↦ other
]

-- a configuration that passes its four guards
guarded :
    (a b c found : Bool) (v version : Bytes)
    → (if a
        then err no_tool
        else if b
        then err no_template
        else if c
        then err no_releases
        else if found
        then ok v
        else err unknown_default)
      ≡ ok version
    → (found ≡ true) × (v ≡ version)
guarded true b c found v version h = absurd (err_ok h)
guarded false true c found v version h = absurd (err_ok h)
guarded false false true found v version h = absurd (err_ok h)
guarded false false false true v version h = (refl, ok-injective h)
guarded false false false false v version h = absurd (err_ok h)

checked_config-ok :
    (cfg : Config) (releases : List ToolRelease) (default_version version : Bytes)
    → checked_config cfg releases default_version ≡ ok version
    → (any (λ (r : ToolRelease). str_eq r.version default_version) releases ≡ true)
      × (default_version ≡ version)
unfolding checked_config
checked_config-ok cfg releases default_version version h =
    guarded (str_eq cfg.tool []) (str_eq cfg.url_template []) (length releases == 0)
      (any (λ (r : ToolRelease). str_eq r.version default_version) releases) default_version version
      h

-- what a name is bound to in a file that `Write` has set the two assignments of
abbrev pub rebound : Bytes → VersionDict → Bytes → Bytes → List Stmt → Option Rhs
rebound tool versions default_version m f =
    if str_eq (versions_var tool) m
    then some (dict_expr versions)
    else if str_eq default_name m
    then some (string_expr default_version)
    else find_assign m f

abbrev pub both_set : Bytes → VersionDict → Bytes → List Stmt → List Stmt
both_set tool versions default_version f =
    set_assign (versions_var tool) (dict_expr versions)
      (set_assign default_name (string_expr default_version) f)

find_assign-both_set :
    (tool : Bytes) (versions : VersionDict) (default_version m : Bytes) (f : List Stmt)
    → find_assign m (both_set tool versions default_version f)
      ≡ rebound tool versions default_version m f
find_assign-both_set tool versions default_version m f =
    rw
      (
        find_assign-set_assign (versions_var tool) m (dict_expr versions)
            (set_assign default_name (string_expr default_version) f),
        find_assign-set_assign default_name m (string_expr default_version) f,
      )
      refl

rebound_default :
    (tool : Bytes) (versions : VersionDict) (default_version : Bytes) (f : List Stmt)
    → rebound tool versions default_version default_name f ≡ some (string_expr default_version)
rebound_default tool versions default_version f =
    rw (versions_var-default_name tool, str_eq_refl default_name) refl

-- Where Write gives a file, the default version is that of a release, and in the file the first
-- assignment to DEFAULT_VERSION has it as its right side, that to the name of the tool's versions
-- has the dictionary of the releases, and the first assignment to any other name is what it was in
-- the file that was read, or in the one that Write starts from where there is none.
pub write_versions-rebound :
    (build : Build) (cfg : Config) (releases : List ToolRelease) (default_version : Bytes)
    (existing : Existing) (f old : List Stmt) (m : Bytes)
    → read_file build cfg existing ≡ ok old
    → write_versions build cfg releases default_version existing ≡ ok f
    → (any (λ (r : ToolRelease). str_eq r.version default_version) releases ≡ true)
      × (find_assign default_name f ≡ some (string_expr default_version))
      × (find_assign m f ≡ rebound cfg.tool (releases_to_dict releases) default_version m old)
unfolding write_versions
write_versions-rebound build cfg releases default_version existing f old m read h =
    let (version, checked, h') =
      >>=-eq-ok (checked_config cfg releases default_version)
        (λ version. read_file build cfg existing >>= λ g.
          ok (both_set cfg.tool (releases_to_dict releases) version g))
        h in
    let (known, same) = checked_config-ok cfg releases default_version version checked in
    let (g, read', h'') =
      >>=-eq-ok (read_file build cfg existing)
        (λ g. ok (both_set cfg.tool (releases_to_dict releases) version g)) h' in
    let e : both_set cfg.tool (releases_to_dict releases) default_version old ≡ f =
      ap (λ v. both_set cfg.tool (releases_to_dict releases) v old) same
      ∙ ap (both_set cfg.tool (releases_to_dict releases) version) (ok-injective (sym read ∙ read'))
      ∙ ok-injective h'' in
    (
      known,
      ap (find_assign default_name) (sym e)
          ∙ find_assign-both_set cfg.tool (releases_to_dict releases) default_version default_name
              old
          ∙ rebound_default cfg.tool (releases_to_dict releases) default_version old,
      ap (find_assign m) (sym e)
          ∙ find_assign-both_set cfg.tool (releases_to_dict releases) default_version m old,
    )
