-- ===== src/Pin/Lock.antt =====
-- The packages of the lockfile, made from the closure, and `validate`, in
-- bazel/modules/rules_rpm/rpm/tools/pin/main.go. The nested Go map is an association list of
-- association lists.
pub mod Valid
pub mod Entries
use distroless.Prelude.{
  ℕ, Bool, true, false, ◌&&◌, not, Option, none, some, List, [], ◌∷◌, ◌++◌, if◌then◌else◌, Result,
  ok, err, sort_slice,
}
use distroless.Prelude.Dict.{lookup, insert}
use distroless.Strings.{Bytes, codes, str_eq}
use distroless.Strings.Order.{bytes_eq, text_lt}
use distroless.Pin.Provider.{PkgKey, PkgKey_eq, noarch}
use distroless.Pin.Closure.{Candidate, Candidates}

pub record LockEntry : Type 0 where
  pub version : Bytes
  pub sha256 : Bytes
  pub path : Bytes
  pub size : ℕ
  pub license : Bytes
  pub upstream : Bytes

abbrev pub ArchEntries : Type 0
ArchEntries = List (Bytes × LockEntry)

abbrev pub Packages : Type 0
Packages = List (Bytes × ArchEntries)

abbrev empty_candidate : Candidate
empty_candidate = record {
  evr = [];
  sha256 = [];
  path = [];
  size = 0;
  upstream = [];
  license = [];
  requires = [];
  provides = [];
}

-- a candidate, or the zero value
unfoldable pub or_empty : Option Candidate → Candidate
or_empty none = empty_candidate
or_empty (some c) = c

unfoldable pub lock_entry : Candidate → LockEntry
lock_entry c = record {
  version = c.evr;
  sha256 = c.sha256;
  path = c.path;
  size = c.size;
  license = c.license;
  upstream = c.upstream;
}

unfoldable pub entries_of : Option ArchEntries → ArchEntries
entries_of none = []
entries_of (some entries) = entries

unfoldable pub add_entry : PkgKey → LockEntry → Packages → Packages
add_entry key entry out =
    insert key.name (insert key.arch entry (entries_of (lookup key.name out))) out

-- the loop over the closure
unfoldable pub packages : Candidates → List PkgKey → Packages → Packages
packages candidates [] out = out
packages candidates (key ∷ keys) out =
    packages candidates keys (add_entry key (lock_entry (or_empty (lookup key candidates))) out)

abbrev pub is_some {ℓ} : {A : Type ℓ} → Option A → Bool
is_some none = false
is_some (some _) = true

unfoldable pub missing_arches : Bytes → ArchEntries → List Bytes → List Bytes
missing_arches name entries [] = []
missing_arches name entries (arch ∷ arches) =
    let rest = missing_arches name entries arches in
    if is_some (lookup arch entries)
    then rest
    else (name ++ codes " [missing " ++ arch ++ codes "]") ∷ rest

-- what the loop appends for one declared package
unfoldable pub missing_of : List Bytes → Bytes → Option ArchEntries → List Bytes
missing_of arches name none = name ∷ []
missing_of arches name (some []) = name ∷ []
missing_of arches name (some (e ∷ entries)) =
    if is_some (lookup noarch (e ∷ entries)) then [] else missing_arches name (e ∷ entries) arches

unfoldable pub missing : Packages → List Bytes → List Bytes → List Bytes
missing best arches [] = []
missing best arches (name ∷ names) =
    missing_of arches name (lookup name best) ++ missing best arches names

-- no error, or the sorted list of what is missing
unfoldable pub unresolved : List Bytes → Option (List Bytes)
unresolved [] = none
unresolved (m ∷ ms) = some (sort_slice text_lt (m ∷ ms))

unfoldable pub validate : Packages → List Bytes → List Bytes → Option (List Bytes)
validate best arches names = unresolved (missing best arches names)
