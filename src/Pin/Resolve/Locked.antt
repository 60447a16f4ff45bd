-- ===== src/Pin/Resolve/Locked.antt =====
-- What a lockfile that `resolve` returns holds.
use distroless.Prelude.{if◌then◌else◌, Option, none, some, List, [], ◌∷◌, ◌≡◌}
use distroless.Prelude.Dict.{lookup, contains}
use distroless.Strings.{Bytes}
use distroless.Pin.Provider.{PkgKey, PkgKey_eq}
use distroless.Pin.Closure.{Candidates}
use distroless.Pin.Lock.{LockEntry}
use distroless.Pin.Lock.Entries.{entry_of}
use distroless.Pin.Text.{RepomdSigPolicy}
use distroless.Pin.Resolve.{Repository, Metadata}
use distroless.Pin.Resolve.Indexed.{offered, as_candidate, newest}
use distroless.Pin.Resolve.Trust.{IsTrusted}

-- the entry of a package in a lockfile, if it is in the closure
abbrev pub locked_entry : Candidates → List PkgKey → PkgKey → Option LockEntry
locked_entry candidates closure k =
    if contains closure k then some (entry_of (lookup k candidates)) else none

-- the directories that metadata was read from
abbrev pub directories : List (Bytes × Metadata) → List Bytes
directories [] = []
directories ((arch, m) ∷ metas) = arch ∷ directories metas

module _ {W : Type 0} (repo : Repository W) (url : Bytes) (policy : RepomdSigPolicy) where
  -- each is what its directory's files say, checked
  abbrev pub AllTrusted : List (Bytes × Metadata) → Type 0
  AllTrusted [] = Unit
  AllTrusted ((arch, m) ∷ metas) = IsTrusted repo url policy arch m × AllTrusted metas

  -- under each key there is the package that is kept of those listed for it
  abbrev pub IsIndexed : List (Bytes × Metadata) → Candidates → Type 0
  IsIndexed metas candidates =
      (k : PkgKey)
      → lookup k candidates ≡ as_candidate (newest repo.vercmp k none (offered 0 metas))
