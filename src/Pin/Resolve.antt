-- ===== src/Pin/Resolve.antt =====
-- `resolve` of bazel/modules/rules_rpm/rpm/tools/pin/main.go: each architecture's metadata is
-- fetched, checked and indexed; then the dependencies are closed and the lockfile is made. The
-- network, the hash, the signature check, gzip, the XML decoder and the version comparison of
-- go-rpmutils are the record `Repository`.
pub mod Trust
pub mod Indexed
pub mod Locked
mod Tests
use distroless.Prelude.{
  ℕ, zero, suc, Bool, true, false, ◌&&◌, ◌||◌, not, Option, none, some, List, [], ◌∷◌, ◌++◌,
  if◌then◌else◌, ◌==◌, Result, ok, err, ℤ, is_neg, is_zero, map,
}
use distroless.Prelude.Dict.{lookup, insert}
use distroless.Strings.{Bytes, codes, str_eq}
use distroless.Pin.Evr.{PrimaryVersion, format_evr, compare_evr}
use distroless.Pin.Text.{RepomdSigPolicy, required, optional}
use distroless.Pin.Provider.{PkgKey, PkgKey_eq, noarch}
use distroless.Pin.Closure.{Candidate, Candidates, CloseError, provides_index, close_deps}
use distroless.Pin.Fetch.{Answer, HttpError, transport_error, read_error, http_status, http_get}
use distroless.Pin.Lock.{Packages, packages, validate}

pub record RepomdData : Type 0 where
  pub type : Bytes
  pub checksum : Bytes
  pub href : Bytes

pub record Repomd : Type 0 where
  pub revision : Bytes
  pub entries : List RepomdData

pub record PrimaryPackage : Type 0 where
  pub name : Bytes
  pub arch : Bytes
  pub version : PrimaryVersion
  pub checksum : Bytes
  pub size : ℕ
  pub href : Bytes
  pub license : Bytes
  pub source_rpm : Bytes
  pub provides : List Bytes
  pub requires : List Bytes

-- `verify` is none without a key: then no signature is asked for
pub record Repository (W : Type 0) : Type 0 where
  pub ask : Bytes → W → Answer × W
  pub verify : Option (Bytes → Bytes → Bool)
  pub sha256_hex : Bytes → Bytes
  pub parse_repomd : Bytes → Option Repomd
  pub gunzip : Bytes → Option Bytes
  pub parse_primary : Bytes → Option (List PrimaryPackage)
  pub vercmp : Bytes → Bytes → ℤ

-- what failed, and for which architecture
pub data ResolveError : Type 0 where
  fetch_repomd fetch_signature fetch_primary : Bytes → HttpError → ResolveError
  bad_signature bad_repomd no_primary sha_mismatch bad_gzip bad_primary : Bytes → ResolveError
  not_closed : CloseError → ResolveError
  unresolved_packages : List Bytes → ResolveError

-- the two maps that the packages are indexed in
pub record Index : Type 0 where
  pub candidates : Candidates
  pub best_evr : List (PkgKey × Bytes)

pub record Lockfile : Type 0 where
  pub schema_version : ℕ
  pub url : Bytes
  pub revision : Bytes
  pub repomd_sha256 : Bytes
  pub packages : Packages

abbrev pub found {ℓ} : {A : Type ℓ} → ResolveError → Option A → Result ResolveError A
found e none = err e
found e (some a) = ok a

unfoldable pub primary_of : List RepomdData → Option RepomdData
primary_of [] = none
primary_of (d ∷ ds) =
    let rest = primary_of ds in if str_eq d.type (codes "primary") then some d else rest

-- a primary entry without a location is as none
unfoldable pub located : Option RepomdData → Option RepomdData
located none = none
located (some d) = if str_eq d.href [] then none else some d

unfoldable pub is_not_found : HttpError → Bool
is_not_found (http_status status) = status == 404
is_not_found transport_error = false
is_not_found read_error = false

unfoldable pub is_optional : RepomdSigPolicy → Bool
is_optional optional = true
is_optional required = false

unfoldable pub checked : Bytes → Bool → Result ResolveError (Unit {0})
checked arch true = ok tt
checked arch false = err (bad_signature arch)

-- what the answer to the request for the signature means
unfoldable pub signature_answer :
    RepomdSigPolicy
    → Bytes
    → (Bytes → Bool)
    → Result HttpError Bytes
    → Result ResolveError (Unit {0})
signature_answer policy arch valid (ok signature) = checked arch (valid signature)
signature_answer policy arch valid (err e) =
    if is_optional policy && is_not_found e then ok tt else err (fetch_signature arch e)

-- is the entry of this architecture's directory, and not a noarch one that was committed before
unfoldable pub eligible : ℕ → Bytes → PrimaryPackage → Bool
eligible i arch pkg =
    (str_eq pkg.arch arch || str_eq pkg.arch noarch) && not (str_eq pkg.arch noarch && not (i == 0))

abbrev pub key_of : PrimaryPackage → PkgKey
key_of pkg = record { name = pkg.name; arch = pkg.arch }

unfoldable pub candidate_of : Bytes → PrimaryPackage → Candidate
candidate_of arch pkg = record {
  evr = format_evr pkg.version;
  sha256 = pkg.checksum;
  path = arch ++ b'/' ∷ pkg.href;
  size = pkg.size;
  upstream = pkg.source_rpm;
  license = pkg.license;
  requires = pkg.requires;
  provides = pkg.provides;
}

-- the package is not newer than the best one so far
unfoldable pub superseded : (Bytes → Bytes → ℤ) → Bytes → Option Bytes → Bool
superseded vercmp evr none = false
superseded vercmp evr (some cur) =
    is_neg (compare_evr vercmp evr cur) || is_zero (compare_evr vercmp evr cur)

unfoldable pub index_package : (Bytes → Bytes → ℤ) → ℕ → Bytes → PrimaryPackage → Index → Index
index_package vercmp i arch pkg index =
    if eligible i arch pkg
      && not (superseded vercmp (format_evr pkg.version) (lookup (key_of pkg) index.best_evr))
    then record {
      candidates = insert (key_of pkg) (candidate_of arch pkg) index.candidates;
      best_evr = insert (key_of pkg) (format_evr pkg.version) index.best_evr;
    }
    else index

unfoldable pub index_packages :
    (Bytes → Bytes → ℤ) → ℕ → Bytes → List PrimaryPackage → Index → Index
index_packages vercmp i arch [] index = index
index_packages vercmp i arch (pkg ∷ pkgs) index =
    index_packages vercmp i arch pkgs (index_package vercmp i arch pkg index)

-- `strings.TrimRight(s, "/")`
unfoldable pub trim_slashes : Bytes → Bytes
trim_slashes [] = []
trim_slashes (c ∷ s) = elim (trim_slashes s) [
  | [] ↦ if c == b'/' then [] else c ∷ []
  | x ∷ r ↦ c ∷ x ∷ r
]

-- what one architecture's directory gives
pub record Metadata : Type 0 where
  pub repomd_bytes : Bytes
  pub repomd : Repomd
  pub packages : List PrimaryPackage

abbrev pub Step : Type 0 → Type 0 → Type 0
Step W X = Result ResolveError X × W

-- a call and what follows it, in the network state that it leaves
unfoldable pub chain : {W X Y : Type 0} → Step W X → (X → W → Step W Y) → Step W Y
chain (ok x, w) next = next x w
chain (err e, w) next = (err e, w)

unfoldable pub wrapped {ℓ} :
    {A : Type ℓ} → (HttpError → ResolveError) → Result HttpError A → Result ResolveError A
wrapped wrap (ok a) = ok a
wrapped wrap (err e) = err (wrap e)

module _ {W : Type 0} (repo : Repository W) (repo_url : Bytes) (policy : RepomdSigPolicy) where
  unfoldable pub fetch : (HttpError → ResolveError) → Bytes → W → Step W Bytes
  fetch wrap url w = let out = http_get (repo.ask url) w in (wrapped wrap out.0.0, out.1)

  abbrev pub repomd_url : Bytes → Bytes
  repomd_url arch = repo_url ++ b'/' ∷ (arch ++ codes "/repodata/repomd.xml")

  abbrev pub primary_url : Bytes → Bytes → Bytes
  primary_url arch href = repo_url ++ b'/' ∷ (arch ++ b'/' ∷ href)

  -- no signature is fetched without a key
  unfoldable pub check_signature :
      Bytes → Bytes → Option (Bytes → Bytes → Bool) → W → Step W (Unit {0})
  check_signature arch signed none w = (ok tt, w)
  check_signature arch signed (some valid) w =
      let out = http_get (repo.ask (repomd_url arch ++ codes ".asc")) w in
      (signature_answer policy arch (valid signed) out.0.0, out.1)

  unfoldable pub primary_packages :
      Bytes → RepomdData → Bytes → Result ResolveError (List PrimaryPackage)
  primary_packages arch d gz =
      if str_eq (repo.sha256_hex gz) d.checksum
      then elim (repo.gunzip gz) [
        | none ↦ err (bad_gzip arch)
        | some plain ↦ found (bad_primary arch) (repo.parse_primary plain)
      ]
      else err (sha_mismatch arch)

  abbrev pub metadata : Bytes → Repomd → List PrimaryPackage → Metadata
  metadata bytes rm pkgs = record { repomd_bytes = bytes; repomd = rm; packages = pkgs }

  unfoldable pub fetch_metadata : Bytes → W → Step W Metadata
  fetch_metadata arch w = chain (fetch (fetch_repomd arch) (repomd_url arch) w) (λ bytes w1.
      chain (check_signature arch bytes repo.verify w1) (λ _ w2.
        chain (found (bad_repomd arch) (repo.parse_repomd bytes), w2)
          (λ rm w3.
            chain (found (no_primary arch) (located (primary_of rm.entries)), w3)
              (λ d w4. chain (fetch (fetch_primary arch) (primary_url arch d.href) w4) (λ gz w5.
                chain (primary_packages arch d gz, w5)
                  (λ pkgs w6. (ok (metadata bytes rm pkgs), w6)))))))

  -- the revision and hash of the first architecture's repomd.xml
  unfoldable pub canonical : ℕ → Metadata → Bytes × Bytes → Bytes × Bytes
  canonical zero m old = (m.repomd.revision, repo.sha256_hex m.repomd_bytes)
  canonical (suc i) m old = old

  unfoldable pub index_arches :
      ℕ → List Bytes → Index → Bytes × Bytes → W → Step W (Index × (Bytes × Bytes))
  index_arches i [] index anchor w = (ok (index, anchor), w)
  index_arches i (arch ∷ arches) index anchor w = chain (fetch_metadata arch w) (λ m w1.
      index_arches (suc i) arches (index_packages repo.vercmp i arch m.packages index)
        (canonical i m anchor) w1)

  unfoldable pub lockfile_of :
      Bytes × Bytes → Packages → Option (List Bytes) → Result ResolveError Lockfile
  lockfile_of anchor out (some names) = err (unresolved_packages names)
  lockfile_of anchor out none = ok (record {
    schema_version = 1;
    url = repo_url;
    revision = anchor.0;
    repomd_sha256 = anchor.1;
    packages = out;
  })

  -- the packages and their validation
  unfoldable pub lock_closure :
      Candidates
      → Bytes × Bytes
      → List Bytes
      → List Bytes
      → Result CloseError (List PkgKey)
      → Result ResolveError Lockfile
  lock_closure candidates anchor arches names (err e) = err (not_closed e)
  lock_closure candidates anchor arches names (ok closure) =
      lockfile_of anchor (packages candidates closure [])
        (validate (packages candidates closure []) arches names)

  unfoldable pub close_and_lock :
      Candidates → Bytes × Bytes → List Bytes → List Bytes → Result ResolveError Lockfile
  close_and_lock candidates anchor arches names =
      lock_closure candidates anchor arches names
        (close_deps candidates (provides_index candidates) arches names)

abbrev pub empty_index : Index
empty_index = record { candidates = []; best_evr = [] }

unfoldable pub resolve :
    {W : Type 0}
    → Repository W
    → Bytes
    → List Bytes
    → List Bytes
    → RepomdSigPolicy
    → W
    → Step W Lockfile
resolve repo url arches names policy w =
    chain (index_arches repo (trim_slashes url) policy 0 arches empty_index ([], []) w) (λ found w1.
      (close_and_lock repo (trim_slashes url) policy found.0.candidates found.1 arches names, w1))
