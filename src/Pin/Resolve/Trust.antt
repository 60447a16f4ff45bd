-- ===== src/Pin/Resolve/Trust.antt =====
-- What stands behind the packages that are indexed for an architecture.
use mathlib.Core.Path.{subst}
use distroless.Prelude.{
  Bool, true, ◌&&◌, Option, none, some, List, ◌++◌, ◌≡◌, ◌≢◌, ◌⊎◌, inl, inr, refl, ap, arith,
  Result, ok, err, Bool-cases, Option-cases, some_eq, ok-injective,
}
use distroless.Strings.{Bytes, codes, str_eq}
use distroless.Strings.Laws.{str_eq_sound}
use distroless.Pin.Text.{RepomdSigPolicy, required, optional}
use distroless.Pin.Fetch.{HttpError, http_get}
use distroless.Pin.Resolve.{
  Repository, RepomdData, PrimaryPackage, Metadata, Step, ResolveError, chain, found, fetch,
  repomd_url, check_signature, signature_answer, checked, primary_packages, fetch_metadata, located,
  primary_of, is_optional, is_not_found, fetch_repomd, no_primary, bad_repomd, fetch_primary,
  metadata, bad_primary,
}

-- where a chain of two calls succeeds, both do
pub chain-eq-ok :
    {W X Y : Type 0} (call : Step W X) (next : X → W → Step W Y) {y : Y} {w' : W}
    → chain call next ≡ (ok y, w')
    → (x : X) × (w : W) × (call ≡ (ok x, w)) × (next x w ≡ (ok y, w'))
unfolding chain
chain-eq-ok (ok x, w) next h = (x, w, refl, h)
chain-eq-ok (err e, w) next h = cc

pub err_ne_ok : {E A : Type 0} {e : E} {a : A} → ◌≢◌ {A = Result E A} (err e) (ok a)
err_ne_ok h = cc

pub step_eq :
    {W X : Type 0} {r : Result ResolveError X} {x : X} {w w' : W}
    → ◌≡◌ {A = Step W X} (r, w) (ok x, w')
    → r ≡ ok x
step_eq h = ap (λ p. p.0) h

found-eq-ok : {A : Type 0} (e : ResolveError) (o : Option A) {a : A} → found e o ≡ ok a → o ≡ some a
found-eq-ok e none h = cc
found-eq-ok e (some b) h = ground arith

module _ {W : Type 0} (repo : Repository W) (url : Bytes) (policy : RepomdSigPolicy)
    (arch : Bytes) where
  -- A signature was fetched and is valid for the bytes, or the policy does not ask for one and the
  -- repository answers that there is none.
  pub Signed : (Bytes → Bytes → Bool) → Bytes → Type 0
  Signed valid bytes =
      (w : W) × (((signature : Bytes) × ((http_get
              (repo.ask (repomd_url repo url policy arch ++ codes ".asc")) w).0.0
            ≡ ok signature)
          × (valid bytes signature ≡ true))
        ⊎ ((e : HttpError) × ((http_get (repo.ask (repomd_url repo url policy arch ++ codes ".asc"))
                w).0.0
              ≡ err e)
            × (is_not_found e ≡ true)
            × (policy ≡ optional)))

  is_optional_sound : (p : RepomdSigPolicy) → is_optional p ≡ true → p ≡ optional
  unfolding is_optional
  is_optional_sound optional h = refl
  is_optional_sound required h = cc

  signature_answer-Signed :
      (valid : Bytes → Bytes → Bool) (bytes : Bytes) (w : W) (r : Result HttpError Bytes)
      → (http_get (repo.ask (repomd_url repo url policy arch ++ codes ".asc")) w).0.0 ≡ r
      → signature_answer policy arch (valid bytes) r ≡ ok tt
      → Signed valid bytes
  unfolding signature_answer checked Signed
  signature_answer-Signed valid bytes w (ok signature) e h =
      elim (Bool-cases (valid bytes signature)) [
        | inl good ↦ (w, inl (signature, e, good))
        | inr bad ↦ absurd (err_ne_ok (rw (bad, checked) at h))
      ]
  signature_answer-Signed valid bytes w (err f) e h =
      elim (Bool-cases (is_optional policy && is_not_found f)) [
        | inl tolerated ↦ (w, inr (f, e, ground arith, is_optional_sound policy (ground arith)))
        | inr refused ↦ absurd (err_ne_ok (rw refused at h))
      ]

  check_signature-Signed :
      (valid : Bytes → Bytes → Bool) (bytes : Bytes) (o : Option (Bytes → Bytes → Bool)) (w w' : W)
      → o ≡ some valid
      → check_signature repo url policy arch bytes o w ≡ (ok tt, w')
      → Signed valid bytes
  unfolding check_signature
  check_signature-Signed valid bytes none w w' e h = cc
  check_signature-Signed valid bytes (some v) w w' e h =
      let same : v ≡ valid = some_eq e in
      subst (λ (f : Bytes → Bytes → Bool). Signed f bytes) same
        (signature_answer-Signed v bytes w _ refl (ap (λ (p : Step W (Unit {0})). p.0) h))

  -- the metadata of an architecture, with the files that it was read from
  pub record IsTrusted (m : Metadata) : Type 0 where
    pub signed :
        (valid : Bytes → Bytes → Bool) → repo.verify ≡ some valid → Signed valid m.repomd_bytes
    pub parsed : repo.parse_repomd m.repomd_bytes ≡ some m.repomd
    pub entry : RepomdData
    pub listed : located (primary_of m.repomd.entries) ≡ some entry
    pub gz : Bytes
    pub plain : Bytes
    pub hashed : repo.sha256_hex gz ≡ entry.checksum
    pub unpacked : repo.gunzip gz ≡ some plain
    pub read : repo.parse_primary plain ≡ some m.packages

  primary_packages-ok :
      (d : RepomdData) (gz : Bytes) (pkgs : List PrimaryPackage)
      → primary_packages repo url policy arch d gz ≡ ok pkgs
      → (repo.sha256_hex gz ≡ d.checksum)
        × ((plain : Bytes) × (repo.gunzip gz ≡ some plain) × (repo.parse_primary plain ≡ some pkgs))
  unfolding primary_packages
  primary_packages-ok d gz pkgs h = elim (Bool-cases (str_eq (repo.sha256_hex gz) d.checksum)) [
    | inl same ↦ elim (Option-cases (repo.gunzip gz)) [
      | inl none_there ↦ absurd (err_ne_ok (rw (same, none_there) at h))
      | inr (plain, there) ↦ (
        str_eq_sound (repo.sha256_hex gz) d.checksum same,
        (
          plain,
          there,
          found-eq-ok (bad_primary arch) (repo.parse_primary plain) (rw (same, there) at h),
        ),
      )
    ]
    | inr other ↦ absurd (err_ne_ok (rw other at h))
  ]

  -- Packages are taken from an architecture only out of a primary file that unpacks to them and has
  -- the hash that repomd.xml lists for it; and, where there is a key, only if a signature of that
  -- repomd.xml was fetched and is valid, or the policy is optional and the answer to the request
  -- for the signature is 404.
  pub fetch_metadata-IsTrusted :
      (m : Metadata) (w w' : W) → fetch_metadata repo url policy arch w ≡ (ok m, w') → IsTrusted m
  unfolding fetch_metadata
  fetch_metadata-IsTrusted m w w' h =
      let (bytes, w1, e1, h1) =
        chain-eq-ok (fetch repo url policy (fetch_repomd arch) (repomd_url repo url policy arch) w)
          _ h in
      let (u, w2, e2, h2) =
        chain-eq-ok (check_signature repo url policy arch bytes repo.verify w1) _ h1 in
      let (rm, w3, e3, h3) =
        chain-eq-ok (found (bad_repomd arch) (repo.parse_repomd bytes), w2) _ h2 in
      let (d, w4, e4, h4) =
        chain-eq-ok (found (no_primary arch) (located (primary_of rm.entries)), w3) _ h3 in
      let (gz, w5, e5, h5) = chain-eq-ok (fetch repo url policy (fetch_primary arch) _ w4) _ h4 in
      let (pkgs, w6, e6, h6) = chain-eq-ok (primary_packages repo url policy arch d gz, w5) _ h5 in
      let (same_hash, (plain, unzipped, decoded)) = primary_packages-ok d gz pkgs (step_eq e6) in
      let trusted : IsTrusted (metadata repo url policy bytes rm pkgs) = record {
        signed = λ valid ev. check_signature-Signed valid bytes repo.verify w1 w2 ev e2;
        parsed = found-eq-ok (bad_repomd arch) (repo.parse_repomd bytes) (step_eq e3);
        entry = d;
        listed = found-eq-ok (no_primary arch) (located (primary_of rm.entries)) (step_eq e4);
        gz = gz;
        plain = plain;
        hashed = same_hash;
        unpacked = unzipped;
        read = decoded;
      } in
      subst IsTrusted (ok-injective (step_eq h6)) trusted
