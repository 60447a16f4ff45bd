-- ===== src/Mirror/Attached.antt =====
-- The reads of a registry in web/internal/mirror/mirror.go: `repository`, `resolve`, `statement`,
-- `eachStatement`, `predicate`, `predicates` and `newestStatement`. What a registry answers is a
-- record; it may be another one at the next request.
pub mod Verified
pub mod Found
use distroless.Prelude.{
  ℕ, ◌+◌, ◌*◌, ◌^◌, Bool, true, false, Option, none, some, List, [], ◌∷◌, ◌++◌, if◌then◌else◌, not,
  take, ltb, Result, ok, err, ◌>>=◌, any, ◌==◌,
}
use distroless.Strings.{Bytes, codes, str_eq}
use distroless.Mirror.Record.{Statement, Codec}

abbrev pub Repository : Type 0
Repository = Bytes

-- `head` is none, or the status where the registry answers with an error
pub data HeadError : Type 0 where
  no_answer : HeadError
  status : ℕ → HeadError

-- a layer, each part none where it cannot be read
pub record Layer : Type 0 where
  pub media_type : Option Bytes
  pub size : ℕ
  pub content : Option Bytes

-- the operating image config: `created` and the architecture
pub record ImageConfig : Type 0 where
  pub created : ℕ
  pub architecture : Bytes

-- an image: its layers, its config and the layers of its manifest
pub record Image : Type 0 where
  pub layers : Option (List Layer)
  pub config : Option ImageConfig
  pub manifest : Option (List ℕ)

-- a manifest of an index: its digest and the architecture of its platform
pub record IndexEntry : Type 0 where
  pub digest : Bytes
  pub architecture : Option Bytes

-- what a digest names: an image, or an index whose manifest may be unreadable
pub data Descriptor : Type 0 where
  image_of : Option Image → Descriptor
  index_of : Option (List IndexEntry) → Descriptor

pub record Registry : Type 0 where
  pub new_repository : Bytes → Option Repository
  pub head : Repository → Bytes → Result HeadError Bytes
  pub tags : Repository → Option (List Bytes)
  pub get : Repository → Bytes → Option Descriptor
  pub image : Repository → Bytes → Option Image
  pub referrers : Repository → Bytes → Option (Option (List Bytes))

pub data MirrorError : Type 0 where
  bad_family unresolved no_referrers bad_referrers no_attestation bad_document no_scan : MirrorError
  bad_tags bad_build unreadable_ledger no_ledger_layer : MirrorError
  bad_line : ℕ → MirrorError

-- where a client reads
pub record Place : Type 0 where
  pub registry : Bytes
  pub repository_prefix : Bytes

unfoldable pub prefixed : Bytes → Bytes → Bytes
prefixed repository_prefix family =
    if str_eq repository_prefix [] then family else repository_prefix ++ (codes "/" ++ family)

unfoldable pub or_fail : {A : Type 0} → MirrorError → Option A → Result MirrorError A
or_fail e none = err e
or_fail e (some a) = ok a

-- a digest is a reference with a colon
unfoldable pub is_digest : Bytes → Bool
is_digest ref = any (λ (c : ℕ). c == b':') ref

unfoldable pub resolved :
    Repository → Result HeadError Bytes → Result MirrorError (Repository × Bytes)
resolved repository (ok digest) = ok (repository, digest)
resolved repository (err e) = err unresolved

abbrev pub max_attestation_bytes : ℕ
max_attestation_bytes = 64 * 2 ^ 20

-- why a referrer gives no statement
pub data StatementError : Type 0 where
  unverified unreadable : StatementError

-- `errors.Is(err, errUnverified)` and any other error alike go on to the next referrer
unfoldable pub visit_one :
    {A : Type 0} → (A → Statement → A × Bool) → A → Result StatementError Statement → A × Bool
visit_one visit a (err e) = (a, false)
visit_one visit a (ok st) = visit a st

-- `found == nil` where no statement is of the kind
unfoldable pub found_kind : Option Bytes → Result MirrorError Bytes
found_kind none = err no_attestation
found_kind (some predicate) = ok predicate

unfoldable pub take_kind : Bytes → Option Bytes → Statement → Option Bytes × Bool
take_kind want found st = if str_eq st.kind want then (some st.predicate, true) else (found, false)

-- the statements of each kind, in referrer order
unfoldable pub of_kind : Bytes → List Statement → List Statement
of_kind kind [] = []
of_kind kind (st ∷ sts) =
    let rest = of_kind kind sts in if str_eq st.kind kind then st ∷ rest else rest

unfoldable pub collect : List Statement → Statement → List Statement × Bool
collect found st = (found ++ st ∷ [], false)

unfoldable pub keep_signed : Statement → Option Statement → Option Statement
keep_signed st none = some st
keep_signed st (some newest) = if ltb st.signed_at newest.signed_at then some newest else some st

unfoldable pub newest_signed : List Statement → Option Statement → Option Statement
newest_signed [] newest = newest
newest_signed (st ∷ sts) newest = newest_signed sts (keep_signed st newest)

unfoldable pub newest_statement : List Statement → Option Statement
newest_statement sts = newest_signed sts none

module _ (codec : Codec) (place : Place) (reg : Registry) where
  unfoldable pub repository : Bytes → Result MirrorError Repository
  repository family = or_fail bad_family (
      reg.new_repository (place.registry ++ (codes "/" ++ prefixed place.repository_prefix family)))

  unfoldable pub resolve : Bytes → Bytes → Result MirrorError (Repository × Bytes)
  resolve family ref = do
    repo ← repository family
    if is_digest ref then ok (repo, ref) else resolved repo (reg.head repo ref)

  -- the layers of a referrer: the first one that verifies
  unfoldable pub first_verified : Bytes → List Layer → Result StatementError Statement
  first_verified digest [] = err unverified
  first_verified digest (l ∷ layers) = elim l.content [
    | none ↦ err unreadable
    | some blob ↦ elim (codec.verify (take max_attestation_bytes blob) digest) [
      | some st ↦ ok st
      | none ↦ first_verified digest layers
    ]
  ]

  unfoldable pub statement_in : Bytes → Option Image → Result StatementError Statement
  statement_in digest none = err unreadable
  statement_in digest (some image) = elim image.layers [
    | none ↦ err unreadable
    | some layers ↦ first_verified digest layers
  ]

  unfoldable pub statement : Repository → Bytes → Bytes → Result StatementError Statement
  statement repo referrer digest = statement_in digest (reg.image repo referrer)

  module _ {A : Type 0} (visit : A → Statement → A × Bool) where
    unfoldable pub visit_all : Repository → Bytes → List Bytes → A → A
    visit_all repo digest [] a = a
    visit_all repo digest (r ∷ referrers) a =
        let seen = visit_one visit a (statement repo r digest) in
        let rest = visit_all repo digest referrers seen.0 in if seen.1 then seen.0 else rest

    unfoldable pub each_statement : Repository → Bytes → A → Result MirrorError A
    each_statement repo digest a = do
      index ← or_fail no_referrers (reg.referrers repo digest)
      referrers ← or_fail bad_referrers index
      ok (visit_all repo digest referrers a)

  unfoldable pub predicate : Repository → Bytes → Bytes → Result MirrorError Bytes
  predicate repo digest want = do
    found ← each_statement (take_kind want) repo digest none
    found_kind found

  unfoldable pub predicates : Repository → Bytes → Result MirrorError (List Statement)
  predicates repo digest = each_statement collect repo digest []
