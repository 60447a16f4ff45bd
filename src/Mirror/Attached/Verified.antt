-- ===== src/Mirror/Attached/Verified.antt =====
-- Whatever a registry answers, the statements that are read off it have been verified.
use mathlib.Core.Path.{subst}
use distroless.Prelude.{
  Bool, Option, none, some, List, [], ◌∷◌, ◌≡◌, ◌≢◌, refl, ap, ◌∙◌, take, Result, ok, err,
  ok-injective, >>=-eq-ok, Option-cases, ◌>>=◌, Bool-cases, inl, inr, All, All-append, some_eq,
}
use distroless.Strings.{Bytes, str_eq}
use distroless.Strings.Laws.{str_eq_sound}
use distroless.Mirror.Record.{Statement, Codec}
use distroless.Mirror.Attached.{
  Layer, Image, Registry, Repository, Place, StatementError, max_attestation_bytes, first_verified,
  statement_in, statement, visit_one, visit_all, each_statement, take_kind, collect, found_kind,
  predicate, predicates, or_fail, no_referrers, bad_referrers,
}

-- the verifier accepts some text as this statement about the digest
abbrev pub Attests : Codec → Bytes → Statement → Type 0
Attests codec digest st = (blob : Bytes) × (codec.verify blob digest ≡ some st)

no_statement :
    {e : StatementError} {st : Statement}
    → ◌≢◌ {A = Result StatementError Statement} (err e) (ok st)
no_statement h = cc

none_some : {q : Bytes} → ◌≢◌ {A = Option Bytes} none (some q)
none_some h = cc

module _ (codec : Codec) (place : Place) (reg : Registry) (digest : Bytes) where
  first_verified-Attests :
      (layers : List Layer) (st : Statement)
      → first_verified codec place reg digest layers ≡ ok st
      → Attests codec digest st
  unfolding first_verified
  first_verified-Attests [] st h = cc
  first_verified-Attests (l ∷ layers) st h = elim (Option-cases l.content) [
    | inl c ↦ absurd (no_statement (rw c at h))
    | inr (blob, c) ↦ elim (Option-cases (codec.verify (take max_attestation_bytes blob) digest)) [
      | inl e ↦ first_verified-Attests layers st (rw (c, e) at h)
      | inr (st', e) ↦
          (take max_attestation_bytes blob, e ∙ ap some (ok-injective (rw (c, e) at h)))
    ]
  ]

  statement_in-Attests :
      (image : Option Image) (st : Statement)
      → statement_in codec place reg digest image ≡ ok st
      → Attests codec digest st
  unfolding statement_in
  statement_in-Attests none st h = cc
  statement_in-Attests (some image) st h = elim (Option-cases image.layers) [
    | inl c ↦ absurd (no_statement (rw c at h))
    | inr (layers, c) ↦ first_verified-Attests layers st (rw c at h)
  ]

  module _ {A : Type 0} (visit : A → Statement → A × Bool) (P : A → Type 0)
      (step : (a : A) (st : Statement) → Attests codec digest st → P a → P (visit a st).0) where
    visit_one-keeps :
        (repo referrer : Bytes) (a : A) (r : Result StatementError Statement)
        → statement codec place reg repo referrer digest ≡ r
        → P a
        → P (visit_one visit a r).0
    unfolding visit_one statement
    visit_one-keeps repo referrer a (err e) h p = p
    visit_one-keeps repo referrer a (ok st) h p =
        step a st (statement_in-Attests (reg.image repo referrer) st h) p

    -- what holds at the start and is kept by visiting a verified statement holds in the end
    visit_all-keeps :
        (repo : Repository) (referrers : List Bytes) (a : A)
        → P a
        → P (visit_all codec place reg visit repo digest referrers a)
    unfolding visit_all
    visit_all-keeps repo [] a p = p
    visit_all-keeps repo (r ∷ referrers) a p =
        let seen = visit_one visit a (statement codec place reg repo r digest) in
        let now : P seen.0 =
          visit_one-keeps repo r a (statement codec place reg repo r digest) refl p in
        elim (Bool-cases seen.1) [
          | inl stop ↦ rw stop now
          | inr go ↦ rw go (visit_all-keeps repo referrers seen.0 now)
        ]

    each_statement-keeps :
        (repo : Repository) (a b : A)
        → P a
        → each_statement codec place reg visit repo digest a ≡ ok b
        → P b
    unfolding each_statement
    each_statement-keeps repo a b p h =
        let (index, _, h') =
          >>=-eq-ok (or_fail no_referrers (reg.referrers repo digest))
            (λ index. or_fail bad_referrers index >>= λ referrers.
              ok (visit_all codec place reg visit repo digest referrers a))
            h in
        let (referrers, _, h'') =
          >>=-eq-ok (or_fail bad_referrers index)
            (λ referrers. ok (visit_all codec place reg visit repo digest referrers a)) h' in
        subst P (ok-injective h'') (visit_all-keeps repo referrers a p)

  -- a predicate that is found is one of a verified statement of the kind
  abbrev FromKind : Bytes → Option Bytes → Type 0
  FromKind want found =
      (p : Bytes)
      → found ≡ some p
      → (st : Statement) × Attests codec digest st × (st.kind ≡ want) × (st.predicate ≡ p)

  take_kind-FromKind :
      (want : Bytes) (found : Option Bytes) (st : Statement)
      → Attests codec digest st
      → FromKind want found
      → FromKind want (take_kind want found st).0
  unfolding take_kind
  take_kind-FromKind want found st a h = elim (Bool-cases (str_eq st.kind want)) [
    | inl same ↦ rw same (λ p e. (st, a, str_eq_sound st.kind want same, some_eq e))
    | inr other ↦ rw other h
  ]

  found_kind-eq : (found : Option Bytes) (p : Bytes) → found_kind found ≡ ok p → found ≡ some p
  unfolding found_kind
  found_kind-eq none p h = cc
  found_kind-eq (some q) p h = ap some (ok-injective h)

  pub predicate-Attests :
      (repo : Repository) (want p : Bytes)
      → predicate codec place reg repo digest want ≡ ok p
      → (st : Statement) × Attests codec digest st × (st.kind ≡ want) × (st.predicate ≡ p)
  unfolding predicate
  predicate-Attests repo want p h =
      let (found, e, h') =
        >>=-eq-ok (each_statement codec place reg (take_kind want) repo digest none) found_kind h in
      each_statement-keeps (take_kind want) (FromKind want) (take_kind-FromKind want) repo none
        found (λ q k. absurd (none_some k)) e p (found_kind-eq found p h')

  pub predicates-Attests :
      (repo : Repository) (found : List Statement)
      → predicates codec place reg repo digest ≡ ok found
      → All (Attests codec digest) found
  unfolding predicates collect
  predicates-Attests repo found h =
      each_statement-keeps collect (All (Attests codec digest))
        (λ sts st a all. All-append (Attests codec digest) sts (st ∷ []) all (a, tt)) repo [] found
        tt h
