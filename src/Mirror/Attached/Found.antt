-- ===== src/Mirror/Attached/Found.antt =====
-- An unreadable or unverified referrer hides nothing that stands behind it.
use distroless.Prelude.{
  Option, none, some, List, [], ◌∷◌, ◌++◌, ◌≡◌, refl, sym, ap, ◌∙◌, if◌then◌else◌, Result, ok, err,
  Bool-cases, inl, inr, append_assoc, append-nil,
}
use distroless.Strings.{Bytes, str_eq}
use distroless.Mirror.Record.{Statement, Codec}
use distroless.Mirror.Attached.{
  Registry, Repository, Place, StatementError, statement, visit_one, visit_all, each_statement,
  take_kind, collect, found_kind, predicate, predicates, or_fail, of_kind,
}

-- the statement, where the referrer gives one
abbrev given : Result StatementError Statement → List Statement
given (err e) = []
given (ok st) = st ∷ []

abbrev pub first_predicate : List Statement → Option Bytes
first_predicate [] = none
first_predicate (st ∷ sts) = some st.predicate

module _ (codec : Codec) (place : Place) (reg : Registry) (repo : Repository) (digest : Bytes) where
  -- the statements that the referrers give, in their order
  abbrev pub statements : List Bytes → List Statement
  statements [] = []
  statements (r ∷ referrers) =
      given (statement codec place reg repo r digest) ++ statements referrers

  visit_all-collect :
      (referrers : List Bytes) (found : List Statement)
      → visit_all codec place reg collect repo digest referrers found
        ≡ found ++ statements referrers
  unfolding visit_all visit_one collect
  visit_all-collect [] found = sym (append-nil found)
  visit_all-collect (r ∷ referrers) found =
      by_statement (statement codec place reg repo r digest)
        (λ more. visit_all-collect referrers more)
    where
      by_statement :
          (o : Result StatementError Statement)
          → ((more : List Statement)
              → visit_all codec place reg collect repo digest referrers more
                ≡ more ++ statements referrers)
          → (if (visit_one collect found o).1
              then (visit_one collect found o).0
              else visit_all codec place reg collect repo digest referrers
                  (visit_one collect found o).0)
            ≡ found ++ (given o ++ statements referrers)
      by_statement (err e) rest = rest found
      by_statement (ok st) rest =
          rest (found ++ st ∷ []) ∙ append_assoc found (st ∷ []) (statements referrers)

  visit_all-take_kind :
      (want : Bytes) (referrers : List Bytes)
      → visit_all codec place reg (take_kind want) repo digest referrers none
        ≡ first_predicate (of_kind want (statements referrers))
  unfolding visit_all visit_one take_kind of_kind
  visit_all-take_kind want [] = refl
  visit_all-take_kind want (r ∷ referrers) =
      by_statement (statement codec place reg repo r digest) (visit_all-take_kind want referrers)
    where
      by_statement :
          (o : Result StatementError Statement)
          → visit_all codec place reg (take_kind want) repo digest referrers none
            ≡ first_predicate (of_kind want (statements referrers))
          → (if (visit_one (take_kind want) none o).1
              then (visit_one (take_kind want) none o).0
              else visit_all codec place reg
                  (take_kind want)
                  repo
                  digest
                  referrers
                  (visit_one (take_kind want) none o).0)
            ≡ first_predicate (of_kind want (given o ++ statements referrers))
      by_statement (err e) rest = rest
      by_statement (ok st) rest = elim (Bool-cases (str_eq st.kind want)) [
        | inl same ↦ rw same refl
        | inr other ↦ rw other rest
      ]

  -- Where the referrers of a digest are listed, predicates returns the statements that they give,
  -- in their order, and predicate the first of its kind: a referrer that cannot be read or carries
  -- no verified statement is passed over, and hides none behind it.
  pub predicates-statements :
      (want : Bytes) (referrers : List Bytes)
      → reg.referrers repo digest ≡ some (some referrers)
      → (predicates codec place reg repo digest ≡ ok (statements referrers))
        × (predicate codec place reg repo digest want
            ≡ found_kind (first_predicate (of_kind want (statements referrers))))
  unfolding predicates predicate each_statement or_fail
  predicates-statements want referrers e = (
    rw e (ap ok (visit_all-collect referrers [])),
    rw e (ap found_kind (visit_all-take_kind want referrers)),
  )
