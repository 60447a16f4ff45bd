-- ===== src/Mirror/Vex/Silenced.antt =====
-- Which findings a VEX document silences.
use distroless.Prelude.{
  ◌&&◌, ◌||◌, Bool, Option, none, some, List, [], ◌∷◌, ◌≡◌, refl, sym, ap, ◌∙◌, if◌then◌else◌, map,
  Bool-cases, inl, inr,
}
use distroless.Prelude.Dict.{lookup, lookup-insert, or_else, or_else_assoc, or_else-none}
use distroless.Strings.{Bytes, codes, str_eq}
use distroless.Strings.Order.{bytes_eq}
use distroless.Scans.Report.{Suppression, Finding, Scan}
use distroless.Mirror.Vex.{
  VexStatement, OpenVex, ById, silences, suppression_of, add_statement, index_statements,
  set_suppressed, silence, suppress,
}

-- a statement that the vulnerability does not affect the image
abbrev pub settles : VexStatement → Bool
settles v = str_eq v.status (codes "not_affected") || str_eq v.status (codes "fixed")

-- what the last statement about a vulnerability that silences says
abbrev pub verdict : Bytes → OpenVex → Option Suppression
verdict id [] = none
verdict id (v ∷ vs) =
    or_else (verdict id vs)
      (if settles v && str_eq v.name id then some (suppression_of v) else none)

lookup-add_statement :
    (id : Bytes) (v : VexStatement) (by_id : ById)
    → lookup id (add_statement v by_id)
      ≡ or_else
          (if settles v && str_eq v.name id then some (suppression_of v) else none)
          (lookup id by_id)
unfolding add_statement silences
lookup-add_statement id v by_id = elim (Bool-cases (settles v)) [
  | inl quiet ↦ elim (Bool-cases (str_eq v.name id)) [
    | inl same ↦ rw (quiet, same, lookup-insert v.name id (suppression_of v) by_id, same) refl
    | inr other ↦ rw (quiet, other, lookup-insert v.name id (suppression_of v) by_id, other) refl
  ]
  | inr loud ↦ rw loud refl
]

lookup-index_statements :
    (id : Bytes) (vs : OpenVex) (by_id : ById)
    → lookup id (index_statements vs by_id) ≡ or_else (verdict id vs) (lookup id by_id)
unfolding index_statements
lookup-index_statements id [] by_id = refl
lookup-index_statements id (v ∷ vs) by_id =
    lookup-index_statements id vs (add_statement v by_id)
    ∙ ap (or_else (verdict id vs)) (lookup-add_statement id v by_id)
    ∙ sym (
        or_else_assoc (verdict id vs)
          (if settles v && str_eq v.name id then some (suppression_of v) else none)
          (lookup id by_id))

-- In a scan that suppress returns, each finding is as it was, but for what the last statement about
-- its identifier of status not_affected or fixed says, where there is one.
pub suppress-verdict :
    (vex : OpenVex) (scan : Scan)
    → (suppress vex scan).findings
      ≡ map (λ (f : Finding). set_suppressed (verdict f.id vex) f) scan.findings
unfolding suppress silence lookup
suppress-verdict vex scan = by_findings scan.findings
  where
    by_findings :
        (fs : List Finding)
        → map (silence (index_statements vex [])) fs
          ≡ map (λ (f : Finding). set_suppressed (verdict f.id vex) f) fs
    by_findings [] = refl
    by_findings (f ∷ fs) =
        rw (lookup-index_statements f.id vex [], or_else-none (verdict f.id vex), by_findings fs)
          refl
