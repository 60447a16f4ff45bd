-- ===== src/Scans/Report/Rows.antt =====
-- No finding is lost and none is made up where the findings of a source package become one row.
pub mod Listed
use distroless.Prelude.{
  All, All-append, ℕ, zero, suc, ◌+◌, ◌<◌, Bool, true, false, ◌&&◌, ◌||◌, Option, none, some, List,
  [], ◌∷◌, ◌++◌, ◌≡◌, refl, sym, ap, ◌∙◌, arith, if◌then◌else◌, length, get_elem?, map, any,
  any-append, any-sort_by, any-sort_slice, sort_slice, Bool-cases, inl, inr, some_eq,
}
use distroless.Prelude.Dict.{lookup, insert, lookup-insert}
use distroless.Strings.{Bytes, str_eq}
use distroless.Strings.Laws.{str_eq_sound, str_eq_refl}
use distroless.Strings.Order.{bytes_eq, text_lt}
use distroless.Scans.Arch.{belongs_to}
use distroless.Scans.Report.{
  Finding, FindingRow, Folding, row_key, row_of, with_package, add_package, fold_row, fold_finding,
  fold_findings, no_rows, is_only, tidy_packages, tidy_row, compare_rows, rows_for, new_report,
  Scan, report_on, shown_arch,
}
use distroless.Scans.Report.Rows.Listed.{
  has, lists, is_nil, is_finding, IsIndexed, Packed, any-lists-fold_findings, Packed-fold_findings,
}

-- a row of the report stands for package `p`: it lists the package, or no package and is itself of
-- the package
abbrev pub stands_for : Bytes → Bytes → FindingRow → Bool
stands_for k p r =
    str_eq (row_key r) k && (has p r.packages || is_nil r.packages && str_eq r.component p)

has-is_nil : (xs ys : List Bytes) → ((q : Bytes) → has q xs ≡ has q ys) → is_nil xs ≡ is_nil ys
has-is_nil [] [] h = refl
has-is_nil [] (y ∷ ys) h = ground (arith, h y, str_eq_refl y)
has-is_nil (x ∷ xs) [] h = ground (arith, h x, str_eq_refl x)
has-is_nil (x ∷ xs) (y ∷ ys) h = refl

stands_for-tidy_packages :
    (component p : Bytes) (ps : List Bytes)
    → is_nil ps ≡ false
    → (has p (tidy_packages component ps)
        || is_nil (tidy_packages component ps) && str_eq component p)
      ≡ has p ps
unfolding tidy_packages is_only
stands_for-tidy_packages component p [] h = cc
stands_for-tidy_packages component p (x ∷ []) h = ground (arith, bytes_eq.beq_iff x component)
stands_for-tidy_packages component p (x ∷ y ∷ ps) h = ground arith

stands_for-tidy_row :
    (k p : Bytes) (r : FindingRow)
    → is_nil r.packages ≡ false
    → stands_for k p (tidy_row r) ≡ lists k p r
unfolding tidy_row row_key
stands_for-tidy_row k p r h =
    let kept : (q : Bytes) → has q (sort_slice text_lt r.packages) ≡ has q r.packages =
      λ q. any-sort_slice (λ (x : Bytes). str_eq x q) text_lt r.packages in
    let some_left = has-is_nil (sort_slice text_lt r.packages) r.packages kept ∙ h in
    ap (λ (b : Bool). str_eq (row_key r) k && b)
      (stands_for-tidy_packages r.component p (sort_slice text_lt r.packages) some_left ∙ kept p)

any-tidy_row :
    (k p : Bytes) (rows : List FindingRow)
    → Packed rows
    → any (stands_for k p) (map tidy_row rows) ≡ any (lists k p) rows
any-tidy_row k p [] h = refl
any-tidy_row k p (r ∷ rows) h = rw (stands_for-tidy_row k p r h.0, any-tidy_row k p rows h.1) refl

pub any-rows_for :
    (arch : Bytes) (findings : List Finding) (k p : Bytes)
    → any (stands_for k p) (rows_for arch findings) ≡ any (is_finding arch k p) findings
unfolding rows_for lookup
any-rows_for arch findings k p =
    let rows = (fold_findings arch findings no_rows).rows in
    any-sort_by (stands_for k p) compare_rows (map tidy_row rows)
    ∙ any-tidy_row k p rows (Packed-fold_findings arch findings no_rows tt)
    ∙ any-lists-fold_findings arch k p findings no_rows no_index
  where
    no_index : IsIndexed no_rows
    no_index k i h = cc

-- A row of the report has a given key and stands for a given package exactly if a finding of the
-- scan, for the architecture that is shown, has the key and the package.
pub new_report-stands_for :
    (image digest arch : Bytes) (scan : Scan) (k p : Bytes)
    → any (stands_for k p) (new_report image digest arch scan).rows
      ≡ any (is_finding (shown_arch arch scan) k p) scan.findings
unfolding new_report report_on
new_report-stands_for image digest arch scan k p =
    any-rows_for (shown_arch arch scan) scan.findings k p
