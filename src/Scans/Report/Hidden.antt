-- ===== src/Scans/Report/Hidden.antt =====
-- The key of a row does not tell a suppressed finding from an open one.
use distroless.Prelude.{true, some, List, [], ◌∷◌, ◌≡◌, refl, ap, ◌∙◌, sort_by, insert_by}
use distroless.Prelude.Dict.{lookup, insert}
use distroless.Strings.{Bytes}
use distroless.Strings.Laws.{str_eq_refl}
use distroless.Strings.Order.{bytes_eq}
use distroless.Scans.Arch.{belongs_to}
use distroless.Scans.Report.{
  Suppression, Finding, Scan, row_key, row_of, with_package, add_package, fold_row, fold_finding,
  fold_findings, no_rows, tidy_row, rows_for, tally_row, tally_rows, no_tally, new_report,
  report_on, shown_arch,
}

fold_two :
    (arch : Bytes) (f g : Finding)
    → belongs_to f.arch arch ≡ true
    → belongs_to g.arch arch ≡ true
    → row_key (row_of f) ≡ row_key (row_of g)
    → (fold_findings arch (f ∷ g ∷ []) no_rows).rows ≡ with_package g.package_name (row_of f) ∷ []
unfolding fold_findings fold_finding fold_row add_package lookup insert
fold_two arch f g mine yours e = rw (mine, yours, e, str_eq_refl (row_key (row_of g))) refl

tally-two :
    (arch : Bytes) (f g : Finding) (s : Suppression)
    → belongs_to f.arch arch ≡ true
    → belongs_to g.arch arch ≡ true
    → row_key (row_of f) ≡ row_key (row_of g)
    → f.suppressed ≡ some s
    → (tally_rows (rows_for arch (f ∷ g ∷ [])) no_tally).open_count ≡ 0
unfolding rows_for sort_by insert_by tidy_row with_package row_of tally_rows tally_row
tally-two arch f g s mine yours e set = rw (fold_two arch f g mine yours e, set) refl

-- Two findings that both belong to the architecture shown and agree in their key, the first one
-- suppressed: the report of such a scan has no open row, even if the second finding stands.
pub new_report-hidden :
    (image digest arch : Bytes) (scan : Scan) (f g : Finding) (s : Suppression)
    → scan.findings ≡ f ∷ g ∷ []
    → belongs_to f.arch (shown_arch arch scan) ≡ true
    → belongs_to g.arch (shown_arch arch scan) ≡ true
    → row_key (row_of f) ≡ row_key (row_of g)
    → f.suppressed ≡ some s
    → (new_report image digest arch scan).open_count ≡ 0
unfolding new_report report_on
new_report-hidden image digest arch scan f g s all mine yours e set =
    ap
      (λ (fs : List Finding). (tally_rows (rows_for (shown_arch arch scan) fs) no_tally).open_count)
      all
    ∙ tally-two (shown_arch arch scan) f g s mine yours e set
