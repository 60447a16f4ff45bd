-- ===== src/Scans/Report.antt =====
-- `NewReport` of web/internal/directory/scan.go. A map from the key of a row to its position is
-- an association list. The fields that the handler sets are left out.
pub mod Rows
pub mod Counts
pub mod Arches
pub mod Hidden
use distroless.Prelude.{
  ℕ, zero, suc, ◌+◌, Bool, true, false, ◌&&◌, not, Option, none, some, List, [], ◌∷◌, ◌++◌,
  if◌then◌else◌, ltb, length, map, sort_by, sort_slice, ℤ, pos, negsuc,
}
use distroless.Prelude.Dict.{lookup, insert}
use distroless.Strings.{Bytes, codes, str_eq, compare_text, compare_nat, cmp_or}
use distroless.Strings.Split.{join, join_commas}
use distroless.Strings.Order.{bytes_eq, text_lt}
use distroless.Scans.Arch.{belongs_to, architectures, resolve_arch}
use distroless.Scans.Severity.{scale, rank}

pub record Suppression : Type 0 where
  pub status : Bytes
  pub justification : Bytes
  pub impact : Bytes

pub record Finding : Type 0 where
  pub id : Bytes
  pub severity : ℕ
  pub package_name : Bytes
  pub version : Bytes
  pub upstream : Bytes
  pub kind : Bytes
  pub arch : Bytes
  pub purl : Bytes
  pub fixed_in : List Bytes
  pub fix_state : Bytes
  pub url : Bytes
  pub description : Bytes
  pub suppressed : Option Suppression

-- times are numbers
pub record Scan : Type 0 where
  pub scanner : Bytes
  pub scanner_url : Bytes
  pub database : ℕ
  pub finished : ℕ
  pub findings : List Finding

pub record FindingRow : Type 0 where
  pub finding : Finding
  pub component : Bytes
  pub packages : List Bytes
  pub fix : Bytes

pub record SeverityCount : Type 0 where
  pub severity : ℕ
  pub count : ℕ

pub record Report : Type 0 where
  pub image : Bytes
  pub digest : Bytes
  pub arch : Bytes
  pub architectures : List Bytes
  pub scanner : Bytes
  pub scanner_url : Bytes
  pub database : ℕ
  pub finished : ℕ
  pub rows : List FindingRow
  pub open_count : ℕ
  pub suppressed_count : ℕ
  pub summary : List SeverityCount

unfoldable pub row_key : FindingRow → Bytes
row_key r =
    join 0x1f (r.finding.id ∷ r.component ∷ r.finding.version ∷ r.finding.fix_state ∷ r.fix ∷ [])

-- `cmp.Or(finding.Upstream, finding.Package)`
unfoldable pub component_of : Finding → Bytes
component_of f = if str_eq f.upstream [] then f.package_name else f.upstream

unfoldable pub row_of : Finding → FindingRow
row_of f = record {
  finding = f;
  component = component_of f;
  packages = f.package_name ∷ [];
  fix = join_commas f.fixed_in;
}

-- `rows` and `index`
pub record Folding : Type 0 where
  pub rows : List FindingRow
  pub index : List (Bytes × ℕ)

unfoldable pub with_package : Bytes → FindingRow → FindingRow
with_package name r = record {
  finding = r.finding;
  component = r.component;
  packages = r.packages ++ name ∷ [];
  fix = r.fix;
}

unfoldable pub add_package : Bytes → ℕ → List FindingRow → List FindingRow
add_package name i [] = []
add_package name zero (r ∷ rows) = with_package name r ∷ rows
add_package name (suc i) (r ∷ rows) = r ∷ add_package name i rows

unfoldable pub fold_row : Finding → Option ℕ → Folding → Folding
fold_row f (some i) st = record { rows = add_package f.package_name i st.rows; index = st.index }
fold_row f none st = record {
  rows = st.rows ++ row_of f ∷ [];
  index = insert (row_key (row_of f)) (length st.rows) st.index;
}

unfoldable pub fold_finding : Bytes → Finding → Folding → Folding
fold_finding arch f st =
    if belongs_to f.arch arch then fold_row f (lookup (row_key (row_of f)) st.index) st else st

unfoldable pub fold_findings : Bytes → List Finding → Folding → Folding
fold_findings arch [] st = st
fold_findings arch (f ∷ fs) st = fold_findings arch fs (fold_finding arch f st)

abbrev pub no_rows : Folding
no_rows = record { rows = []; index = [] }

-- `slices.Equal(packages, []string{component})`
unfoldable pub is_only : Bytes → List Bytes → Bool
is_only component [] = false
is_only component (p ∷ []) = str_eq p component
is_only component (p ∷ q ∷ ps) = false

unfoldable pub tidy_packages : Bytes → List Bytes → List Bytes
tidy_packages component packages = if is_only component packages then [] else packages

unfoldable pub tidy_row : FindingRow → FindingRow
tidy_row r = record {
  finding = r.finding;
  component = r.component;
  packages = tidy_packages r.component (sort_slice text_lt r.packages);
  fix = r.fix;
}

abbrev pub is_set : Option Suppression → Bool
is_set none = false
is_set (some _) = true

abbrev pub is_suppressed : FindingRow → Bool
is_suppressed r = is_set r.finding.suppressed

unfoldable pub compare_suppressed : FindingRow → FindingRow → ℤ
compare_suppressed a b =
    if not (is_suppressed a) && is_suppressed b
    then negsuc 0
    else if is_suppressed a && not (is_suppressed b)
    then pos 1
    else pos 0

unfoldable pub compare_rows : FindingRow → FindingRow → ℤ
compare_rows a b = cmp_or (
    compare_suppressed a b
    ∷ compare_nat (rank a.finding.severity) (rank b.finding.severity)
    ∷ compare_text b.finding.id a.finding.id
    ∷ compare_text a.component b.component
    ∷ [])

unfoldable pub rows_for : Bytes → List Finding → List FindingRow
rows_for arch findings =
    sort_by compare_rows (map tidy_row (fold_findings arch findings no_rows).rows)

-- the numbers that the last loop counts
pub record Tally : Type 0 where
  pub open_count : ℕ
  pub suppressed_count : ℕ
  pub counts : List ℕ

unfoldable pub bump : ℕ → List ℕ → List ℕ
bump i [] = []
bump zero (n ∷ counts) = suc n ∷ counts
bump (suc i) (n ∷ counts) = n ∷ bump i counts

unfoldable pub tally_row : FindingRow → Tally → Tally
tally_row r t =
    if is_suppressed r
    then record {
      open_count = t.open_count;
      suppressed_count = suc t.suppressed_count;
      counts = t.counts;
    }
    else record {
      open_count = suc t.open_count;
      suppressed_count = t.suppressed_count;
      counts = bump (rank r.finding.severity) t.counts;
    }

unfoldable pub tally_rows : List FindingRow → Tally → Tally
tally_rows [] t = t
tally_rows (r ∷ rows) t = tally_rows rows (tally_row r t)

abbrev pub no_tally : Tally
no_tally = record { open_count = 0; suppressed_count = 0; counts = 0 ∷ 0 ∷ 0 ∷ 0 ∷ 0 ∷ 0 ∷ [] }

unfoldable pub summary_of : List ℕ → List ℕ → List SeverityCount
summary_of [] counts = []
summary_of (s ∷ levels) [] = []
summary_of (s ∷ levels) (n ∷ counts) =
    let rest = summary_of levels counts in
    if ltb 0 n then (record { severity = s; count = n }) ∷ rest else rest

unfoldable pub report_on :
    Bytes → Bytes → Bytes → List Bytes → Scan → List FindingRow → Tally → Report
report_on image digest arch available scan rows t = record {
  image = image;
  digest = digest;
  arch = arch;
  architectures = available;
  scanner = scan.scanner;
  scanner_url = scan.scanner_url;
  database = scan.database;
  finished = scan.finished;
  rows = rows;
  open_count = t.open_count;
  suppressed_count = t.suppressed_count;
  summary = summary_of scale t.counts;
}

abbrev pub scan_architectures : Scan → List Bytes
scan_architectures scan = architectures (λ (f : Finding). f.arch) scan.findings

-- the architecture that is shown
abbrev pub shown_arch : Bytes → Scan → Bytes
shown_arch arch scan = resolve_arch arch (scan_architectures scan)

unfoldable pub new_report : Bytes → Bytes → Bytes → Scan → Report
new_report image digest arch scan =
    report_on image digest (shown_arch arch scan) (scan_architectures scan) scan
      (rows_for (shown_arch arch scan) scan.findings)
      (tally_rows (rows_for (shown_arch arch scan) scan.findings) no_tally)
