-- ===== src/Scans/Tests.antt =====
-- A scan with a CVE of two packages of one source, and runs of the theorems on it.
use distroless.Prelude.{
  ℕ, ◌+◌, Bool, true, false, Option, none, some, List, [], ◌∷◌, ◌≡◌, ◌≢◌, refl, arith,
  if◌then◌else◌, any, ascending, length, total,
}
use distroless.Strings.{Bytes, codes, str_eq}
use distroless.Strings.Space.{to_lower, lower}
use distroless.Scans.Arch.{belongs_to}
use distroless.Scans.Severity.{rank, severity_string}
use distroless.Scans.Report.{Suppression, Finding, Scan, new_report, shown_arch, row_of, row_key}
use distroless.Scans.Report.Rows.{stands_for, new_report-stands_for}
use distroless.Scans.Report.Rows.Listed.{is_finding}
use distroless.Scans.Report.Counts.{counted, count_at, open_at, new_report-counts}
use distroless.Scans.Report.Arches.{new_report-some}
use distroless.Scans.Table.{Component, Row, new_table}
use distroless.Scans.Table.Kept.{new_table-total}
use distroless.Scans.Report.Hidden.{new_report-hidden}

abbrev not_reached : Suppression
not_reached = record { status = codes "not_affected"; justification = []; impact = [] }

abbrev glibc : Bytes → Option Suppression → Finding
glibc binary suppressed = record {
  id = codes "CVE-1";
  severity = 2;
  package_name = binary;
  version = codes "2.41";
  upstream = codes "glibc";
  kind = codes "deb";
  arch = codes "amd64";
  purl = [];
  fixed_in = codes "2.42" ∷ codes "2.43" ∷ [];
  fix_state = codes "fixed";
  url = [];
  description = [];
  suppressed = suppressed;
}

abbrev scan_of : List Finding → Scan
scan_of findings = record {
  scanner = codes "grype";
  scanner_url = [];
  database = 1;
  finished = 2;
  findings = findings;
}

abbrev libc6 : Finding
libc6 = glibc (codes "libc6") (some not_reached)

abbrev libc_bin : Finding
libc_bin = glibc (codes "libc-bin") none

abbrev scan : Scan
scan = scan_of (libc6 ∷ libc_bin ∷ [])

stands_example :
    any
      (stands_for (row_key (row_of libc6)) (codes "libc-bin"))
      (new_report (codes "i") (codes "d") (codes "arm64") scan).rows
    ≡ any
        (is_finding (shown_arch (codes "arm64") scan) (row_key (row_of libc6)) (codes "libc-bin"))
        scan.findings
stands_example =
    new_report-stands_for (codes "i") (codes "d") (codes "arm64") scan (row_key (row_of libc6))
      (codes "libc-bin")

found_some : scan.findings ≢ []
found_some h = cc

some_example : (new_report (codes "i") (codes "d") (codes "arm64") scan).rows ≢ []
some_example = new_report-some (codes "i") (codes "d") (codes "arm64") scan found_some

counts_of_scan_example :
    let report = new_report (codes "i") (codes "d") (codes "arm64") scan in
    (report.open_count + report.suppressed_count ≡ length report.rows)
    × (counted report.summary ≡ report.open_count)
    × (count_at 2 report.summary ≡ open_at (rank 2) report.rows)
counts_of_scan_example =
    new_report-counts (codes "i") (codes "d") (codes "arm64") scan 2 (omega arith)

same_label : to_lower (codes "HIGH") ≡ to_lower (severity_string 2)
unfolding to_lower lower severity_string
same_label = refl

shown_libc6 : belongs_to libc6.arch (shown_arch (codes "arm64") scan) ≡ true
unfolding belongs_to str_eq distroless.Scans.Arch.resolve_arch distroless.Prelude.Dict.contains
    distroless.Scans.Arch.architectures distroless.Tags.Grouping.compact
    distroless.Prelude.sort_slice distroless.Scans.Arch.found_architectures
    distroless.Scans.Arch.is_everywhere distroless.Strings.Order.text_lt
    distroless.Tags.Grouping.compact_after
shown_libc6 = refl

same_key : row_key (row_of libc6) ≡ row_key (row_of libc_bin)
unfolding row_of row_key distroless.Scans.Report.component_of str_eq
same_key = refl

hidden_example : (new_report (codes "i") (codes "d") (codes "arm64") scan).open_count ≡ 0
hidden_example =
    new_report-hidden (codes "i") (codes "d") (codes "arm64") scan libc6 libc_bin not_reached refl
      shown_libc6 shown_libc6 same_key refl

abbrev component : Bytes → Bytes → Component
component name arch = record {
  name = name;
  version = codes "1.0";
  license = [];
  kind = codes "deb";
  purl = [];
  arch = arch;
  cpe = [];
}

abbrev sbom : List Component
sbom =
    component (codes "zlib") (codes "amd64")
    ∷ component (codes "zlib") (codes "arm64")
    ∷ component (codes "tzdata") (codes "all")
    ∷ []

total_example :
    total (λ (r : Row). length r.component.name) (new_table (codes "i") (codes "d") [] sbom).rows
    ≡ total
        (λ (c : Component).
          if belongs_to c.arch (new_table (codes "i") (codes "d") [] sbom).arch
          then length c.name
          else 0)
        sbom
total_example = new_table-total (λ (c : Component). length c.name) (codes "i") (codes "d") [] sbom
