-- ===== src/History.antt =====
-- `NewHistory` of web/internal/directory/history.go: the scans of a tag over time. A time is a number,
-- the zero time 0. The chart is left out, and so are the fields of the links and the logo.
pub mod Counts
pub mod Handler
pub mod Revisited
mod Tests
use distroless.Prelude.{
  ℕ, zero, suc, ◌+◌, Bool, true, false, ◌&&◌, not, List, [], ◌∷◌, ◌++◌, if◌then◌else◌, ltb, ◌==◌,
  length, map, sort_by, ℤ, pos, negsuc, Option, none, some, take,
}
use distroless.Prelude.Dict.{insert}
use distroless.Strings.{Bytes, compare_nat, cut_first}
use distroless.Strings.Order.{bytes_eq}
use distroless.Pages.{short_digest}
use distroless.Scans.Arch.{architectures, resolve_arch}
use distroless.Scans.Severity.{critical, high, medium, low, negligible}
use distroless.Scans.Report.{Finding, Scan, SeverityCount, Report, new_report}

pub record Era : Type 0 where
  pub digest : Bytes
  pub from : ℕ
  pub scans : List Scan

-- `short` is what a table cell shows of the digest
pub record Point : Type 0 where
  pub digest : Bytes
  pub short : Bytes
  pub finished : ℕ
  pub database : ℕ
  pub counts : List ℕ
  pub open_count : ℕ
  pub suppressed_count : ℕ

pub record History : Type 0 where
  pub image : Bytes
  pub digest : Bytes
  pub tag : Bytes
  pub arch : Bytes
  pub architectures : List Bytes
  pub points : List Point
  pub from : ℕ
  pub to : ℕ
  pub builds : ℕ
  pub ledger : Bool

unfoldable pub band : ℕ → ℕ
band severity =
    if severity == critical
    then 0
    else if severity == high
    then 1
    else if severity == medium
    then 2
    else if severity == low
    then 3
    else if severity == negligible
    then 4
    else 5

abbrev pub no_counts : List ℕ
no_counts = 0 ∷ 0 ∷ 0 ∷ 0 ∷ 0 ∷ 0 ∷ []

-- `counts[i] += n`
unfoldable pub add_at : ℕ → ℕ → List ℕ → List ℕ
add_at i n [] = []
add_at zero n (c ∷ counts) = (c + n) ∷ counts
add_at (suc i) n (c ∷ counts) = c ∷ add_at i n counts

unfoldable pub band_counts : List SeverityCount → List ℕ → List ℕ
band_counts [] counts = counts
band_counts (c ∷ summary) counts = band_counts summary (add_at (band c.severity) c.count counts)

-- unknown beginnings last
unfoldable pub compare_eras : Era → Era → ℤ
compare_eras a b =
    if a.from == 0 && b.from == 0
    then pos 0
    else if a.from == 0
    then pos 1
    else if b.from == 0
    then negsuc 0
    else compare_nat a.from b.from

unfoldable pub point_of : Bytes → Scan → Report → Point
point_of digest scan report = record {
  digest = digest;
  short = short_digest digest;
  finished = scan.finished;
  database = scan.database;
  counts = band_counts report.summary no_counts;
  open_count = report.open_count;
  suppressed_count = report.suppressed_count;
}

-- when the next era begins, 0 if that is unknown or there is none
unfoldable pub until_of : List Era → ℕ
until_of [] = 0
until_of (e ∷ eras) = e.from

-- `!until.IsZero() && !finished.Before(until)`
unfoldable pub is_past : ℕ → ℕ → Bool
is_past until finished = not (until == 0) && not (ltb finished until)

unfoldable pub era_points : Bytes → Bytes → ℕ → Bytes → List Scan → List Point
era_points image arch until digest [] = []
era_points image arch until digest (scan ∷ scans) =
    let rest = era_points image arch until digest scans in
    if is_past until scan.finished
    then rest
    else point_of digest scan (new_report image digest arch scan) ∷ rest

unfoldable pub points_of : Bytes → Bytes → List Era → List Point
points_of image arch [] = []
points_of image arch (e ∷ eras) =
    era_points image arch (until_of eras) e.digest e.scans ++ points_of image arch eras

unfoldable pub findings_of : List Scan → List Finding
findings_of [] = []
findings_of (scan ∷ scans) = scan.findings ++ findings_of scans

unfoldable pub scans_of : List Era → List Scan
scans_of [] = []
scans_of (e ∷ eras) = e.scans ++ scans_of eras

unfoldable pub compare_points : Point → Point → ℤ
compare_points a b = compare_nat a.finished b.finished

-- the keys of the map `builds`
unfoldable pub builds_of : List Point → List (Bytes × Bool)
builds_of [] = []
builds_of (p ∷ points) = insert p.digest true (builds_of points)

unfoldable pub first_time : List Point → ℕ
first_time [] = 0
first_time (p ∷ points) = p.finished

unfoldable pub last_time : List Point → ℕ
last_time [] = 0
last_time (p ∷ []) = p.finished
last_time (p ∷ q ∷ points) = last_time (q ∷ points)

unfoldable pub history_on : Bytes → Bytes → Bytes → List Bytes → List Point → History
history_on image digest arch available points = record {
  image = image;
  digest = digest;
  tag = [];
  arch = arch;
  architectures = available;
  points = sort_by compare_points points;
  from = first_time (sort_by compare_points points);
  to = last_time (sort_by compare_points points);
  builds = length (builds_of points);
  ledger = false;
}

abbrev pub ordered : List Era → List Era
ordered = sort_by compare_eras

-- every architecture that a scan covers
abbrev pub eras_architectures : List Era → List Bytes
eras_architectures eras =
    architectures (λ (f : Finding). f.arch) (findings_of (scans_of (ordered eras)))

abbrev pub eras_arch : Bytes → List Era → Bytes
eras_arch arch eras = resolve_arch arch (eras_architectures eras)

unfoldable pub new_history : Bytes → Bytes → Bytes → List Era → History
new_history image digest arch eras =
    history_on image digest (eras_arch arch eras) (eras_architectures eras)
      (points_of image (eras_arch arch eras) (ordered eras))
