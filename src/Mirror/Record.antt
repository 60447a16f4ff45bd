-- ===== src/Mirror/Record.antt =====
-- `decodeScan` and `newestScan` of web/internal/mirror/mirror.go: a vulnerability scan record as the
-- scan of a page. A time is a number, the zero time 0. `json.Unmarshal` of a record is the field
-- `decode_vuln`, and `time.Parse` the field `parse_time`.
pub mod Newest
use distroless.Prelude.{
  ℕ, ◌+◌, Bool, ◌||◌, ◌==◌, Option, none, some, List, [], ◌∷◌, ◌++◌, if◌then◌else◌, not, map, ltb,
}
use distroless.Strings.{Bytes, codes, str_eq, cut_first, cut_prefix}
use distroless.Strings.Space.{trim_space}
use distroless.Scans.Severity.{parse_severity}
use distroless.Scans.Report.{Finding, Scan}
use distroless.Mirror.Sbom.{Bom, Query, qualifier, ecosystem}
use distroless.Mirror.Vex.{OpenVex}

-- a verified in-toto statement
pub record Statement : Type 0 where
  pub kind : Bytes
  pub predicate : Bytes
  pub signed_at : ℕ

pub record GrypeMatch : Type 0 where
  pub id : Bytes
  pub data_source : Bytes
  pub severity : Bytes
  pub description : Bytes
  pub fix_versions : List Bytes
  pub fix_state : Bytes
  pub name : Bytes
  pub version : Bytes
  pub purl : Bytes
  pub upstreams : List Bytes

pub record GrypeDocument : Type 0 where
  pub matches : List GrypeMatch
  pub name : Bytes
  pub version : Bytes
  pub timestamp : Bytes
  pub built : Bytes

pub record VulnPredicate : Type 0 where
  pub uri : Bytes
  pub db_version : Bytes
  pub result : GrypeDocument
  pub finished_on : Bytes

-- an event of a ledger as `json.Unmarshal` reads it
pub record LedgerEvent : Type 0 where
  pub at : Bytes
  pub tag : Bytes
  pub digest : Bytes
  pub run : Bytes

-- The functions of packages that a client calls: the verifier, the decoders and the parsers.
pub record Codec : Type 0 where
  pub verify : Bytes → Bytes → Option Statement
  pub decode_bom : Bytes → Option Bom
  pub decode_vuln : Bytes → Option VulnPredicate
  pub decode_vex : Bytes → Option OpenVex
  pub decode_event : Bytes → Option LedgerEvent
  pub parse_query : Query
  pub parse_time : Bytes → Option ℕ

-- how often a byte occurs
unfoldable pub count_byte : ℕ → Bytes → ℕ
count_byte c [] = 0
count_byte c (x ∷ s) = (if x == c then 1 else 0) + count_byte c s

unfoldable pub page_at : Option (Bytes × Bytes) → Bytes
page_at none = []
page_at (some (repository, version)) =
    if str_eq version [] || not (count_byte b'/' repository == 1)
    then []
    else codes "https://github.com/" ++ (repository ++ (codes "/releases/tag/" ++ version))

unfoldable pub page_below : Option Bytes → Bytes
page_below none = []
page_below (some rest) = page_at (cut_first b'@' rest)

unfoldable pub release_page : Bytes → Bytes
release_page purl = page_below (cut_prefix purl (codes "pkg:github/"))

unfoldable pub upstream : List Bytes → Bytes
upstream [] = []
upstream (name ∷ names) = name

unfoldable pub scanner_name : Bytes → Bytes → Bytes
scanner_name name uri = if str_eq name [] then uri else name

-- the newest of the records so far, with the bytes it came from
abbrev pub ScanRecord : Type 0
ScanRecord = Scan × Bytes

unfoldable pub keep_newer : Scan → Bytes → Option ScanRecord → Option ScanRecord
keep_newer scan raw none = some (scan, raw)
keep_newer scan raw (some newest) =
    if ltb newest.0.finished scan.finished then some (scan, raw) else some newest

-- a record that does not decode is skipped
unfoldable pub keep_decoded : Option Scan → Bytes → Option ScanRecord → Option ScanRecord
keep_decoded none raw newest = newest
keep_decoded (some scan) raw newest = keep_newer scan raw newest

module _ (codec : Codec) where
  unfoldable pub first_time : List Bytes → ℕ
  first_time [] = 0
  first_time (candidate ∷ candidates) = elim (codec.parse_time candidate) [
    | none ↦ first_time candidates
    | some time ↦ time
  ]

  unfoldable pub finding_of : GrypeMatch → Finding
  finding_of m = record {
    id = m.id;
    severity = parse_severity m.severity;
    package_name = m.name;
    version = m.version;
    upstream = upstream m.upstreams;
    kind = ecosystem m.purl;
    arch = qualifier codec.parse_query m.purl (codes "arch");
    purl = m.purl;
    fixed_in = m.fix_versions;
    fix_state = m.fix_state;
    url = m.data_source;
    description = m.description;
    suppressed = none;
  }

  unfoldable pub scan_of : VulnPredicate → Scan
  scan_of r = record {
    scanner = scanner_name (trim_space (r.result.name ++ (codes " " ++ r.result.version))) r.uri;
    scanner_url = release_page r.uri;
    database = first_time (r.db_version ∷ r.result.built ∷ []);
    finished = first_time (r.finished_on ∷ r.result.timestamp ∷ []);
    findings = map finding_of r.result.matches;
  }

  unfoldable pub decoded_scan : Option VulnPredicate → Option Scan
  decoded_scan none = none
  decoded_scan (some r) = some (scan_of r)

  unfoldable pub decode_scan : Bytes → Option Scan
  decode_scan predicate = decoded_scan (codec.decode_vuln predicate)

  unfoldable pub newest_from : List Statement → Option ScanRecord → Option ScanRecord
  newest_from [] newest = newest
  newest_from (st ∷ statements) newest =
      newest_from statements (keep_decoded (decode_scan st.predicate) st.predicate newest)

  unfoldable pub newest_scan : List Statement → Option ScanRecord
  newest_scan statements = newest_from statements none
