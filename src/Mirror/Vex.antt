-- ===== src/Mirror/Vex.antt =====
-- `suppress` of web/internal/mirror/mirror.go: the findings that a VEX document silences.
pub mod Silenced
use distroless.Prelude.{Bool, ◌||◌, Option, none, some, List, [], ◌∷◌, if◌then◌else◌, map}
use distroless.Prelude.Dict.{lookup, insert}
use distroless.Strings.{Bytes, codes, str_eq}
use distroless.Strings.Order.{bytes_eq}
use distroless.Scans.Report.{Suppression, Finding, Scan}

pub record VexStatement : Type 0 where
  pub name : Bytes
  pub status : Bytes
  pub justification : Bytes
  pub impact_statement : Bytes

abbrev pub OpenVex : Type 0
OpenVex = List VexStatement

abbrev pub ById : Type 0
ById = List (Bytes × Suppression)

unfoldable pub silences : VexStatement → Bool
silences v = str_eq v.status (codes "not_affected") || str_eq v.status (codes "fixed")

abbrev pub suppression_of : VexStatement → Suppression
suppression_of v = record {
  status = v.status;
  justification = v.justification;
  impact = v.impact_statement;
}

unfoldable pub add_statement : VexStatement → ById → ById
add_statement v by_id = if silences v then insert v.name (suppression_of v) by_id else by_id

unfoldable pub index_statements : OpenVex → ById → ById
index_statements [] by_id = by_id
index_statements (v ∷ vs) by_id = index_statements vs (add_statement v by_id)

abbrev pub set_suppressed : Option Suppression → Finding → Finding
set_suppressed none f = f
set_suppressed (some s) f = record {
  id = f.id;
  severity = f.severity;
  package_name = f.package_name;
  version = f.version;
  upstream = f.upstream;
  kind = f.kind;
  arch = f.arch;
  purl = f.purl;
  fixed_in = f.fixed_in;
  fix_state = f.fix_state;
  url = f.url;
  description = f.description;
  suppressed = some s;
}

unfoldable pub silence : ById → Finding → Finding
silence by_id f = set_suppressed (lookup f.id by_id) f

-- the scan with the statements of a document that has been decoded
unfoldable pub suppress : OpenVex → Scan → Scan
suppress vex scan = record {
  scanner = scan.scanner;
  scanner_url = scan.scanner_url;
  database = scan.database;
  finished = scan.finished;
  findings = map (silence (index_statements vex [])) scan.findings;
}
