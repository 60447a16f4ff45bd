-- ===== src/Mirror/Tests.antt =====
-- A registry with a component list, two scans and a VEX document, and runs of the theorems on it.
use distroless.Prelude.{
  ℕ, any, not, ◌&&◌, Option, none, some, List, [], ◌∷◌, ◌≡◌, ◌⊎◌, inl, inr, refl, if◌then◌else◌,
  map, ◌==◌, ok, some_eq, Bool-cases,
}
use distroless.Prelude.Dict.{lookup, insert, lookup-insert}
use distroless.Strings.{Bytes, codes, str_eq}
use distroless.Strings.Laws.{str_eq_sound}
use distroless.Strings.Split.{split}
use distroless.Strings.Order.{bytes_eq}
use distroless.Scans.Report.{Finding, Scan}
use distroless.Scans.Table.{Component}
use distroless.Tags.Grouping.{PublishedVersion}
use distroless.Mirror.Sbom.{Bom}
use distroless.Mirror.Vex.{OpenVex, suppress, set_suppressed}
use distroless.Mirror.Vex.Silenced.{verdict, suppress-verdict}
use distroless.Mirror.Record.{
  Statement, GrypeDocument, GrypeMatch, VulnPredicate, LedgerEvent, Codec, scan_of, newest_scan,
}
use distroless.Mirror.Record.Newest.{IsNewest, newest_scan-IsNewest}
use distroless.Mirror.Attached.{
  Layer, Image, HeadError, no_answer, Registry, Place, MirrorError, predicate, predicates,
  found_kind, of_kind, repository,
}
use distroless.Mirror.Attached.Found.{statements, first_predicate, predicates-statements}
use distroless.Mirror.Ledger.{Move, decode_ledger}
use distroless.Mirror.Ledger.Whole.{Each, texts, decode_ledger-Each}
use distroless.Mirror.Read.{cyclonedx, vuln, openvex}
use distroless.Mirror.Client.{Lru, Stores, Client, new_client, sbom, scan}
use distroless.Mirror.Client.Cached.{IsLru}
use distroless.Mirror.Client.Genuine.{
  AreLru, Reached, fresh, after_scan, sbom-GenuineComponents, scan-GenuineScan,
}
use distroless.Mirror.Client.Genuine.Reads.{GenuineComponents, GenuineScan}
use distroless.Mirror.Listing.{Build, versions, is_cosign_fallback}
use distroless.Mirror.Listing.Listed.{points, answers, named, versions-points}

-- a cache that evicts nothing
abbrev dict_lru : (E : Type 0) → Lru E
dict_lru E = record {
  Cache = List (Bytes × E);
  empty = [];
  find = λ c k. lookup k c;
  touch = λ c k. c;
  add = λ c k e. insert k e c;
}

dict_lru-IsLru : (E : Type 0) → IsLru (dict_lru E)
unfolding lookup
dict_lru-IsLru E = record {
  find_empty = λ k. refl;
  find_touch = λ c j k v e. e;
  find_add = λ c j k w v e. added c j k w v e;
}
  where
    added :
        (c : List (Bytes × E)) (j k : Bytes) (w v : E)
        → lookup k (insert j w c) ≡ some v
        → ((j ≡ k) × (w ≡ v)) ⊎ (lookup k c ≡ some v)
    added c j k w v e = elim (Bool-cases (str_eq j k)) [
      | inl same ↦ inl (str_eq_sound j k same, some_eq (rw (lookup-insert j k w c, same) at e))
      | inr other ↦ inr (rw (lookup-insert j k w c, other) at e)
    ]

abbrev stores : Stores
stores = record {
  components = dict_lru (List Component);
  scans = dict_lru Scan;
  series = dict_lru (List Scan);
  ledgers = dict_lru (List Move);
}

stores-AreLru : AreLru stores
stores-AreLru = record {
  components = dict_lru-IsLru (List Component);
  scans = dict_lru-IsLru Scan;
  series = dict_lru-IsLru (List Scan);
}

-- the first byte of a text tells what it attests
abbrev kind_at : Bytes → Bytes
kind_at [] = []
kind_at (b ∷ s) = if b == b'B' then cyclonedx else if b == b'V' then vuln else openvex

abbrev verified : Bytes → Option Statement
verified [] = none
verified (b ∷ s) = some (record { kind = kind_at (b ∷ s); predicate = b ∷ s; signed_at = 7 })

abbrev grype_match : GrypeMatch
grype_match = record {
  id = codes "CVE-1";
  data_source = [];
  severity = codes "High";
  description = [];
  fix_versions = [];
  fix_state = codes "fixed";
  name = codes "libc6";
  version = codes "2.41";
  purl = codes "pkg:deb/debian/libc6";
  upstreams = codes "glibc" ∷ [];
}

abbrev vuln_record : Bytes → VulnPredicate
vuln_record time = record {
  uri = codes "pkg:github/anchore/grype@v1";
  db_version = codes "1";
  result = record {
    matches = grype_match ∷ [];
    name = codes "grype";
    version = codes "1";
    timestamp = [];
    built = [];
  };
  finished_on = time;
}

abbrev vex : OpenVex
vex =
    record {
      name = codes "CVE-1";
      status = codes "fixed";
      justification = [];
      impact_statement = [];
    }
    ∷ []

abbrev codec : Codec
codec = record {
  verify = λ blob digest. verified blob;
  decode_bom = λ b. some (record { components = some [] });
  decode_vuln = λ b. some (vuln_record b);
  decode_vex = λ b. some vex;
  decode_event =
      λ b. some (record { at = b; tag = codes "latest"; digest = codes "sha256:a"; run = [] });
  parse_query = λ q k. none;
  parse_time = time_of;
}
  where
    time_of : Bytes → Option ℕ
    time_of [] = none
    time_of (b ∷ []) = none
    time_of (b ∷ d ∷ s) = some d

abbrev place : Place
place = record { registry = codes "r"; repository_prefix = [] }

abbrev layer : Bytes → Layer
layer text = record { media_type = none; size = 1; content = some text }

abbrev attached : Bytes → Image
attached text = record {
  layers = some (layer [] ∷ layer text ∷ []);
  config = none;
  manifest = some (3 ∷ 4 ∷ []);
}

abbrev reg : Registry
reg = record {
  new_repository = λ p. some p;
  head = λ r t. ok (codes "sha256:a");
  tags = λ r. some (codes "latest" ∷ codes "1.0" ∷ []);
  get = λ r d. none;
  image = λ r d. some (attached d);
  referrers = λ r d. some (some (codes "V1" ∷ [] ∷ codes "B" ∷ codes "V2" ∷ codes "X" ∷ []));
}

abbrev client : Client stores
client = new_client stores

abbrev family : Bytes
family = codes "nginx"

abbrev digest : Bytes
digest = codes "sha256:a"

-- the client after one request
abbrev used : Client stores
used = (scan stores codec place reg client family digest).1

used-Reached : Reached stores codec used
used-Reached = after_scan place reg family digest fresh

sbom_answers : (sbom stores codec place reg used family digest).0 ≡ ok (digest, [])
unfolding sbom distroless.Mirror.Client.sbom_at distroless.Mirror.Client.components_or_read
    distroless.Mirror.Client.keep_components distroless.Mirror.Read.read_components predicate
    found_kind distroless.Mirror.Attached.take_kind distroless.Mirror.Sbom.components
    distroless.Mirror.Sbom.components_of scan distroless.Mirror.Client.scan_at
    distroless.Mirror.Attached.resolve repository distroless.Mirror.Attached.or_fail
    distroless.Mirror.Attached.is_digest distroless.Mirror.Client.scan_or_read lookup new_client
    distroless.Mirror.Client.keep_scan distroless.Mirror.Read.read_scan predicates
    distroless.Mirror.Attached.each_statement distroless.Mirror.Read.newest_record newest_scan
    distroless.Mirror.Record.newest_from of_kind distroless.Mirror.Attached.visit_all
    distroless.Mirror.Attached.collect distroless.Mirror.Attached.first_verified
    distroless.Mirror.Attached.keep_signed distroless.Mirror.Attached.newest_signed
    distroless.Mirror.Attached.newest_statement distroless.Mirror.Attached.prefixed
    distroless.Mirror.Attached.resolved distroless.Mirror.Attached.statement
    distroless.Mirror.Attached.statement_in distroless.Mirror.Attached.visit_one
    distroless.Mirror.Read.apply_decoded distroless.Mirror.Read.apply_vex
    distroless.Mirror.Record.count_byte distroless.Mirror.Record.decode_scan
    distroless.Mirror.Record.decoded_scan distroless.Mirror.Record.finding_of
    distroless.Mirror.Record.first_time distroless.Mirror.Record.keep_decoded
    distroless.Mirror.Record.keep_newer distroless.Mirror.Record.page_at
    distroless.Mirror.Record.page_below distroless.Mirror.Record.release_page
    distroless.Mirror.Record.scanner_name distroless.Mirror.Record.upstream scan_of
    distroless.Mirror.Sbom.before_slash distroless.Mirror.Sbom.ecosystem
    distroless.Mirror.Sbom.ecosystem_of distroless.Mirror.Sbom.qualifier
    distroless.Mirror.Sbom.query_value distroless.Mirror.Vex.add_statement
    distroless.Mirror.Vex.index_statements distroless.Mirror.Vex.silence
    distroless.Mirror.Vex.silences suppress insert distroless.Scans.Severity.parse_severity
    distroless.Scans.Severity.severity_from distroless.Strings.Space.is_space
    distroless.Strings.Space.lower distroless.Strings.Space.to_lower
    distroless.Strings.Space.trim_left distroless.Strings.Space.trim_right
    distroless.Strings.Space.trim_space distroless.Strings.cut_first distroless.Strings.cut_prefix
    str_eq
sbom_answers = refl

components_example : GenuineComponents codec digest []
components_example =
    sbom-GenuineComponents stores codec stores-AreLru used place reg family digest digest []
      used-Reached sbom_answers

abbrev silenced : Bytes → Scan
silenced time = suppress vex (scan_of codec (vuln_record time))

scan_answers :
    (scan stores codec place reg used family digest).0 ≡ ok (digest, silenced (codes "V2"))
unfolding scan distroless.Mirror.Client.scan_at distroless.Mirror.Attached.resolve repository
    distroless.Mirror.Attached.or_fail distroless.Mirror.Attached.is_digest
    distroless.Mirror.Client.scan_or_read lookup new_client distroless.Mirror.Client.keep_scan
    distroless.Mirror.Read.read_scan predicates distroless.Mirror.Attached.each_statement
    distroless.Mirror.Read.newest_record newest_scan distroless.Mirror.Record.newest_from of_kind
    distroless.Mirror.Attached.visit_all distroless.Mirror.Attached.collect
    distroless.Mirror.Attached.first_verified distroless.Mirror.Attached.keep_signed
    distroless.Mirror.Attached.newest_signed distroless.Mirror.Attached.newest_statement
    distroless.Mirror.Attached.prefixed distroless.Mirror.Attached.resolved
    distroless.Mirror.Attached.statement distroless.Mirror.Attached.statement_in
    distroless.Mirror.Attached.visit_one distroless.Mirror.Read.apply_decoded
    distroless.Mirror.Read.apply_vex distroless.Mirror.Record.count_byte
    distroless.Mirror.Record.decode_scan distroless.Mirror.Record.decoded_scan
    distroless.Mirror.Record.finding_of distroless.Mirror.Record.first_time
    distroless.Mirror.Record.keep_decoded distroless.Mirror.Record.keep_newer
    distroless.Mirror.Record.page_at distroless.Mirror.Record.page_below
    distroless.Mirror.Record.release_page distroless.Mirror.Record.scanner_name
    distroless.Mirror.Record.upstream scan_of distroless.Mirror.Sbom.before_slash
    distroless.Mirror.Sbom.ecosystem distroless.Mirror.Sbom.ecosystem_of
    distroless.Mirror.Sbom.qualifier distroless.Mirror.Sbom.query_value
    distroless.Mirror.Vex.add_statement distroless.Mirror.Vex.index_statements
    distroless.Mirror.Vex.silence distroless.Mirror.Vex.silences suppress insert
    distroless.Scans.Severity.parse_severity distroless.Scans.Severity.severity_from
    distroless.Strings.Space.is_space distroless.Strings.Space.lower
    distroless.Strings.Space.to_lower distroless.Strings.Space.trim_left
    distroless.Strings.Space.trim_right distroless.Strings.Space.trim_space
    distroless.Strings.cut_first distroless.Strings.cut_prefix str_eq
scan_answers = refl

scan_example : GenuineScan codec digest (silenced (codes "V2"))
scan_example =
    scan-GenuineScan stores codec stores-AreLru used place reg family digest digest
      (silenced (codes "V2")) used-Reached scan_answers

verdict_example :
    (suppress vex (scan_of codec (vuln_record (codes "V1")))).findings
    ≡ map
        (λ (f : Finding). set_suppressed (verdict f.id vex) f)
        (scan_of codec (vuln_record (codes "V1"))).findings
verdict_example = suppress-verdict vex (scan_of codec (vuln_record (codes "V1")))

abbrev records : List Statement
records =
    record { kind = vuln; predicate = codes "V2"; signed_at = 1 }
    ∷ record { kind = vuln; predicate = codes "V1"; signed_at = 2 }
    ∷ []

last_run_example : IsNewest codec records (newest_scan codec records)
last_run_example = newest_scan-IsNewest codec records

abbrev referrers : List Bytes
referrers = codes "V1" ∷ [] ∷ codes "B" ∷ codes "V2" ∷ codes "X" ∷ []

passed_over_example :
    (predicates codec place reg family digest
      ≡ ok (statements codec place reg family digest referrers))
    × (predicate codec place reg family digest cyclonedx
        ≡ found_kind (
            first_predicate
              (of_kind cyclonedx (statements codec place reg family digest referrers))))
passed_over_example = predicates-statements codec place reg family digest cyclonedx referrers refl

abbrev ledger : Bytes
ledger = codes "V1\n\nV2\n"

abbrev move_at : ℕ → Bytes → Move
move_at at text = record { at = at; tag = codes "latest"; digest = codes "sha256:a"; run = [] }

ledger_reads :
    decode_ledger codec ledger ≡ ok (move_at 49 (codes "V1") ∷ move_at 50 (codes "V2") ∷ [])
unfolding decode_ledger distroless.Mirror.Ledger.decode_lines split str_eq
    distroless.Strings.Space.trim_space distroless.Strings.Space.trim_left
    distroless.Strings.Space.trim_right distroless.Strings.Space.is_space
    distroless.Mirror.Ledger.decode_line distroless.Mirror.Ledger.move_of
    distroless.Mirror.Ledger.checked_move distroless.Strings.has_prefix
ledger_reads = refl

ledger_example :
    Each codec (texts (split b'\n' ledger)) (move_at 49 (codes "V1") ∷ move_at 50 (codes "V2") ∷ [])
ledger_example =
    (decode_ledger-Each codec ledger (move_at 49 (codes "V1") ∷ move_at 50 (codes "V2") ∷ [])).0
      ledger_reads

finds_repository : repository codec place reg family ≡ ok (codes "r/nginx")
unfolding repository distroless.Mirror.Attached.or_fail distroless.Mirror.Attached.prefixed str_eq
finds_repository = refl

points_example :
    (vs : List PublishedVersion) × ((versions reg (dict_lru Build) codec place [] family).0 ≡ ok vs)
    × (any (points (codes "1.0") digest) vs ≡ (
        named (codes "1.0") (codes "latest" ∷ codes "1.0" ∷ [])
        && not (is_cosign_fallback (codes "1.0"))
        && answers digest (reg.head (codes "r/nginx") (codes "1.0"))))
points_example =
    versions-points reg (codes "r/nginx") (codes "1.0") digest (dict_lru Build) codec place []
      family (codes "latest" ∷ codes "1.0" ∷ []) finds_repository refl
