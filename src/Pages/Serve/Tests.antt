-- ===== src/Pages/Serve/Tests.antt =====
-- Runs of the pages.
use distroless.Prelude.{Option, none, some, []}
use distroless.Strings.{Bytes, codes}
use distroless.Proxy.Http.{fresh, set_header, write_header}
use distroless.Scans.Report.{Scan}
use distroless.Pages.{valid_ref}
use distroless.Pages.Serve.{Attested, Web, PageRequest, serve_document}
use distroless.Pages.Serve.Download.{Answered, document_policy, serve_document-Answered}
use distroless.Pages.Serve.Views.{PageSource, serve_vulnerabilities}
use distroless.Pages.Serve.Shown.{ScanShown, page_policy, serve_vulnerabilities-ScanShown}

-- no template can be rendered
abbrev broken_web : Web
broken_web = record {
  path_escape = λ s. s;
  query_escape = λ s. s;
  sum_hex = λ s. codes "0123456789abcdef";
  format_time = λ t. codes "now";
  render = λ page. none;
  redirect = λ to code w. write_header code (set_header (codes "Location") to w);
}

abbrev sbom_download : Attested
sbom_download = record {
  what = codes "SBOM";
  content_type = codes "application/vnd.cyclonedx+json";
  extension = codes ".cdx.json";
}

abbrev at_latest : PageRequest
at_latest = record {
  family = codes "nginx";
  ref = codes "latest";
  raw_query = [];
  arch = [];
  if_none_match = [];
}

abbrev published_document : Bytes → Bytes → Option (Bytes × Bytes)
published_document family ref = some (codes "sha256:aa", codes "{}")

latest-Answered :
    Answered
      (valid_ref (codes "latest"))
      (some (codes "sha256:aa", codes "{}"))
      (document_policy (codes "latest"))
      (serve_document broken_web published_document
        (codes "mirror.example")
        sbom_download
        at_latest
        fresh)
latest-Answered =
    serve_document-Answered broken_web (codes "mirror.example") sbom_download at_latest
      published_document

abbrev no_findings : Scan
no_findings = record {
  scanner = codes "grype";
  scanner_url = [];
  database = 1;
  finished = 2;
  findings = [];
}

abbrev scanned : PageSource
scanned = record {
  sbom = λ family ref. none;
  scan = λ family ref. some (codes "sha256:aa", no_findings);
  versions = λ family. none;
  tags = λ family. none;
  series = record { scans = λ family ref. none; moves = λ family. none };
}

latest-ScanShown :
    ScanShown
      (valid_ref (codes "latest"))
      (some (codes "sha256:aa", no_findings))
      (λ digest scan. none)
      (page_policy (codes "latest"))
      (serve_vulnerabilities broken_web scanned (codes "mirror.example") at_latest fresh)
latest-ScanShown =
    serve_vulnerabilities-ScanShown broken_web at_latest scanned (codes "mirror.example")
