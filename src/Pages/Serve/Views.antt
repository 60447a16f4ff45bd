-- ===== src/Pages/Serve/Views.antt =====
-- `serveSBOM`, `serveVulnerabilities`, `serveHistory`, `serveVersions` and `mappingDigest` of
-- web/internal/directory/page.go, with the fingerprints of scan.go and history.go.
use distroless.Prelude.{
  ℕ, Bool, true, not, Option, none, some, List, [], ◌∷◌, ◌++◌, if◌then◌else◌, map, take,
}
use distroless.Strings.{Bytes, codes}
use distroless.Strings.Split.{join, join_commas}
use distroless.Proxy.Http.{ResponseWriter, write_header, http_error, decimal}
use distroless.Tags.Order.{Tag, Release}
use distroless.Tags.Grouping.{PublishedVersion, Versions, new_versions}
use distroless.Scans.Severity.{severity_string}
use distroless.Scans.Table.{Component, new_table}
use distroless.Scans.Report.{Suppression, Finding, Scan, new_report}
use distroless.History.{Era, Point, History, new_history}
use distroless.History.Handler.{Source, current_era, tag_eras}
use distroless.Pages.{is_digest, valid_ref, pull_name, resource_url}
use distroless.Pages.Serve.{
  Page, sbom_page, vulnerabilities_page, history_page, versions_page, Links, Web, PageRequest,
  view_sbom, view_vulnerabilities, view_history, text_in, quoted, with_validator, revalidated,
  bad_reference, not_published, write_page, links,
}

-- what the pages are made from, none where it cannot be read
pub record PageSource : Type 0 where
  pub sbom : Bytes → Bytes → Option (Bytes × List Component)
  pub scan : Bytes → Bytes → Option (Bytes × Scan)
  pub versions : Bytes → Option (List PublishedVersion)
  pub tags : Bytes → Option (List Bytes)
  pub series : Source

abbrev pub line_end : Bytes
line_end = codes "\n"

unfoldable pub suppression_text : Option Suppression → Bytes
suppression_text none = []
suppression_text (some s) = 0x1f ∷ s.status ++ 0x1f ∷ s.justification ++ 0x1f ∷ s.impact

unfoldable pub finding_text : Finding → Bytes
finding_text f =
    join 0x1f
      (f.id ∷ f.purl ∷ severity_string f.severity ∷ f.fix_state ∷ join_commas f.fixed_in ∷ [])
    ++ suppression_text f.suppressed
    ++ line_end

unfoldable pub findings_text : List Finding → Bytes
findings_text [] = []
findings_text (f ∷ findings) = finding_text f ++ findings_text findings

-- `%v` of an array of ints
unfoldable pub counts_text : List ℕ → Bytes
counts_text counts = codes "[" ++ join b' ' (map decimal counts) ++ codes "]"

unfoldable pub tags_text : Bytes → List Tag → Bytes
tags_text digest [] = []
tags_text digest (t ∷ tags) = t.name ++ codes " " ++ digest ++ line_end ++ tags_text digest tags

unfoldable pub mapping_text : List Release → Bytes
mapping_text [] = []
mapping_text (r ∷ releases) = tags_text r.digest r.tags ++ mapping_text releases

-- the eras of a page, and whether the ledger was read
unfoldable pub page_eras : Source → PageRequest → Bytes → List Scan → List Era × Bool
page_eras source r digest series =
    if is_digest r.ref
    then (current_era digest series ∷ [], true)
    else tag_eras source r.family r.ref digest series

unfoldable pub shown_as : Bytes → Bool → History → History
shown_as ref ledger h = record {
  image = h.image;
  digest = h.digest;
  tag = if is_digest ref then [] else ref;
  arch = h.arch;
  architectures = h.architectures;
  points = h.points;
  from = h.from;
  to = h.to;
  builds = h.builds;
  ledger = ledger;
}

module _ (web : Web) where
  unfoldable pub scan_fingerprint : Scan → Bytes
  scan_fingerprint s = take 16 (
      web.sum_hex (
        s.scanner
        ++ line_end
        ++ web.format_time s.database
        ++ line_end
        ++ web.format_time s.finished
        ++ line_end
        ++ findings_text s.findings))

  unfoldable pub point_text : Point → Bytes
  point_text p =
      join 0x1f (
        p.digest
        ∷ web.format_time p.finished
        ∷ counts_text p.counts
        ∷ decimal p.suppressed_count
        ∷ [])
      ++ line_end

  unfoldable pub points_text : List Point → Bytes
  points_text [] = []
  points_text (p ∷ points) = point_text p ++ points_text points

  unfoldable pub history_fingerprint : History → Bytes
  history_fingerprint h = take 16 (web.sum_hex (points_text h.points))

  unfoldable pub mapping_digest : List Release → Bytes
  mapping_digest releases = web.sum_hex (mapping_text releases)

  -- a page, unless the reader's copy is still good
  unfoldable pub unless_good : Page → ResponseWriter × Bool → ResponseWriter
  unless_good page (w, good) = if good then w else write_page web page w

  unfoldable pub send_page : PageRequest → Bytes → Page → ResponseWriter → ResponseWriter
  send_page r validator page w = unless_good page (revalidated r validator w)

  module _ (source : PageSource) (mirror : Bytes) where
    unfoldable pub with_url : PageRequest → Tag → Tag
    with_url r t = record {
      name = t.name;
      url = resource_url web.path_escape r.family t.name view_sbom;
    }

    unfoldable pub with_urls : PageRequest → Release → Release
    with_urls r release = record {
      digest = release.digest;
      tags = map (with_url r) release.tags;
      created = release.created;
      sizes = release.sizes;
      sbom = resource_url web.path_escape r.family release.digest view_sbom;
    }

    unfoldable pub linked_versions : PageRequest → Versions → Versions
    linked_versions r v = record {
      image = v.image;
      architectures = v.architectures;
      releases = map (with_urls r) v.releases;
    }

    unfoldable pub send_versions : PageRequest → Versions → ResponseWriter → ResponseWriter
    send_versions r versions w =
        let validator = mapping_digest versions.releases in
        let headed = with_validator validator (codes "public, max-age=60") w in
        if text_in r.if_none_match (quoted validator)
        then write_header 304 headed
        else write_page web (versions_page versions) headed

    unfoldable pub answer_versions :
        PageRequest → Option (List PublishedVersion) → ResponseWriter → ResponseWriter
    answer_versions r none w =
        http_error (codes "nothing published for " ++ mirror ++ codes "/" ++ r.family) 404 w
    answer_versions r (some published) w =
        send_versions r
          (linked_versions r (new_versions (mirror ++ codes "/" ++ r.family) published)) w

    unfoldable pub serve_versions : PageRequest → ResponseWriter → ResponseWriter
    serve_versions r w = answer_versions r (source.versions r.family) w

    abbrev pub image_of : PageRequest → Bytes
    image_of r = pull_name mirror r.family r.ref

    abbrev pub page_links : PageRequest → Bytes → Bytes → Links
    page_links r = links web (source.tags r.family) r

    unfoldable pub answer_sbom :
        PageRequest → Option (Bytes × List Component) → ResponseWriter → ResponseWriter
    answer_sbom r none w = not_published (codes "SBOM") (image_of r) w
    answer_sbom r (some (digest, components)) w =
        let table = new_table (image_of r) digest r.arch components in
        send_page r (digest ++ codes "-" ++ table.arch)
          (sbom_page table (page_links r digest view_sbom)) w

    unfoldable pub serve_sbom : PageRequest → ResponseWriter → ResponseWriter
    serve_sbom r w =
        if not (valid_ref r.ref)
        then bad_reference r.ref w
        else answer_sbom r (source.sbom r.family r.ref) w

    unfoldable pub answer_vulnerabilities :
        PageRequest → Option (Bytes × Scan) → ResponseWriter → ResponseWriter
    answer_vulnerabilities r none w = not_published (codes "vulnerability scan") (image_of r) w
    answer_vulnerabilities r (some (digest, scan)) w =
        let report = new_report (image_of r) digest r.arch scan in
        send_page r (digest ++ codes "-" ++ report.arch ++ codes "-" ++ scan_fingerprint scan)
          (vulnerabilities_page report (page_links r digest view_vulnerabilities)) w

    unfoldable pub serve_vulnerabilities : PageRequest → ResponseWriter → ResponseWriter
    serve_vulnerabilities r w =
        if not (valid_ref r.ref)
        then bad_reference r.ref w
        else answer_vulnerabilities r (source.scan r.family r.ref) w

    unfoldable pub answer_history :
        PageRequest → Option (Bytes × List Scan) → ResponseWriter → ResponseWriter
    answer_history r none w = not_published (codes "vulnerability scan") (image_of r) w
    answer_history r (some (digest, series)) w =
        let eras = page_eras source.series r digest series in
        let history = shown_as r.ref eras.1 (new_history (image_of r) digest r.arch eras.0) in
        send_page r
          (digest ++ codes "-" ++ history.arch ++ codes "-" ++ history_fingerprint history)
          (history_page history (page_links r digest view_history)) w

    unfoldable pub serve_history : PageRequest → ResponseWriter → ResponseWriter
    serve_history r w =
        if not (valid_ref r.ref)
        then bad_reference r.ref w
        else answer_history r (source.series.scans r.family r.ref) w
