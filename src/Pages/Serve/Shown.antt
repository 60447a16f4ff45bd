-- ===== src/Pages/Serve/Shown.antt =====
-- What the page of a scan is answered with.
use mathlib.Core.Path.{subst}
use distroless.Prelude.{
  Bool, true, false, Option, none, some, [], ◌++◌, ◌≡◌, refl, Bool-cases, ◌⊎◌, inl, inr,
}
use distroless.Strings.{Bytes, codes, str_eq}
use distroless.Proxy.Http.{
  ResponseWriter, get, set, del, set_header, del_header, write_header, write, first_status,
  http_error, fresh,
}
use distroless.Scans.Report.{Scan, new_report}
use distroless.Pages.{valid_ref, pull_name}
use distroless.Pages.Serve.{
  Page, vulnerabilities_page, Web, PageRequest, view_vulnerabilities, cache_control, text_in,
  quoted, cached_for, with_validator, revalidated, write_rendered, write_page, bad_reference,
  not_published,
}
use distroless.Pages.Serve.Download.{by_kind, cached_for-by_kind, Refused, Refused-http_error}
use distroless.Pages.Serve.Views.{
  PageSource, image_of, page_links, scan_fingerprint, unless_good, send_page,
  answer_vulnerabilities, serve_vulnerabilities,
}

-- the page that a template gave, or the status 500 where it gave none
abbrev pub Rendered : Option Bytes → ResponseWriter → Type 0
Rendered none w = w.status ≡ some 500
Rendered (some page) w = (w.status ≡ some 200) × (w.body ≡ page)

abbrev pub Shown : Bytes → Option Bytes → ResponseWriter → Type 0
Shown policy page w =
    (get cache_control w.header ≡ policy)
    × (((w.status ≡ some 304) × (w.body ≡ [])) ⊎ Rendered page w)

abbrev pub page_policy : Bytes → Bytes
page_policy ref = by_kind ref (codes "public, max-age=86400") (codes "public, max-age=300")

-- the policy that the code chooses
abbrev sent_policy : Bytes → Bytes
sent_policy ref = cached_for ref (codes "public, max-age=86400") (codes "public, max-age=300")

sent_policy_lem : (ref : Bytes) → valid_ref ref ≡ true → sent_policy ref ≡ page_policy ref
sent_policy_lem ref =
    cached_for-by_kind ref (codes "public, max-age=86400") (codes "public, max-age=300")

-- what the answer is, by what the reference is and which scan is published; `page` is what the
-- template makes of the scan
abbrev pub ScanShown :
    Bool → Option (Bytes × Scan) → (Bytes → Scan → Option Bytes) → Bytes → ResponseWriter → Type 0
ScanShown false published page policy w = Refused 400 w
ScanShown true none page policy w = Refused 404 w
ScanShown true (some (digest, scan)) page policy w = Shown policy (page digest scan) w

module _ (policy validator : Bytes) where
  Shown-write_rendered :
      (page : Option Bytes)
      → Shown policy page (write_rendered page (with_validator validator policy fresh))
  unfolding write_rendered with_validator http_error write write_header set_header del_header get
      set del first_status fresh str_eq
  Shown-write_rendered none = (refl, inr refl)
  Shown-write_rendered (some page) = (refl, inr (refl, refl))

module _ (web : Web) (r : PageRequest) where
  Shown-send_page :
      (validator : Bytes) (page : Page)
      → Shown (sent_policy r.ref) (web.render page) (send_page web r validator page fresh)
  unfolding send_page unless_good revalidated write_page with_validator write_header set_header get
      set del first_status fresh str_eq
  Shown-send_page validator page = elim (Bool-cases (text_in r.if_none_match (quoted validator))) [
    | inl good ↦ rw good (refl, inl (refl, refl))
    | inr stale ↦ rw stale (Shown-write_rendered (sent_policy r.ref) validator (web.render page))
  ]

  module _ (source : PageSource) (mirror : Bytes) where
    -- the page of a scan
    abbrev pub scan_page : Bytes → Scan → Page
    scan_page digest scan =
        vulnerabilities_page (new_report (image_of web source mirror r) digest r.arch scan)
          (page_links web source mirror r digest view_vulnerabilities)

    ScanShown-answer_vulnerabilities :
        (published : Option (Bytes × Scan))
        → valid_ref r.ref ≡ true
        → ScanShown true published
            (λ digest scan. web.render (scan_page digest scan))
            (page_policy r.ref)
            (answer_vulnerabilities web source mirror r published fresh)
    unfolding answer_vulnerabilities not_published
    ScanShown-answer_vulnerabilities none valid =
        Refused-http_error
          (codes "no "
            ++ codes "vulnerability scan"
            ++ codes " published for "
            ++ pull_name mirror r.family r.ref)
          404
    ScanShown-answer_vulnerabilities (some (digest, scan)) valid =
        let validator =
          digest
          ++ codes "-"
          ++ (new_report (image_of web source mirror r) digest r.arch scan).arch
          ++ codes "-"
          ++ scan_fingerprint web scan in
        subst
          (λ policy.
            Shown policy (web.render (scan_page digest scan))
              (send_page web r validator (scan_page digest scan) fresh))
          (sent_policy_lem r.ref valid) (Shown-send_page validator (scan_page digest scan))

    -- An image without a scan is never shown as a clean one: where no scan is published, the page of its
    -- vulnerabilities is a 404 that no cache is told to keep, and 400 where the reference is none. Else
    -- it is the page of that scan, or 304 and no body; or the status 500 where the template fails, with
    -- the cache policy of the page, a day for a reference that starts with sha256: and five minutes for
    -- a tag.
    pub serve_vulnerabilities-ScanShown :
        ScanShown
          (valid_ref r.ref)
          (source.scan r.family r.ref)
          (λ digest scan. web.render (scan_page digest scan))
          (page_policy r.ref)
          (serve_vulnerabilities web source mirror r fresh)
    unfolding serve_vulnerabilities bad_reference
    serve_vulnerabilities-ScanShown = elim (Bool-cases (valid_ref r.ref)) [
      | inl valid ↦ rw valid (ScanShown-answer_vulnerabilities (source.scan r.family r.ref) valid)
      | inr other ↦ rw other (Refused-http_error (codes "not an image reference: " ++ r.ref) 400)
    ]
